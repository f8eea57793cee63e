-- ===== src/Image/Loading.antt =====
-- `mktxlo_client_image_load`: the client's program is loaded and then patched.
use libtrustedlo.Prelude.{ℕ, ◌+◌, ◌%◌, ◌^◌, ◌≡◌, ◌∙◌, ◌≤◌, refl, ap, false, arith, some}
use libtrustedlo.Memory.{Memory}
use libtrustedlo.Memory.Copy.{inside, Apart}
use libtrustedlo.Bytes.Agreement.{Agree, read_le16-Agree, read_le32-Agree, read_le64-Agree}
use libtrustedlo.Platform.{no_error}
use libtrustedlo.Elf.{e_phoff, e_phnum}
use libtrustedlo.Elf.Load.{Request}
use libtrustedlo.Elf.Load.Safety.{contents}
use libtrustedlo.Elf.Load.Accept.{Loadable, load_elf-outside, load_elf-Loadable, load_elf-contents}
use libtrustedlo.Symb.{mktsymb_read}
use libtrustedlo.Image.{
  Region, client_image_elf, client_image_mktsymb, image_elf_size, payload_load,
  client_patch_symbols, client_image_load,
}
use libtrustedlo.Image.Patch.{Patches, status_of, patched, Untouched, Outside, patch_loop-Patches}

-- A loadable image is loaded: what the load leaves, in and around the region.
pub payload_loads :
    (fuel : ℕ) (r : Request) (m : Memory)
    → 2 ^ 16 ≤ fuel
    → 64 ≤ r.elf_size
    → Apart r.load_base r.load_size r.ehdr r.elf_size
    → Loadable m r
    → (g : Memory) × (payload_load fuel r m ≡ some (no_error, g))
      × ((q : ℕ) → inside r.load_base r.load_size q ≡ false → g q ≡ m q)
      × ((q : ℕ) → g q ≡ contents m r (r.ehdr + e_phoff m r.ehdr) (e_phnum m r.ehdr) 0 (m q) q)
unfolding payload_load
payload_loads fuel r m enough size apart l =
    let (g, run) = (load_elf-Loadable fuel r m enough size apart).1 l in
    let (b, g', run', outside) = load_elf-outside fuel r m enough size apart in
    let same : g' ≡ g = cc in
    (
      g,
      rw (run, payload_load) refl,
      rw same at outside,
      load_elf-contents fuel r m enough size apart g run,
    )

abbrev pub client_request : Memory → Region → ℕ → Request
client_request m region image = record {
  ehdr = client_image_elf m image;
  elf_size = image_elf_size m image;
  load_base = region.base;
  load_vaddr = region.base;
  load_size = region.size;
}

module _ (fuel : ℕ) (m : Memory) (region : Region) (image : ℕ) where
  -- A client image outside the region, with a loadable program and symbols in the region.
  pub record Client : Type 0 where
    pub header : Outside region image 40
    pub symbols : Outside region (client_image_mktsymb m image) 14
    pub size : 64 ≤ image_elf_size m image
    pub apart : Apart region.base region.size (client_image_elf m image) (image_elf_size m image)
    pub loadable : Loadable m (client_request m region image)
    pub plan :
        let header = mktsymb_read m (client_image_mktsymb m image) in
        Patches fuel m region (client_image_elf m image) header.symbol_cnt header.symbols

  -- What the program's segments put at `q`, and then the patches.
  abbrev pub client_byte : Client → ℕ → ℕ
  client_byte c q =
      let r = client_request m region image in
      patched fuel m region r.ehdr c.plan q
        (contents m r (r.ehdr + e_phoff m r.ehdr) (e_phnum m r.ehdr) 0 (m q) q)

  -- The image's headers are read again after the load.
  reread :
      (g : Memory) (c : Client)
      → Untouched region m g
      → (client_image_elf g image ≡ client_image_elf m image)
        × (client_image_mktsymb g image ≡ client_image_mktsymb m image)
        × (mktsymb_read g (client_image_mktsymb m image)
            ≡ mktsymb_read m (client_image_mktsymb m image))
  unfolding client_image_elf client_image_mktsymb mktsymb_read
  reread g c same =
      let head : Agree image 40 m g = λ q lo hi. same q (c.header q lo hi) in
      let p = client_image_mktsymb m image in
      let symb : Agree p 14 m g = λ q lo hi. same q (c.symbols q lo hi) in
      (
        ap (λ o. (image + o) % 2 ^ 64)
            (read_le64-Agree m g image 40 (image + 24) head (omega arith) (omega arith)),
        ap (λ o. (image + o) % 2 ^ 64)
            (read_le64-Agree m g image 40 (image + 8) head (omega arith) (omega arith)),
        rw
            (
              read_le16-Agree m g p 14 (p + 8) symb (omega arith) (omega arith),
              read_le32-Agree m g p 14 (p + 10) symb (omega arith) (omega arith),
            )
            refl,
      )

  pub client_image_load-Client :
      2 ^ 16 ≤ fuel
      → (c : Client)
      → (g : Memory) × (client_image_load fuel region image m
          ≡ some (status_of fuel m region (client_image_elf m image) c.plan, g))
        × ((q : ℕ) → g q ≡ client_byte c q)
        × ((q : ℕ) → inside region.base region.size q ≡ false → g q ≡ m q)
  unfolding client_image_load client_patch_symbols
  client_image_load-Client enough c =
      let r = client_request m region image in
      let (g, run, outside, bytes) = payload_loads fuel r m enough c.size c.apart c.loadable in
      let (elf, symb, header) = reread g c outside in
      let (h, patched_run, patches, outside') =
        patch_loop-Patches fuel m region r.ehdr _ _ c.plan g outside in
      (
        h,
        rw (run, client_image_load, client_patch_symbols, elf, symb, header) patched_run,
        (λ q. patches q ∙ ap (patched fuel m region r.ehdr c.plan q) (bytes q)),
        outside',
      )
