-- ===== src/Image/Patch.antt =====
-- What `mktxlo_client_patch_symbols` leaves in memory.
use libtrustedlo.Prelude.{
  ℕ, zero, suc, ◌+◌, ◌-◌, ◌≡◌, ◌∙◌, ◌≤◌, ◌<◌, refl, false, arith, some, none, if◌then◌else◌,
}
use libtrustedlo.Memory.{Memory, load, memcpy}
use libtrustedlo.Memory.Copy.{inside, Apart, memcpy-at, memcpy_frame}
use libtrustedlo.Bytes.Agreement.{Agree, read_le16-Agree, read_le32-Agree, read_le64-Agree}
use libtrustedlo.Platform.{Status, no_error, minus_one}
use libtrustedlo.Elf.{st_value}
use libtrustedlo.Symb.{Symbol, mktsymb_read, mktsymb_read_symbol}
use libtrustedlo.Image.{
  elf_find_symbol, patch_loop, client_patch_symbols, client_image_elf, client_image_mktsymb, Region,
}
use libtrustedlo.Image.Stable.{KeptElf, elf_find_symbol-Agree}

abbrev pub symbol_at : Memory → ℕ → Symbol
symbol_at m p = (mktsymb_read_symbol m p).0

module _ (region : Region) where
  -- The second memory differs from the first only in the region.
  abbrev pub Untouched : Memory → Memory → Type 0
  Untouched m g = (q : ℕ) → inside region.base region.size q ≡ false → g q ≡ m q

  -- The `n` bytes from `p` lie outside the region.
  abbrev pub Outside : ℕ → ℕ → Type 0
  Outside p n = (q : ℕ) → p ≤ q → q < p + n → inside region.base region.size q ≡ false

module _ (fuel : ℕ) (m : Memory) (region : Region) (ehdr : ℕ) where
  -- The record of a symbol lies outside, and so does all that the search for its name reads.
  pub record Readable (p : ℕ) : Type 0 where
    pub bytes : Outside region p (16 + (symbol_at m p).name_len + (symbol_at m p).data_len)
    pub elf : (g : Memory) → Untouched region m g → KeptElf fuel m g ehdr

  -- The patches that `n` records from `p` ask for, as the memory before them says: each to a
  -- symbol of the ELF file that lies in the region, until a name is missing.
  pub data Patches : ℕ → ℕ → Type 0 where
    finished : (p : ℕ) → Patches zero p
    missing :
        (n p : ℕ)
        → Readable p
        → elf_find_symbol fuel m ehdr (symbol_at m p).name (symbol_at m p).name_len ≡ some none
        → Patches (suc n) p
    patch :
        (n p sym : ℕ)
        → Readable p
        → elf_find_symbol fuel m ehdr (symbol_at m p).name (symbol_at m p).name_len
          ≡ some (some sym)
        → Outside region sym 24
        → region.base ≤ st_value m sym
        → st_value m sym + (symbol_at m p).data_len ≤ region.base + region.size
        → Patches n (mktsymb_read_symbol m p).1
        → Patches (suc n) p

  abbrev pub status_of : {n p : ℕ} → Patches n p → Status
  status_of (finished p) = no_error
  status_of (missing n p r e) = minus_one
  status_of (patch n p sym r e o lo hi rest) = status_of rest

  -- The byte at `q`, where `v` was before the patches: the contents of the last one that covers it.
  abbrev pub patched : {n p : ℕ} → Patches n p → ℕ → ℕ → ℕ
  patched (finished p) q v = v
  patched (missing n p r e) q v = v
  patched (patch n p sym r e o lo hi rest) q v = patched rest q (
      if inside (st_value m sym) (symbol_at m p).data_len q
      then load m ((symbol_at m p).contents + (q - st_value m sym))
      else v)

  module _ (g : Memory) (same : Untouched region m g) where
    Outside-Agree : (p n : ℕ) → Outside region p n → Agree p n m g
    Outside-Agree p n o q lo hi = same q (o q lo hi)

    record_same : (p : ℕ) → Readable p → mktsymb_read_symbol g p ≡ mktsymb_read_symbol m p
    unfolding mktsymb_read_symbol
    record_same p r =
        let head : Agree p 16 m g = λ q lo hi. same q (r.bytes q lo (omega arith)) in
        rw
          (
            read_le16-Agree m g p 16 p head (omega arith) (omega arith),
            read_le16-Agree m g p 16 (p + 2) head (omega arith) (omega arith),
            read_le32-Agree m g p 16 (p + 4) head (omega arith) (omega arith),
            read_le64-Agree m g p 16 (p + 8) head (omega arith) (omega arith),
          )
          refl

    search_same :
        (p : ℕ)
        → Readable p
        → elf_find_symbol fuel g ehdr (symbol_at m p).name (symbol_at m p).name_len
          ≡ elf_find_symbol fuel m ehdr (symbol_at m p).name (symbol_at m p).name_len
    unfolding mktsymb_read_symbol
    search_same p r =
        elf_find_symbol-Agree fuel m g (symbol_at m p).name (symbol_at m p).name_len
          (λ q lo hi. same q (r.bytes q (omega (arith, lo)) (omega (arith, hi)))) ehdr
          (r.elf g same)

  -- A copy into the region leaves a memory that differs only there.
  memcpy-Untouched :
      (g : Memory) (d s n : ℕ)
      → Untouched region m g
      → region.base ≤ d
      → d + n ≤ region.base + region.size
      → Untouched region m (memcpy d s n g)
  memcpy-Untouched g d s n same lo hi q out = memcpy_frame d s n g q (ground arith) ∙ same q out

  memcpy_disjoint :
      (d s n : ℕ)
      → region.base ≤ d
      → d + n ≤ region.base + region.size
      → Outside region s n
      → Apart d n s n
  memcpy_disjoint d s n lo hi out = ground (arith, out s, out region.base)

  -- One patch, as the memory before all of them says.
  patch_byte :
      (g : Memory) (p sym q : ℕ)
      → Untouched region m g
      → Readable p
      → region.base ≤ st_value m sym
      → st_value m sym + (symbol_at m p).data_len ≤ region.base + region.size
      → memcpy (st_value m sym) (symbol_at m p).contents (symbol_at m p).data_len g q ≡ (
          if inside (st_value m sym) (symbol_at m p).data_len q
          then load m ((symbol_at m p).contents + (q - st_value m sym))
          else g q)
  unfolding mktsymb_read_symbol
  patch_byte g p sym q same r lo hi =
      let s = symbol_at m p in
      let apart =
        memcpy_disjoint (st_value m sym) s.contents s.data_len lo hi
          (λ j h h'. r.bytes j (omega (arith, h)) (omega (arith, h'))) in
      memcpy-at (st_value m sym) s.contents s.data_len g q apart
      ∙ ground (
        arith,
        same (s.contents + (q - st_value m sym)),
        r.bytes (s.contents + (q - st_value m sym)),
      )

  pub patch_loop-Patches :
      (n p : ℕ) (plan : Patches n p) (g : Memory)
      → Untouched region m g
      → (m' : Memory) × (patch_loop fuel ehdr n p g ≡ some (status_of plan, m'))
        × ((q : ℕ) → m' q ≡ patched plan q (g q))
        × Untouched region m m'
  unfolding patch_loop
  patch_loop-Patches _ _ (finished p) g same = (g, refl, (λ q. refl), same)
  patch_loop-Patches _ _ (missing n p r e) g same = (
    g,
    rw (record_same g same p r, search_same g same p r, e, patch_loop) refl,
    (λ q. refl),
    same,
  )
  patch_loop-Patches _ _ (patch n p sym r e o lo hi rest) g same =
      let value : st_value g sym ≡ st_value m sym =
        read_le64-Agree m g sym 24 (sym + 8) (Outside-Agree g same sym 24 o) (omega arith)
          (omega arith) in
      let s = symbol_at m p in
      let g' = memcpy (st_value m sym) s.contents s.data_len g in
      let (m', run, bytes, same') =
        patch_loop-Patches n (mktsymb_read_symbol m p).1 rest g'
          (memcpy-Untouched g (st_value m sym) s.contents s.data_len same lo hi) in
      (
        m',
        rw
            (
              record_same g same p r,
              search_same g same p r,
              e,
              value,
              record_same g same p r,
              patch_loop,
            )
            run,
        (λ q. rw (patch_byte g p sym q same r lo hi) at (bytes q)),
        same',
      )

-- If every symbol that the image names lies in the region, and the image outside it, the patching
-- returns: it ends without an error exactly if no name is missing, it leaves in every byte the
-- contents of the last symbol before that that covers it, and changes no byte outside the region.
pub client_patch_symbols-Patches :
    (fuel : ℕ) (m : Memory) (region : Region) (image : ℕ)
    → let header = mktsymb_read m (client_image_mktsymb m image) in
      (plan : Patches fuel m region (client_image_elf m image) header.symbol_cnt header.symbols)
      → (m' : Memory) × (client_patch_symbols fuel image m
          ≡ some (status_of fuel m region (client_image_elf m image) plan, m'))
        × ((q : ℕ) → m' q ≡ patched fuel m region (client_image_elf m image) plan q (m q))
        × Untouched region m m'
unfolding client_patch_symbols
client_patch_symbols-Patches fuel m region image plan =
    patch_loop-Patches fuel m region (client_image_elf m image) _ _ plan m (λ q out. refl)
