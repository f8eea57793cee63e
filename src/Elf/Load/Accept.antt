-- ===== src/Elf/Load/Accept.antt =====
-- `tsldr_miscutil_load_elf` as its caller sees it: it ends, writes in the load region only, takes
-- exactly the well-formed images, and then leaves the image's contents.
use libtrustedlo.Prelude.{
  ℕ, zero, suc, ◌+◌, ◌*◌, ◌^◌, ◌≡◌, ◌∙◌, ◌≤◌, ◌<◌, refl, ◌↔◌, inl, inr, Bool, true, false, ◌&&◌,
  ◌==◌, Bool-cases, arith, some, ==→eq,
}
use libtrustedlo.Memory.{Memory}
use libtrustedlo.Memory.Copy.{inside, Apart}
use libtrustedlo.Bytes.{read_le16-lt}
use libtrustedlo.Elf.{e_entry, e_phoff, e_phnum, e_phentsize, p_type}
use libtrustedlo.Elf.Load.{Request, header_valid, load_elf}
use libtrustedlo.Elf.Load.Segment.{Fits, segment_fits-Fits, Fits-segment_fits}
use libtrustedlo.Elf.Load.Safety.{contents, all_fit, Placed, loop-Loads}

-- What the loader promises to check, stated with no reference to its code.
pub record Loadable (m : Memory) (r : Request) : Type 0 where
  pub entry_size : e_phentsize m r.ehdr ≡ 56
  pub table : e_phoff m r.ehdr + e_phnum m r.ehdr * 56 ≤ r.elf_size
  pub entry_from : r.load_vaddr ≤ e_entry m r.ehdr
  pub entry_to : e_entry m r.ehdr < r.load_vaddr + r.load_size
  pub segments :
      (i : ℕ)
      → i < e_phnum m r.ehdr
      → p_type m (r.ehdr + e_phoff m r.ehdr + i * 56) ≡ 1
      → Fits m r (r.ehdr + e_phoff m r.ehdr + i * 56)

all_fit-Fits :
    (m : Memory) (r : Request) (phdr n i : ℕ)
    → all_fit m r phdr n i ≡ true
    → (j : ℕ) → i ≤ j
    → j < i + n
    → p_type m (phdr + j * 56) ≡ 1
    → Fits m r (phdr + j * 56)
all_fit-Fits m r phdr zero i h j lo hi t = absurd (omega arith)
all_fit-Fits m r phdr (suc n) i h j lo hi t = elim (Bool-cases (j == i)) [
  | inl here ↦ rw (==→eq j i here) (
      segment_fits-Fits m r (phdr + i * 56)
        (let t' : p_type m (phdr + i * 56) ≡ 1 = rw (==→eq j i here) at t in ground (arith, h)))
  | inr later ↦ all_fit-Fits m r phdr n (i + 1) (ground (arith, h)) j (ground arith) (omega arith) t
]

Fits-all_fit :
    (m : Memory) (r : Request) (phdr n i : ℕ)
    → ((j : ℕ) → i ≤ j → j < i + n → p_type m (phdr + j * 56) ≡ 1 → Fits m r (phdr + j * 56))
    → all_fit m r phdr n i ≡ true
Fits-all_fit m r phdr zero i h = refl
Fits-all_fit m r phdr (suc n) i h =
    let rest = Fits-all_fit m r phdr n (i + 1) (λ j lo hi t. h j (omega arith) (omega arith) t) in
    elim (Bool-cases (p_type m (phdr + i * 56) == 1)) [
      | inl load ↦
          let here =
            Fits-segment_fits m r (phdr + i * 56)
              (h i (omega arith) (omega arith) (==→eq _ _ load)) in
          rw (load, here, rest)
      | inr skip ↦ rw (skip, rest)
    ]

header_valid-Placed :
    (m : Memory) (r : Request)
    → 64 ≤ r.elf_size
    → Apart r.load_base r.load_size r.ehdr r.elf_size
    → header_valid m r ≡ true
    → Placed m r (r.ehdr + e_phoff m r.ehdr)
unfolding header_valid
header_valid-Placed m r size apart h = record {
  header = size;
  table_from = omega arith;
  table_to = ground arith;
  apart = apart;
}

-- The verdict of the whole load.
abbrev accepted : Memory → Request → Bool
accepted m r = header_valid m r && all_fit m r (r.ehdr + e_phoff m r.ehdr) (e_phnum m r.ehdr) 0

accepted-Loadable : (m : Memory) (r : Request) → accepted m r ≡ true → Loadable m r
unfolding header_valid
accepted-Loadable m r h = record {
  entry_size = ground arith;
  table = ground arith;
  entry_from = ground arith;
  entry_to = ground arith;
  segments = λ i lt t.
      all_fit-Fits m r (r.ehdr + e_phoff m r.ehdr) (e_phnum m r.ehdr) 0 (ground arith) i
        (omega arith) (omega arith) t;
}

Loadable-accepted : (m : Memory) (r : Request) → Loadable m r → accepted m r ≡ true
unfolding header_valid
Loadable-accepted m r l = ground (
  arith,
  Fits-all_fit m r (r.ehdr + e_phoff m r.ehdr) (e_phnum m r.ehdr) 0
      (λ j lo hi t. l.segments j (omega arith) t),
)

module _ (fuel : ℕ) (r : Request) (m : Memory) (enough : 2 ^ 16 ≤ fuel) (size : 64 ≤ r.elf_size)
    (apart : Apart r.load_base r.load_size r.ehdr r.elf_size) where
  load_elf-Loads :
      (b : Bool) × (g : Memory) × (load_elf fuel r m ≡ some (b, g))
      × (b ≡ accepted m r)
      × ((q : ℕ) → inside r.load_base r.load_size q ≡ false → g q ≡ m q)
      × (b ≡ true
          → (q : ℕ) → g q ≡ contents m r (r.ehdr + e_phoff m r.ehdr) (e_phnum m r.ehdr) 0 (m q) q)
  unfolding load_elf
  load_elf-Loads = elim (Bool-cases (header_valid m r)) [
    | inr bad ↦ rw (bad) (false, m, refl, refl, λ q out. refl, λ ok q. absurd (cc))
    | inl good ↦
        let placed = header_valid-Placed m r size apart good in
        let (b, g, run, l) =
          loop-Loads m r (r.ehdr + e_phoff m r.ehdr) placed fuel 0 (e_phnum m r.ehdr) m
            (λ q lo hi. refl) (omega arith) (omega (arith, read_le16-lt m (r.ehdr + 56))) in
        rw good (b, g, run, l.verdict, l.outside, l.bytes)
  ]

  -- For an image of 64 bytes or more that lies outside the load region, the load ends within 2 ^ 16
  -- rounds, and whether it takes the image or not, it changes no byte outside the load region.
  pub load_elf-outside :
      (b : Bool) × (g : Memory) × (load_elf fuel r m ≡ some (b, g))
      × ((q : ℕ) → inside r.load_base r.load_size q ≡ false → g q ≡ m q)
  load_elf-outside =
      let (b, g, run, verdict, outside, bytes) = load_elf-Loads in (b, g, run, outside)

  -- For an image of 64 bytes or more that lies outside the load region, and with fuel for 2 ^ 16
  -- rounds, the load succeeds exactly if the image's header table, entry point and PT_LOAD segments
  -- are in range.
  pub load_elf-Loadable : ((g : Memory) × (load_elf fuel r m ≡ some (true, g))) ↔ Loadable m r
  load_elf-Loadable =
      let (b, g, run, verdict, outside, bytes) = load_elf-Loads in
      (
        λ (g', run'). accepted-Loadable m r (ground (arith, run, run', verdict)),
        λ l. (g, run ∙ ground (arith, verdict, Loadable-accepted m r l)),
      )

  -- After a successful load of an image of 64 bytes or more that lies outside the load region every
  -- byte is what the last PT_LOAD segment that covers it says: the image's byte within p_filesz, 0
  -- behind it within p_memsz, and the old byte where there is none.
  pub load_elf-contents :
      (g : Memory)
      → load_elf fuel r m ≡ some (true, g)
      → (q : ℕ) → g q ≡ contents m r (r.ehdr + e_phoff m r.ehdr) (e_phnum m r.ehdr) 0 (m q) q
  load_elf-contents g' run' q =
      let (b, g, run, verdict, outside, bytes) = load_elf-Loads in
      let ok : b ≡ true = cc in let same : g ≡ g' = cc in rw same at bytes ok q
