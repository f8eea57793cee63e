-- ===== src/Elf/Load/Safety.antt =====
-- The whole run of `tsldr_miscutil_load_elf`: which images it takes, where it writes, and what it
-- leaves in memory.
use libtrustedlo.Prelude.{
  ℕ, zero, suc, ◌+◌, ◌*◌, ◌≡◌, ◌∙◌, ◌≤◌, ◌<◌, refl, ap, inl, inr, Bool, true, false, ◌&&◌, ◌==◌,
  if◌then◌else◌, Bool-cases, arith, some, le→ltb, lt→ltb,
}
use libtrustedlo.Memory.{Memory}
use libtrustedlo.Memory.Copy.{inside, Apart}
use libtrustedlo.Elf.{e_phnum, p_type, pt_load, phdr_size}
use libtrustedlo.Elf.Load.{Request, segment_fits, copy_segment, load_segments}
use libtrustedlo.Elf.Load.Segment.{
  Fits, segment_fits-Fits, Separate, segment_byte, copy_segment-byte, type_same, fits_same,
}
use libtrustedlo.Bytes.Agreement.{Agree, read_le16-Agree}

-- The byte at `q` after the `n` headers from index `i`, starting from `v`, read off the image in
-- `m`: the last PT_LOAD segment that covers `q` decides.
abbrev pub contents : Memory → Request → ℕ → ℕ → ℕ → ℕ → ℕ → ℕ
contents m r phdr zero i v q = v
contents m r phdr (suc n) i v q =
    contents m r phdr n (i + 1)
      (if p_type m (phdr + i * phdr_size) == pt_load
        then segment_byte m r (phdr + i * phdr_size) v q
        else v)
      q

-- Every PT_LOAD header among the `n` from index `i` passes its checks.
abbrev pub all_fit : Memory → Request → ℕ → ℕ → ℕ → Bool
all_fit m r phdr zero i = true
all_fit m r phdr (suc n) i =
    (if p_type m (phdr + i * phdr_size) == pt_load
      then segment_fits m r (phdr + i * phdr_size)
      else true)
    && all_fit m r phdr n (i + 1)

-- The result `b` and memory `g'` of the rounds from index `i` on memory `g`.
pub record Loads (m : Memory) (r : Request) (phdr n i : ℕ) (g : Memory) (b : Bool) (g' : Memory)
    : Type 0 where
  pub verdict : b ≡ all_fit m r phdr n i
  pub outside : (q : ℕ) → inside r.load_base r.load_size q ≡ false → g' q ≡ g q
  pub bytes : b ≡ true → (q : ℕ) → g' q ≡ contents m r phdr n i (g q) q

-- The table of headers lies in the image, and the image apart from the load region.
pub record Placed (m : Memory) (r : Request) (phdr : ℕ) : Type 0 where
  pub header : 64 ≤ r.elf_size
  pub table_from : r.ehdr ≤ phdr
  pub table_to : phdr + e_phnum m r.ehdr * 56 ≤ r.ehdr + r.elf_size
  pub apart : Apart r.load_base r.load_size r.ehdr r.elf_size

module _ (m : Memory) (r : Request) (phdr : ℕ) (p : Placed m r phdr) where
  Separate-at : (i n : ℕ) → i + suc n ≡ e_phnum m r.ehdr → Separate r (phdr + i * phdr_size)
  Separate-at i n e = record {
    header_from = omega arith;
    header_to = ground (arith, p.table_to);
    apart = p.apart;
  }

  segment_outside :
      (g : Memory) (i : ℕ) (q : ℕ)
      → Fits m r i
      → inside r.load_base r.load_size q ≡ false
      → segment_byte m r i (g q) q ≡ g q
  segment_outside g i q fits out = ground arith

  phnum_same : (g : Memory) → Agree r.ehdr r.elf_size m g → e_phnum g r.ehdr ≡ e_phnum m r.ehdr
  phnum_same g same =
      read_le16-Agree m g r.ehdr r.elf_size (r.ehdr + 56) same (omega arith)
        (ground (arith, p.header))

  copied-Agree :
      (g : Memory) (ph : ℕ)
      → Agree r.ehdr r.elf_size m g
      → Fits m r ph
      → ((q : ℕ) → copy_segment g r ph q ≡ segment_byte m r ph (g q) q)
      → Agree r.ehdr r.elf_size m (copy_segment g r ph)
  copied-Agree g ph same fits at q lo hi =
      at q ∙ (segment_outside g ph q fits (ground (arith, p.apart)) ∙ same q lo hi)

  -- What the rounds from `i` and memory `g` come to.
  abbrev pub Run : ℕ → ℕ → ℕ → Memory → Type 0
  Run fuel n i g =
      (b : Bool) × (g' : Memory) × (load_segments fuel r phdr i g ≡ some (b, g'))
      × Loads m r phdr n i g b g'

  module _ (n i : ℕ) (g : Memory) (b : Bool) (g' : Memory) where
    Loads-skip :
        (p_type m (phdr + i * phdr_size) == pt_load) ≡ false
        → Loads m r phdr n (i + 1) g b g'
        → Loads m r phdr (suc n) i g b g'
    Loads-skip skip l = record {
      verdict = rw skip l.verdict;
      outside = l.outside;
      bytes = rw skip l.bytes;
    }

    Loads-copy :
        (p_type m (phdr + i * phdr_size) == pt_load) ≡ true
        → segment_fits m r (phdr + i * phdr_size) ≡ true
        → ((q : ℕ)
            → copy_segment g r (phdr + i * phdr_size) q
              ≡ segment_byte m r (phdr + i * phdr_size) (g q) q)
        → Loads m r phdr n (i + 1) (copy_segment g r (phdr + i * phdr_size)) b g'
        → Loads m r phdr (suc n) i g b g'
    Loads-copy load fits at l = record {
      verdict = rw (load, fits) l.verdict;
      outside = λ q out.
          l.outside q out ∙ (at q ∙ segment_outside g _ q (segment_fits-Fits m r _ fits) out);
      bytes = λ ok q. rw load (l.bytes ok q ∙ ap (λ v. contents m r phdr n (i + 1) v q) (at q));
    }

  pub loop-Loads :
      (fuel i n : ℕ) (g : Memory)
      → Agree r.ehdr r.elf_size m g
      → i + n ≡ e_phnum m r.ehdr
      → n < fuel
      → Run fuel n i g
  unfolding load_segments
  loop-Loads zero i n g same e h = absurd (omega arith)
  loop-Loads (suc fuel) i zero g same e h = (
    true,
    g,
    rw (phnum_same g same, le→ltb i (e_phnum m r.ehdr) (omega arith)),
    record { verdict = refl; outside = λ q out. refl; bytes = λ ok q. refl },
  )
  loop-Loads (suc fuel) i (suc n) g same e h =
      let ph = phdr + i * phdr_size in
      let sep = Separate-at i n e in
      rw
        (
          phnum_same g same,
          lt→ltb i (e_phnum m r.ehdr) (omega arith),
          type_same m g r ph same sep,
          fits_same m g r ph same sep,
        )
        (elim (Bool-cases (p_type m ph == pt_load)) [
          | inr skip ↦
              let (b, g', run, l) = loop-Loads fuel (i + 1) n g same (omega arith) (omega arith) in
              rw skip (b, g', run, Loads-skip n i g b g' skip l)
          | inl load ↦ elim (Bool-cases (segment_fits m r ph)) [
            | inr bad ↦
                rw (load, bad)
                  (
                    false,
                    g,
                    refl,
                    record {
                      verdict = rw (load, bad);
                      outside = λ q out. refl;
                      bytes = λ ok q. absurd (cc);
                    },
                  )
            | inl good ↦
                let fits = segment_fits-Fits m r ph good in
                let at = copy_segment-byte m g r ph same sep fits in
                let (b, g', run, l) =
                  loop-Loads fuel (i + 1) n (copy_segment g r ph) (copied-Agree g ph same fits at)
                    (omega arith) (omega arith) in
                rw (load, good) (b, g', run, Loads-copy n i g b g' load good at l)
          ]
        ])
