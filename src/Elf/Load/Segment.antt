-- ===== src/Elf/Load/Segment.antt =====
-- One segment of `tsldr_miscutil_load_elf`: where it writes, and what it leaves there.
use libtrustedlo.Prelude.{ℕ, ◌+◌, ◌-◌, ◌≡◌, ◌∙◌, ◌≤◌, true, if◌then◌else◌, arith}
use libtrustedlo.Memory.{Memory, load, memcpy}
use libtrustedlo.Memory.Copy.{inside, Apart, memset-at, memcpy-at, memcpy_frame}
use libtrustedlo.Bytes.{read_le64}
use libtrustedlo.Bytes.Agreement.{Agree, read_le64-Agree, read_le32-Agree}
use libtrustedlo.Elf.{p_type, p_vaddr, p_memsz, p_filesz, p_offset}
use libtrustedlo.Elf.Load.{Request, segment_fits, copy_segment}

-- The segment's file bytes lie in the image and its memory bytes in the load region.
pub record Fits (m : Memory) (r : Request) (phdr : ℕ) : Type 0 where
  pub shorter : p_filesz m phdr ≤ p_memsz m phdr
  pub in_file : p_offset m phdr + p_filesz m phdr ≤ r.elf_size
  pub above : r.load_vaddr ≤ p_vaddr m phdr
  pub in_region : p_vaddr m phdr + p_memsz m phdr ≤ r.load_vaddr + r.load_size

pub segment_fits-Fits :
    (m : Memory) (r : Request) (phdr : ℕ) → segment_fits m r phdr ≡ true → Fits m r phdr
unfolding segment_fits
segment_fits-Fits m r phdr h = ground arith

pub Fits-segment_fits :
    (m : Memory) (r : Request) (phdr : ℕ) → Fits m r phdr → segment_fits m r phdr ≡ true
unfolding segment_fits
Fits-segment_fits m r phdr h = ground arith

-- The program header lies in the image, and the image apart from the load region.
pub record Separate (r : Request) (phdr : ℕ) : Type 0 where
  pub header_from : r.ehdr ≤ phdr
  pub header_to : phdr + 56 ≤ r.ehdr + r.elf_size
  pub apart : Apart r.load_base r.load_size r.ehdr r.elf_size

abbrev pub start : Memory → Request → ℕ → ℕ
start m r phdr = r.load_base + (p_vaddr m phdr - r.load_vaddr)

-- What a segment of the image in `m` puts at address `q`, where `v` was before: its file bytes,
-- zeros behind them, nothing elsewhere.
abbrev pub segment_byte : Memory → Request → ℕ → ℕ → ℕ → ℕ
segment_byte m r phdr v q =
    if inside (start m r phdr) (p_filesz m phdr) q
    then load m (r.ehdr + p_offset m phdr + (q - start m r phdr))
    else if inside (start m r phdr) (p_memsz m phdr) q
    then 0
    else v

module _ (m : Memory) (r : Request) (phdr : ℕ) where
  open r use {ehdr, elf_size, load_base, load_size}

  abbrev copied : Memory
  copied = memcpy (start m r phdr) (ehdr + p_offset m phdr) (p_filesz m phdr) m

  copied-Agree : Fits m r phdr → Separate r phdr → Agree ehdr elf_size m copied
  copied-Agree fits sep q lo hi =
      ground (arith, memcpy_frame (start m r phdr) (ehdr + p_offset m phdr) (p_filesz m phdr) m q)

  reread :
      Fits m r phdr
      → Separate r phdr
      → (o : ℕ) → o + 8 ≤ 56
      → read_le64 copied (phdr + o) ≡ read_le64 m (phdr + o)
  reread fits sep o h =
      read_le64-Agree m copied ehdr elf_size (phdr + o) (copied-Agree fits sep) (omega arith)
        (omega arith)

  pub copy_segment-at :
      Fits m r phdr
      → Separate r phdr
      → (q : ℕ) → copy_segment m r phdr q ≡ segment_byte m r phdr (m q) q
  unfolding copy_segment
  copy_segment-at fits sep q =
      rw (reread fits sep 32 (omega arith), reread fits sep 40 (omega arith))
        (ground (
          arith,
          memset-at (start m r phdr + p_filesz m phdr) 0 (p_memsz m phdr - p_filesz m phdr) copied
              q,
          memcpy-at (start m r phdr) (ehdr + p_offset m phdr) (p_filesz m phdr) m q,
        ))

-- The same where an earlier segment has been copied: the image is still that of `m`.
module _ (m g : Memory) (r : Request) (phdr : ℕ) (same : Agree r.ehdr r.elf_size m g)
    (sep : Separate r phdr) where
  pub field_same : (o : ℕ) → o + 8 ≤ 56 → read_le64 g (phdr + o) ≡ read_le64 m (phdr + o)
  field_same o h =
      read_le64-Agree m g r.ehdr r.elf_size (phdr + o) same (ground arith) (ground arith)

  pub type_same : p_type g phdr ≡ p_type m phdr
  type_same = read_le32-Agree m g r.ehdr r.elf_size phdr same (ground arith) (ground arith)

  pub fits_same : segment_fits g r phdr ≡ segment_fits m r phdr
  unfolding segment_fits
  fits_same = rw (
    field_same 8 (omega arith),
    field_same 16 (omega arith),
    field_same 32 (omega arith),
    field_same 40 (omega arith),
  )

  pub copy_segment-byte :
      Fits m r phdr → (q : ℕ) → copy_segment g r phdr q ≡ segment_byte m r phdr (g q) q
  copy_segment-byte fits q =
      let fits' : Fits g r phdr =
        segment_fits-Fits g r phdr (fits_same ∙ Fits-segment_fits m r phdr fits) in
      copy_segment-at g r phdr fits' sep q
      ∙ rw (field_same 8 (omega arith), field_same 16 (omega arith), field_same 32 (omega arith))
          (rw (field_same 40 (omega arith))
            (ground (arith, same (r.ehdr + p_offset m phdr + (q - start m r phdr)))))
