-- ===== src/Elf/Load.antt =====
-- `tsldr_miscutil_load_elf` of src/miscutils.c.
use libtrustedlo.Prelude.{
  ℕ, zero, suc, ◌+◌, ◌-◌, ◌*◌, ◌/◌, Bool, true, false, ◌||◌, ◌==◌, if◌then◌else◌, ltb, leb, not,
  Option, none, some,
}
use libtrustedlo.Memory.{Memory, memcpy, memset}
use libtrustedlo.Elf.{
  e_entry, e_phoff, e_phentsize, e_phnum, phdr_size, pt_load, p_type, p_offset, p_vaddr, p_filesz,
  p_memsz,
}
pub mod Segment
pub mod Safety
pub mod Accept
pub mod Stable

-- The arguments of the loader that stay the same from segment to segment.
pub record Request : Type 0 where
  pub ehdr : ℕ
  pub elf_size : ℕ
  pub load_base : ℕ
  pub load_vaddr : ℕ
  pub load_size : ℕ

-- The checks of one PT_LOAD segment, in the order of the code.
unfoldable pub segment_fits : Memory → Request → ℕ → Bool
segment_fits m r phdr =
    let seg_offset = p_vaddr m phdr - r.load_vaddr in
    if ltb (p_memsz m phdr) (p_filesz m phdr)
      || ltb r.elf_size (p_offset m phdr)
      || ltb (r.elf_size - p_offset m phdr) (p_filesz m phdr)
    then false
    else if ltb (p_vaddr m phdr) r.load_vaddr
    then false
    else if ltb r.load_size seg_offset || ltb (r.load_size - seg_offset) (p_memsz m phdr)
    then false
    else true

-- The copy of a segment's file bytes and the zero fill of the rest. The sizes for the fill are
-- read again after the copy, as the code does.
unfoldable pub copy_segment : Memory → Request → ℕ → Memory
copy_segment m r phdr =
    let dest = r.load_base + (p_vaddr m phdr - r.load_vaddr) in
    let m' = memcpy dest (r.ehdr + p_offset m phdr) (p_filesz m phdr) m in
    let filesz = p_filesz m' phdr in
    if ltb filesz (p_memsz m' phdr)
    then memset (dest + filesz) 0 (p_memsz m' phdr - filesz) m'
    else m'

-- The loop over the program headers from index `i`; the header count is read in each round.
unfoldable pub load_segments : ℕ → Request → ℕ → ℕ → Memory → Option (Bool × Memory)
load_segments zero r phdr i m = none
load_segments (suc fuel) r phdr i m =
    let ph = phdr + i * phdr_size in
    let skip = load_segments fuel r phdr (i + 1) m in
    let loaded = load_segments fuel r phdr (i + 1) (copy_segment m r ph) in
    if ltb i (e_phnum m r.ehdr)
    then (if p_type m ph == pt_load
        then (if segment_fits m r ph then loaded else some (false, m))
        else skip)
    else some (true, m)

-- The checks before the loop.
unfoldable pub header_valid : Memory → Request → Bool
header_valid m r =
    if not (e_phentsize m r.ehdr == phdr_size)
      || ltb r.elf_size (e_phoff m r.ehdr)
      || ltb ((r.elf_size - e_phoff m r.ehdr) / phdr_size) (e_phnum m r.ehdr)
    then false
    else if ltb (e_entry m r.ehdr) r.load_vaddr || leb r.load_size (e_entry m r.ehdr - r.load_vaddr)
    then false
    else true

-- `tsldr_miscutil_load_elf`: its result and the memory it leaves. The loop ends within
-- 2 ^ 16 rounds, since the header count is a 16-bit field.
unfoldable pub load_elf : ℕ → Request → Memory → Option (Bool × Memory)
load_elf fuel r m =
    if header_valid m r
    then load_segments fuel r (r.ehdr + e_phoff m r.ehdr) 0 m
    else some (false, m)
