-- ===== src/Elf/Load/Stable.antt =====
-- An image that is loadable is so in every memory that agrees on its bytes.
use libtrustedlo.Prelude.{ℕ, ◌+◌, ◌*◌, ◌≡◌, ◌∙◌, ◌≤◌, ◌<◌, sym, arith}
use libtrustedlo.Memory.{Memory}
use libtrustedlo.Memory.Copy.{Apart}
use libtrustedlo.Bytes.Agreement.{Agree, read_le16-Agree, read_le64-Agree}
use libtrustedlo.Elf.{e_entry, e_phoff, e_phnum, e_phentsize, p_type}
use libtrustedlo.Elf.Load.{Request}
use libtrustedlo.Elf.Load.Segment.{
  Fits, segment_fits-Fits, Fits-segment_fits, Separate, type_same, fits_same,
}
use libtrustedlo.Elf.Load.Accept.{Loadable}

module _ (m g : Memory) (r : Request) (same : Agree r.ehdr r.elf_size m g)
    (size : 64 ≤ r.elf_size) where
  phoff_same : e_phoff g r.ehdr ≡ e_phoff m r.ehdr
  phoff_same = read_le64-Agree m g r.ehdr r.elf_size (r.ehdr + 32) same (omega arith) (omega arith)

  phnum_same : e_phnum g r.ehdr ≡ e_phnum m r.ehdr
  phnum_same = read_le16-Agree m g r.ehdr r.elf_size (r.ehdr + 56) same (omega arith) (omega arith)

  pub entry_same : e_entry g r.ehdr ≡ e_entry m r.ehdr
  entry_same = read_le64-Agree m g r.ehdr r.elf_size (r.ehdr + 24) same (omega arith) (omega arith)

  phentsize_same : e_phentsize g r.ehdr ≡ e_phentsize m r.ehdr
  phentsize_same =
      read_le16-Agree m g r.ehdr r.elf_size (r.ehdr + 54) same (omega arith) (omega arith)

  pub Loadable-Agree : Apart r.load_base r.load_size r.ehdr r.elf_size → Loadable m r → Loadable g r
  Loadable-Agree apart l = record {
    entry_size = phentsize_same ∙ l.entry_size;
    table = rw (phoff_same, phnum_same) l.table;
    entry_from = rw entry_same l.entry_from;
    entry_to = rw entry_same l.entry_to;
    segments = rw (phoff_same, phnum_same) (λ i lt. segment i lt);
  }
    where
      segment :
          (i : ℕ)
          → i < e_phnum m r.ehdr
          → p_type g (r.ehdr + e_phoff m r.ehdr + i * 56) ≡ 1
          → Fits g r (r.ehdr + e_phoff m r.ehdr + i * 56)
      segment i lt t =
          let ph = r.ehdr + e_phoff m r.ehdr + i * 56 in
          let sep : Separate r ph = record {
            header_from = omega arith;
            header_to = ground (arith, l.table);
            apart = apart;
          } in
          let fits = l.segments i lt (sym (type_same m g r ph same sep) ∙ t) in
          segment_fits-Fits g r ph (fits_same m g r ph same sep ∙ Fits-segment_fits m r ph fits)
