-- ===== src/Image/Stable.antt =====
-- What the search for a symbol reads: a memory that is the same there gives the same answer.
use libtrustedlo.Prelude.{
  ℕ, zero, suc, ◌+◌, ◌*◌, ◌/◌, ◌%◌, ◌^◌, ◌≡◌, ◌≤◌, ◌<◌, refl, inl, inr, true, false, ◌==◌, arith,
  Bool-cases, ==→eq, some, none, Option-cases,
}
use libtrustedlo.Memory.{Memory}
use libtrustedlo.Memory.Compare.{IsString, strlen_loop_lem}
use libtrustedlo.Bytes.Agreement.{
  Agree, read_le16-Agree, read_le32-Agree, read_le64-Agree, IsString-Agree, memcmp-Agree,
}
use libtrustedlo.Elf.{e_shoff, e_shnum, sh_type, sh_offset, sh_size, sh_link, st_name}
use libtrustedlo.Image.{symbol_named, find_in_table, find_in_sections, elf_find_symbol}

-- A name that ends within the fuel, in bytes that are kept.
pub record KeptString (fuel : ℕ) (m g : Memory) (s : ℕ) : Type 0 where
  pub len : ℕ
  pub string : IsString m s len
  pub ends : len < fuel
  pub kept : Agree s (len + 1) m g

module _ (m : Memory) (ehdr : ℕ) where
  abbrev section : ℕ → ℕ
  section i = (ehdr + e_shoff m ehdr) % 2 ^ 64 + i * 64

  abbrev symbols : ℕ → ℕ
  symbols i = (ehdr + sh_offset m (section i)) % 2 ^ 64

  abbrev names : ℕ → ℕ
  names i = (ehdr + sh_offset m (section (sh_link m (section i)))) % 2 ^ 64

  abbrev count : ℕ → ℕ
  count i = sh_size m (section i) / 24

module _ (fuel : ℕ) (m g : Memory) where
  -- The symbol and its name are kept.
  abbrev pub KeptTable : ℕ → ℕ → ℕ → ℕ → Type 0
  KeptTable symtab strtab j n =
      (l : ℕ)
      → j ≤ l
      → l < j + n
      → Agree (symtab + l * 24) 24 m g × KeptString fuel m g (strtab + st_name m (symtab + l * 24))

  module _ (ehdr : ℕ) where
    -- The section headers are kept, and so is what a symbol table among them leads to.
    pub record KeptSection (i : ℕ) : Type 0 where
      pub header : Agree (section m ehdr i) 64 m g
      pub strings : Agree (section m ehdr (sh_link m (section m ehdr i))) 64 m g
      pub table :
          sh_type m (section m ehdr i) ≡ 2
          → KeptTable (symbols m ehdr i) (names m ehdr i) 0 (count m ehdr i)

    abbrev pub KeptSections : ℕ → ℕ → Type 0
    KeptSections i n = (l : ℕ) → i ≤ l → l < i + n → KeptSection l

    pub record KeptElf : Type 0 where
      pub header : Agree ehdr 64 m g
      pub sections : KeptSections 0 (e_shnum m ehdr)

module _ (fuel : ℕ) (m g : Memory) (name name_len : ℕ) (name_kept : Agree name name_len m g) where
  symbol_named-Agree :
      (s : ℕ)
      → KeptString fuel m g s
      → symbol_named fuel g s name name_len ≡ symbol_named fuel m s name name_len
  unfolding symbol_named
  symbol_named-Agree s k =
      let there = strlen_loop_lem m fuel s k.len k.string k.ends in
      let here =
        strlen_loop_lem g fuel s k.len (IsString-Agree m g s k.len k.kept k.string) k.ends in
      elim (Bool-cases (k.len == name_len)) [
        | inl e ↦
            let same =
              memcmp-Agree m g s name name_len (λ q lo hi. k.kept q lo (ground (arith, e)))
                name_kept in
            rw (there, here, same, symbol_named) refl
        | inr e ↦ rw (there, here, e, symbol_named) refl
      ]

  find_in_table-Agree :
      (symtab strtab n j : ℕ)
      → KeptTable fuel m g symtab strtab j n
      → find_in_table fuel g symtab strtab name name_len n j
        ≡ find_in_table fuel m symtab strtab name name_len n j
  unfolding find_in_table
  find_in_table-Agree symtab strtab zero j kept = refl
  find_in_table-Agree symtab strtab (suc n) j kept =
      let (symbol, string) = kept j (omega arith) (omega arith) in
      let offset : st_name g (symtab + j * 24) ≡ st_name m (symtab + j * 24) =
        read_le32-Agree m g (symtab + j * 24) 24 (symtab + j * 24) symbol (omega arith)
          (omega arith) in
      let rest =
        find_in_table-Agree symtab strtab n (j + 1)
          (λ l lo hi. kept l (omega arith) (omega arith)) in
      let named = symbol_named-Agree (strtab + st_name m (symtab + j * 24)) string in
      elim (Option-cases
        (symbol_named fuel m (strtab + st_name m (symtab + j * 24)) name name_len)) [
          | inl e ↦ rw (offset, named, e, find_in_table) refl
          | inr (true, e) ↦ rw (offset, named, e, find_in_table) refl
          | inr (false, e) ↦ rw (offset, named, e, find_in_table) rest
        ]

  module _ (ehdr : ℕ) where
    find_in_sections-Agree :
        (n i : ℕ)
        → Agree ehdr 64 m g
        → KeptSections fuel m g ehdr i n
        → find_in_sections fuel g ehdr name name_len n i
          ≡ find_in_sections fuel m ehdr name name_len n i
    unfolding find_in_sections
    find_in_sections-Agree zero i header kept = refl
    find_in_sections-Agree (suc n) i header kept =
        let k = kept i (omega arith) (omega arith) in
        let rest =
          find_in_sections-Agree n (i + 1) header (λ l lo hi. kept l (omega arith) (omega arith)) in
        let base = read_le64-Agree m g ehdr 64 (ehdr + 40) header (omega arith) (omega arith) in
        let type =
          read_le32-Agree m g (section m ehdr i) 64 (section m ehdr i + 4) k.header (omega arith)
            (omega arith) in
        let offset =
          read_le64-Agree m g (section m ehdr i) 64 (section m ehdr i + 24) k.header (omega arith)
            (omega arith) in
        let size =
          read_le64-Agree m g (section m ehdr i) 64 (section m ehdr i + 32) k.header (omega arith)
            (omega arith) in
        let link =
          read_le32-Agree m g (section m ehdr i) 64 (section m ehdr i + 40) k.header (omega arith)
            (omega arith) in
        let strings =
          read_le64-Agree m g (section m ehdr (sh_link m (section m ehdr i))) 64
            (section m ehdr (sh_link m (section m ehdr i)) + 24) k.strings (omega arith)
            (omega arith) in
        elim (Bool-cases (sh_type m (section m ehdr i) == 2)) [
          | inr other ↦ rw (base, type, other, find_in_sections) rest
          | inl is ↦
              let table =
                find_in_table-Agree (symbols m ehdr i) (names m ehdr i) (count m ehdr i) 0
                  (k.table (==→eq _ _ is)) in
              elim (Option-cases (
                find_in_table fuel m (symbols m ehdr i) (names m ehdr i) name name_len
                  (count m ehdr i) 0)) [
                    | inl e ↦
                        rw (base, type, is, offset, link, strings, size, table, e, find_in_sections)
                          refl
                    | inr (none, e) ↦
                        rw (base, type, is, offset, link, strings, size, table, e, find_in_sections)
                          rest
                    | inr (some a, e) ↦
                        rw (base, type, is, offset, link, strings, size, table, e, find_in_sections)
                          refl
                  ]
        ]

    -- The search answers the same in a memory that keeps the ELF file and the name.
    pub elf_find_symbol-Agree :
        KeptElf fuel m g ehdr
        → elf_find_symbol fuel g ehdr name name_len ≡ elf_find_symbol fuel m ehdr name name_len
    unfolding elf_find_symbol
    elf_find_symbol-Agree kept =
        let n = read_le16-Agree m g ehdr 64 (ehdr + 60) kept.header (omega arith) (omega arith) in
        rw (n, elf_find_symbol)
          (find_in_sections-Agree (e_shnum m ehdr) 0 kept.header kept.sections)
