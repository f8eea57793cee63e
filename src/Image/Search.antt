-- ===== src/Image/Search.antt =====
-- What `mktxlo_elf_find_symbol` finds.
use libtrustedlo.Prelude.{
  ℕ, zero, suc, ◌+◌, ◌*◌, ◌/◌, ◌%◌, ◌^◌, ◌≡◌, ◌≤◌, ◌<◌, refl, sym, inl, inr, Bool, true, ◌==◌, ◌&&◌,
  arith, Bool-cases, ==→eq, ==→ne, Option, some, none, Option-cases,
}
use libtrustedlo.Prelude.Answers.{Answers, Answers-widen}
use libtrustedlo.Memory.{Memory, memcmp}
use libtrustedlo.Memory.Compare.{SameBytes, memcmp_iff, IsString, strlen_loop_lem}
use libtrustedlo.Memory.Strings.{IsString-unique}
use libtrustedlo.Elf.{e_shoff, e_shnum, sh_type, sh_offset, sh_size, sh_link, st_name}
use libtrustedlo.Image.{is_zero, symbol_named, find_in_table, find_in_sections, elf_find_symbol}
use libtrustedlo.Image.Integrity.{is_zero_iff}

-- The string at `s` is the `len` bytes at `name`.
pub record Named (m : Memory) (s name len : ℕ) : Type 0 where
  pub string : IsString m s len
  pub same : SameBytes m s name len

symbol_named_lem :
    (fuel : ℕ) (m : Memory) (s name len real : ℕ)
    → IsString m s real
    → real < fuel
    → (b : Bool) × (symbol_named fuel m s name len ≡ some b)
      × (b ≡ true → Named m s name len)
      × (Named m s name len → b ≡ true)
unfolding symbol_named
symbol_named_lem fuel m s name len real is lt =
    rw (strlen_loop_lem m fuel s real is lt, symbol_named)
      (
        real == len && is_zero (memcmp m s name len),
        refl,
        (λ e. record {
          string = rw (==→eq real len (ground (arith, e))) at is;
          same = (memcmp_iff m s name len).0 ((is_zero_iff _).0 (ground (arith, e)));
        }),
        (λ n.
            let e = IsString-unique m s real len is n.string in
            let z = (is_zero_iff _).1 ((memcmp_iff m s name len).1 n.same) in ground (arith, e, z)),
      )

module _ (fuel : ℕ) (m : Memory) (name len : ℕ) where
  -- The symbol is one of the `n` of a table from number `j`, and has the name.
  pub record InTable (symtab strtab j n sym : ℕ) : Type 0 where
    pub number : ℕ
    pub from : j ≤ number
    pub to : number < j + n
    pub place : sym ≡ symtab + number * 24
    pub named : Named m (strtab + st_name m sym) name len

  -- Every name in the part of the table ends within the fuel.
  abbrev pub TableEnds : ℕ → ℕ → ℕ → ℕ → Type 0
  TableEnds symtab strtab j n =
      (l : ℕ)
      → j ≤ l
      → l < j + n
      → (real : ℕ) × IsString m (strtab + st_name m (symtab + l * 24)) real × (real < fuel)

  InTable-later :
      (symtab strtab j n : ℕ) (sym : ℕ)
      → InTable symtab strtab (j + 1) n sym
      → InTable symtab strtab j (suc n) sym
  InTable-later symtab strtab j n sym t = record {
    number = t.number;
    from = omega (arith, t.from);
    to = omega (arith, t.to);
    place = t.place;
    named = t.named;
  }

  find_in_table-Answers :
      (symtab strtab n j : ℕ)
      → TableEnds symtab strtab j n
      → (o : Option ℕ) × (find_in_table fuel m symtab strtab name len n j ≡ some o)
        × Answers (InTable symtab strtab j n) o
  unfolding find_in_table
  find_in_table-Answers symtab strtab zero j ends =
      (none, refl, λ a t. absurd (omega (arith, t.from, t.to)))
  find_in_table-Answers symtab strtab (suc n) j ends =
      let (real, is, lt) = ends j (omega arith) (omega arith) in
      let (b, run, good, back) =
        symbol_named_lem fuel m (strtab + st_name m (symtab + j * 24)) name len real is lt in
      let (o, rest, answers) =
        find_in_table-Answers symtab strtab n (j + 1)
          (λ l lo hi. ends l (omega arith) (omega arith)) in
      elim (Bool-cases b) [
        | inl hit ↦ (
          some (symtab + j * 24),
          rw (run, hit, find_in_table) refl,
          record {
            number = j;
            from = omega arith;
            to = omega arith;
            place = refl;
            named = good hit;
          },
        )
        | inr miss ↦ (
          o,
          rw (run, miss, find_in_table) rest,
          Answers-widen _ _ o answers (InTable-later symtab strtab j n) (λ sym t.
              elim (Bool-cases (t.number == j)) [
                | inl e ↦ absurd (cc (miss, back (rw (t.place, ==→eq t.number j e) at t.named)))
                | inr e ↦ record {
                  number = t.number;
                  from = ground (arith, t.from);
                  to = omega (arith, t.to);
                  place = t.place;
                  named = t.named;
                }
              ]),
        )
      ]

  module _ (ehdr : ℕ) where
    abbrev section : ℕ → ℕ
    section i = (ehdr + e_shoff m ehdr) % 2 ^ 64 + i * 64

    abbrev symbols : ℕ → ℕ
    symbols i = (ehdr + sh_offset m (section i)) % 2 ^ 64

    abbrev names : ℕ → ℕ
    names i = (ehdr + sh_offset m (section (sh_link m (section i)))) % 2 ^ 64

    abbrev count : ℕ → ℕ
    count i = sh_size m (section i) / 24

    -- The symbol is in a SHT_SYMTAB section among the `n` from number `i`, and has the name.
    pub record InSections (i n sym : ℕ) : Type 0 where
      pub number : ℕ
      pub from : i ≤ number
      pub to : number < i + n
      pub table : sh_type m (section number) ≡ 2
      pub entry : InTable (symbols number) (names number) 0 (count number) sym

    -- Every symbol name of these sections ends within the fuel.
    abbrev pub SectionsEnd : ℕ → ℕ → Type 0
    SectionsEnd i n =
        (l : ℕ)
        → i ≤ l
        → l < i + n
        → sh_type m (section l) ≡ 2
        → TableEnds (symbols l) (names l) 0 (count l)

    InSections-later : (i n sym : ℕ) → InSections (i + 1) n sym → InSections i (suc n) sym
    InSections-later i n sym t = record {
      number = t.number;
      from = omega (arith, t.from);
      to = omega (arith, t.to);
      table = t.table;
      entry = t.entry;
    }

    InSections-skip :
        (i n : ℕ) (o : Option ℕ)
        → Answers (InSections (i + 1) n) o
        → ((sym : ℕ) → sh_type m (section i) ≡ 2 → ¬ InTable (symbols i) (names i) 0 (count i) sym)
        → Answers (InSections i (suc n)) o
    InSections-skip i n o h no' = Answers-widen _ _ o h (InSections-later i n) (λ sym t.
        elim (Bool-cases (t.number == i)) [
          | inl e ↦
              let same = ==→eq t.number i e in
              absurd (no' sym (rw same at t.table) (rw same at t.entry))
          | inr e ↦ record {
            number = t.number;
            from = ground (arith, t.from);
            to = omega (arith, t.to);
            table = t.table;
            entry = t.entry;
          }
        ])

    find_in_sections-Answers :
        (n i : ℕ)
        → SectionsEnd i n
        → (o : Option ℕ) × (find_in_sections fuel m ehdr name len n i ≡ some o)
          × Answers (InSections i n) o
    unfolding find_in_sections
    find_in_sections-Answers zero i ends = (none, refl, λ a t. absurd (omega (arith, t.from, t.to)))
    find_in_sections-Answers (suc n) i ends =
        let (o, rest, answers) =
          find_in_sections-Answers n (i + 1) (λ l lo hi. ends l (omega arith) (omega arith)) in
        elim (Bool-cases (sh_type m (section i) == 2)) [
          | inr other ↦ (
            o,
            rw other rest,
            InSections-skip i n o answers (λ sym e. absurd (==→ne _ _ other e)),
          )
          | inl table ↦
              let (o', run, found) =
                find_in_table-Answers (symbols i) (names i) (count i) 0
                  (ends i (omega arith) (omega arith) (==→eq _ _ table)) in
              elim (Option-cases o') [
                | inl e ↦ (
                  o,
                  rw (table, run, e, find_in_sections) rest,
                  InSections-skip i n o answers (λ sym same t. (rw e at found) sym t),
                )
                | inr (sym, e) ↦ (
                  some sym,
                  rw (table, run, e, find_in_sections) refl,
                  record {
                    number = i;
                    from = omega arith;
                    to = omega arith;
                    table = ==→eq _ _ table;
                    entry = rw e at found;
                  },
                )
              ]
        ]

    -- `mktxlo_elf_find_symbol` answers with a symbol of a SHT_SYMTAB section that has the name, and
    -- with NULL only if there is none, as long as every symbol's name ends within the fuel.
    pub elf_find_symbol-Answers :
        SectionsEnd 0 (e_shnum m ehdr)
        → (o : Option ℕ) × (elf_find_symbol fuel m ehdr name len ≡ some o)
          × Answers (InSections 0 (e_shnum m ehdr)) o
    unfolding elf_find_symbol
    elf_find_symbol-Answers ends = find_in_sections-Answers (e_shnum m ehdr) 0 ends
