-- ===== src/Elf/Names.antt =====
-- `tsldr_miscutil_find_section_from_elf` of src/miscutils.c: the section with a name.
use libtrustedlo.Prelude.{
  ℕ, zero, suc, ◌+◌, ◌*◌, ◌≡◌, ◌≤◌, ◌<◌, ◌↔◌, refl, inl, inr, Bool, true, false, ◌==◌,
  if◌then◌else◌, leb, Option, none, some, Bool-cases, ==→eq, arith,
}
use libtrustedlo.Prelude.Answers.{Answers, Answers-widen}
use libtrustedlo.Memory.{Memory, above, below, Difference, strcmp_loop}
use libtrustedlo.Memory.Compare.{IsString, SameBytes}
use libtrustedlo.Memory.Strings.{strcmp_loop_iff, IsString-unique}
use libtrustedlo.Bytes.{read_le16, read_le32}
use libtrustedlo.Elf.{e_shoff, e_shnum, shdr_size, sh_offset, sh_size}

abbrev pub e_shstrndx : Memory → ℕ → ℕ
e_shstrndx m ehdr = read_le16 m (ehdr + 62)

abbrev pub sh_name : Memory → ℕ → ℕ
sh_name m shdr = read_le32 m shdr

-- The difference that strcmp returns is 0.
abbrev pub is_equal : Difference → Bool
is_equal (above zero) = true
is_equal _ = false

-- The loop with its rounds left, from section `i`; `none` where a name has no end within the fuel.
unfoldable pub find_section_loop : ℕ → Memory → ℕ → ℕ → ℕ → ℕ → ℕ → ℕ → Option (Option ℕ)
find_section_loop fuel m sh_table shstrtab shstr_size section zero i = some none
find_section_loop fuel m sh_table shstrtab shstr_size section (suc n) i =
    let sh = sh_table + i * shdr_size in
    let rest = find_section_loop fuel m sh_table shstrtab shstr_size section n (i + 1) in
    if leb shstr_size (sh_name m sh)
    then rest
    else elim (strcmp_loop m fuel 0 (shstrtab + sh_name m sh) section) [
      | none ↦ none
      | some difference ↦ if is_equal difference then some (some sh) else rest
    ]

-- The address of the section header; `some none` is NULL.
unfoldable pub find_section_from_elf : ℕ → Memory → ℕ → ℕ → Option (Option ℕ)
find_section_from_elf fuel m elf_base section =
    let sh_table = elf_base + e_shoff m elf_base in
    let shstr_sh = sh_table + e_shstrndx m elf_base * shdr_size in
    find_section_loop fuel m sh_table (elf_base + sh_offset m shstr_sh) (sh_size m shstr_sh) section
      (e_shnum m elf_base) 0

is_equal_iff : (d : Difference) → (is_equal d ≡ true) ↔ (d ≡ above 0)
is_equal_iff (above zero) = (λ e. refl, λ e. refl)
is_equal_iff (above (suc n)) = (λ e. absurd (cc), λ e. absurd (ground arith))
is_equal_iff (below n) = (λ e. absurd (cc), λ e. absurd (cc))

module _ (fuel : ℕ) (m : Memory) (sh_table shstrtab shstr_size section len : ℕ)
    (wanted : IsString m section len) where
  abbrev header_at : ℕ → ℕ
  header_at i = sh_table + i * 64

  abbrev name_at : ℕ → ℕ
  name_at i = shstrtab + sh_name m (header_at i)

  -- Section `i` has a name in the string table, and it is the wanted one.
  pub record HasName (i : ℕ) : Type 0 where
    pub in_table : sh_name m (header_at i) < shstr_size
    pub string : IsString m (name_at i) len
    pub same : SameBytes m (name_at i) section len

  -- The address is that of a section among the `n` from number `i` that has the name.
  pub record NamedSection (i n sh : ℕ) : Type 0 where
    pub number : ℕ
    pub from : i ≤ number
    pub to : number < i + n
    pub place : sh ≡ header_at number
    pub named : HasName number

  -- Every name in the string table ends within the fuel.
  abbrev pub NamesEnd : ℕ → ℕ → Type 0
  NamesEnd i n =
      (l : ℕ)
      → i ≤ l
      → l < i + n
      → sh_name m (header_at l) < shstr_size
      → (real : ℕ) × IsString m (name_at l) real × (real < fuel)

  NamedSection-skip :
      (i n : ℕ) (o : Option ℕ)
      → Answers (NamedSection (i + 1) n) o
      → ¬ HasName i
      → Answers (NamedSection i (suc n)) o
  NamedSection-skip i n o h other =
      Answers-widen _ _ o h
        (λ sh t. record {
          number = t.number;
          from = omega (arith, t.from);
          to = omega (arith, t.to);
          place = t.place;
          named = t.named;
        })
        (λ sh t. elim (Bool-cases (t.number == i)) [
          | inl e ↦ absurd (other (rw (==→eq t.number i e) at t.named))
          | inr e ↦ record {
            number = t.number;
            from = ground (arith, t.from);
            to = omega (arith, t.to);
            place = t.place;
            named = t.named;
          }
        ])

  find_section_loop-Answers :
      (n i : ℕ)
      → NamesEnd i n
      → (o : Option ℕ) × (find_section_loop fuel m sh_table shstrtab shstr_size section n i
          ≡ some o)
        × Answers (NamedSection i n) o
  unfolding find_section_loop
  find_section_loop-Answers zero i ends = (none, refl, λ sh t. absurd (omega (arith, t.from, t.to)))
  find_section_loop-Answers (suc n) i ends =
      let (o, rest, answers) =
        find_section_loop-Answers n (i + 1) (λ l lo hi. ends l (omega arith) (omega arith)) in
      elim (Bool-cases (leb shstr_size (sh_name m (header_at i)))) [
        | inl out ↦ (
          o,
          rw (out, find_section_loop) rest,
          NamedSection-skip i n o answers (λ t. ground (arith, out, t.in_table)),
        )
        | inr within ↦
            let (real, is, lt) = ends i (omega arith) (omega arith) (ground (arith, within)) in
            let (d, run, (to, from)) =
              strcmp_loop_iff m (name_at i) real section len is wanted fuel lt in
            elim (Bool-cases (is_equal d)) [
              | inl hit ↦
                  let (e, same) = to ((is_equal_iff d).0 hit) in
                  (
                    some (header_at i),
                    rw (within, run, hit, find_section_loop) refl,
                    record {
                      number = i;
                      from = omega arith;
                      to = omega arith;
                      place = refl;
                      named = record {
                        in_table = ground (arith, within);
                        string = rw e at is;
                        same = rw e at same;
                      };
                    },
                  )
              | inr miss ↦ (
                o,
                rw (within, run, miss, find_section_loop) rest,
                NamedSection-skip i n o answers (λ t.
                    let e = IsString-unique m (name_at i) real len is t.string in
                    absurd (cc (miss, (is_equal_iff d).1 (from (e, rw (← e) at t.same))))),
              )
            ]
      ]

module _ (fuel : ℕ) (m : Memory) (elf_base section len : ℕ) (wanted : IsString m section len) where
  abbrev table : ℕ
  table = elf_base + e_shoff m elf_base

  abbrev strings : ℕ
  strings = table + e_shstrndx m elf_base * 64

  abbrev pub AllNamesEnd : Type 0
  AllNamesEnd =
      NamesEnd fuel m table (elf_base + sh_offset m strings) (sh_size m strings) section len wanted
        0 (e_shnum m elf_base)

  abbrev pub SectionNamed : ℕ → Type 0
  SectionNamed =
      NamedSection fuel m table (elf_base + sh_offset m strings) (sh_size m strings) section len
        wanted 0 (e_shnum m elf_base)

  -- The search for a section by its name answers with a section header whose name in the string
  -- table is the wanted one, and with NULL only if there is none, as long as the wanted name is
  -- a string and the names in the string table end within the fuel.
  pub find_section_from_elf-Answers :
      AllNamesEnd
      → (o : Option ℕ) × (find_section_from_elf fuel m elf_base section ≡ some o)
        × Answers SectionNamed o
  unfolding find_section_from_elf
  find_section_from_elf-Answers ends =
      find_section_loop-Answers fuel m table (elf_base + sh_offset m strings) (sh_size m strings)
        section len wanted (e_shnum m elf_base) 0 ends
