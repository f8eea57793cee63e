-- ===== src/Image.antt =====
-- The client image of src/trustedlo_cfuncs.c: its integrity checks, the search for a symbol in the
-- ELF symbol tables, and the patching of symbols in the loaded program.
use libtrustedlo.Prelude.{
  ℕ, zero, suc, ◌+◌, ◌*◌, ◌/◌, ◌%◌, ◌^◌, Bool, true, false, ◌&&◌, ◌==◌, if◌then◌else◌, not, Option,
  none, some,
}
use libtrustedlo.Memory.{Memory, Difference, above, below, memcmp, memcpy, strlen_loop}
use libtrustedlo.Bytes.{read_le32, read_le64}
use libtrustedlo.Platform.{Status, no_error, failed_lookup, error, minus_one}
use libtrustedlo.Elf.{
  e_shoff, e_shnum, shdr_size, sh_type, sh_offset, sh_size, sh_link, sht_symtab, sym_size, st_name,
  st_value,
}
use libtrustedlo.Elf.Load.{Request, load_elf}
use libtrustedlo.Symb.{SymbHeader, Symbol, mktsymb_read, mktsymb_read_symbol}
pub mod Integrity
pub mod Search
pub mod Stable
pub mod Patch
pub mod Loading

abbrev pub protocon_image_magic : ℕ
protocon_image_magic = 0x5043_494d

-- Where the compiler puts the string literals ELFMAG and PROTOCON_MKTSYMB_MAGIC.
pub record Literals : Type 0 where
  pub elfmag : ℕ
  pub mktsymb_magic : ℕ

abbrev pub image_magic : Memory → ℕ → ℕ
image_magic m image = read_le32 m image

abbrev pub mktsymb_offset : Memory → ℕ → ℕ
mktsymb_offset m image = read_le64 m (image + 8)

abbrev pub elf_offset : Memory → ℕ → ℕ
elf_offset m image = read_le64 m (image + 24)

abbrev pub image_elf_size : Memory → ℕ → ℕ
image_elf_size m image = read_le64 m (image + 32)

unfoldable pub client_image_elf : Memory → ℕ → ℕ
client_image_elf m image = (image + elf_offset m image) % 2 ^ 64

unfoldable pub client_image_mktsymb : Memory → ℕ → ℕ
client_image_mktsymb m image = (image + mktsymb_offset m image) % 2 ^ 64

abbrev pub is_zero : Difference → Bool
is_zero (above zero) = true
is_zero (above (suc n)) = false
is_zero (below n) = false

unfoldable pub payload_check_integrity : Literals → Memory → ℕ → Status
payload_check_integrity lits m elf =
    if not (is_zero (memcmp m elf lits.elfmag 4)) then minus_one else no_error

unfoldable pub client_image_check_integrity : Literals → Memory → ℕ → Status
unfolding payload_check_integrity client_image_elf client_image_mktsymb
client_image_check_integrity lits m image =
    if not (image_magic m image == protocon_image_magic)
    then minus_one
    else if not (is_zero (memcmp m (client_image_mktsymb m image) lits.mktsymb_magic 8))
    then minus_one
    else payload_check_integrity lits m (client_image_elf m image)

-- The loaded program, or -1; `none` when the fuel of the ELF loader runs out.
unfoldable pub payload_load : ℕ → Request → Memory → Option (Status × Memory)
payload_load fuel r m = elim (load_elf fuel r m) [
  | none ↦ none
  | some (true, m') ↦ some (no_error, m')
  | some (false, m') ↦ some (minus_one, m')
]

-- `strlen(sym_name) == name_len && memcmp(sym_name, name, name_len) == 0`; `none` when the name
-- has no end within the fuel.
unfoldable pub symbol_named : ℕ → Memory → ℕ → ℕ → ℕ → Option Bool
symbol_named fuel m sym_name name name_len = elim (strlen_loop m fuel sym_name 0) [
  | none ↦ none
  | some len ↦ some (len == name_len && is_zero (memcmp m sym_name name name_len))
]

-- The inner loop over the symbols of one table, with its rounds left, from symbol `j`.
unfoldable pub find_in_table : ℕ → Memory → ℕ → ℕ → ℕ → ℕ → ℕ → ℕ → Option (Option ℕ)
find_in_table fuel m symtab strtab name name_len zero j = some none
find_in_table fuel m symtab strtab name name_len (suc n) j =
    let sym = symtab + j * sym_size in
    let rest = find_in_table fuel m symtab strtab name name_len n (j + 1) in
    elim (symbol_named fuel m (strtab + st_name m sym) name name_len) [
      | none ↦ none
      | some true ↦ some (some sym)
      | some false ↦ rest
    ]

-- The outer loop over the sections, with its rounds left, from section `i`.
unfoldable pub find_in_sections : ℕ → Memory → ℕ → ℕ → ℕ → ℕ → ℕ → Option (Option ℕ)
find_in_sections fuel m ehdr name name_len zero i = some none
find_in_sections fuel m ehdr name name_len (suc n) i =
    let table = (ehdr + e_shoff m ehdr) % 2 ^ 64 in
    let shdr = table + i * shdr_size in
    let strtab_hdr = table + sh_link m shdr * shdr_size in
    let rest = find_in_sections fuel m ehdr name name_len n (i + 1) in
    let here =
      find_in_table fuel m ((ehdr + sh_offset m shdr) % 2 ^ 64)
        ((ehdr + sh_offset m strtab_hdr) % 2 ^ 64) name name_len (sh_size m shdr / sym_size) 0 in
    if not (sh_type m shdr == sht_symtab)
    then rest
    else elim here [ none ↦ none | some none ↦ rest | some (some sym) ↦ some (some sym) ]

-- `mktxlo_elf_find_symbol`: the symbol's address, `some none` for NULL.
unfoldable pub elf_find_symbol : ℕ → Memory → ℕ → ℕ → ℕ → Option (Option ℕ)
elf_find_symbol fuel m ehdr name name_len =
    find_in_sections fuel m ehdr name name_len (e_shnum m ehdr) 0

-- The loop of `mktxlo_client_patch_symbols` with its rounds left, at symbol record `p`.
unfoldable pub patch_loop : ℕ → ℕ → ℕ → ℕ → Memory → Option (Status × Memory)
patch_loop fuel ehdr zero p m = some (no_error, m)
patch_loop fuel ehdr (suc n) p m =
    let symbol = (mktsymb_read_symbol m p).0 in
    let next = (mktsymb_read_symbol m p).1 in
    elim (elf_find_symbol fuel m ehdr symbol.name symbol.name_len) [
      | none ↦ none
      | some none ↦ some (minus_one, m)
      | some (some sym) ↦
          patch_loop fuel ehdr n next (memcpy (st_value m sym) symbol.contents symbol.data_len m)
    ]

unfoldable pub client_patch_symbols : ℕ → ℕ → Memory → Option (Status × Memory)
unfolding client_image_elf client_image_mktsymb
client_patch_symbols fuel image m =
    let header = mktsymb_read m (client_image_mktsymb m image) in
    patch_loop fuel (client_image_elf m image) header.symbol_cnt header.symbols m

-- The region that a program is loaded into.
pub record Region : Type 0 where
  pub base : ℕ
  pub size : ℕ

-- `mktxlo_client_image_load`, into the container's program region.
unfoldable pub client_image_load : ℕ → Region → ℕ → Memory → Option (Status × Memory)
unfolding client_image_elf
client_image_load fuel region image m =
    let r : Request = record {
      ehdr = client_image_elf m image;
      elf_size = image_elf_size m image;
      load_base = region.base;
      load_vaddr = region.base;
      load_size = region.size;
    } in
    elim (payload_load fuel r m) [
      | none ↦ none
      | some (no_error, m') ↦ client_patch_symbols fuel image m'
      | some (failed_lookup, m') ↦ some (failed_lookup, m')
      | some (error e, m') ↦ some (error e, m')
    ]
