-- ===== src/Tests/Symbols.antt =====
-- A section table with one symbol, a request to encode and the client's arguments.
use libtrustedlo.Prelude.{
  ℕ, zero, suc, ◌*◌, ◌≡◌, ◌↔◌, refl, false, not, ◌&&◌, ◌||◌, ◌==◌, arith, Option, some, [], ◌∷◌,
  if◌then◌else◌,
}
use libtrustedlo.Memory.{Memory, Difference, above, strcmp_loop}
use libtrustedlo.Memory.Copy.{inside}
use libtrustedlo.Memory.Compare.{IsString, SameBytes}
use libtrustedlo.Bytes.{read_le16, read_le32, read_le64}
use libtrustedlo.Ctxt.{Kind, notifications, ppcs, used, Ctxt}
use libtrustedlo.Args.{
  ClientArgs, fill_client_args, bits_of, microkit_notifications, microkit_pps,
  bitmap_opt_notifications, bitmap_opt_ppcs,
}
use libtrustedlo.Args.Bitmaps.{Low, fill_client_args_iff, in_use}
use libtrustedlo.Args.Client.{client_args-bits}
use libtrustedlo.Args.{write_client_args}
use libtrustedlo.Bytes.{read_le64}
use libtrustedlo.Elf.{e_shnum}
use libtrustedlo.Image.{elf_find_symbol}
use libtrustedlo.Image.Search.{SectionsEnd, InSections, elf_find_symbol-Answers}
use libtrustedlo.Prelude.Answers.{Answers}
use libtrustedlo.Elf.Names.{
  AllNamesEnd, SectionNamed, find_section_from_elf, find_section_from_elf-Answers,
}
use libtrustedlo.Memory.Strings.{strcmp_loop_iff}
use libtrustedlo.Elf.Section.{Fetches, fetch_elf_section_with_vaddr, fetch-Fetches}
use libtrustedlo.Request.{XrtReq, prepare_xrt_req_list}
use libtrustedlo.Request.Encode.{Words, Encoded, total, prepare_xrt_req_list-Encoded}
use libtrustedlo.Tests.Store.{bytes, memory, info}
use libtrustedlo.Tests.Rounds.{fresh_ctxt}

-- Section 0 is a SHT_SYMTAB of one symbol at 4096 + 300, section 1 its strings at 4096 + 400; the
-- symbol's name is the one byte 'a' at offset 1, and so is the name at 64.
abbrev table : Memory
table = bytes (
    (4136, 100)
    ∷ (4156, 2)
    ∷ (4200, 2)
    ∷ (4220, 44)
    ∷ (4221, 1)
    ∷ (4228, 24)
    ∷ (4236, 1)
    ∷ (4158, 1)
    ∷ (4260, 1)
    ∷ (4292, 8)
    ∷ (4284, 144)
    ∷ (4285, 1)
    ∷ (4396, 1)
    ∷ (4497, 97)
    ∷ (64, 97)
    ∷ [])

name-IsString : IsString table 4497 1
name-IsString = record { ends = refl; before = λ i lt. ground arith }

table-SectionsEnd : SectionsEnd 8 table 64 1 4096 0 (e_shnum table 4096)
unfolding read_le16 read_le32 read_le64
table-SectionsEnd zero lo hi t zero lo' hi' = (1, name-IsString, omega arith)
table-SectionsEnd zero lo hi t (suc l) lo' hi' = absurd (omega (arith, hi'))
table-SectionsEnd (suc zero) lo hi t l lo' hi' = absurd (cc t)
table-SectionsEnd (suc (suc k)) lo hi t l lo' hi' = absurd (omega (arith, hi))

elf_find_symbol-Answers_example :
    (o : Option ℕ) × (elf_find_symbol 8 table 4096 64 1 ≡ some o)
    × Answers (InSections 8 table 64 1 4096 0 (e_shnum table 4096)) o
elf_find_symbol-Answers_example = elf_find_symbol-Answers 8 table 64 1 4096 table-SectionsEnd

fetch-Fetches_example : Fetches table 4096 5 0 (fetch_elf_section_with_vaddr table 4096 5)
fetch-Fetches_example = fetch-Fetches table 4096 5

wanted_name-IsString : IsString table 64 1
wanted_name-IsString = record { ends = refl; before = λ i lt. ground arith }

table-AllNamesEnd : AllNamesEnd 8 table 4096 64 1 wanted_name-IsString
unfolding read_le16 read_le32 read_le64
table-AllNamesEnd zero lo hi in_table =
    (0, record { ends = refl; before = λ i lt. absurd (omega (arith, lt)) }, omega arith)
table-AllNamesEnd (suc zero) lo hi in_table = (1, name-IsString, omega arith)
table-AllNamesEnd (suc (suc k)) lo hi in_table = absurd (omega (arith, hi))

find_section_from_elf-Answers_example :
    (o : Option ℕ) × (find_section_from_elf 8 table 4096 64 ≡ some o)
    × Answers (SectionNamed 8 table 4096 64 1 wanted_name-IsString) o
find_section_from_elf-Answers_example =
    find_section_from_elf-Answers 8 table 4096 64 1 wanted_name-IsString table-AllNamesEnd

abbrev one : ℕ
one = 1

strcmp_loop_iff_example :
    (d : Difference) × (strcmp_loop table 8 0 4497 64 ≡ some d)
    × ((d ≡ above 0) ↔ ((one ≡ one) × SameBytes table 4497 64 1))
strcmp_loop_iff_example =
    strcmp_loop_iff table 4497 1 64 1 name-IsString wanted_name-IsString 8 (omega arith)

-- Two notifications and a mapping.
abbrev wanted : XrtReq
wanted = record {
  num_req_notifications = 2;
  num_req_ppcs = 0;
  num_req_irqs = 0;
  num_req_ioports = 0;
  num_req_mappings = 1;
  req_notifications = λ i. if i == 0 then 3 else 7;
  req_ppcs = λ i. 0;
  req_irqs = λ i. 0;
  req_ioports = λ i. 0;
  req_mappings = λ i. 0x4_0000_0000;
}

wanted-Words : Words wanted
wanted-Words = record {
  ntfns = λ j. ground arith;
  ppcs = λ j. omega arith;
  irqs = λ j. omega arith;
  ioports = λ j. omega arith;
  mappings = λ j. omega arith;
}

prepare_xrt_req_list-Encoded_example :
    Encoded 8208 wanted (prepare_xrt_req_list 8208 wanted memory)
    × ((q : ℕ)
        → inside 8208 (total wanted * 16) q ≡ false
        → prepare_xrt_req_list 8208 wanted memory q ≡ memory q)
prepare_xrt_req_list-Encoded_example = prepare_xrt_req_list-Encoded 8208 wanted memory wanted-Words

-- Channel 3 is in use.
abbrev busy : Ctxt
busy = record fresh_ctxt { states = λ kind i. if i == 3 then used else 0 }

busy-Low : (kind : Kind) → Low (busy.states kind) 0 62
busy-Low kind j h = ground arith

busy_args : (args : ClientArgs) × (fill_client_args 62 memory info busy ≡ some args)
busy_args = (fill_client_args_iff 62 memory info busy).1 (busy-Low notifications, busy-Low ppcs)

client_args-bits_example :
    let args = write_client_args 20480 busy_args.0 memory in
    (bits_of (read_le64 args (20488)) 3 ≡ (
      bits_of (microkit_notifications memory info) 3
        && not (bits_of (bitmap_opt_notifications memory info) 3)
      || in_use (busy.states notifications) 0 62 3))
    × (bits_of (read_le64 args (20496)) 3 ≡ (
        bits_of (microkit_pps memory info) 3 && not (bits_of (bitmap_opt_ppcs memory info) 3)
        || in_use (busy.states ppcs) 0 62 3))
client_args-bits_example =
    client_args-bits 62 memory info busy busy_args.0 busy_args.1 20480 memory 3 (omega arith)

-- Channel 31 is in use, and the shift that marks it is undefined.
abbrev high : Ctxt
high = record fresh_ctxt { states = λ kind i. if i == 31 then used else 0 }

fill_client_args_iff_example :
    ((args : ClientArgs) × (fill_client_args 62 memory info high ≡ some args))
    ↔ (Low (high.states notifications) 0 62 × Low (high.states ppcs) 0 62)
fill_client_args_iff_example = fill_client_args_iff 62 memory info high
