-- ===== src/Tests/Formats.antt =====
-- Formats and what they print.
use libtrustedlo.Prelude.{ℕ, ◌+◌, ◌≡◌, map, refl, arith, some, List, [], ◌∷◌, ◌++◌}
use libtrustedlo.Memory.{Memory}
use libtrustedlo.Print.{digit, putuint, putuint_loop}
use libtrustedlo.Print.Format.{
  at_address, Call, dbg_putc, unsigned, hex, string, conversion, convert, int_precision, put_prefix,
  put_string, unsigned_arg, precision_loop, read_precision, read_length, switch_on, directive,
  print_one, dbg_print,
}
use libtrustedlo.Print.Prefix.{Prefix, put_prefix-Prefix}
use libtrustedlo.Print.Renders.{dbg_print-renders}
use libtrustedlo.Print.Spelling.{
  Piece, plain, percent, directive_of, no_precision, star, digits, spell_all, render,
}
use libtrustedlo.Tests.Store.{bytes}

-- The characters from an address.
abbrev text : ℕ → List ℕ → List (ℕ × ℕ)
text a [] = []
text a (c ∷ cs) = (a, c) ∷ text (a + 1) cs

-- "n%lu %.*s%%%.2x", with the name "sym_put" at 64 without an end behind its 3 first bytes.
abbrev pieces : List Piece
pieces =
    plain b'n'
    ∷ directive_of no_precision 1 b'u' unsigned
    ∷ plain b' '
    ∷ directive_of star 0 b's' string
    ∷ percent
    ∷ directive_of (digits (2 ∷ [])) 0 b'x' hex
    ∷ []

abbrev formats : Memory
formats =
    bytes
      (text 16 (spell_all pieces) ++ text 64 (b's' ∷ b'y' ∷ b'm' ∷ b'_' ∷ b'p' ∷ b'u' ∷ b't' ∷ []))

abbrev args : List ℕ
args = 42 ∷ 3 ∷ 64 ∷ 0x1_0000_00ff ∷ []

dbg_print-renders_example :
    (calls : List Call) × (dbg_print formats 20 16 args ≡ some calls)
    × (render formats pieces args ≡ some calls)
unfolding conversion
dbg_print-renders_example =
    dbg_print-renders formats pieces 20 16 args (ground arith) (omega arith) (ground arith)
      (ground arith) (omega arith)

-- It prints "n42 sym%ff": %x reads 32 bits and takes no notice of the precision.
prints :
    dbg_print formats 20 16 args
    ≡ some (map dbg_putc (b'n' ∷ b'4' ∷ b'2' ∷ b' ' ∷ b's' ∷ b'y' ∷ b'm' ∷ b'%' ∷ b'f' ∷ b'f' ∷ []))
unfolding dbg_print print_one directive read_precision read_length switch_on conversion convert
    int_precision put_prefix put_string unsigned_arg precision_loop putuint putuint_loop digit
prints = refl

put_prefix-Prefix_example :
    Prefix formats (at_address 64) 3 0 (put_prefix formats (at_address 64) 3 0)
put_prefix-Prefix_example = put_prefix-Prefix formats (at_address 64) 3
