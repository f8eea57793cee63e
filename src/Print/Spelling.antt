-- ===== src/Print/Spelling.antt =====
-- The formats that `tsldr_miscutil_dbg_print` is called with, as characters, directives and `%%`.
use libtrustedlo.Prelude.{
  ℕ, zero, suc, ◌+◌, ◌*◌, ◌^◌, ◌≡◌, ◌≢◌, ◌≤◌, ◌<◌, Option, none, some, List, [], ◌∷◌, ◌++◌, arith,
}
use libtrustedlo.Memory.{Memory, load}
use libtrustedlo.Print.Format.{
  Call, dbg_putc, Conversion, conversion, convert, int_precision, behind,
}

-- No precision, `.*`, or `.` and digits.
pub data PrecisionText : Type 0 where
  no_precision star : PrecisionText
  digits : List ℕ → PrecisionText

-- A directive has a precision, `l` up to twice, and the letter of its conversion.
pub data Piece : Type 0 where
  plain : ℕ → Piece
  percent : Piece
  directive_of : PrecisionText → ℕ → ℕ → Conversion → Piece

abbrev pub digit_chars : List ℕ → List ℕ
digit_chars [] = []
digit_chars (d ∷ ds) = (b'0' + d) ∷ digit_chars ds

abbrev pub spell_size : ℕ → List ℕ → List ℕ
spell_size zero rest = rest
spell_size (suc size) rest = b'l' ∷ spell_size size rest

abbrev pub spell_precision : PrecisionText → List ℕ → List ℕ
spell_precision no_precision rest = rest
spell_precision star rest = b'.' ∷ b'*' ∷ rest
spell_precision (digits ds) rest = b'.' ∷ (digit_chars ds ++ rest)

-- The characters of a piece, in front of the rest.
abbrev pub spell : Piece → List ℕ → List ℕ
spell (plain c) rest = c ∷ rest
spell percent rest = b'%' ∷ b'%' ∷ rest
spell (directive_of t size c kind) rest = b'%' ∷ spell_precision t (spell_size size (c ∷ rest))

abbrev pub spell_all : List Piece → List ℕ
spell_all [] = []
spell_all (piece ∷ pieces) = spell piece (spell_all pieces)

-- The number of decimal digits behind another one.
abbrev pub decimal : ℕ → List ℕ → ℕ
decimal acc [] = acc
decimal acc (d ∷ ds) = decimal (acc * 10 + d) ds

abbrev pub AreDigits : List ℕ → Type 0
AreDigits [] = Unit
AreDigits (d ∷ ds) = (d < 10) × AreDigits ds

-- The precision is an int.
abbrev pub IsPrecision : PrecisionText → Type 0
IsPrecision (digits ds) = AreDigits ds × (decimal 0 ds < 2 ^ 31)
IsPrecision _ = Unit

abbrev pub IsPiece : Piece → Type 0
IsPiece (plain c) = (c ≢ 0) × (c ≢ b'%')
IsPiece percent = Unit
IsPiece (directive_of t size c kind) = IsPrecision t × (size ≤ 2) × (conversion c ≡ some kind)

abbrev pub ArePieces : List Piece → Type 0
ArePieces [] = Unit
ArePieces (piece ∷ pieces) = IsPiece piece × ArePieces pieces

-- The characters and a 0 behind them, from an address.
abbrev pub Holds : Memory → ℕ → List ℕ → Type 0
Holds m f [] = load m f ≡ 0
Holds m f (c ∷ cs) = (load m f ≡ c) × Holds m (f + 1) cs

abbrev pub joined : Option (List Call) → Option (List Call) → Option (List Call)
joined none rest = none
joined (some calls) rest = behind calls rest

-- Each piece in order, each directive on the next arguments.
abbrev pub render : Memory → List Piece → List ℕ → Option (List Call)
render m [] args = some []
render m (plain c ∷ pieces) args = behind (dbg_putc c ∷ []) (render m pieces args)
render m (percent ∷ pieces) args = behind (dbg_putc b'%' ∷ []) (render m pieces args)
render m (directive_of no_precision size c kind ∷ pieces) [] = none
render m (directive_of no_precision size c kind ∷ pieces) (w ∷ args) =
    joined (convert m kind none size w) (render m pieces args)
render m (directive_of (digits ds) size c kind ∷ pieces) [] = none
render m (directive_of (digits ds) size c kind ∷ pieces) (w ∷ args) =
    joined (convert m kind (some (decimal 0 ds)) size w) (render m pieces args)
render m (directive_of star size c kind ∷ pieces) [] = none
render m (directive_of star size c kind ∷ pieces) (v ∷ []) = none
render m (directive_of star size c kind ∷ pieces) (v ∷ w ∷ args) =
    joined (convert m kind (int_precision v) size w) (render m pieces args)

-- What a directive's letter cannot be.
pub record IsLetter (c : ℕ) : Type 0 where
  pub some_left : c ≢ 0
  pub no_l : c ≢ b'l'
  pub no_point : c ≢ b'.'
  pub above : b'9' < c

pub conversion-IsLetter : (c : ℕ) (kind : Conversion) → conversion c ≡ some kind → IsLetter c
unfolding conversion
conversion-IsLetter c kind e = record {
  some_left = ground arith;
  no_l = ground arith;
  no_point = ground arith;
  above = ground arith;
}

-- The arguments that the directives take, and words of 64 bits.
abbrev pub takes : List Piece → ℕ
takes [] = 0
takes (directive_of star size c kind ∷ pieces) = takes pieces + 2
takes (directive_of t size c kind ∷ pieces) = takes pieces + 1
takes (_ ∷ pieces) = takes pieces

abbrev pub AreWords : List ℕ → Type 0
AreWords [] = Unit
AreWords (w ∷ ws) = (w < 2 ^ 64) × AreWords ws
