-- ===== src/Print/Format.antt =====
-- `tsldr_miscutil_dbg_print` of src/miscutils.c. The output is the list of the calls that reach the
-- debug console; the arguments behind the format are a list of 64-bit words.
use libtrustedlo.Prelude.{
  ℕ, zero, suc, ◌+◌, ◌-◌, ◌*◌, ◌%◌, ◌^◌, true, false, ◌&&◌, ◌||◌, not, ◌==◌, if◌then◌else◌, ltb,
  leb, Option, none, some, List, [], ◌∷◌, ◌++◌, map,
}
use libtrustedlo.Memory.{Memory, load}
use libtrustedlo.Print.{putuint, putint}

-- A string is a literal of the code or lies in memory.
pub data Str : Type 0 where
  literal : List ℕ → Str
  at_address : ℕ → Str

pub data Call : Type 0 where
  dbg_putc : ℕ → Call
  dbg_puts : Str → Call

-- What an iteration leaves: its calls, the format's rest and the arguments' rest.
pub record Printed : Type 0 where
  pub calls : List Call
  pub format : ℕ
  pub args : List ℕ

-- A literal ends in a 0.
abbrev pub literal_at : List ℕ → ℕ → ℕ
literal_at [] i = 0
literal_at (c ∷ cs) zero = c
literal_at (c ∷ cs) (suc i) = literal_at cs i

abbrev pub char_at : Memory → Str → ℕ → ℕ
char_at m (literal cs) i = literal_at cs i
char_at m (at_address s) i = load m (s + i)

-- `while (*s && precision-- > 0)`, with the precision left.
unfoldable pub put_prefix : Memory → Str → ℕ → ℕ → List Call
put_prefix m s zero i = []
put_prefix m s (suc precision) i =
    let rest = put_prefix m s precision (i + 1) in
    if char_at m s i == 0 then [] else dbg_putc (char_at m s i) ∷ rest

-- `va_arg(args, int)`; a negative precision is no precision.
unfoldable pub int_precision : ℕ → Option ℕ
int_precision w = if leb (2 ^ 31) (w % 2 ^ 32) then none else some (w % 2 ^ 32)

-- `va_arg` of an unsigned and of a signed type of the length; long and long long have 64 bits.
unfoldable pub unsigned_arg : ℕ → ℕ → ℕ
unsigned_arg size w = if size == 0 then w % 2 ^ 32 else w

unfoldable pub signed_arg : ℕ → ℕ → ℕ
signed_arg size w =
    if size == 0
    then if leb (2 ^ 31) (w % 2 ^ 32) then w % 2 ^ 32 + (2 ^ 64 - 2 ^ 32) else w % 2 ^ 32
    else w

abbrev pub chars : Option (List ℕ) → Option (List Call)
chars none = none
chars (some cs) = some (map dbg_putc cs)

abbrev pub behind : List Call → Option (List Call) → Option (List Call)
behind calls none = none
behind calls (some rest) = some (calls ++ rest)

-- "0x" and "(null)".
abbrev pub hex_prefix : List ℕ
hex_prefix = 48 ∷ 120 ∷ []

abbrev pub null_text : List ℕ
null_text = 40 ∷ 110 ∷ 117 ∷ 108 ∷ 108 ∷ 41 ∷ []

unfoldable pub put_string : Memory → Option ℕ → ℕ → List Call
unfolding put_prefix
put_string m none w = dbg_puts (if w == 0 then literal null_text else at_address w) ∷ []
put_string m (some precision) w =
    put_prefix m (if w == 0 then literal null_text else at_address w) precision 0

-- The cases of the switch that take an argument; `none` for another character.
pub data Conversion : Type 0 where
  signed unsigned hex upper_hex pointer string char : Conversion

unfoldable pub conversion : ℕ → Option Conversion
conversion c =
    if c == b'd' || c == b'i'
    then some signed
    else if c == b'u'
    then some unsigned
    else if c == b'x'
    then some hex
    else if c == b'X'
    then some upper_hex
    else if c == b'p'
    then some pointer
    else if c == b's'
    then some string
    else if c == b'c'
    then some char
    else none

unfoldable pub convert : Memory → Conversion → Option ℕ → ℕ → ℕ → Option (List Call)
unfolding putuint putint put_string unsigned_arg signed_arg
convert m signed precision size w = chars (putint (signed_arg size w))
convert m unsigned precision size w = chars (putuint (unsigned_arg size w) 10 false)
convert m hex precision size w = chars (putuint (unsigned_arg size w) 16 false)
convert m upper_hex precision size w = chars (putuint (unsigned_arg size w) 16 true)
convert m pointer precision size w =
    behind (dbg_puts (literal hex_prefix) ∷ []) (chars (putuint w 16 false))
convert m string precision size w = some (put_string m precision w)
convert m char precision size w = some (dbg_putc (w % 256) ∷ [])

-- `while (*format >= '0' && *format <= '9')` on fuel; an int that overflows is undefined.
unfoldable pub precision_loop : Memory → ℕ → ℕ → ℕ → Option (ℕ × ℕ)
precision_loop m zero precision f = none
precision_loop m (suc n) precision f =
    let more = precision * 10 + (load m f - b'0') in
    let rest = precision_loop m n more (f + 1) in
    if leb b'0' (load m f) && leb (load m f) b'9'
    then if ltb more (2 ^ 31) then rest else none
    else some (precision, f)

-- The precision, the format behind it and the arguments left.
pub record Precision : Type 0 where
  pub precision : Option ℕ
  pub format : ℕ
  pub args : List ℕ

abbrev star_precision : ℕ → List ℕ → Option Precision
star_precision f [] = none
star_precision f (w ∷ args) = some (record { precision = int_precision w; format = f; args = args })

abbrev digit_precision : List ℕ → Option (ℕ × ℕ) → Option Precision
digit_precision args none = none
digit_precision args (some (n, f)) = some (record { precision = some n; format = f; args = args })

unfoldable pub read_precision : Memory → ℕ → ℕ → List ℕ → Option Precision
unfolding int_precision precision_loop
read_precision m n f args =
    if not (load m f == b'.')
    then some (record { precision = none; format = f; args = args })
    else if load m (f + 1) == b'*'
    then star_precision (f + 2) args
    else digit_precision args (precision_loop m n 0 (f + 1))

-- The length, 0 to 2, and the format behind it.
unfoldable pub read_length : Memory → ℕ → ℕ × ℕ
read_length m f =
    if not (load m f == b'l')
    then (0, f)
    else if not (load m (f + 1) == b'l')
    then (1, f + 1)
    else (2, f + 2)

-- `if (*format) { format++; }`
abbrev pub advance : Memory → ℕ → ℕ
advance m f = if load m f == 0 then f else f + 1

abbrev pub printed_behind : ℕ → List ℕ → Option (List Call) → Option Printed
printed_behind f args none = none
printed_behind f args (some calls) = some (record { calls = calls; format = f; args = args })

abbrev with_arg : Memory → Conversion → Option ℕ → ℕ → ℕ → List ℕ → Option Printed
with_arg m kind precision size f [] = none
with_arg m kind precision size f (w ∷ args) =
    printed_behind f args (convert m kind precision size w)

abbrev without_arg : ℕ → List Call
without_arg c = if c == b'%' || c == 0 then dbg_putc b'%' ∷ [] else dbg_putc b'%' ∷ dbg_putc c ∷ []

-- The switch on `*format`, and the step behind it.
unfoldable pub switch_on : Memory → Option Conversion → Option ℕ → ℕ → ℕ → List ℕ → Option Printed
unfolding convert
switch_on m (some kind) precision size f args = with_arg m kind precision size (advance m f) args
switch_on m none precision size f args =
    some (record { calls = without_arg (load m f); format = advance m f; args = args })

abbrev directive_behind : Memory → Option Precision → Option Printed
directive_behind m none = none
directive_behind m (some r) =
    let size = read_length m r.format in
    switch_on m (conversion (load m size.1)) r.precision size.0 size.1 r.args

-- The loop's body behind a `%`.
unfoldable pub directive : Memory → ℕ → ℕ → List ℕ → Option Printed
unfolding read_precision read_length conversion switch_on
directive m n f args = directive_behind m (read_precision m n f args)

-- The loop's body on a character of the format.
unfoldable pub print_one : Memory → ℕ → ℕ → List ℕ → Option Printed
unfolding directive
print_one m n f args =
    if not (load m f == b'%')
    then some (record { calls = dbg_putc (load m f) ∷ []; format = f + 1; args = args })
    else directive m n (f + 1) args

-- On fuel; `none` also where the code is undefined: too few arguments, or too large a precision.
unfoldable pub dbg_print : Memory → ℕ → ℕ → List ℕ → Option (List Call)
unfolding print_one
dbg_print m zero f args = none
dbg_print m (suc n) f args = if load m f == 0 then some [] else elim (print_one m n f args) [
  | none ↦ none
  | some r ↦ behind r.calls (dbg_print m n r.format r.args)
]
