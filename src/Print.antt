-- ===== src/Print.antt =====
-- The number printing of src/miscutils.c. What goes to the debug console is a list of characters.
use libtrustedlo.Prelude.{
  ℕ, zero, suc, ◌+◌, ◌-◌, ◌/◌, ◌%◌, ◌^◌, Bool, true, false, ◌==◌, if◌then◌else◌, ltb, leb, Option,
  none, some, List, [], ◌∷◌, ◌++◌,
}
use libtrustedlo.Memory.{Memory, load}
pub mod Digits
pub mod Format
pub mod Defined
pub mod Prefix
pub mod Renders
pub mod Directives
pub mod Spelling

-- The character goes to seL4 where CONFIG_PRINTING is set, and nowhere else.
unfoldable pub putc : Bool → ℕ → List ℕ
putc printing ch = if printing then ch ∷ [] else []

-- The loop of puts on fuel.
unfoldable pub puts : Bool → Memory → ℕ → ℕ → Option (List ℕ)
unfolding putc
puts printing m zero s = none
puts printing m (suc n) s =
    let rest = puts printing m n (s + 1) in
    if load m s == 0
    then some []
    else elim rest [ none ↦ none | some cs ↦ some (putc printing (load m s) ++ cs) ]

-- "0123456789abcdef"[d], or its upper case.
unfoldable pub digit : Bool → ℕ → ℕ
digit upper d = if ltb d 10 then 48 + d else (if upper then 65 else 97) + (d - 10)

unfoldable pub hexchar : ℕ → ℕ
hexchar v = if ltb v 10 then 48 + v else (97 - 10) + v

-- The loop of puthex32 and puthex64 with its rounds left, and the characters behind.
unfoldable pub puthex_loop : ℕ → ℕ → List ℕ → List ℕ
puthex_loop zero val buffer = buffer
puthex_loop (suc i) val buffer = puthex_loop i (val / 16) (hexchar (val % 16) ∷ buffer)

unfoldable pub puthex32 : ℕ → List ℕ
puthex32 val = 48 ∷ 120 ∷ puthex_loop 8 val []

unfoldable pub puthex64 : ℕ → List ℕ
puthex64 val = 48 ∷ 120 ∷ puthex_loop 16 val []

-- The do loop of putuint with the room left in the buffer; `none` where it would write before it.
unfoldable pub putuint_loop : ℕ → Bool → ℕ → ℕ → List ℕ → Option (List ℕ)
putuint_loop base upper zero val buffer = none
putuint_loop base upper (suc i) val buffer =
    let buffer' = digit upper (val % base) ∷ buffer in
    let rest = putuint_loop base upper i (val / base) buffer' in
    if val / base == 0 then some buffer' else rest

unfoldable pub putuint : ℕ → ℕ → Bool → Option (List ℕ)
putuint val base upper = putuint_loop base upper 32 val []

-- The argument is the int64_t as a 64-bit word; `u = -(uint64_t)val` wraps.
unfoldable pub putint : ℕ → Option (List ℕ)
unfolding putuint
putint val =
    if leb (2 ^ 63) val
    then elim (putuint ((2 ^ 64 - val) % 2 ^ 64) 10 false) [
      | none ↦ none
      | some cs ↦ some (45 ∷ cs)
    ]
    else putuint val 10 false
