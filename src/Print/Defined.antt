-- ===== src/Print/Defined.antt =====
-- With enough arguments, what a format prints is defined.
use libtrustedlo.Prelude.{
  ℕ, ◌^◌, ◌≡◌, ◌≤◌, ◌<◌, refl, Option, none, some, List, [], ◌∷◌, ◌++◌, length, arith, inl, inr,
  Bool-cases, leb, ◌-◌, ◌%◌, map, true, false,
}
use libtrustedlo.Memory.{Memory}
use libtrustedlo.Print.{putint}
use libtrustedlo.Print.Digits.{putuint-Digits}
use libtrustedlo.Print.Format.{
  Call, dbg_putc, Conversion, convert, int_precision, unsigned_arg, signed_arg, put_string,
  hex_prefix, literal, dbg_puts, signed, unsigned, hex, upper_hex, pointer, string, char,
}
use libtrustedlo.Print.Spelling.{
  no_precision, star, digits, Piece, plain, percent, directive_of, joined, render, takes, decimal,
  AreWords,
}

-- Numbers of 64 bits.
unsigned_arg_fits : (size w : ℕ) → w < 2 ^ 64 → unsigned_arg size w < 2 ^ 64
unfolding unsigned_arg
unsigned_arg_fits size w h = ground arith

signed_arg_fits : (size w : ℕ) → w < 2 ^ 64 → signed_arg size w < 2 ^ 64
unfolding signed_arg
signed_arg_fits size w h = ground arith

putint_defined : (val : ℕ) → val < 2 ^ 64 → (cs : List ℕ) × (putint val ≡ some cs)
unfolding putint
putint_defined val h =
    let (cs, run, _) = putuint-Digits 10 val false (inl refl) h in
    let (cs', run', _) =
      putuint-Digits 10 ((2 ^ 64 - val) % 2 ^ 64) false (inl refl) (omega arith) in
    elim (Bool-cases (leb (2 ^ 63) val)) [
      | inl e ↦ (b'-' ∷ cs', rw (e, run') refl)
      | inr e ↦ (cs, rw (e, run) refl)
    ]

convert_defined :
    (m : Memory) (kind : Conversion) (precision : Option ℕ) (size w : ℕ)
    → w < 2 ^ 64
    → (calls : List Call) × (convert m kind precision size w ≡ some calls)
unfolding convert
convert_defined m signed precision size w h =
    let (cs, run) = putint_defined (signed_arg size w) (signed_arg_fits size w h) in
    (map dbg_putc cs, rw run refl)
convert_defined m unsigned precision size w h =
    let (cs, run, _) =
      putuint-Digits 10 (unsigned_arg size w) false (inl refl) (unsigned_arg_fits size w h) in
    (map dbg_putc cs, rw run refl)
convert_defined m hex precision size w h =
    let (cs, run, _) =
      putuint-Digits 16 (unsigned_arg size w) false (inr refl) (unsigned_arg_fits size w h) in
    (map dbg_putc cs, rw run refl)
convert_defined m upper_hex precision size w h =
    let (cs, run, _) =
      putuint-Digits 16 (unsigned_arg size w) true (inr refl) (unsigned_arg_fits size w h) in
    (map dbg_putc cs, rw run refl)
convert_defined m pointer precision size w h =
    let (cs, run, _) = putuint-Digits 16 w false (inr refl) h in
    (dbg_puts (literal hex_prefix) ∷ map dbg_putc cs, rw run refl)
convert_defined m string precision size w h = (put_string m precision w, refl)
convert_defined m char precision size w h = (dbg_putc (w % 256) ∷ [], refl)

joined_defined :
    (now rest : Option (List Call))
    → ((calls : List Call) × (now ≡ some calls))
    → ((calls : List Call) × (rest ≡ some calls))
    → (calls : List Call) × (joined now rest ≡ some calls)
joined_defined now rest (cs, run) (ds, more) = (cs ++ ds, rw (run, more) refl)

pub render_defined :
    (m : Memory) (pieces : List Piece) (args : List ℕ)
    → takes pieces ≤ length args
    → AreWords args
    → (calls : List Call) × (render m pieces args ≡ some calls)
render_defined m [] args enough words = ([], refl)
render_defined m (plain c ∷ pieces) args enough words =
    joined_defined (some (dbg_putc c ∷ [])) (render m pieces args) (dbg_putc c ∷ [], refl)
      (render_defined m pieces args enough words)
render_defined m (percent ∷ pieces) args enough words =
    joined_defined (some (dbg_putc b'%' ∷ [])) (render m pieces args) (dbg_putc b'%' ∷ [], refl)
      (render_defined m pieces args enough words)
render_defined m (directive_of no_precision size c kind ∷ pieces) (w ∷ args) enough (h, words) =
    joined_defined _ _ (convert_defined m kind none size w h)
      (render_defined m pieces args (omega (arith, enough)) words)
render_defined m (directive_of (digits ds) size c kind ∷ pieces) (w ∷ args) enough (h, words) =
    joined_defined _ _ (convert_defined m kind (some (decimal 0 ds)) size w h)
      (render_defined m pieces args (omega (arith, enough)) words)
render_defined m (directive_of star size c kind ∷ pieces) (v ∷ w ∷ args) enough (_, (h, words)) =
    joined_defined _ _ (convert_defined m kind (int_precision v) size w h)
      (render_defined m pieces args (omega (arith, enough)) words)
render_defined m _ _ enough words = absurd (omega (arith, enough))
