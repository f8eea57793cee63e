-- ===== src/Print/Directives.antt =====
-- How the loop of `tsldr_miscutil_dbg_print` reads a piece of the format.
use libtrustedlo.Prelude.{
  ℕ, zero, suc, ◌+◌, ◌-◌, ◌*◌, ◌^◌, ◌≡◌, ◌≢◌, ◌≤◌, ◌<◌, ◌∙◌, sym, Option, none, some, List, [], ◌∷◌,
  ◌++◌, length, arith,
}
use libtrustedlo.Memory.{Memory, load}
use libtrustedlo.Print.Format.{
  Conversion, conversion, convert, int_precision, precision_loop, read_precision, read_length,
  switch_on, directive, printed_behind, advance, print_one,
}
use libtrustedlo.Print.Spelling.{
  digits, digit_chars, spell_size, decimal, AreDigits, IsPrecision, Holds, IsLetter,
  conversion-IsLetter,
}

decimal_grows : (ds : List ℕ) (acc : ℕ) → acc ≤ decimal acc ds
decimal_grows [] acc = omega arith
decimal_grows (d ∷ ds) acc = omega (arith, decimal_grows ds (acc * 10 + d))

precision_loop-decimal :
    (m : Memory) (ds rest : List ℕ) (c n acc f : ℕ)
    → AreDigits ds
    → decimal acc ds < 2 ^ 31
    → length ds < n
    → b'9' < c
    → Holds m f (digit_chars ds ++ (c ∷ rest))
    → (g : ℕ) × (precision_loop m n acc f ≡ some (decimal acc ds, g)) × Holds m g (c ∷ rest)
unfolding precision_loop
precision_loop-decimal m ds rest c zero acc f ok small fuel letter h = absurd (omega arith)
precision_loop-decimal m [] rest c (suc n) acc f ok small fuel letter h =
    (f, ground (arith, h.0), h)
precision_loop-decimal m (d ∷ ds) rest c (suc n) acc f (digit, ok) small fuel letter (e, h) =
    let (g, run, held) =
      precision_loop-decimal m ds rest c n (acc * 10 + d) (f + 1) ok small (omega arith) letter h in
    let grows = decimal_grows ds (acc * 10 + d) in
    let value : acc * 10 + (load m f - b'0') ≡ acc * 10 + d = omega (arith, e) in
    (g, ground (arith, e, value, run, grows), held)

read_length-size :
    (m : Memory) (size c f : ℕ) (rest : List ℕ)
    → size ≤ 2
    → c ≢ b'l'
    → Holds m f (spell_size size (c ∷ rest))
    → (g : ℕ) × (read_length m f ≡ (size, g)) × Holds m g (c ∷ rest)
unfolding read_length
read_length-size m zero c f rest le other h = (f, ground (arith, h.0), h)
read_length-size m (suc zero) c f rest le other (e, h) = (f + 1, ground (arith, e, h.0), h)
read_length-size m (suc (suc zero)) c f rest le other (e, (e', h)) =
    let two : f + 1 + 1 ≡ f + 2 = omega arith in (f + 1 + 1, rw two (ground (arith, e, e')), h)
read_length-size m (suc (suc (suc size))) c f rest le other h = absurd (omega arith)

-- The precision that is read, and the arguments and the format behind it.
abbrev pub Reads : Memory → ℕ → ℕ → List ℕ → Option ℕ → List ℕ → List ℕ → Type 0
Reads m n f args precision args' rest =
    (g : ℕ) × (read_precision m n f args
      ≡ some (record { precision = precision; format = g; args = args' }))
    × Holds m g rest

head_of_size :
    (m : Memory) (size c f : ℕ) (rest : List ℕ)
    → IsLetter c
    → Holds m f (spell_size size (c ∷ rest))
    → load m f ≢ b'.'
head_of_size m zero c f rest l (e, h) z = l.no_point (sym e ∙ z)
head_of_size m (suc size) c f rest l (e, h) z = absurd (omega (arith, e, z))

pub read_no_precision :
    (m : Memory) (size c n f : ℕ) (args rest : List ℕ)
    → IsLetter c
    → Holds m f (spell_size size (c ∷ rest))
    → Reads m n f args none args (spell_size size (c ∷ rest))
unfolding read_precision
read_no_precision m size c n f args rest l h =
    (f, ground (arith, head_of_size m size c f rest l h), h)

pub read_star :
    (m : Memory) (n f v : ℕ) (args rest : List ℕ)
    → Holds m f (b'.' ∷ b'*' ∷ rest)
    → Reads m n f (v ∷ args) (int_precision v) args rest
unfolding read_precision
read_star m n f v args rest (e, (e', h)) =
    let two : f + 1 + 1 ≡ f + 2 = omega arith in (f + 1 + 1, rw two (ground (arith, e, e')), h)

pub read_digits :
    (m : Memory) (size c n f : ℕ) (ds args rest : List ℕ)
    → IsLetter c
    → IsPrecision (digits ds)
    → length ds < n
    → Holds m f (b'.' ∷ (digit_chars ds ++ spell_size size (c ∷ rest)))
    → Reads m n f args (some (decimal 0 ds)) args (spell_size size (c ∷ rest))
unfolding read_precision
read_digits m size c n f ds args rest l (ok, small) fuel (e, h) =
    let (g, run, held) = behind_digits size h in
    (g, ground (arith, e, no_star ds size h, run), held)
  where
    behind_digits :
        (size : ℕ)
        → Holds m (f + 1) (digit_chars ds ++ spell_size size (c ∷ rest))
        → (g : ℕ) × (precision_loop m n 0 (f + 1) ≡ some (decimal 0 ds, g))
          × Holds m g (spell_size size (c ∷ rest))
    behind_digits zero h = precision_loop-decimal m ds rest c n 0 (f + 1) ok small fuel l.above h
    behind_digits (suc size) h =
        precision_loop-decimal m ds (spell_size size (c ∷ rest)) b'l' n 0 (f + 1) ok small fuel
          (omega arith) h

    no_star :
        (ds : List ℕ) (size : ℕ)
        → Holds m (f + 1) (digit_chars ds ++ spell_size size (c ∷ rest))
        → load m (f + 1) ≢ b'*'
    no_star [] zero (e, h) z = absurd (omega (arith, e, z, l.above))
    no_star [] (suc size) (e, h) z = absurd (omega (arith, e, z))
    no_star (d ∷ ds) size (e, h) z = absurd (omega (arith, e, z))

-- A directive takes its argument behind its precision's, and the format goes on behind its letter.
pub print_one-directive :
    (m : Memory) (size c n f w : ℕ) (kind : Conversion) (precision : Option ℕ)
    (args args' rest : List ℕ)
    → size ≤ 2
    → conversion c ≡ some kind
    → load m f ≡ b'%'
    → Reads m n (f + 1) args precision (w ∷ args') (spell_size size (c ∷ rest))
    → (g : ℕ) × (print_one m n f args ≡ printed_behind g args' (convert m kind precision size w))
      × Holds m g rest
unfolding print_one directive switch_on
print_one-directive m size c n f w kind precision args args' rest le letter e (g, run, held) =
    let l = conversion-IsLetter c kind letter in
    let (h, sized, (last, behind_letter)) = read_length-size m size c g rest le l.no_l held in
    let kind_of : conversion (load m h) ≡ some kind = rw last letter in
    let more : advance m h ≡ h + 1 = ground (arith, last, l.some_left) in
    (h + 1, ground (arith, e, run, sized, kind_of, more), behind_letter)
