-- ===== src/Print/Digits.antt =====
-- What the number printing writes.
use libtrustedlo.Prelude.{
  ℕ, zero, suc, ◌+◌, ◌-◌, ◌*◌, ◌/◌, ◌%◌, ◌^◌, ◌≡◌, ◌≢◌, ◌≤◌, ◌<◌, ◌∙◌, refl, sym, ap, ◌⊎◌, inl, inr,
  Bool, true, false, ◌==◌, if◌then◌else◌, ltb, some, List, [], ◌∷◌, ◌++◌, Bool-cases, ==→eq, ==→ne,
  arith,
}
use libtrustedlo.Print.{digit, putuint_loop, putuint}

-- The ASCII character of a digit: 0 to 9, then a to f or A to F.
pub data HexDigit : Bool → ℕ → ℕ → Type 0 where
  decimal : (upper : Bool) (d : ℕ) → d < 10 → HexDigit upper d (48 + d)
  lower_case : (d : ℕ) → d < 6 → HexDigit false (10 + d) (97 + d)
  upper_case : (d : ℕ) → d < 6 → HexDigit true (10 + d) (65 + d)

digit-HexDigit : (upper : Bool) (d : ℕ) → d < 16 → HexDigit upper d (digit upper d)
unfolding digit
digit-HexDigit upper d h = elim (Bool-cases (ltb d 10)) [
  | inl few ↦ rw few (decimal upper d (ground (arith, few)))
  | inr many ↦ rw many (letter upper (d - 10) d (ground (arith, many)) (ground (arith, many)))
]
  where
    letter :
        (upper : Bool) (x d : ℕ)
        → d ≡ 10 + x
        → x < 6
        → HexDigit upper d ((if upper then 65 else 97) + (d - 10))
    letter false x d e lt =
        let e' : d - 10 ≡ x = omega (arith, e) in rw e' (rw (← e) at (lower_case x lt))
    letter true x d e lt =
        let e' : d - 10 ≡ x = omega (arith, e) in rw e' (rw (← e) at (upper_case x lt))

-- The characters of a number in a base, without a leading zero but for 0 itself.
pub data Digits (base : ℕ) (upper : Bool) : ℕ → List ℕ → Type 0 where
  single : (d ch : ℕ) → d < base → HexDigit upper d ch → Digits base upper d (ch ∷ [])
  more :
      (v d ch : ℕ) (cs : List ℕ)
      → v ≢ 0
      → d < base
      → HexDigit upper d ch
      → Digits base upper v cs
      → Digits base upper (v * base + d) (cs ++ (ch ∷ []))

append_assoc : (xs ys zs : List ℕ) → (xs ++ ys) ++ zs ≡ xs ++ (ys ++ zs)
append_assoc [] ys zs = refl
append_assoc (x ∷ xs) ys zs = ap (λ l. x ∷ l) (append_assoc xs ys zs)

append_nil : (xs : List ℕ) → xs ++ [] ≡ xs
append_nil [] = refl
append_nil (x ∷ xs) = ap (λ l. x ∷ l) (append_nil xs)

abbrev power : ℕ → ℕ → ℕ
power base zero = 1
power base (suc n) = base * power base n

module _ (base : ℕ) (upper : Bool) (known : base ≤ 16)
    (less : (v q : ℕ) → v < base * q → v / base < q) (small : (v : ℕ) → v % base < base)
    (whole : (v : ℕ) → v / base * base + v % base ≡ v) where
  room : (i v : ℕ) → v ≢ 0 → v < power base i → 0 < i
  room zero v some_left h = absurd (some_left (omega (arith, h)))
  room (suc i) v some_left h = omega arith

  ch : (d : ℕ) → d < base → HexDigit upper d (digit upper d)
  ch d lt = digit-HexDigit upper d (omega (arith, lt, known))

  putuint_loop-Digits :
      (i val : ℕ) (buffer : List ℕ)
      → val < power base i
      → 0 < i
      → (cs : List ℕ) × (putuint_loop base upper i val buffer ≡ some (cs ++ buffer))
        × Digits base upper val cs
  unfolding putuint_loop
  putuint_loop-Digits zero val buffer h pos = absurd (omega (arith, pos))
  putuint_loop-Digits (suc i) val buffer h pos = elim (Bool-cases (val / base == 0)) [
    | inl e ↦
        let e' : val % base ≡ val = let w = rw (==→eq _ _ e) at (whole val) in omega (arith, w) in
        (
          digit upper val ∷ [],
          rw (e, e') refl,
          single val _ (rw e' at (small val)) (ch val (rw e' at (small val))),
        )
    | inr e ↦
        let (cs, run, rest) =
          putuint_loop-Digits i (val / base) (digit upper (val % base) ∷ buffer) (less val _ h)
            (room i (val / base) (==→ne _ _ e) (less val _ h)) in
        let all : Digits base upper (val / base * base + val % base)
            (cs ++ (digit upper (val % base) ∷ [])) =
          more (val / base) (val % base) _ cs (==→ne _ _ e) (small val)
            (ch (val % base) (small val)) rest in
        (
          cs ++ (digit upper (val % base) ∷ []),
          rw e run ∙ ap some (sym (append_assoc cs _ buffer)),
          rw (whole val) at all,
        )
  ]

-- The value of a hexadecimal character, and of a list of them behind a number.
abbrev pub hex_value : ℕ → ℕ
hex_value c = if ltb c 58 then c - 48 else c - 87

abbrev pub read_hex : ℕ → List ℕ → ℕ
read_hex acc [] = acc
read_hex acc (c ∷ cs) = read_hex (acc * 16 + hex_value c) cs

-- putuint never leaves its buffer: for a 64-bit number it writes the number's digits in base 10 or
-- 16, without a leading zero, as the characters 0 to 9 and a to f, or A to F for the upper case.
pub putuint-Digits :
    (base val : ℕ) (upper : Bool)
    → (base ≡ 10) ⊎ (base ≡ 16)
    → val < 2 ^ 64
    → (cs : List ℕ) × (putuint val base upper ≡ some cs) × Digits base upper val cs
unfolding putuint
putuint-Digits base val upper (inl e) h = rw e (
    let (cs, run, digits) =
      putuint_loop-Digits 10 upper (omega arith) (λ v q l. omega (arith, l)) (λ v. omega arith)
        (λ v. omega arith) 32 val [] (omega (arith, h)) (omega arith) in
    (cs, run ∙ ap some (append_nil cs), digits))
putuint-Digits base val upper (inr e) h = rw e (
    let (cs, run, digits) =
      putuint_loop-Digits 16 upper (omega arith) (λ v q l. omega (arith, l)) (λ v. omega arith)
        (λ v. omega arith) 32 val [] (omega (arith, h)) (omega arith) in
    (cs, run ∙ ap some (append_nil cs), digits))
