-- ===== src/Tests/Numbers.antt =====
-- Printed numbers.
use libtrustedlo.Prelude.{ℕ, ◌-◌, ◌^◌, ◌≡◌, refl, inl, false, arith, some, List, [], ◌∷◌}
use libtrustedlo.Print.{digit, putuint, putuint_loop, putint}
use libtrustedlo.Print.Digits.{Digits, putuint-Digits}

putuint-Digits_example : (cs : List ℕ) × (putuint 2026 10 false ≡ some cs) × Digits 10 false 2026 cs
putuint-Digits_example = putuint-Digits 10 2026 false (inl refl) (omega arith)

-- The word of -12 is printed as "-12".
minus_twelve : putint (2 ^ 64 - 12) ≡ some (45 ∷ 49 ∷ 50 ∷ [])
unfolding putint putuint putuint_loop digit
minus_twelve = refl
