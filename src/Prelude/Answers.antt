-- ===== src/Prelude/Answers.antt =====
-- What a search answers: nothing, or one of the numbers it is looking for.
use Prim.Native.Nat.{ℕ}
use mathlib.Core.Option.{Option, none, some}

-- What a search answers for the property `R`.
abbrev pub Answers : (ℕ → Type 0) → Option ℕ → Type 0
Answers R none = (a : ℕ) → ¬ R a
Answers R (some a) = R a

-- An answer for a smaller property is one for a larger, which holds of nothing more.
pub Answers-widen :
    (R S : ℕ → Type 0) (o : Option ℕ)
    → Answers R o
    → ((a : ℕ) → R a → S a)
    → ((a : ℕ) → S a → R a)
    → Answers S o
Answers-widen R S none h f g = λ a x. h a (g a x)
Answers-widen R S (some a) h f g = f a h
