-- ===== src/Print/Prefix.antt =====
-- A string that is printed with a precision.
use libtrustedlo.Prelude.{
  ℕ, zero, suc, ◌+◌, ◌≡◌, ◌≢◌, ◌≤◌, ◌<◌, ◌⊎◌, refl, ap, inl, inr, ◌==◌, List, [], ◌∷◌, arith,
  Bool-cases, ==→eq, ==→ne,
}
use libtrustedlo.Memory.{Memory}
use libtrustedlo.Print.Format.{Str, Call, dbg_putc, char_at, put_prefix}

-- The `n` characters from index `i`.
abbrev pub chars_from : Memory → Str → ℕ → ℕ → List Call
chars_from m s i zero = []
chars_from m s i (suc n) = dbg_putc (char_at m s i) ∷ chars_from m s (i + 1) n

-- What is printed of a string from index `i`: `k` characters, up to its end or the precision.
pub record Prefix (m : Memory) (s : Str) (precision i : ℕ) (calls : List Call) : Type 0 where
  pub k : ℕ
  pub within : k ≤ precision
  pub live : (j : ℕ) → i ≤ j → j < i + k → char_at m s j ≢ 0
  pub stops : (k ≡ precision) ⊎ (char_at m s (i + k) ≡ 0)
  pub printed : calls ≡ chars_from m s i k

put_prefix_from :
    (m : Memory) (s : Str) (precision i : ℕ) → Prefix m s precision i (put_prefix m s precision i)
unfolding put_prefix
put_prefix_from m s zero i = record {
  k = 0;
  within = omega arith;
  live = λ j lo hi. absurd (omega (arith, lo, hi));
  stops = inl refl;
  printed = refl;
}
put_prefix_from m s (suc precision) i = elim (Bool-cases (char_at m s i == 0)) [
  | inl e ↦
      let same : i + 0 ≡ i = omega arith in
      record {
        k = 0;
        within = omega arith;
        live = λ j lo hi. absurd (omega (arith, lo, hi));
        stops = inr (rw same (==→eq _ _ e));
        printed = rw e refl;
      }
  | inr e ↦
      let rest = put_prefix_from m s precision (i + 1) in
      let next : i + suc rest.k ≡ i + 1 + rest.k = omega arith in
      record {
        k = suc rest.k;
        within = omega (arith, rest.within);
        live = λ j lo hi. elim (Bool-cases (j == i)) [
          | inl here ↦ rw (==→eq j i here) (==→ne _ _ e)
          | inr later ↦ rest.live j (ground arith) (omega (arith, hi))
        ];
        stops = elim rest.stops [
          | inl full ↦ inl (omega (arith, full))
          | inr ended ↦ inr (rw next ended)
        ];
        printed = rw e (ap (λ l. dbg_putc (char_at m s i) ∷ l) rest.printed);
      }
]

-- A string that is printed with a precision is printed byte by byte from its start, up to its end
-- or to as many bytes as the precision says.
pub put_prefix-Prefix :
    (m : Memory) (s : Str) (precision : ℕ) → Prefix m s precision 0 (put_prefix m s precision 0)
put_prefix-Prefix m s precision = put_prefix_from m s precision 0
