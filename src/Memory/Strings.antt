-- ===== src/Memory/Strings.antt =====
-- When `tsldr_miscutil_strcmp` returns 0.
use libtrustedlo.Prelude.{
  ℕ, zero, suc, ◌+◌, ◌≡◌, ◌≤◌, ◌<◌, ◌↔◌, inl, inr, ◌==◌, ltb, some, Bool-cases, ==→eq, ==→ne, arith,
}
use libtrustedlo.Memory.{Memory, load, above, Difference, diff, strcmp_loop}
use libtrustedlo.Memory.Compare.{IsString, SameBytes}

-- Two strings at one address have one length.
pub IsString-unique : (m : Memory) (s a b : ℕ) → IsString m s a → IsString m s b → a ≡ b
IsString-unique m s a b x y = elim (Bool-cases (ltb a b)) [
  | inl lt ↦ absurd (y.before a (ground arith) x.ends)
  | inr le ↦ elim (Bool-cases (ltb b a)) [
    | inl lt ↦ absurd (x.before b (ground arith) y.ends)
    | inr ge ↦ ground arith
  ]
]

-- The strings of `la` bytes at `a` and `lb` bytes at `b` are the same from index `i`.
abbrev pub SameFrom : Memory → ℕ → ℕ → ℕ → ℕ → ℕ → Type 0
SameFrom m a la b lb i = (la ≡ lb) × ((j : ℕ) → i ≤ j → j < la → load m (a + j) ≡ load m (b + j))

diff_zero_iff : (x y : ℕ) → (diff x y ≡ above 0) ↔ (x ≡ y)
diff_zero_iff x y = (λ h. ground arith, λ e. ground arith)

-- Within a string only its end is 0.
end_of : (m : Memory) (s len i : ℕ) → IsString m s len → i ≤ len → load m (s + i) ≡ 0 → i ≡ len
end_of m s len i is le e = elim (Bool-cases (i == len)) [
  | inl same ↦ ==→eq i len same
  | inr differ ↦ absurd (is.before i (ground arith) e)
]

at_end : (m : Memory) (s len i : ℕ) → IsString m s len → i ≡ len → load m (s + i) ≡ 0
at_end m s len i is e = rw e is.ends

module _ (m : Memory) (a la b lb : ℕ) (left : IsString m a la) (right : IsString m b lb) where
  strcmp_loop-SameFrom :
      (f i : ℕ)
      → i ≤ la
      → i ≤ lb
      → la < i + f
      → (d : Difference) × (strcmp_loop m f i a b ≡ some d)
        × (d ≡ above 0 → SameFrom m a la b lb i)
        × (SameFrom m a la b lb i → d ≡ above 0)
  unfolding strcmp_loop
  strcmp_loop-SameFrom zero i x y h = absurd (omega arith)
  strcmp_loop-SameFrom (suc f) i x y h = elim (Bool-cases (i == la)) [
    | inl e ↦
        let zero_a = at_end m a la i left (==→eq i la e) in
        let d = diff (load m (a + i)) (load m (b + i)) in
        (
          d,
          ground (arith, zero_a),
          (λ z.
              let e' = end_of m b lb i right y (ground (arith, zero_a, (diff_zero_iff _ _).0 z)) in
              (ground (arith, e, e'), λ j lo hi. absurd (ground (arith, e)))),
          (λ (same, rest).
              let zero_b = at_end m b lb i right (ground (arith, e, same)) in
              (diff_zero_iff _ _).1 (ground (arith, zero_a, zero_b))),
        )
    | inr inside ↦ elim (Bool-cases (i == lb)) [
      | inl e ↦
          let zero_b = at_end m b lb i right (==→eq i lb e) in
          (
            diff (load m (a + i)) (load m (b + i)),
            ground (arith, zero_b),
            (λ z.
                let e' = end_of m a la i left x (ground (arith, zero_b, (diff_zero_iff _ _).0 z)) in
                absurd (ground (arith, inside, e'))),
            (λ (same, rest). absurd (ground (arith, inside, e, same))),
          )
      | inr inside' ↦ elim (Bool-cases (load m (a + i) == load m (b + i))) [
        | inl same ↦
            let (d, run, to, from) =
              strcmp_loop-SameFrom f (i + 1) (ground arith) (ground arith) (omega arith) in
            let more_a = left.before i (ground arith) in
            let more_b = right.before i (ground arith) in
            (
              d,
              ground (arith, more_a, more_b, same, run),
              (λ z. (
                (to z).0,
                λ j lo hi. elim (Bool-cases (j == i)) [
                  | inl here ↦ rw (==→eq j i here) (==→eq _ _ same)
                  | inr later ↦ (to z).1 j (ground arith) hi
                ],
              )),
              (λ (e, rest). from (e, λ j lo hi. rest j (omega arith) hi)),
            )
        | inr differ ↦ (
          diff (load m (a + i)) (load m (b + i)),
          ground (arith, differ),
          (λ z. absurd (==→ne _ _ differ ((diff_zero_iff _ _).0 z))),
          (λ (e, rest). absurd (==→ne _ _ differ (rest i (omega arith) (ground arith)))),
        )
      ]
    ]
  ]

  -- On two strings strcmp returns, and it returns 0 exactly if they have the same length and bytes.
  pub strcmp_loop_iff :
      (f : ℕ)
      → la < f
      → (d : Difference) × (strcmp_loop m f 0 a b ≡ some d)
        × ((d ≡ above 0) ↔ ((la ≡ lb) × SameBytes m a b la))
  strcmp_loop_iff f h =
      let (d, run, to, from) = strcmp_loop-SameFrom f 0 (omega arith) (omega arith) (omega arith) in
      (
        d,
        run,
        (
          (λ z. ((to z).0, λ j lt. (to z).1 j (omega arith) lt)),
          λ (e, same). from (e, λ j lo hi. same j hi),
        ),
      )
