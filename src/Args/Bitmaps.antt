-- ===== src/Args/Bitmaps.antt =====
-- When `mktxlo_fill_client_args` is defined, and the bits that it then sets.
use libtrustedlo.Prelude.{
  ℕ, zero, suc, ◌+◌, ◌≡◌, ◌<◌, ◌∙◌, refl, sym, ◌↔◌, inl, inr, Bool, true, false, ◌&&◌, ◌||◌, not,
  ◌==◌, ltb, Option, none, some, arith, Bool-cases, Option-cases, ap, [],
}
use libtrustedlo.Memory.{Memory}
use libtrustedlo.Memory.Copy.{inside}
use libtrustedlo.Ctxt.{notifications, ppcs, used, Ctxt}
use libtrustedlo.Args.{
  Bits, bits_of, shift_one, no_bits, mark, mark_loop, merge_bits, ClientArgs, fill_client_args,
  microkit_notifications, bitmap_opt_notifications, microkit_pps, bitmap_opt_ppcs, microkit_irqs,
  microkit_ioports,
}

-- The bit of a channel in use among the `n` from `i`.
abbrev pub in_use : (ℕ → ℕ) → ℕ → ℕ → ℕ → Bool
in_use states i n j = inside i n j && states j == used

-- No channel in use among the `n` from `i` is 31 or above.
abbrev pub Low : (ℕ → ℕ) → ℕ → ℕ → Type 0
Low states i n = (j : ℕ) → in_use states i n j ≡ true → j < 31

mark_lem :
    (states : ℕ → ℕ) (i : ℕ) (b : Bits)
    → (states i ≡ used → i < 31)
    → (b' : Bits) × (mark states i b ≡ some b')
      × ((j : ℕ) → b' j ≡ (b j || (j == i && states i == used)))
unfolding mark shift_one
mark_lem states i b low = elim (Bool-cases (states i == used)) [
  | inl yes' ↦ elim (Bool-cases (ltb i 31)) [
    | inl small ↦ ((λ j. b j || j == i), rw (yes', small), λ j. ground (arith, yes'))
    | inr large ↦ absurd (ground (arith, low))
  ]
  | inr no' ↦ (b, rw no', λ j. ground (arith, no'))
]

next :
    (states : ℕ → ℕ) (i n j : ℕ) (x : Bool)
    → ((x || (j == i && states i == used)) || in_use states (i + 1) n j)
      ≡ (x || in_use states i (suc n) j)
next states i n j x = ground arith

Low-next : (states : ℕ → ℕ) (i n : ℕ) → Low states i (suc n) → Low states (i + 1) n
Low-next states i n l j h = l j (ground arith)

Low-here : (states : ℕ → ℕ) (i n : ℕ) → Low states i (suc n) → states i ≡ used → i < 31
Low-here states i n l e = l i (ground arith)

Low-back :
    (states : ℕ → ℕ) (i n : ℕ)
    → (states i ≡ used → i < 31)
    → Low states (i + 1) n
    → Low states i (suc n)
Low-back states i n here l j h = elim (Bool-cases (j == i)) [
  | inl e ↦ ground (arith, here)
  | inr e ↦ l j (ground arith)
]

mark_low :
    (states : ℕ → ℕ) (i : ℕ) (b b' : Bits) → mark states i b ≡ some b' → states i ≡ used → i < 31
unfolding mark shift_one
mark_low states i b b' h e = ground arith

module _ (c : Ctxt) where
  mark_loop_lem :
      (n i : ℕ) (a b : Bits)
      → Low (c.states notifications) i n
      → Low (c.states ppcs) i n
      → (a' b' : Bits) × (mark_loop c n i a b ≡ some (a', b'))
        × ((j : ℕ) → a' j ≡ (a j || in_use (c.states notifications) i n j))
        × ((j : ℕ) → b' j ≡ (b j || in_use (c.states ppcs) i n j))
  unfolding mark_loop
  mark_loop_lem zero i a b l k = (a, b, refl, λ j. ground arith, λ j. ground arith)
  mark_loop_lem (suc n) i a b l k =
      let (a₁, run, at) =
        mark_lem (c.states notifications) i a (Low-here (c.states notifications) i n l) in
      let (b₁, run', at') = mark_lem (c.states ppcs) i b (Low-here (c.states ppcs) i n k) in
      let (a₂, b₂, run₂, at₂, at₂') =
        mark_loop_lem n (i + 1) a₁ b₁ (Low-next (c.states notifications) i n l)
          (Low-next (c.states ppcs) i n k) in
      (
        a₂,
        b₂,
        rw (run, run') run₂,
        λ j.
            at₂ j
            ∙ (ap (λ x. x || in_use (c.states notifications) (i + 1) n j) (at j)
                ∙ next (c.states notifications) i n j (a j)),
        λ j.
            at₂' j
            ∙ (ap (λ x. x || in_use (c.states ppcs) (i + 1) n j) (at' j)
                ∙ next (c.states ppcs) i n j (b j)),
      )

  mark_loop-Low :
      (n i : ℕ) (a b a' b' : Bits)
      → mark_loop c n i a b ≡ some (a', b')
      → Low (c.states notifications) i n × Low (c.states ppcs) i n
  unfolding mark_loop
  mark_loop-Low zero i a b a' b' h = (λ j e. absurd (ground arith), λ j e. absurd (ground arith))
  mark_loop-Low (suc n) i a b a' b' h = elim (Option-cases (mark (c.states notifications) i a)) [
    | inl e ↦ absurd (cc (rw e at h))
    | inr (a₁, e) ↦ elim (Option-cases (mark (c.states ppcs) i b)) [
      | inl f ↦ absurd (cc (rw (e, f) at h))
      | inr (b₁, f) ↦
          let (l, k) = mark_loop-Low n (i + 1) a₁ b₁ a' b' (rw (e, f) at h) in
          (
            Low-back (c.states notifications) i n (mark_low (c.states notifications) i a a₁ e) l,
            Low-back (c.states ppcs) i n (mark_low (c.states ppcs) i b b₁ f) k,
          )
    ]
  ]

-- A bit of what `mktxlo_fill_client_args` leaves, 0 where it is not defined.
abbrev bit_of : (ClientArgs → Bits) → Option ClientArgs → ℕ → Bool
bit_of field none j = false
bit_of field (some args) j = field args j

merge_at :
    (all opt marked : Bits) (j : ℕ) (x : Bool)
    → marked j ≡ x
    → merge_bits all opt marked j ≡ (all j && not (opt j) || x)
merge_at all opt marked j x e = ap (λ y. all j && not (opt j) || y) e

module _ (n : ℕ) (m : Memory) (info : ℕ) (c : Ctxt) where
  abbrev filled : Bits → Bits → ClientArgs
  filled a b = record {
    bitmap_notifications =
        merge_bits (bits_of (microkit_notifications m info))
          (bits_of (bitmap_opt_notifications m info)) a;
    bitmap_ppcs = merge_bits (bits_of (microkit_pps m info)) (bits_of (bitmap_opt_ppcs m info)) b;
    bitmap_irqs = bits_of (microkit_irqs m info);
    bitmap_ioports = bits_of (microkit_ioports m info);
    dynamic_pd_name = [];
  }

  filled_lem :
      (a b : Bits)
      → mark_loop c n 0 no_bits no_bits ≡ some (a, b)
      → fill_client_args n m info c ≡ some (filled a b)
  unfolding fill_client_args
  filled_lem a b run = rw (run, fill_client_args) refl

  filled_at :
      (args : ClientArgs) (a b : Bits)
      → mark_loop c n 0 no_bits no_bits ≡ some (a, b)
      → fill_client_args n m info c ≡ some args
      → (field : ClientArgs → Bits) (j : ℕ) → field args j ≡ field (filled a b) j
  filled_at args a b run h field j = ap (λ o. bit_of field o j) (sym h ∙ filled_lem a b run)

  -- `mktxlo_fill_client_args` is defined exactly if no notification channel and no protected
  -- procedure channel that is in use, among the first `n`, is 31 or above.
  pub fill_client_args_iff :
      ((args : ClientArgs) × (fill_client_args n m info c ≡ some args))
      ↔ (Low (c.states notifications) 0 n × Low (c.states ppcs) 0 n)
  unfolding fill_client_args
  fill_client_args_iff = (
    λ (args, h). elim (Option-cases (mark_loop c n 0 no_bits no_bits)) [
      | inl e ↦ absurd (cc (rw (e, fill_client_args) at h))
      | inr (ab, e) ↦ mark_loop-Low c n 0 no_bits no_bits ab.0 ab.1 e
    ],
    λ (l, k).
        let (a, b, run, at, at') = mark_loop_lem c n 0 no_bits no_bits l k in
        (filled a b, filled_lem a b run),
  )

  -- When `mktxlo_fill_client_args` is defined, a notification bit of the client's arguments is set
  -- exactly if it is a Microkit notification that is not optional or an optional one in use, and
  -- the same holds for the protected procedures.
  pub fill_client_args-bits :
      (args : ClientArgs)
      → fill_client_args n m info c ≡ some args
      → (j : ℕ)
      → (args.bitmap_notifications j ≡ (
          bits_of (microkit_notifications m info) j
            && not (bits_of (bitmap_opt_notifications m info) j)
          || in_use (c.states notifications) 0 n j))
        × (args.bitmap_ppcs j ≡ (
            bits_of (microkit_pps m info) j && not (bits_of (bitmap_opt_ppcs m info) j)
            || in_use (c.states ppcs) 0 n j))
  unfolding fill_client_args
  fill_client_args-bits args h j =
      let (l, k) = fill_client_args_iff.0 (args, h) in
      let (a, b, run, at, at') = mark_loop_lem c n 0 no_bits no_bits l k in
      (
        filled_at args a b run h (λ r. r.bitmap_notifications) j
            ∙ merge_at (bits_of (microkit_notifications m info))
                (bits_of (bitmap_opt_notifications m info)) a j _ (at j),
        filled_at args a b run h (λ r. r.bitmap_ppcs) j
            ∙ merge_at (bits_of (microkit_pps m info)) (bits_of (bitmap_opt_ppcs m info)) b j _
                (at' j),
      )
