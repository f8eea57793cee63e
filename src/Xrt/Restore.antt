-- ===== src/Xrt/Restore.antt =====
-- The loop XRT_RESTORE of src/xrt.c over one kind of channel, for any operation that copies into the
-- kind's own slots.
use libtrustedlo.Xrt.Channels.{with_states, same_kind_refl, on_kernel-done}
use libtrustedlo.Prelude.{
  ℕ, zero, suc, ◌+◌, ◌≡◌, ◌≢◌, ◌≤◌, ◌<◌, ◌∙◌, refl, ap, inl, inr, Bool, true, false, ◌&&◌, ◌||◌,
  ◌==◌, if◌then◌else◌, not, none, arith, Bool-cases, Option-cases,
}
use libtrustedlo.Memory.Copy.{inside}
use libtrustedlo.Platform.{Platform, Cmd, done}
use libtrustedlo.Cap.CSpace.{CSpace, Copies}
use libtrustedlo.Ctxt.{unset, used, keep, Kind, same_kind, set_state}
use libtrustedlo.Xrt.{Machine, restore_one, restore_loop}

module _ {K : Type 0} (p : Platform K) (c : CSpace p) (field : Kind) (base : ℕ)
    (check : ℕ → Bool) where
  open c use {slot, backup, granted}

  -- Channel `j` of the `n` from `i` is one that the restoration fills from the backup.
  abbrev pub filled : ℕ → ℕ → Machine K → ℕ → Bool
  filled i n s j =
      inside i n j
      && not (s.ctxt.states field j == keep)
      && not (s.ctxt.states field j == unset)
      && check j

  -- Channel `j` ends as a held one: filled now, or kept.
  abbrev pub taken : ℕ → ℕ → Machine K → ℕ → Bool
  taken i n s j = filled i n s j || inside i n j && (s.ctxt.states field j == keep)

  pub record Restored (i n : ℕ) (s t : Machine K) : Type 0 where
    pub states :
        (k : Kind) (j : ℕ)
        → t.ctxt.states k j
          ≡ (if same_kind k field && taken i n s j then used else s.ctxt.states k j)
    pub slots :
        (j : ℕ)
        → slot t.kernel (base + j)
          ≡ (if filled i n s j then backup s.kernel (base + j) else slot s.kernel (base + j))
    pub others : (a : ℕ) → inside (base + i) n a ≡ false → slot t.kernel a ≡ slot s.kernel a
    pub backups : (a : ℕ) → backup t.kernel a ≡ backup s.kernel a
    pub granted : granted t.kernel ≡ granted s.kernel
    pub rest : t.ctxt ≡ with_states s.ctxt t.ctxt.states

  -- Every channel to be filled has an empty slot and a backup.
  pub record Fillable (i n : ℕ) (s : Machine K) : Type 0 where
    pub empty : (j : ℕ) → filled i n s j ≡ true → slot s.kernel (base + j) ≡ none
    pub full : (j : ℕ) → filled i n s j ≡ true → backup s.kernel (base + j) ≢ none

  Restored-same : (i : ℕ) (s : Machine K) → taken i 1 s i ≡ false → Restored i 1 s s
  Restored-same i s h = record {
    states = λ k j. ground (arith, h);
    slots = λ j. ground (arith, h);
    others = λ a out. refl;
    backups = λ a. refl;
    granted = refl;
    rest = refl;
  }

  Restored-trans :
      (i n : ℕ) (s t u : Machine K)
      → Restored i 1 s t
      → Restored (i + 1) n t u
      → Restored i (suc n) s u
  Restored-trans i n s t u a b = record {
    states =
        λ k j. ground (arith, a.states k j, a.states field j, b.states k j, same_kind_refl field);
    slots = λ j.
        ground (
          arith,
          a.slots j,
          a.states field j,
          b.slots j,
          a.backups (base + j),
          same_kind_refl field,
        );
    others = λ q h. b.others q (ground arith) ∙ a.others q (ground arith);
    backups = λ q. b.backups q ∙ a.backups q;
    granted = b.granted ∙ a.granted;
    rest = b.rest ∙ ap (λ x. with_states x u.ctxt.states) a.rest;
  }

  Fillable-next :
      (i n : ℕ) (s t : Machine K) → Fillable i (suc n) s → Restored i 1 s t → Fillable (i + 1) n t
  Fillable-next i n s t f a = record {
    empty = λ j h. ground (arith, a.slots j, a.states field j, f.empty j, same_kind_refl field);
    full = λ j h e.
        ground (arith, a.backups (base + j), a.states field j, f.full j, same_kind_refl field);
  }

  module _ (restore : ℕ → Cmd K (Unit {0})) (copies : Copies p c base restore) where
    restore_filled :
        (i n : ℕ) (s : Machine K)
        → granted s.kernel ≡ true
        → i < p.max_channels
        → Fillable i (suc n) s
        → (s.ctxt.states field i == keep) ≡ false
        → (s.ctxt.states field i == unset) ≡ false
        → check i ≡ true
        → (t : Machine K) × (restore_one field check restore i s ≡ done tt t) × Restored i 1 s t
    unfolding restore_one set_state
    restore_filled i n s on h f other wanted known =
        let now : filled i (suc n) s i ≡ true = ground arith in
        elim (Option-cases (backup s.kernel (base + i))) [
          | inl e ↦ absurd (f.full i now e)
          | inr (cap, e) ↦
              let (k', run, put, same, kept) = copies i s.kernel cap on h (f.empty i now) e in
              (
                record { kernel = k'; ctxt = set_state field s.ctxt i used },
                rw (other, wanted, known)
                    (on_kernel-done (restore i) (λ x. set_state field x i used) s k' run),
                record {
                  states = λ k j. ground arith;
                  slots = λ j. ground (arith, put (base + j), e);
                  others = λ a out. ground (arith, put a);
                  backups = same;
                  granted = kept;
                  rest = refl;
                },
              )
        ]

    restore_one-Restored :
        (i n : ℕ) (s : Machine K)
        → granted s.kernel ≡ true
        → i < p.max_channels
        → Fillable i (suc n) s
        → (t : Machine K) × (restore_one field check restore i s ≡ done tt t) × Restored i 1 s t
    unfolding restore_one set_state
    restore_one-Restored i n s on h f = elim (Bool-cases (s.ctxt.states field i == keep)) [
      | inl kept ↦ (
        record s { ctxt = set_state field s.ctxt i used },
        rw kept,
        record {
          states = λ k j. ground arith;
          slots = λ j. ground arith;
          others = λ a out. refl;
          backups = λ a. refl;
          granted = refl;
          rest = refl;
        },
      )
      | inr other ↦ elim (Bool-cases (s.ctxt.states field i == unset)) [
        | inl free ↦ (s, rw (other, free), Restored-same i s (ground arith))
        | inr wanted ↦ elim (Bool-cases (check i)) [
          | inr unknown ↦ (s, rw (other, wanted, unknown), Restored-same i s (ground arith))
          | inl known ↦ restore_filled i n s on h f other wanted known
        ]
      ]
    ]

    -- If `restore` copies into the slots of the kind, the delegation CNode is granted, and every
    -- channel to fill has an empty slot and a backup, the restoration returns: those channels get their backup, they and the kept ones
    -- become used, and all else stays.
    pub restore_loop-Restored :
        (n i : ℕ) (s : Machine K)
        → granted s.kernel ≡ true
        → i + n ≤ p.max_channels
        → Fillable i n s
        → (t : Machine K) × (restore_loop field check restore n i s ≡ done tt t) × Restored i n s t
    unfolding restore_loop
    restore_loop-Restored zero i s on h f = (
      s,
      refl,
      record {
        states = λ k j. ground arith;
        slots = λ j. ground arith;
        others = λ a out. refl;
        backups = λ a. refl;
        granted = refl;
        rest = refl;
      },
    )
    restore_loop-Restored (suc n) i s on h f =
        let (t, first, one) = restore_one-Restored i n s on (omega arith) f in
        let (u, later, more) =
          restore_loop-Restored n (i + 1) t (one.granted ∙ on) (omega arith)
            (Fillable-next i n s t f one) in
        (u, rw first later, Restored-trans i n s t u one more)
