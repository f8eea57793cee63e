-- ===== src/Xrt/Revoke.antt =====
-- The loop XRT_REVOKE of src/xrt.c over one kind of channel, for any operation that deletes from the
-- kind's own slots.
use libtrustedlo.Xrt.Channels.{with_states, same_kind_refl, on_kernel-done}
use libtrustedlo.Prelude.{
  ℕ, zero, suc, ◌+◌, ◌≡◌, ◌≤◌, ◌<◌, ◌∙◌, refl, ap, inl, inr, Bool, true, false, ◌&&◌, ◌==◌,
  if◌then◌else◌, none, arith, Bool-cases,
}
use libtrustedlo.Memory.Copy.{inside}
use libtrustedlo.Platform.{Platform, Cmd, done}
use libtrustedlo.Cap.CSpace.{CSpace, Deletes}
use libtrustedlo.Ctxt.{unset, used, Kind, same_kind, set_state}
use libtrustedlo.Xrt.{Machine, revoke_one, revoke_loop}

module _ {K : Type 0} (p : Platform K) (c : CSpace p) (field : Kind) (base : ℕ)
    (check : ℕ → Bool) where
  open c use {slot, backup, granted}

  -- Channel `j` of the `n` from `i` is one whose capability the revocation deletes.
  abbrev pub revoked : ℕ → ℕ → Machine K → ℕ → Bool
  revoked i n s j = inside i n j && (s.ctxt.states field j == used) && check j

  pub record Revoked (i n : ℕ) (s t : Machine K) : Type 0 where
    pub states :
        (k : Kind) (j : ℕ)
        → t.ctxt.states k j
          ≡ (if same_kind k field && revoked i n s j then unset else s.ctxt.states k j)
    pub slots :
        (j : ℕ)
        → slot t.kernel (base + j) ≡ (if revoked i n s j then none else slot s.kernel (base + j))
    pub others : (a : ℕ) → inside (base + i) n a ≡ false → slot t.kernel a ≡ slot s.kernel a
    pub backups : (a : ℕ) → backup t.kernel a ≡ backup s.kernel a
    pub granted : granted t.kernel ≡ granted s.kernel
    pub rest : t.ctxt ≡ with_states s.ctxt t.ctxt.states

  -- Nothing is deleted where the one channel is not held or not delegated.
  Revoked-same : (i : ℕ) (s : Machine K) → revoked i 1 s i ≡ false → Revoked i 1 s s
  Revoked-same i s h = record {
    states = λ k j. ground (arith, h);
    slots = λ j. ground (arith, h);
    others = λ a out. refl;
    backups = λ a. refl;
    granted = refl;
    rest = refl;
  }

  Revoked-trans :
      (i n : ℕ) (s t u : Machine K)
      → Revoked i 1 s t
      → Revoked (i + 1) n t u
      → Revoked i (suc n) s u
  Revoked-trans i n s t u a b = record {
    states =
        λ k j. ground (arith, a.states k j, a.states field j, b.states k j, same_kind_refl field);
    slots = λ j. ground (arith, a.slots j, a.states field j, b.slots j, same_kind_refl field);
    others = λ q h. b.others q (ground arith) ∙ a.others q (ground arith);
    backups = λ q. b.backups q ∙ a.backups q;
    granted = b.granted ∙ a.granted;
    rest = b.rest ∙ ap (λ x. with_states x u.ctxt.states) a.rest;
  }

  module _ (revoke : ℕ → Cmd K (Unit {0})) (deletes : Deletes p c base revoke) where
    revoke_one-Revoked :
        (i : ℕ) (s : Machine K)
        → granted s.kernel ≡ true
        → i < p.max_channels
        → (t : Machine K) × (revoke_one field check revoke i s ≡ done tt t) × Revoked i 1 s t
    unfolding revoke_one set_state
    revoke_one-Revoked i s on h = elim (Bool-cases (s.ctxt.states field i == used)) [
      | inr free ↦ (s, rw free, Revoked-same i s (ground arith))
      | inl held ↦ elim (Bool-cases (check i)) [
        | inr unknown ↦ (s, rw (held, unknown), Revoked-same i s (ground arith))
        | inl known ↦
            let (k', run, gone, same, kept) = deletes i s.kernel on h in
            (
              record { kernel = k'; ctxt = set_state field s.ctxt i unset },
              rw (held, known)
                  (on_kernel-done (revoke i) (λ x. set_state field x i unset) s k' run),
              record {
                states = λ k j. ground arith;
                slots = λ j. ground (arith, gone (base + j));
                others = λ a out. ground (arith, gone a);
                backups = same;
                granted = kept;
                rest = refl;
              },
            )
      ]
    ]

    -- If `revoke` deletes from the slots of the kind, and the delegation CNode is granted, the
    -- revocation returns, and of its channels exactly the delegated ones in use lose their capability
    -- and become unset; all else stays.
    pub revoke_loop-Revoked :
        (n i : ℕ) (s : Machine K)
        → granted s.kernel ≡ true
        → i + n ≤ p.max_channels
        → (t : Machine K) × (revoke_loop field check revoke n i s ≡ done tt t) × Revoked i n s t
    unfolding revoke_loop
    revoke_loop-Revoked zero i s on h = (
      s,
      refl,
      record {
        states = λ k j. ground arith;
        slots = λ j. ground arith;
        others = λ a out. refl;
        backups = λ a. refl;
        granted = refl;
        rest = refl;
      },
    )
    revoke_loop-Revoked (suc n) i s on h =
        let (t, first, one) = revoke_one-Revoked i s on (omega arith) in
        let (u, later, more) = revoke_loop-Revoked n (i + 1) t (one.granted ∙ on) (omega arith) in
        (u, rw first later, Revoked-trans i n s t u one more)
