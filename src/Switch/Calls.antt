-- ===== src/Switch/Calls.antt =====
-- What the calls that revoke and restore channels, of src/xrt.c and src/cap.c, leave of the kernel and of
-- the recorded mappings.
use libtrustedlo.Prelude.{
  ℕ, zero, suc, ◌+◌, ◌≡◌, refl, inl, inr, Bool, true, false, ◌==◌, leb, Bool-cases,
}
use libtrustedlo.Memory.{Memory}
use libtrustedlo.Platform.{
  Status, no_error, failed_lookup, error, Invocation, arm_page_unmap, x86_page_unmap,
  arm_unmap_absolute, x86_unmap_absolute, Platform, Outcome, Cmd, done, crashed,
}
use libtrustedlo.Cap.{
  checked, must, revoke_notification_cap, revoke_ppc_cap, revoke_irq_cap, restore_notification_cap,
  restore_ppc_cap,
}
use libtrustedlo.Cap.CSpace.{status, after}
use libtrustedlo.Ctxt.{Kind, notifications, ppcs, irqs, used, keep, unset, set_state}
use libtrustedlo.Xrt.{
  Machine, on_kernel, revoke_one, revoke_loop, restore_one, restore_loop, revoke_notifications,
  revoke_ppcs, revoke_irqs,
}
use libtrustedlo.Switch.{revoke_caps}
use libtrustedlo.Switch.Mappings.{NoneUsed, revoke_mappings_idle}
use libtrustedlo.Request.Final.{final, final-bind}

abbrev pub is_unmap : Invocation → Bool
is_unmap (arm_page_unmap page) = true
is_unmap (x86_page_unmap page) = true
is_unmap (arm_unmap_absolute frames) = true
is_unmap (x86_unmap_absolute frames) = true
is_unmap _ = false

module _ {K : Type 0} (p : Platform K) (I : K → Type 0)
    (stable : (call : Invocation) (k : K) → is_unmap call ≡ false → I k → I (after p call k)) where
  pub must-stable :
      (call : Invocation) → is_unmap call ≡ false → (k : K) → I k → I (final (must p call k))
  must-stable call safe k h = ended (status p call k)
    where
      ended : (st : Status) → I (final (checked st (after p call k)))
      ended no_error = stable call k safe h
      ended failed_lookup = stable call k safe h
      ended (error e) = stable call k safe h

  -- A kernel command that keeps `I`.
  abbrev pub Keeps : Cmd K (Unit {0}) → Type 0
  Keeps c = (k : K) → I k → I (final (c k))

  pub on_kernel-final :
      (P : Machine K → Type 0) (c : Cmd K (Unit {0})) (s : Machine K)
      → ((k : K) → I k → P (record s { kernel = k }))
      → I (final (c s.kernel))
      → P (final (on_kernel c s))
  on_kernel-final P c s h k = at (c s.kernel) k
    where
      at :
          (o : Outcome K (Unit {0}))
          → I (final o)
          → P (
              final {A = Unit {0}} (elim o as (λ x. Outcome (Machine K) (Unit {0})) [
                | done _ k ↦ done tt (record s { kernel = k })
                | crashed e k ↦ crashed e (record s { kernel = k })
              ]))
      at (done _ t) i = h t i
      at (crashed e t) i = h t i

  module _ (m : Memory) (info : ℕ) where
    -- `I` holds of the kernel, and no mapping that counts is recorded as mapped.
    abbrev pub Clear : Machine K → Type 0
    Clear s = I s.kernel × NoneUsed p m info s

    pub revoke_one-Clear :
        (field : Kind) (check : ℕ → Bool) (revoke : ℕ → Cmd K (Unit {0}))
        → ((id : ℕ) → Keeps (revoke id))
        → (id : ℕ) (s : Machine K) → Clear s
        → Clear (final (revoke_one field check revoke id s))
    unfolding revoke_one set_state
    revoke_one-Clear field check revoke keeps id s h =
        elim (Bool-cases (s.ctxt.states field id == used)) [
          | inr free ↦ rw free h
          | inl held ↦ elim (Bool-cases (check id)) [
            | inr foreign ↦ rw (held, foreign) h
            | inl known ↦
                rw (held, known)
                  (final-bind Clear (on_kernel (revoke id) s) _
                    (on_kernel-final Clear (revoke id) s (λ k i. (i, h.1)) (keeps id s.kernel h.0))
                    (λ a t i. i))
          ]
        ]

    pub restore_one-Clear :
        (field : Kind) (check : ℕ → Bool) (restore : ℕ → Cmd K (Unit {0}))
        → ((id : ℕ) → Keeps (restore id))
        → (id : ℕ) (s : Machine K) → Clear s
        → Clear (final (restore_one field check restore id s))
    unfolding restore_one set_state
    restore_one-Clear field check restore keeps id s h =
        elim (Bool-cases (s.ctxt.states field id == keep)) [
          | inl kept ↦ rw kept h
          | inr other ↦ elim (Bool-cases (s.ctxt.states field id == unset)) [
            | inl free ↦ rw (other, free) h
            | inr wanted ↦ elim (Bool-cases (check id)) [
              | inr foreign ↦ rw (other, wanted, foreign) h
              | inl known ↦
                  rw (other, wanted, known)
                    (final-bind Clear (on_kernel (restore id) s) _
                      (on_kernel-final Clear (restore id) s (λ k i. (i, h.1))
                        (keeps id s.kernel h.0))
                      (λ a t i. i))
            ]
          ]
        ]

    pub revoke_loop-Clear :
        (field : Kind) (check : ℕ → Bool) (revoke : ℕ → Cmd K (Unit {0}))
        → ((id : ℕ) → Keeps (revoke id))
        → (n id : ℕ) (s : Machine K) → Clear s
        → Clear (final (revoke_loop field check revoke n id s))
    unfolding revoke_loop
    revoke_loop-Clear field check revoke keeps zero id s h = h
    revoke_loop-Clear field check revoke keeps (suc n) id s h =
        final-bind Clear (revoke_one field check revoke id s) _
          (revoke_one-Clear field check revoke keeps id s h)
          (λ a t i. revoke_loop-Clear field check revoke keeps n (id + 1) t i)

    pub restore_loop-Clear :
        (field : Kind) (check : ℕ → Bool) (restore : ℕ → Cmd K (Unit {0}))
        → ((id : ℕ) → Keeps (restore id))
        → (n id : ℕ) (s : Machine K) → Clear s
        → Clear (final (restore_loop field check restore n id s))
    unfolding restore_loop
    restore_loop-Clear field check restore keeps zero id s h = h
    restore_loop-Clear field check restore keeps (suc n) id s h =
        final-bind Clear (restore_one field check restore id s) _
          (restore_one-Clear field check restore keeps id s h)
          (λ a t i. restore_loop-Clear field check restore keeps n (id + 1) t i)

    pub revoke_notification-Keeps : (id : ℕ) → Keeps (revoke_notification_cap p id)
    unfolding revoke_notification_cap
    revoke_notification-Keeps id k h = elim (Bool-cases (leb p.max_channels id)) [
      | inl out ↦ rw out h
      | inr within ↦ rw within (must-stable _ refl k h)
    ]

    pub revoke_ppc-Keeps : (id : ℕ) → Keeps (revoke_ppc_cap p id)
    unfolding revoke_ppc_cap
    revoke_ppc-Keeps id k h = elim (Bool-cases (leb p.max_channels id)) [
      | inl out ↦ rw out h
      | inr within ↦ rw within (must-stable _ refl k h)
    ]

    pub restore_notification-Keeps : (id : ℕ) → Keeps (restore_notification_cap p id)
    unfolding restore_notification_cap
    restore_notification-Keeps id k h = elim (Bool-cases (leb p.max_channels id)) [
      | inl out ↦ rw out h
      | inr within ↦ rw within (must-stable _ refl k h)
    ]

    pub restore_ppc-Keeps : (id : ℕ) → Keeps (restore_ppc_cap p id)
    unfolding restore_ppc_cap
    restore_ppc-Keeps id k h = elim (Bool-cases (leb p.max_channels id)) [
      | inl out ↦ rw out h
      | inr within ↦ rw within (must-stable _ refl k h)
    ]

    pub revoke_caps-Clear : (s : Machine K) → Clear s → Clear (final (revoke_caps p m info s))
    unfolding revoke_caps revoke_notifications revoke_ppcs revoke_irqs revoke_irq_cap
    revoke_caps-Clear s h = elim (Bool-cases (s.ctxt.switch_count == 0)) [
      | inl first ↦ rw first h
      | inr later ↦ rw later (
          final-bind Clear (revoke_notifications p m info s) _
            (revoke_loop-Clear notifications _ _ revoke_notification-Keeps p.max_channels 0 s h)
            (λ _ t i.
              final-bind Clear (revoke_ppcs p m info t) _
                (revoke_loop-Clear ppcs _ _ revoke_ppc-Keeps p.max_channels 0 t i)
                (λ _ u j.
                  final-bind Clear (revoke_irqs p m info u) _
                    (revoke_loop-Clear irqs _ _ (λ id k x. x) p.max_channels 0 u j)
                    (λ _ v k. rw (revoke_mappings_idle p m info v k.1) k))))
    ]
