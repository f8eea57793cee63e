-- ===== src/Switch/Irqs.antt =====
-- The loops over the interrupts, none of which is ever allowed.
use libtrustedlo.Prelude.{ℕ, zero, suc, ◌+◌, ◌≡◌, ◌<◌, refl, inl, inr, ◌==◌, arith, Bool-cases}
use libtrustedlo.Memory.{Memory}
use libtrustedlo.Platform.{Platform, done}
use libtrustedlo.Cap.{revoke_irq_cap, restore_irq_cap}
use libtrustedlo.Ctxt.{unset, used, irqs}
use libtrustedlo.Xrt.{
  Machine, check_irq, revoke_one, revoke_loop, restore_one, restore_loop, revoke_irqs, restore_irqs,
}

module _ {K : Type 0} (p : Platform K) (m : Memory) (info : ℕ) where
  revoke_irqs_loop :
      (n i : ℕ) (s : Machine K)
      → revoke_loop irqs (check_irq m info) (revoke_irq_cap p) n i s ≡ done tt s
  unfolding revoke_loop revoke_one check_irq
  revoke_irqs_loop zero i s = refl
  revoke_irqs_loop (suc n) i s = elim (Bool-cases (s.ctxt.states irqs i == used)) [
    | inl e ↦ rw e (revoke_irqs_loop n (i + 1) s)
    | inr e ↦ rw e (revoke_irqs_loop n (i + 1) s)
  ]

  pub revoke_irqs_lem : (s : Machine K) → revoke_irqs p m info s ≡ done tt s
  unfolding revoke_irqs
  revoke_irqs_lem s = revoke_irqs_loop p.max_channels 0 s

  restore_irqs_loop :
      (n i : ℕ) (s : Machine K)
      → ((j : ℕ) → j < i + n → s.ctxt.states irqs j ≡ unset)
      → restore_loop irqs (check_irq m info) (restore_irq_cap p) n i s ≡ done tt s
  unfolding restore_loop restore_one
  restore_irqs_loop zero i s h = refl
  restore_irqs_loop (suc n) i s h =
      rw (h i (omega arith)) (restore_irqs_loop n (i + 1) s (λ j lt. h j (omega arith)))

  pub restore_irqs_lem :
      (s : Machine K)
      → ((j : ℕ) → j < p.max_channels → s.ctxt.states irqs j ≡ unset)
      → restore_irqs p m info s ≡ done tt s
  unfolding restore_irqs
  restore_irqs_lem s h = restore_irqs_loop p.max_channels 0 s (λ j lt. h j (omega arith))
