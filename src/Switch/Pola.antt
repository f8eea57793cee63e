-- ===== src/Switch/Pola.antt =====
-- `mktxlo_enforce_pola`: after it the protection domain holds exactly the requested capabilities.
use libtrustedlo.Switch.Irqs.{revoke_irqs_lem, restore_irqs_lem}
use libtrustedlo.Prelude.{ℕ, ◌≢◌, ◌≤◌, ◌∙◌, inl, inr, ◌==◌, Bool-cases, ==→eq, ==→ne}
use libtrustedlo.Switch.Phases.{
  Consistent, Between, revoke_first, revoke_channels, Between-Frame, Enforces, restore_channels,
  Enforces-Frame,
}
use libtrustedlo.Memory.{Memory}
use libtrustedlo.Platform.{Platform, pure, ◌>>◌, no_error}
use libtrustedlo.Cap.CSpace.{CSpace}
use libtrustedlo.Xrt.{Machine, revoke_mappings, restore_mappings}
use libtrustedlo.Xrt.Mappings.{revoke_mappings-Frame, restore_mappings-Frame}
use libtrustedlo.Platform.Ensures.{Ensures, Ensures-bind, Ensures-mono}
use libtrustedlo.Switch.{revoke_caps, restore_caps, enforce_pola}

-- No IRQ is ever delegated: the loops over IRQs do nothing.
module _ {K : Type 0} (p : Platform K) (c : CSpace p) (few : p.max_channels ≤ 64) (m : Memory)
    (info : ℕ) where
  revoke_caps-Between :
      (s : Machine K)
      → Consistent p c few m info s
      → Ensures (s.ctxt.mapping_count ≢ 0) (Between p c few m info s) (revoke_caps p m info s)
  unfolding revoke_caps
  revoke_caps-Between s r = elim (Bool-cases (s.ctxt.switch_count == 0)) [
    | inl first ↦ rw first (revoke_first p c few m info s r (==→eq _ _ first))
    | inr later ↦
        let (t, u, run, run', b, _) = revoke_channels p c few m info s r (==→ne _ _ later) in
        rw (later, run, run', revoke_irqs_lem p m info u)
          (Ensures-mono _ _ _ (revoke_mappings p m u)
            (revoke_mappings-Frame p c m (s.ctxt.mapping_count ≢ 0) u (λ h e. h (b.counts ∙ e)))
            (λ v f. Between-Frame p c few m info s u v b f))
  ]

  restore_caps-Enforces :
      (s u : Machine K)
      → Consistent p c few m info s
      → Between p c few m info s u
      → Ensures (s.ctxt.mapping_count ≢ 0) (Enforces p c few m info s) (restore_caps p m info u)
  unfolding restore_caps
  restore_caps-Enforces s u r b =
      let (v, w, run, run', e, same, _) = restore_channels p c few m info s u r b in
      rw (run, run', restore_irqs_lem p m info w e.no_irqs)
        (Ensures-mono _ _ _ (restore_mappings p m w)
          (restore_mappings-Frame p c m (s.ctxt.mapping_count ≢ 0) w
            (λ h x. h ((same.counts ∙ b.counts) ∙ x)))
          (λ t f. Enforces-Frame p c few m info s w t e f))

  -- From a consistent state, with the delegation CNode granted, the enforcement leaves exactly the
  -- requested notification and PPC channels in use, with exactly their capabilities among the
  -- delegated channels; the slots of the channels that are not delegated, the backups, and the
  -- monitor's channel and call are as they were, no IRQ is in use, and the first execution is over.
  -- It crashes only where the context has memory mappings.
  pub enforce_pola-Enforces :
      (s : Machine K)
      → Consistent p c few m info s
      → Ensures (s.ctxt.mapping_count ≢ 0) (Enforces p c few m info s) (enforce_pola p m info s)
  unfolding enforce_pola
  enforce_pola-Enforces s r =
      Ensures-bind _ (Between p c few m info s) (Enforces p c few m info s) (revoke_caps p m info s)
        (λ _. restore_caps p m info >> pure no_error) (revoke_caps-Between s r)
        (λ _ u b.
          Ensures-bind _ (Enforces p c few m info s) (Enforces p c few m info s)
            (restore_caps p m info u) (λ _. pure no_error) (restore_caps-Enforces s u r b)
            (λ _ t e. e))
