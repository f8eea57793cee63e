-- ===== src/Switch/Remap.antt =====
-- `mktxlo_enforce_pola` on a request with memory mappings.
use libtrustedlo.Prelude.{
  ℕ, ◌+◌, ◌≡◌, ◌≢◌, ◌≤◌, ◌<◌, ◌∙◌, refl, inl, inr, ◌==◌, arith, Bool-cases, ==→eq, ==→ne, true,
}
use libtrustedlo.Memory.{Memory}
use libtrustedlo.Platform.{Platform, done, no_error}
use libtrustedlo.Cap.CSpace.{CSpace}
use libtrustedlo.Ctxt.{used}
use libtrustedlo.Xrt.{Machine}
use libtrustedlo.Xrt.Granting.{Pending, map_regions, asked_at, restore_mappings-Mapped}
use libtrustedlo.Xrt.Mappings.{restore_mappings-Frame}
use libtrustedlo.Xrt.Frame.{Frame}
use libtrustedlo.Switch.{revoke_caps, restore_caps, enforce_pola}
use libtrustedlo.Switch.Irqs.{revoke_irqs_lem, restore_irqs_lem}
use libtrustedlo.Switch.Mappings.{revoke_mappings_idle}
use libtrustedlo.Switch.Phases.{
  Consistent, Between, SameMappings, revoke_first, revoke_channels, Enforces, restore_channels,
  Enforces-Frame,
}

module _ {K : Type 0} (p : Platform K) (c : CSpace p) (few : p.max_channels ≤ 64) (m : Memory)
    (info : ℕ) where
  -- Every mapping that counts is asked for or kept, and can be mapped.
  abbrev pub AllPending : Machine K → Type 0
  AllPending s = Pending p m 0 s.ctxt.mapping_count s

  AllPending-SameMappings :
      (s t : Machine K) → SameMappings p c few m info s t → AllPending s → AllPending t
  AllPending-SameMappings s t same h =
      rw same.counts
        (record { state = rw same.states h.state; mappable = rw same.cookies h.mappable })

  no_mapping_used :
      (s : Machine K)
      → AllPending s
      → (i : ℕ) → i < s.ctxt.mapping_count
      → s.ctxt.mapping_state i ≢ used
  no_mapping_used s h i lt e = elim (h.state i (omega arith) (omega (arith, lt))) [
    | inl new ↦ absurd (omega (arith, e, new))
    | inr kept ↦ absurd (omega (arith, e, kept))
  ]

  revoke_caps_returns :
      (s : Machine K)
      → Consistent p c few m info s
      → AllPending s
      → (u : Machine K) × (revoke_caps p m info s ≡ done tt u)
        × Between p c few m info s u
        × SameMappings p c few m info s u
  unfolding revoke_caps
  revoke_caps_returns s r h = elim (Bool-cases (s.ctxt.switch_count == 0)) [
    | inl first ↦ (
      record s { ctxt = record s.ctxt { switch_count = s.ctxt.switch_count + 1 } },
      rw first refl,
      revoke_first p c few m info s r (==→eq _ _ first),
      record { counts = refl; states = refl; cookies = refl },
    )
    | inr later ↦
        let (t, u, run, run', b, same) = revoke_channels p c few m info s r (==→ne _ _ later) in
        let idle =
          revoke_mappings_idle p m info u
            (no_mapping_used u (AllPending-SameMappings s u same h)) in
        (u, rw (later, run, run', revoke_irqs_lem p m info u) idle, b, same)
  ]

  -- What the enforcement leaves: the channels as in `w`, and then the mappings.
  pub record Remapped (s t : Machine K) : Type 0 where
    pub between : Machine K
    pub channels : Enforces p c few m info s between
    pub kernel :
        t.kernel
        ≡ map_regions p m (asked_at p m s) s.ctxt.mapping_data s.ctxt.mapping_count 0 between.kernel
    pub counts : t.ctxt.mapping_count ≡ s.ctxt.mapping_count
    pub used_all : (j : ℕ) → j < s.ctxt.mapping_count → t.ctxt.mapping_state j ≡ used
    pub cookies : t.ctxt.mapping_data ≡ s.ctxt.mapping_data
    pub granted : c.granted t.kernel ≡ true

  regions_same :
      (s t : Machine K)
      → SameMappings p c few m info s t
      → (k : K)
      → map_regions p m (asked_at p m t) t.ctxt.mapping_data t.ctxt.mapping_count 0 k
        ≡ map_regions p m (asked_at p m s) s.ctxt.mapping_data s.ctxt.mapping_count 0 k
  regions_same s t same k = rw (same.states, same.cookies, same.counts) refl

  restore_caps_returns :
      (s u : Machine K)
      → Consistent p c few m info s
      → AllPending s
      → Between p c few m info s u
      → SameMappings p c few m info s u
      → (t : Machine K) × (restore_caps p m info u ≡ done tt t)
        × Enforces p c few m info s t
        × Remapped s t
  unfolding restore_caps
  restore_caps_returns s u r h b same =
      let (v, w, run, run', e, same', on) = restore_channels p c few m info s u r b in
      let pending = AllPending-SameMappings u w same' (AllPending-SameMappings s u same h) in
      let (t, mapped_run, mapped) = restore_mappings-Mapped p m w pending in
      let frame : Frame p c w t =
        rw mapped_run at (restore_mappings-Frame p c m (Unit {0}) w (λ x. tt)) in
      let counts : w.ctxt.mapping_count ≡ s.ctxt.mapping_count = same'.counts ∙ same.counts in
      let all_same : SameMappings p c few m info s w = record {
        counts = counts;
        states = same'.states ∙ same.states;
        cookies = same'.cookies ∙ same.cookies;
      } in
      (
        t,
        rw (run, run', restore_irqs_lem p m info w e.no_irqs) mapped_run,
        Enforces-Frame p c few m info s w t e frame,
        record {
          between = w;
          channels = e;
          kernel = mapped.kernel ∙ regions_same s w all_same w.kernel;
          counts = frame.counts ∙ counts;
          used_all = λ j lt. ground (arith, mapped.states j, counts);
          cookies = mapped.cookies ∙ all_same.cookies;
          granted = frame.granted ∙ on;
        },
      )

  -- From a consistent state in which every mapping of the context is asked for or kept, and can be
  -- mapped, the enforcement returns without an error: it enforces the channels, and then maps
  -- exactly the regions asked for, each once and in order.
  pub enforce_pola-Remapped :
      (s : Machine K)
      → Consistent p c few m info s
      → AllPending s
      → (t : Machine K) × (enforce_pola p m info s ≡ done no_error t)
        × Enforces p c few m info s t
        × Remapped s t
  unfolding enforce_pola
  enforce_pola-Remapped s r h =
      let (u, run, b, same) = revoke_caps_returns s r h in
      let (t, run', e, mapped) = restore_caps_returns s u r h b same in
      (t, rw (run, run') refl, e, mapped)
