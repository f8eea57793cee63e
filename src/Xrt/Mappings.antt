-- ===== src/Xrt/Mappings.antt =====
-- The mapping loops of src/xrt.c leave channels alone.
use libtrustedlo.Platform.Ensures.{Ensures}
use libtrustedlo.Prelude.{
  ℕ, zero, suc, ◌+◌, ◌≡◌, ◌≢◌, ==→eq, ==→ne, refl, ◌==◌, inl, inr, Bool-cases, arith, ltb, leb,
  ◌||◌,
}
use libtrustedlo.Memory.{Memory}
use libtrustedlo.Platform.{Platform, done, and_then, ◌>>◌}
use libtrustedlo.Cap.{
  map_absolute, unmap_absolute, pd_grant_page_access, dlg_map_cap_start, dlg_map_cap_end,
}
use libtrustedlo.Cap.CSpace.{CSpace}
use libtrustedlo.Ctxt.{XrtState, keep, unset, used}
use libtrustedlo.Dlg.{
  resource_kind, resource_memory_region, resource_slot, resource_cap_count, resource_arg0,
}
use libtrustedlo.Xrt.{
  Machine, on_kernel, set_mapping_state, revoke_mapping, revoke_mappings_loop, revoke_mappings,
  restore_mapping, restore_mappings_loop, restore_mappings,
}
use libtrustedlo.Xrt.Frame.{Frame, Frame-refl, Frame-bind, must-Frame}

module _ {K : Type 0} (p : Platform K) (c : CSpace p) where
  module _ (m : Memory) (C : Type 0) where
    mapping_state-Frame :
        (i : ℕ) (x : XrtState) (s : Machine K) → Ensures C (Frame p c s) (set_mapping_state i x s)
    mapping_state-Frame i x s = record {
      states = refl;
      switches = refl;
      monitor = refl;
      counts = refl;
      slots = λ a. refl;
      backups = λ a. refl;
      granted = refl;
    }

    revoke_mapping-Frame :
        (may : C) (i : ℕ) (s : Machine K) → Ensures C (Frame p c s) (revoke_mapping p m i s)
    unfolding revoke_mapping
    revoke_mapping-Frame may i s =
        let cookie = s.ctxt.mapping_data i in
        elim (Bool-cases (s.ctxt.mapping_state i == used)) [
          | inr free ↦ rw free (Frame-refl p c s)
          | inl held ↦ rw held (
              must-Frame p c C may
                (unmap_absolute p (resource_slot m cookie) (resource_cap_count m cookie)) i unset s
                (λ k. c.unmap_slot k _ _) (λ k. c.unmap_backup k _ _) (λ k. c.unmap_granted k _ _))
        ]

    revoke_mappings_loop-Frame :
        (may : C) (n i : ℕ) (s : Machine K)
        → Ensures C (Frame p c s) (revoke_mappings_loop p m n i s)
    unfolding revoke_mappings_loop
    revoke_mappings_loop-Frame may zero i s = Frame-refl p c s
    revoke_mappings_loop-Frame may (suc n) i s =
        Frame-bind p c C s (revoke_mapping p m i s) (revoke_mappings_loop p m n (i + 1))
          (revoke_mapping-Frame may i s) (revoke_mappings_loop-Frame may n (i + 1))

    revoke_none :
        (n : ℕ)
        → n ≡ 0
        → (s : Machine K)
        → Ensures C (Frame p c s) (and_then (revoke_mappings_loop p m n 0 s) (λ _ t. done tt t))
    unfolding revoke_mappings_loop
    revoke_none zero e s = Frame-refl p c s
    revoke_none (suc n) e s = absurd (omega arith)

    pub revoke_mappings-Frame :
        (s : Machine K)
        → (s.ctxt.mapping_count ≢ 0 → C)
        → Ensures C (Frame p c s) (revoke_mappings p m s)
    unfolding revoke_mappings
    revoke_mappings-Frame s may = elim (Bool-cases (s.ctxt.mapping_count == 0)) [
      | inl e ↦
          let e' : s.ctxt.mapping_count ≡ 0 = ==→eq _ _ e in revoke_none s.ctxt.mapping_count e' s
      | inr e ↦
          Frame-bind p c C s (revoke_mappings_loop p m s.ctxt.mapping_count 0 s) (λ t. done tt t)
            (revoke_mappings_loop-Frame (may (==→ne _ _ e)) s.ctxt.mapping_count 0 s)
            (λ t. Frame-refl p c t)
    ]

    -- A slot out of range is passed over, any other is mapped or crashes.
    grant-Frame :
        (may : C) (cookie i : ℕ) (s : Machine K)
        → Ensures C (Frame p c s) (
            (on_kernel (
                  pd_grant_page_access p
                    (resource_slot m cookie)
                    (resource_arg0 m cookie)
                    p.all_rights
                    0
                    (resource_cap_count m cookie))
                >> set_mapping_state i used)
              s)
    unfolding pd_grant_page_access
    grant-Frame may cookie i s =
        elim (Bool-cases (
          ltb (resource_slot m cookie) dlg_map_cap_start
          || leb dlg_map_cap_end (resource_slot m cookie))) [
            | inl out ↦ rw out (mapping_state-Frame i used s)
            | inr within ↦ rw within (
                must-Frame p c C may
                  (map_absolute p (resource_slot m cookie) (resource_arg0 m cookie) p.all_rights 0
                    (resource_cap_count m cookie))
                  i used s (λ k. c.map_slot k _ _ _ _ _) (λ k. c.map_backup k _ _ _ _ _)
                  (λ k. c.map_granted k _ _ _ _ _))
          ]

    restore_mapping-Frame :
        (may : C) (i : ℕ) (s : Machine K) → Ensures C (Frame p c s) (restore_mapping p m i s)
    unfolding restore_mapping
    restore_mapping-Frame may i s =
        let cookie = s.ctxt.mapping_data i in
        elim (Bool-cases (s.ctxt.mapping_state i == keep)) [
          | inl kept ↦ rw kept (mapping_state-Frame i used s)
          | inr other ↦ elim (Bool-cases (s.ctxt.mapping_state i == unset)) [
            | inl free ↦ rw (other, free) (Frame-refl p c s)
            | inr wanted ↦ elim (Bool-cases (resource_kind m cookie == resource_memory_region)) [
              | inr foreign ↦ rw (other, wanted, foreign) may
              | inl region ↦ rw (other, wanted, region) (grant-Frame may cookie i s)
            ]
          ]
        ]

    restore_mappings_loop-Frame :
        (may : C) (n i : ℕ) (s : Machine K)
        → Ensures C (Frame p c s) (restore_mappings_loop p m n i s)
    unfolding restore_mappings_loop
    restore_mappings_loop-Frame may zero i s = Frame-refl p c s
    restore_mappings_loop-Frame may (suc n) i s =
        Frame-bind p c C s (restore_mapping p m i s) (restore_mappings_loop p m n (i + 1))
          (restore_mapping-Frame may i s) (restore_mappings_loop-Frame may n (i + 1))

    restore_none :
        (n : ℕ)
        → n ≡ 0
        → (s : Machine K)
        → Ensures C (Frame p c s) (and_then (restore_mappings_loop p m n 0 s) (λ _ t. done tt t))
    unfolding restore_mappings_loop
    restore_none zero e s = Frame-refl p c s
    restore_none (suc n) e s = absurd (omega arith)

    pub restore_mappings-Frame :
        (s : Machine K)
        → (s.ctxt.mapping_count ≢ 0 → C)
        → Ensures C (Frame p c s) (restore_mappings p m s)
    unfolding restore_mappings
    restore_mappings-Frame s may = elim (Bool-cases (s.ctxt.mapping_count == 0)) [
      | inl e ↦
          let e' : s.ctxt.mapping_count ≡ 0 = ==→eq _ _ e in restore_none s.ctxt.mapping_count e' s
      | inr e ↦
          Frame-bind p c C s (restore_mappings_loop p m s.ctxt.mapping_count 0 s) (λ t. done tt t)
            (restore_mappings_loop-Frame (may (==→ne _ _ e)) s.ctxt.mapping_count 0 s)
            (λ t. Frame-refl p c t)
    ]
