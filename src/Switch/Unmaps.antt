-- ===== src/Switch/Unmaps.antt =====
-- The kernel calls of the context switch of src/trustedlo_cfuncs.c: what every call but an unmapping
-- preserves, a round preserves.
use libtrustedlo.Prelude.{
  ℕ, zero, suc, ◌+◌, ◌≡◌, ◌≤◌, refl, ◌⊎◌, inl, inr, false, ◌==◌, ltb, leb, ◌||◌, List, [], ◌∷◌,
  arith, Bool-cases,
}
use libtrustedlo.Memory.{Memory}
use libtrustedlo.Platform.{
  Status, no_error, failed_lookup, error, Arch, aarch64, x86_64, Invocation, Platform, Outcome, Cmd,
  done, crashed, pure, and_then, ◌>>◌,
}
use libtrustedlo.Cap.{
  map_absolute, pd_grant_page_access, pd_deprivilege, restore_notification_cap, restore_ppc_cap,
  restore_irq_cap, dlg_map_cap_start, dlg_map_cap_end,
}
use libtrustedlo.Monitor.{privilege_template_pd}
use libtrustedlo.Monitor.Grants.{ungrant_call, grant_call}
use libtrustedlo.Cap.{must, pd_privilege}
use libtrustedlo.Cap.CSpace.{status, CSpace, after}
use libtrustedlo.Ctxt.{notifications, ppcs, irqs, keep, unset}
use libtrustedlo.Dlg.{
  resource_kind, resource_memory_region, resource_slot, resource_cap_count, resource_arg0,
}
use libtrustedlo.Xrt.{
  Machine, on_kernel, restore_mapping, restore_mappings_loop, restore_mappings,
  restore_notifications, restore_ppcs, restore_irqs, check_notification, check_ppc, check_irq,
}
use libtrustedlo.Request.{try, populate_loop, populate_xrts, total_num, serialised_offset}
use libtrustedlo.Request.Accepted.{Accepted}
use libtrustedlo.Switch.{
  context_activate, context_refresh, populate_req2ctxt, parse_request, revoke_caps, restore_caps,
  enforce_pola, context_switch,
}
use libtrustedlo.Switch.Mappings.{NoneUsed, populate_loop-NoneUsed}
use libtrustedlo.Switch.Runs.{Turn, serve}
use libtrustedlo.Request.Calls.{populate_loop_kernel}
use libtrustedlo.Request.Final.{final, final-bind, final-try}
use libtrustedlo.Switch.Calls.{
  is_unmap, Keeps, Clear, must-stable, on_kernel-final, restore_loop-Clear,
  restore_notification-Keeps, restore_ppc-Keeps, revoke_caps-Clear,
}

Arch-cases : (x : Arch) → (x ≡ aarch64) ⊎ (x ≡ x86_64)
Arch-cases aarch64 = inl refl
Arch-cases x86_64 = inr refl

module _ {K : Type 0} (p : Platform K) (I : K → Type 0)
    (stable : (call : Invocation) (k : K) → is_unmap call ≡ false → I k → I (after p call k)) where
  module _ (m : Memory) (info : ℕ) where
    map-safe : (a b c d e : ℕ) → is_unmap (map_absolute p a b c d e) ≡ false
    map-safe a b c d e = elim (Arch-cases p.arch) [ inl arm ↦ rw arm refl | inr x86 ↦ rw x86 refl ]

    grant_page-Keeps :
        (slot vaddr rights attrs num : ℕ)
        → Keeps p I stable (pd_grant_page_access p slot vaddr rights attrs num)
    unfolding pd_grant_page_access
    grant_page-Keeps slot vaddr rights attrs num k h =
        elim (Bool-cases (ltb slot dlg_map_cap_start || leb dlg_map_cap_end slot)) [
          | inl out ↦ rw out h
          | inr within ↦
              rw within (must-stable p I stable _ (map-safe slot vaddr rights attrs num) k h)
        ]

    -- `I` holds of the kernel.
    abbrev Fine : Machine K → Type 0
    Fine s = I s.kernel

    restore_mapping-Fine : (i : ℕ) (s : Machine K) → Fine s → Fine (final (restore_mapping p m i s))
    unfolding restore_mapping
    restore_mapping-Fine i s h =
        let cookie = s.ctxt.mapping_data i in
        let slot = resource_slot m cookie in
        let vaddr = resource_arg0 m cookie in
        let num = resource_cap_count m cookie in
        let grant = pd_grant_page_access p slot vaddr p.all_rights 0 num in
        elim (Bool-cases (s.ctxt.mapping_state i == keep)) [
          | inl kept ↦ rw kept h
          | inr other ↦ elim (Bool-cases (s.ctxt.mapping_state i == unset)) [
            | inl free ↦ rw (other, free) h
            | inr wanted ↦ elim (Bool-cases (resource_kind m cookie == resource_memory_region)) [
              | inr foreign ↦ rw (other, wanted, foreign) h
              | inl region ↦
                  rw (other, wanted, region)
                    (final-bind Fine (on_kernel grant s) _
                      (on_kernel-final p I stable Fine grant s (λ k i. i)
                        (grant_page-Keeps slot vaddr p.all_rights 0 num s.kernel h))
                      (λ a t i. i))
            ]
          ]
        ]

    restore_mappings_loop-Fine :
        (n i : ℕ) (s : Machine K) → Fine s → Fine (final (restore_mappings_loop p m n i s))
    unfolding restore_mappings_loop
    restore_mappings_loop-Fine zero i s h = h
    restore_mappings_loop-Fine (suc n) i s h =
        final-bind Fine (restore_mapping p m i s) _ (restore_mapping-Fine i s h)
          (λ a t k. restore_mappings_loop-Fine n (i + 1) t k)

    restore_mappings-Fine : (s : Machine K) → Fine s → Fine (final (restore_mappings p m s))
    unfolding restore_mappings
    restore_mappings-Fine s h =
        final-bind Fine (restore_mappings_loop p m s.ctxt.mapping_count 0 s) _
          (restore_mappings_loop-Fine s.ctxt.mapping_count 0 s h) (λ a t k. k)

    passed :
        {B : Type 0} (o : Outcome (Machine K) (Unit {0})) (next : Cmd (Machine K) B)
        → Clear p I stable m info (final o)
        → ((t : Machine K) → Clear p I stable m info t → Fine (final (next t)))
        → Fine (final (and_then o (λ _. next)))
    passed (done a t) next h k = k t h
    passed (crashed e t) next h k = h.0

    restore_caps-Fine :
        (s : Machine K) → Clear p I stable m info s → Fine (final (restore_caps p m info s))
    unfolding restore_caps restore_notifications restore_ppcs restore_irqs restore_irq_cap
    restore_caps-Fine s h =
        let ntfns =
          restore_loop-Clear p I stable m info notifications (check_notification m info)
            (restore_notification_cap p) (restore_notification-Keeps p I stable m info)
            p.max_channels 0 in
        let calls =
          restore_loop-Clear p I stable m info ppcs (check_ppc m info) (restore_ppc_cap p)
            (restore_ppc-Keeps p I stable m info) p.max_channels 0 in
        let none =
          restore_loop-Clear p I stable m info irqs (check_irq m info) (restore_irq_cap p)
            (λ id k x. x) p.max_channels 0 in
        passed (restore_notifications p m info s) _ (ntfns s h) (λ t i.
          passed (restore_ppcs p m info t) _ (calls t i) (λ u j.
            passed (restore_irqs p m info u) _ (none u j) (λ v k. restore_mappings-Fine v k.0)))

    enforce_pola-Fine :
        (s : Machine K) → Clear p I stable m info s → Fine (final (enforce_pola p m info s))
    unfolding enforce_pola
    enforce_pola-Fine s h =
        passed (revoke_caps p m info s) _ (revoke_caps-Clear p I stable m info s h)
          (λ t i. final-bind Fine (restore_caps p m info t) _ (restore_caps-Fine t i) (λ _ u j. j))

    -- `rest` is reached only where the first command is accepted.
    entered :
        (o : Outcome (Machine K) Status) (rest : Cmd (Machine K) Status)
        → Fine (final o)
        → Accepted (NoneUsed p m info) o
        → ((t : Machine K) → Clear p I stable m info t → Fine (final (rest t)))
        → Fine (
            final (
              and_then o (λ status. elim status [
                | no_error ↦ rest
                | failed_lookup ↦ pure failed_lookup
                | error e ↦ pure (error e)
              ])))
    entered (done no_error t) rest h a k = k t (h, a)
    entered (done failed_lookup t) rest h a k = h
    entered (done (error e) t) rest h a k = h
    entered (crashed e t) rest h a k = h

    deprivilege-Fine :
        (s : Machine K) → Fine s → Fine (final ((on_kernel (pd_deprivilege p) >> pure no_error) s))
    unfolding pd_deprivilege
    deprivilege-Fine s h =
        final-bind Fine (on_kernel (pd_deprivilege p) s) _
          (on_kernel-final p I stable Fine (pd_deprivilege p) s (λ k i. i)
            (must-stable p I stable _ refl s.kernel h))
          (λ _ t i. i)

    parsed :
        (st : Status) (s : Machine K)
        → NoneUsed p m info s
        → Accepted (NoneUsed p m info) (done st s)
    parsed no_error s h = h
    parsed failed_lookup s h = tt
    parsed (error e) s h = tt

    populated-Fine :
        (header : ℕ) (s : Machine K)
        → Clear p I stable m info s
        → Fine (
            final (
              try
                (populate_req2ctxt p m info header)
                (try (enforce_pola p m info) (on_kernel (pd_deprivilege p) >> pure no_error))
                s))
    unfolding populate_req2ctxt populate_xrts
    populated-Fine header s h =
        let entries = header + serialised_offset m header in
        entered (populate_loop p m info entries (total_num m header) 0 s) _
          (rw (populate_loop_kernel p m info entries (total_num m header) 0 s) h.0)
          (populate_loop-NoneUsed p m info entries (total_num m header) 0 s h.1)
          (λ t i.
            final-try Fine (enforce_pola p m info) (on_kernel (pd_deprivilege p) >> pure no_error) t
              (enforce_pola-Fine t i) deprivilege-Fine)

    context_switch-Fine :
        (header : ℕ) (s : Machine K) → Fine s → Fine (final (context_switch p m info header s))
    unfolding context_switch context_activate context_refresh
    context_switch-Fine header s h =
        let s' : Machine K = record s { ctxt = record s.ctxt { mapping_count = 0 } } in
        let none : NoneUsed p m info s' = λ i lt. absurd (omega arith) in
        final-try Fine (context_refresh p m info header) (pure no_error) s'
          (entered (done (parse_request p m header) s') _ h
            (parsed (parse_request p m header) s' none) (populated-Fine header))
          (λ t i. i)

  privilege_stable : (pd : ℕ) (k : K) → I k → I (final (privilege_template_pd p pd k))
  unfolding privilege_template_pd pd_privilege
  privilege_stable pd k h = granting (status p (ungrant_call p pd) k)
    where
      k' : K
      k' = after p (ungrant_call p pd) k

      grant : I (final (must p (grant_call p pd) k'))
      grant = must-stable p I stable (grant_call p pd) refl k' (stable (ungrant_call p pd) k refl h)

      granting :
          (st : Status)
          → I (
              final {A = Unit {0}} (elim st as (λ x. Outcome K (Unit {0})) [
                | no_error ↦ must p (grant_call p pd) k'
                | failed_lookup ↦ must p (grant_call p pd) k'
                | error e ↦ crashed (error e) k'
              ]))
      granting no_error = grant
      granting failed_lookup = grant
      granting (error e) = stable (ungrant_call p pd) k refl h

  -- A property of the kernel's state that every invocation but an unmapping preserves still holds
  -- after any sequence of rounds, each with the monitor's grant before it, whatever they ask for and
  -- however they end: no round unmaps.
  pub serve_unmaps_none :
      (c : CSpace p) (few : p.max_channels ≤ 64) (info pd : ℕ) (rs : List Turn) (s : Machine K)
      → I s.kernel
      → I (final (serve p c few info pd rs s)).kernel
  serve_unmaps_none c few info pd [] s h = h
  serve_unmaps_none c few info pd (r ∷ rs) s h =
      final-bind (λ t. I t.kernel) (on_kernel (privilege_template_pd p pd) s) _
        (on_kernel-final p I stable (λ t. I t.kernel) (privilege_template_pd p pd) s (λ k i. i)
          (privilege_stable pd s.kernel h))
        (λ _ t i.
          final-try (λ u. I u.kernel) (context_switch p r.memory info r.header)
            (serve p c few info pd rs) t (context_switch-Fine r.memory info r.header t i)
            (serve_unmaps_none c few info pd rs))
