-- ===== src/Switch/Success.antt =====
-- When `mktxlo_context_switch` succeeds.
use libtrustedlo.Prelude.{ℕ, ◌+◌, ◌≡◌, ◌≤◌, ◌<◌, refl, true, arith}
use libtrustedlo.Memory.{Memory}
use libtrustedlo.Platform.{no_error, Platform, done, pure, ◌>>◌}
use libtrustedlo.Cap.{pd_deprivilege}
use libtrustedlo.Cap.CSpace.{CSpace, after, root_delete_call}
use libtrustedlo.Ctxt.{used}
use libtrustedlo.Xrt.{Machine, on_kernel}
use libtrustedlo.Request.{populate_xrts, total_num, serialised_offset}
use libtrustedlo.Request.Populate.{Populated, populate_loop-Populated}
use libtrustedlo.Switch.{populate_req2ctxt, context_activate, context_refresh, context_switch}
use libtrustedlo.Switch.Remap.{enforce_pola-Remapped}
use libtrustedlo.Switch.Valid.{Valid, memory_times, parse_request-Valid, populate_loop_returns}
use libtrustedlo.Switch.Round.{context_switch-Round, activated}
use libtrustedlo.Switch.Settled.{Settled, Once, Round, Populated-Consistent}

module _ {K : Type 0} (p : Platform K) (c : CSpace p) (few : p.max_channels ≤ 64) (m : Memory)
    (info : ℕ) where
  open c use {slot}

  pub deprivilege_returns :
      (s : Machine K)
      → c.granted s.kernel ≡ true
      → (t : Machine K) × ((on_kernel (pd_deprivilege p) >> pure no_error) s ≡ done no_error t)
        × (t.ctxt ≡ s.ctxt)
        × ((a : ℕ) → slot t.kernel a ≡ slot s.kernel a)
  unfolding pd_deprivilege
  deprivilege_returns s on = (
    record s { kernel = after p (root_delete_call p) s.kernel },
    ground (arith, c.root_status s.kernel on),
    refl,
    c.root_slot s.kernel,
  )

  -- What a successful round makes of the mappings: every one that the request asks for is
  -- recorded as in use.
  pub record AllMapped (header : ℕ) (t : Machine K) : Type 0 where
    pub counts :
        t.ctxt.mapping_count
        ≡ memory_times p c few m info (header + serialised_offset m header) (total_num m header) 0
    pub states : (j : ℕ) → j < t.ctxt.mapping_count → t.ctxt.mapping_state j ≡ used

  context_switch_returns :
      (header : ℕ) (s : Machine K)
      → c.granted s.kernel ≡ true
      → Settled p c few m info s
      → Once p c few m info header
      → Valid p c few m info header
      → (t : Machine K) × (context_switch p m info header s ≡ done no_error t) × AllMapped header t
  unfolding context_switch context_activate context_refresh populate_req2ctxt populate_xrts
  context_switch_returns header s on settled once valid =
      let entries = header + serialised_offset m header in
      let n = total_num m header in
      let s' : Machine K = record s { ctxt = record s.ctxt { mapping_count = 0 } } in
      let (t, run, count, pending) =
        populate_loop_returns p c few m info entries n 0 s'
          (λ j lo hi. valid.entries j (omega (arith, hi))) (omega (arith, valid.mappings))
          (record {
            state = λ j lo hi. absurd (omega (arith, hi));
            mappable = λ j lo hi. absurd (omega (arith, hi));
          }) in
      let populated : Populated p m info entries n 0 s' t =
        rw run at (populate_loop-Populated p m info entries n 0 s') in
      let consistent =
        Populated-Consistent p c few m info header s' t on (activated p c few m info s settled) once
          populated in
      let (u, enforced, _, mapped) = enforce_pola-Remapped p c few m info t consistent pending in
      let (v, given, ctxts, _) = deprivilege_returns u mapped.granted in
      (
        v,
        rw (parse_request-Valid p c few m info header valid, run, enforced, given) refl,
        record {
          counts = rw ctxts (omega (arith, mapped.counts, count));
          states = rw ctxts (λ j lt. mapped.used_all j (omega (arith, lt, mapped.counts)));
        },
      )

  -- A settled loader that has been granted the delegation CNode serves every request of at most 186
  -- entries, behind its header, for delegated channels in range, none of them twice, and for
  -- delegated memory regions that the kernel maps, as many as the context has room for: the switch
  -- returns without an error, what it leaves is a round, and every mapping asked for is recorded as
  -- in use.
  pub context_switch_succeeds :
      (header : ℕ) (s : Machine K)
      → c.granted s.kernel ≡ true
      → Settled p c few m info s
      → Once p c few m info header
      → Valid p c few m info header
      → (t : Machine K) × (context_switch p m info header s ≡ done no_error t)
        × Round p c few m info header s t
        × AllMapped header t
  context_switch_succeeds header s on settled once valid =
      let (t, run, mapped) = context_switch_returns header s on settled once valid in
      (t, run, rw run at (context_switch-Round p c few m info header s on settled once), mapped)
