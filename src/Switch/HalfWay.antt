-- ===== src/Switch/HalfWay.antt =====
-- A request that is refused half-way: the context switch of src/trustedlo_cfuncs.c on a request
-- with an entry of unknown type, and the state that it leaves.
use libtrustedlo.Prelude.{ℕ, zero, suc, ◌+◌, ◌*◌, ◌≡◌, ◌≢◌, ◌≤◌, ◌<◌, refl, ◌⊎◌, arith, true}
use libtrustedlo.Memory.{Memory}
use libtrustedlo.Platform.{no_error, minus_one, Platform, done}
use libtrustedlo.Cap.{ntfn_base_cap, ppc_base_cap}
use libtrustedlo.Cap.CSpace.{CSpace}
use libtrustedlo.Ctxt.{Kind, notifications, ppcs, irqs}
use libtrustedlo.Xrt.{Machine, check_irq}
use libtrustedlo.Request.{
  entry_type, workerfunc, populate_loop, parse_xrt_header, populate_xrts, total_num,
  serialised_offset,
}
use libtrustedlo.Request.Populate.{Populated, populate_loop-Populated}
use libtrustedlo.Request.Entry.{times}
use libtrustedlo.Switch.{
  parse_request, populate_req2ctxt, context_activate, context_refresh, context_switch,
}
use libtrustedlo.Switch.Channel.{Populated-Ready}
use libtrustedlo.Switch.Phases.{Consistent}
use libtrustedlo.Switch.Settled.{Settled, Once}
use libtrustedlo.Switch.Valid.{Grantable}
use libtrustedlo.Switch.Valid.{workerfunc_grants}

-- Fewer entries ask no more often.
times_mono :
    (m : Memory) (entries k n i : ℕ) (kind : Kind) (id : ℕ)
    → k ≤ n
    → times m entries k i kind id ≤ times m entries n i kind id
times_mono m entries zero n i kind id h = omega arith
times_mono m entries (suc k) zero i kind id h = absurd (omega (arith, h))
times_mono m entries (suc k) (suc n) i kind id h =
    omega (arith, times_mono m entries k n (i + 1) kind id (omega (arith, h)))

module _ {K : Type 0} (p : Platform K) (c : CSpace p) (few : p.max_channels ≤ 64) (m : Memory)
    (info : ℕ) where
  -- The `k` entries before the first one of no type that the loader knows are all in order.
  pub record Refused (header k : ℕ) : Type 0 where
    pub present : header ≢ 0
    pub size : total_num m header ≤ 186
    pub offset : 16 ≤ serialised_offset m header
    pub inside : k < total_num m header
    pub entries :
        (i : ℕ) → i < k → Grantable p c few m info (header + serialised_offset m header + i * 16)
    pub unknown :
        let type = entry_type m (header + serialised_offset m header + k * 16) in
        (type ≡ 0) ⊎ (5 < type)

  workerfunc_refuses :
      (entry : ℕ) (s : Machine K)
      → (entry_type m entry ≡ 0) ⊎ (5 < entry_type m entry)
      → workerfunc p m info entry s ≡ done minus_one s
  unfolding workerfunc
  workerfunc_refuses entry s h = ground arith

  populate_loop_refused :
      (entries k n i : ℕ) (s : Machine K)
      → ((j : ℕ) → i ≤ j → j < i + k → Grantable p c few m info (entries + j * 16))
      → k < n
      → (let type = entry_type m (entries + (i + k) * 16) in (type ≡ 0) ⊎ (5 < type))
      → (t : Machine K) × (populate_loop p m info entries n i s ≡ done minus_one t)
        × (populate_loop p m info entries k i s ≡ done no_error t)
  unfolding populate_loop
  populate_loop_refused entries k zero i s ok h unknown = absurd (omega (arith, h))
  populate_loop_refused entries zero (suc n) i s ok h unknown =
      let e : i + 0 ≡ i = omega arith in
      (s, rw (workerfunc_refuses (entries + i * 16) s (rw e at unknown)) refl, refl)
  populate_loop_refused entries (suc k) (suc n) i s ok h unknown =
      let (t, taken) =
        workerfunc_grants p c few m info (entries + i * 16) s (ok i (omega arith) (omega arith)) in
      let run = taken.run in
      let e : i + suc k ≡ i + 1 + k = omega arith in
      let (u, rest, rest') =
        populate_loop_refused entries k n (i + 1) t (λ j lo hi. ok j (omega arith) (omega arith))
          (omega (arith, h)) (rw e at unknown) in
      (u, rw run rest, rw run rest')

  parse_request-Refused : (header k : ℕ) → Refused header k → parse_request p m header ≡ no_error
  unfolding parse_request parse_xrt_header
  parse_request-Refused header k v = ground (arith, v.present, v.size, v.offset)

  -- The refused request leaves what the entries before the unknown one ask for.
  pub half_way_switch :
      (header k : ℕ) (s : Machine K)
      → Refused header k
      → (t : Machine K) × (context_switch p m info header s ≡ done minus_one t)
        × Populated p m info
            (header + serialised_offset m header)
            k
            0
            (record s { ctxt = record s.ctxt { mapping_count = 0 } })
            t
  unfolding context_switch context_activate context_refresh populate_req2ctxt populate_xrts
  half_way_switch header k s r =
      let entries = header + serialised_offset m header in
      let s' : Machine K = record s { ctxt = record s.ctxt { mapping_count = 0 } } in
      let zero_k : 0 + k ≡ k = omega arith in
      let (t, run, taken) =
        populate_loop_refused entries k (total_num m header) 0 s'
          (λ j lo hi. r.entries j (omega arith)) r.inside (rw zero_k r.unknown) in
      (
        t,
        rw (parse_request-Refused header k r, run) refl,
        rw taken at (populate_loop-Populated p m info entries k 0 s'),
      )

  pub leftover-Consistent :
      (header k : ℕ) (s t : Machine K)
      → c.granted s.kernel ≡ true
      → Settled p c few m info s
      → Once p c few m info header
      → k ≤ total_num m header
      → Populated p m info (header + serialised_offset m header) k 0 s t
      → Consistent p c few m info t
  unfolding check_irq
  leftover-Consistent header k s t on st once le q =
      let entries = header + serialised_offset m header in
      let fewer = times_mono m entries k (total_num m header) 0 in
      record {
        granted = rw q.kernel on;
        ntfns =
            Populated-Ready p c notifications ntfn_base_cap _ m info _ _ s t (λ id. refl) st.ntfns
              st.idle_ntfns (λ id. omega (arith, fewer notifications id le, once.ntfns id)) q;
        calls =
            Populated-Ready p c ppcs ppc_base_cap _ m info _ _ s t (λ id. refl) st.calls
              st.idle_calls (λ id. omega (arith, fewer ppcs id le, once.calls id)) q;
        no_irqs = λ j h. ground (arith, q.same irqs j, q.valid irqs j, st.no_irqs j h);
      }
