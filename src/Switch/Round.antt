-- ===== src/Switch/Round.antt =====
-- `mktxlo_context_switch`: one round from a settled state to the next.
use libtrustedlo.Switch.Settled.{Settled, Once, Round, Populated-Consistent, Enforces-Round}
use libtrustedlo.Prelude.{ℕ, ◌+◌, ◌≡◌, ◌≤◌, refl, inl, inr, true, false}
use libtrustedlo.Memory.{Memory}
use libtrustedlo.Platform.{
  Platform, Outcome, Cmd, done, crashed, pure, ◌>>◌, Status, no_error, failed_lookup, error,
}
use libtrustedlo.Cap.{ntfn_base_cap, ppc_base_cap, pd_deprivilege}
use libtrustedlo.Cap.CSpace.{CSpace, status, after, root_delete_call}
use libtrustedlo.Ctxt.{notifications, ppcs}
use libtrustedlo.Xrt.{Machine, on_kernel}
use libtrustedlo.Xrt.Frame.{checked-cases}
use libtrustedlo.Platform.Ensures.{Ensures}
use libtrustedlo.Request.{try, total_num, serialised_offset, populate_xrts}
use libtrustedlo.Request.Populate.{Populated, populate_xrts-Populated}
use libtrustedlo.Request.Accepted.{Accepted, Accepted-try, Accepted-mono}
use libtrustedlo.Switch.{
  parse_request, populate_req2ctxt, enforce_pola, context_activate, context_refresh, context_switch,
}
use libtrustedlo.Switch.Channel.{Ready-Keeps}
use libtrustedlo.Switch.Pola.{enforce_pola-Enforces}
use libtrustedlo.Switch.Phases.{Enforces, Enforces-Keeps}

parsed : {S : Type 0} (st : Status) (s : S) → Accepted (λ t. t ≡ s) (done st s)
parsed no_error s = refl
parsed failed_lookup s = tt
parsed (error e) s = tt

pub Ensures-Accepted :
    {S : Type 0} (C : Type 0) (P : S → Type 0) (o : Outcome S Status) → Ensures C P o → Accepted P o
Ensures-Accepted C P (done no_error s) h = h
Ensures-Accepted C P (done failed_lookup s) h = tt
Ensures-Accepted C P (done (error e) s) h = tt
Ensures-Accepted C P (crashed e s) h = tt

module _ {K : Type 0} (p : Platform K) (c : CSpace p) (few : p.max_channels ≤ 64) (m : Memory)
    (info : ℕ) where
  open c use {slot, backup}

  enforce-Accepted :
      (header : ℕ) (s t : Machine K)
      → c.granted s.kernel ≡ true
      → Settled p c few m info s
      → Once p c few m info header
      → Populated p m info (header + serialised_offset m header) (total_num m header) 0 s t
      → Accepted (Enforces p c few m info t) (enforce_pola p m info t)
  enforce-Accepted header s t on st once q =
      Ensures-Accepted _ (Enforces p c few m info t) (enforce_pola p m info t) (
        enforce_pola-Enforces p c few m info t
          (Populated-Consistent p c few m info header s t on st once q))

  -- Giving the delegation CNode up changes no channel.
  deprivilege-Accepted :
      (t u : Machine K)
      → Enforces p c few m info t u
      → Accepted
          (λ v. Enforces p c few m info t v × (c.granted v.kernel ≡ false))
          ((on_kernel (pd_deprivilege p) >> pure no_error) u)
  unfolding pd_deprivilege
  deprivilege-Accepted t u e =
      let k' = after p (root_delete_call p) u.kernel in
      elim (checked-cases p c (status p (root_delete_call p) u.kernel) k') [
        | inl x ↦
            rw (x, on_kernel)
              (
                Enforces-Keeps p c few m info t u (record { kernel = k'; ctxt = u.ctxt }) e refl
                    (c.root_slot u.kernel) (c.root_backup u.kernel),
                c.root_granted u.kernel,
              )
        | inr (_, x) ↦ rw (x, on_kernel) tt
      ]

  abbrev enforce_rest : Cmd (Machine K) Status
  enforce_rest = try (enforce_pola p m info) (on_kernel (pd_deprivilege p) >> pure no_error)

  enforce_rest-Accepted :
      (header : ℕ) (s t : Machine K)
      → c.granted s.kernel ≡ true
      → Settled p c few m info s
      → Once p c few m info header
      → Populated p m info (header + serialised_offset m header) (total_num m header) 0 s t
      → Accepted (Round p c few m info header s) (enforce_rest t)
  enforce_rest-Accepted header s t on st once q =
      Accepted-try (Enforces p c few m info t) (Round p c few m info header s)
        (enforce_pola p m info) (on_kernel (pd_deprivilege p) >> pure no_error) t
        (enforce-Accepted header s t on st once q)
        (λ u e.
          Accepted-mono (λ v. Enforces p c few m info t v × (c.granted v.kernel ≡ false))
            (Round p c few m info header s) ((on_kernel (pd_deprivilege p) >> pure no_error) u)
            (deprivilege-Accepted t u e)
            (λ v (x, off). Enforces-Round p c few m info header s t v on off st once q x))

  populate_rest-Accepted :
      (header : ℕ) (s : Machine K)
      → c.granted s.kernel ≡ true
      → Settled p c few m info s
      → Once p c few m info header
      → Accepted
          (Round p c few m info header s)
          (try (populate_xrts p m info header) enforce_rest s)
  populate_rest-Accepted header s on st once =
      Accepted-try
        (Populated p m info (header + serialised_offset m header) (total_num m header) 0 s)
        (Round p c few m info header s) (populate_xrts p m info header) enforce_rest s
        (populate_xrts-Populated p m info header s)
        (λ t q. enforce_rest-Accepted header s t on st once q)

  refresh-Accepted :
      (header : ℕ) (s : Machine K)
      → c.granted s.kernel ≡ true
      → Settled p c few m info s
      → Once p c few m info header
      → Accepted (Round p c few m info header s) (context_refresh p m info header s)
  unfolding context_refresh populate_req2ctxt
  refresh-Accepted header s on st once =
      Accepted-try (λ t. t ≡ s) (Round p c few m info header s) (pure (parse_request p m header))
        (try (populate_xrts p m info header) enforce_rest) s (parsed (parse_request p m header) s)
        (λ t e. rw e (populate_rest-Accepted header s on st once))

  pub activated :
      (s : Machine K)
      → Settled p c few m info s
      → Settled p c few m info (record s { ctxt = record s.ctxt { mapping_count = 0 } })
  activated s st = record {
    ntfns =
        Ready-Keeps p c notifications ntfn_base_cap _ s _ st.ntfns
          (record { states = λ j h. refl; slots = λ j h. refl; backups = λ a. refl }) (λ e. e);
    calls =
        Ready-Keeps p c ppcs ppc_base_cap _ s _ st.calls
          (record { states = λ j h. refl; slots = λ j h. refl; backups = λ a. refl }) (λ e. e);
    no_irqs = st.no_irqs;
    idle_ntfns = st.idle_ntfns;
    idle_calls = st.idle_calls;
  }

  Round-activated :
      (header : ℕ) (s t : Machine K)
      → Round p c few m info header (record s { ctxt = record s.ctxt { mapping_count = 0 } }) t
      → Round p c few m info header s t
  Round-activated header s t r = record {
    ntfns = record { states = r.ntfns.states; slots = r.ntfns.slots; others = r.ntfns.others };
    calls = record { states = r.calls.states; slots = r.calls.slots; others = r.calls.others };
    settled = r.settled;
    backups = r.backups;
    given_up = r.given_up;
    monitor = r.monitor;
  }

  -- With the delegation CNode granted and a request that asks for no channel twice, a round that is
  -- not refused and does not crash gives the protection domain exactly the delegated notification
  -- and PPC channels that the request asks for, takes every other delegated one away, touches no
  -- other channel and no backup, gives the delegation CNode up, and ends in a settled state again.
  pub context_switch-Round :
      (header : ℕ) (s : Machine K)
      → c.granted s.kernel ≡ true
      → Settled p c few m info s
      → Once p c few m info header
      → Accepted (Round p c few m info header s) (context_switch p m info header s)
  unfolding context_switch context_activate
  context_switch-Round header s on st once =
      let s' : Machine K = record s { ctxt = record s.ctxt { mapping_count = 0 } } in
      Accepted-try (Round p c few m info header s) (Round p c few m info header s)
        (context_refresh p m info header) (pure no_error) s'
        (Accepted-mono (Round p c few m info header s') (Round p c few m info header s)
          (context_refresh p m info header s') (refresh-Accepted header s' on (activated s st) once)
          (λ t r. Round-activated header s t r))
        (λ t r. r)
