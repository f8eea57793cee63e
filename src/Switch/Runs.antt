-- ===== src/Switch/Runs.antt =====
-- Several rounds of the context switch one after the other, each on the request that the monitor has
-- left in memory before it.
use libtrustedlo.Prelude.{ℕ, ◌≡◌, ◌≤◌, ◌∙◌, refl, sym, fun_ext, List, [], ◌∷◌, ◌+◌}
use libtrustedlo.Memory.{Memory}
use libtrustedlo.Platform.{Status, no_error, Platform, Cmd, done, pure, ◌>>◌}
use libtrustedlo.Cap.{ntfn_base_cap, ppc_base_cap}
use libtrustedlo.Cap.CSpace.{CSpace}
use libtrustedlo.Monitor.{privilege_template_pd}
use libtrustedlo.Monitor.Regrant.{Regrants, privilege_grants}
use libtrustedlo.Xrt.Channels.{on_kernel-then}
use libtrustedlo.Switch.Channel.{Ready-Keeps}
use libtrustedlo.Ctxt.{notifications, ppcs}
use libtrustedlo.Xrt.{Machine, on_kernel, check_notification, check_ppc}
use libtrustedlo.Request.{try}
use libtrustedlo.Request.Accepted.{Accepted}
use libtrustedlo.Switch.{context_switch}
use libtrustedlo.Switch.Settled.{Settled, Once, Round}
use libtrustedlo.Switch.Success.{context_switch_succeeds}
use libtrustedlo.Switch.Valid.{Valid}

-- A request, with the memory that it lies in.
pub record Turn : Type 0 where
  pub memory : Memory
  pub header : ℕ

abbrev pub last_turn : Turn → List Turn → Turn
last_turn r [] = r
last_turn r (r' ∷ rs) = last_turn r' rs

abbrev pub last_memory : Memory → List Turn → Memory
last_memory m [] = m
last_memory m (r ∷ rs) = last_memory r.memory rs

module _ {K : Type 0} (p : Platform K) (c : CSpace p) (few : p.max_channels ≤ 64) (info : ℕ) where
  open c use {slot, backup, granted}

  -- The rounds in order, until one does not succeed. Before each the monitor grants the delegation
  -- CNode to the domain, which the round before has given up.
  abbrev pub serve : ℕ → List Turn → Cmd (Machine K) Status
  serve pd [] = pure no_error
  serve pd (r ∷ rs) =
      on_kernel (privilege_template_pd p pd)
      >> try (context_switch p r.memory info r.header) (serve pd rs)

  -- The metadata delegates the same channels in both memories.
  pub record SameChecks (m g : Memory) : Type 0 where
    pub ntfns : (id : ℕ) → check_notification g info id ≡ check_notification m info id
    pub calls : (id : ℕ) → check_ppc g info id ≡ check_ppc m info id

  -- Every turn keeps the metadata and asks for no channel twice.
  abbrev pub Turns : Memory → List Turn → Type 0
  Turns m [] = Unit
  Turns m (r ∷ rs) = SameChecks m r.memory × Once p c few r.memory info r.header × Turns m rs

  pub Settled-SameChecks :
      (m g : Memory) (s : Machine K)
      → SameChecks m g
      → Settled p c few m info s
      → Settled p c few g info s
  Settled-SameChecks m g s same st =
      let ntfns : check_notification g info ≡ check_notification m info = fun_ext same.ntfns in
      let calls : check_ppc g info ≡ check_ppc m info = fun_ext same.calls in
      record {
        ntfns = rw ntfns st.ntfns;
        calls = rw calls st.calls;
        no_irqs = st.no_irqs;
        idle_ntfns = st.idle_ntfns;
        idle_calls = st.idle_calls;
      }

  Turns-SameChecks : (m g : Memory) (rs : List Turn) → SameChecks m g → Turns m rs → Turns g rs
  Turns-SameChecks m g [] same h = tt
  Turns-SameChecks m g (r ∷ rs) same (here, once, rest) = (
    record {
      ntfns = λ id. here.ntfns id ∙ sym (same.ntfns id);
      calls = λ id. here.calls id ∙ sym (same.calls id);
    },
    once,
    Turns-SameChecks m g rs same rest,
  )

  -- The monitor's grant changes nothing between two rounds.
  Settled-regranted :
      (m : Memory) (s : Machine K) (k : K)
      → ((a : ℕ) → slot k a ≡ slot s.kernel a)
      → ((a : ℕ) → backup k a ≡ backup s.kernel a)
      → Settled p c few m info s
      → Settled p c few m info (record s { kernel = k })
  Settled-regranted m s k slots backups st = record {
    ntfns =
        Ready-Keeps p c notifications ntfn_base_cap _ s _ st.ntfns
          (record {
            states = λ j h. refl;
            slots = λ j h. slots (ntfn_base_cap + j);
            backups = backups;
          })
          (λ e. e);
    calls =
        Ready-Keeps p c ppcs ppc_base_cap _ s _ st.calls
          (record {
            states = λ j h. refl;
            slots = λ j h. slots (ppc_base_cap + j);
            backups = backups;
          })
          (λ e. e);
    no_irqs = st.no_irqs;
    idle_ntfns = st.idle_ntfns;
    idle_calls = st.idle_calls;
  }

  module _ (pd : ℕ) (regrants : Regrants p c pd) where
    -- A request that the loader has no reason to refuse.
    abbrev pub ValidTurns : List Turn → Type 0
    ValidTurns [] = Unit
    ValidTurns (r ∷ rs) = Valid p c few r.memory info r.header × ValidTurns rs

    -- If the monitor can grant the delegation CNode, a settled loader serves any sequence of valid
    -- requests, none of which asks for a channel twice, without an error, however long, each with
    -- the monitor's grant before it and with metadata that delegates the same channels throughout,
    -- and ends in a settled state.
    pub serve_succeeds :
        (m : Memory) (s : Machine K) (rs : List Turn)
        → Settled p c few m info s
        → Turns m rs
        → ValidTurns rs
        → (t : Machine K) × (serve pd rs s ≡ done no_error t)
          × Settled p c few (last_memory m rs) info t
    serve_succeeds m s [] st turns valid = (s, refl, st)
    serve_succeeds m s (r ∷ rs) st (same, once, rest) (valid, more) =
        let (k, run, on, slots, backups) = privilege_grants p c pd regrants s.kernel in
        let (t, switch_run, round, _) =
          context_switch_succeeds p c few r.memory info r.header (record s { kernel = k }) on
            (Settled-regranted r.memory s k slots backups (Settled-SameChecks m r.memory s same st))
            once valid in
        let (u, runs, settled) =
          serve_succeeds r.memory t rs round.settled (Turns-SameChecks m r.memory rs same rest)
            more in
        (
          u,
          on_kernel-then (privilege_template_pd p pd)
                (try (context_switch p r.memory info r.header) (serve pd rs)) s k run
              ∙ rw switch_run runs,
          settled,
        )
