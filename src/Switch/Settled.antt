-- ===== src/Switch/Settled.antt =====
-- The states between two rounds, and what a round does.
use libtrustedlo.Prelude.{
  ◌∙◌, ℕ, ◌+◌, ◌≡◌, ◌≤◌, ◌<◌, refl, Bool, true, false, if◌then◌else◌, ltb, arith, none,
}
use libtrustedlo.Memory.{Memory}
use libtrustedlo.Platform.{Platform}
use libtrustedlo.Cap.{ntfn_base_cap, ppc_base_cap}
use libtrustedlo.Cap.CSpace.{CSpace}
use libtrustedlo.Ctxt.{unset, used, Kind, notifications, ppcs, irqs}
use libtrustedlo.Ctxt.States.{monitor_of, requested}
use libtrustedlo.Xrt.{Machine, check_notification, check_ppc, check_irq}
use libtrustedlo.Request.{total_num, serialised_offset}
use libtrustedlo.Request.Populate.{Populated}
use libtrustedlo.Request.Entry.{times}
use libtrustedlo.Switch.Channel.{Ready, Enforced, Enforced-Ready, Enforced-idle, Populated-Ready}
use libtrustedlo.Switch.Phases.{Consistent, Enforces}

module _ {K : Type 0} (p : Platform K) (c : CSpace p) (few : p.max_channels ≤ 64) (m : Memory)
    (info : ℕ) where
  open c use {slot, backup, granted}

  -- Between two rounds: no request is pending, and the delegated channels in use are exactly those
  -- whose capability the protection domain holds.
  pub record Settled (s : Machine K) : Type 0 where
    pub ntfns : Ready p c notifications ntfn_base_cap (check_notification m info) s
    pub calls : Ready p c ppcs ppc_base_cap (check_ppc m info) s
    pub no_irqs : (j : ℕ) → j < p.max_channels → s.ctxt.states irqs j ≡ unset
    pub idle_ntfns :
        (j : ℕ) → j < p.max_channels → requested (s.ctxt.states notifications j) ≡ false
    pub idle_calls : (j : ℕ) → j < p.max_channels → requested (s.ctxt.states ppcs j) ≡ false

  abbrev pub asked : ℕ → Kind → ℕ → Bool
  asked header kind id =
      ltb 0 (times m (header + serialised_offset m header) (total_num m header) 0 kind id)

  -- The request asks for no notification and no PPC twice.
  pub record Once (header : ℕ) : Type 0 where
    pub ntfns :
        (id : ℕ)
        → times m (header + serialised_offset m header) (total_num m header) 0 notifications id ≤ 1
    pub calls :
        (id : ℕ) → times m (header + serialised_offset m header) (total_num m header) 0 ppcs id ≤ 1

  -- One kind of channel after a round: in use exactly where the request asked, and with a
  -- capability exactly there, as far as channels are delegated; all else as before.
  pub record Granted (header : ℕ) (kind : Kind) (base : ℕ) (check : ℕ → Bool) (s t : Machine K)
      : Type 0 where
    pub states :
        (id : ℕ)
        → id < p.max_channels
        → t.ctxt.states kind id ≡ (if asked header kind id then used else unset)
    pub slots :
        (id : ℕ)
        → id < p.max_channels
        → check id ≡ true
        → slot t.kernel (base + id)
          ≡ (if asked header kind id then backup s.kernel (base + id) else none)
    pub others :
        (id : ℕ)
        → id < p.max_channels
        → check id ≡ false
        → slot t.kernel (base + id) ≡ slot s.kernel (base + id)

  pub record Round (header : ℕ) (s t : Machine K) : Type 0 where
    pub ntfns : Granted header notifications ntfn_base_cap (check_notification m info) s t
    pub calls : Granted header ppcs ppc_base_cap (check_ppc m info) s t
    pub settled : Settled t
    pub backups : (a : ℕ) → backup t.kernel a ≡ backup s.kernel a
    pub given_up : granted t.kernel ≡ false
    pub monitor : monitor_of t.ctxt ≡ monitor_of s.ctxt

  Enforced-Granted :
      (header : ℕ) (kind : Kind) (base : ℕ) (check : ℕ → Bool) (s t u : Machine K)
      → ((j : ℕ) → j < p.max_channels → requested (s.ctxt.states kind j) ≡ false)
      → Populated p m info (header + serialised_offset m header) (total_num m header) 0 s t
      → Enforced p c kind base check t u
      → Granted header kind base check s u
  Enforced-Granted header kind base check s t u idle q v = record {
    states = λ j h. ground (arith, v.states j h, q.pending kind j, idle j h);
    slots = λ j h d. rw (← q.kernel) (ground (arith, v.slots j h d, q.pending kind j, idle j h));
    others = λ j h d. rw (← q.kernel) (v.others j h d);
  }

  pub Populated-Consistent :
      (header : ℕ) (s t : Machine K)
      → granted s.kernel ≡ true
      → Settled s
      → Once header
      → Populated p m info (header + serialised_offset m header) (total_num m header) 0 s t
      → Consistent p c few m info t
  unfolding check_irq
  Populated-Consistent header s t on st once q = record {
    granted = rw q.kernel on;
    ntfns =
        Populated-Ready p c notifications ntfn_base_cap _ m info _ _ s t (λ id. refl) st.ntfns
          st.idle_ntfns once.ntfns q;
    calls =
        Populated-Ready p c ppcs ppc_base_cap _ m info _ _ s t (λ id. refl) st.calls st.idle_calls
          once.calls q;
    no_irqs = λ j h. ground (arith, q.same irqs j, q.valid irqs j, st.no_irqs j h);
  }

  -- The state that the enforcement works on, and the one that it leaves, make a round.
  pub Enforces-Round :
      (header : ℕ) (s t u : Machine K)
      → granted s.kernel ≡ true
      → granted u.kernel ≡ false
      → Settled s
      → Once header
      → Populated p m info (header + serialised_offset m header) (total_num m header) 0 s t
      → Enforces p c few m info t u
      → Round header s u
  Enforces-Round header s t u on off st once q e = record {
    given_up = off;
    ntfns = Enforced-Granted header notifications ntfn_base_cap _ s t u st.idle_ntfns q e.ntfns;
    calls = Enforced-Granted header ppcs ppc_base_cap _ s t u st.idle_calls q e.calls;
    settled = record {
      ntfns = Enforced-Ready p c notifications ntfn_base_cap _ t u ready.ntfns e.ntfns e.switched;
      calls = Enforced-Ready p c ppcs ppc_base_cap _ t u ready.calls e.calls e.switched;
      no_irqs = e.no_irqs;
      idle_ntfns =
          Enforced-idle p c notifications ntfn_base_cap (check_notification m info) t u e.ntfns;
      idle_calls = Enforced-idle p c ppcs ppc_base_cap (check_ppc m info) t u e.calls;
    };
    backups = λ a. rw (← q.kernel) (e.ntfns.backups a);
    monitor = e.monitor ∙ q.monitor;
  }
    where
      ready : Consistent p c few m info t
      ready = Populated-Consistent header s t on st once q
