-- ===== src/Tests/Rounds.antt =====
-- One delegated notification channel: rounds of the context switch at a concrete request.
use libtrustedlo.Prelude.{ℕ, ◌≡◌, refl, false, ◌==◌, if◌then◌else◌, Option, none, some, arith, true}
use libtrustedlo.Bytes.{read_le16, read_le64}
use libtrustedlo.Dlg.{find_resource, find_loop, delegator_resource}
use libtrustedlo.Dlg.Find.{Finds, find_resource-Finds}
use libtrustedlo.Ctxt.{notifications, unset, used, Ctxt, set_state, allow}
use libtrustedlo.Xrt.{
  Machine, check_notification, check_ppc, check_irq, restore_notifications, restore_ppcs,
  restore_irqs, restore_mappings, restore_mappings_loop, restore_loop, restore_one,
}
use libtrustedlo.Request.{populate_xrts, populate_loop, workerfunc, parse_xrt_header}
use libtrustedlo.Platform.{Outcome, done, crashed, Status, no_error}
use libtrustedlo.Cap.{restore_notification_cap, pd_deprivilege}
use libtrustedlo.Request.Accepted.{Accepted}
use libtrustedlo.Switch.{
  parse_request, populate_req2ctxt, revoke_caps, restore_caps, enforce_pola, context_activate,
  context_refresh, context_switch,
}
use libtrustedlo.Switch.Round.{context_switch-Round}
use libtrustedlo.Switch.Settled.{Settled, Once, Round}
use libtrustedlo.Tests.Kernel.{Slots, platform, cspace}
use libtrustedlo.Tests.Store.{info, header, memory}

abbrev pub fresh_ctxt : Ctxt
fresh_ctxt = record {
  child_id = 0;
  switch_count = 0;
  channel = 0;
  call_id = 0;
  states = λ k i. unset;
  mapping_count = 0;
  mapping_data = λ i. 0;
  mapping_state = λ i. unset;
}

abbrev pub fresh : Machine Slots
fresh = record {
  kernel = record {
    slots = λ a. none;
    backups = λ a. if a == 13 then some 100 else none;
    mapped = 0;
    granted = true;
  };
  ctxt = fresh_ctxt;
}

delegated : (j : ℕ) → check_notification memory info j ≡ (3 == j)
unfolding check_notification find_resource find_loop delegator_resource read_le16 read_le64
delegated j = ground arith

no_ppcs : (j : ℕ) → check_ppc memory info j ≡ false
unfolding check_ppc find_resource find_loop delegator_resource read_le16 read_le64
no_ppcs j = refl

pub fresh-Settled : Settled platform cspace (omega arith) memory info fresh
fresh-Settled = record {
  ntfns = record {
    known = λ j h d. refl;
    slots = λ j h d. refl;
    full = λ j h d e. ground (arith, delegated j);
    range = λ j h. omega arith;
    fresh = λ e j h. refl;
  };
  calls = record {
    known = λ j h d. refl;
    slots = λ j h d. refl;
    full = λ j h d e. ground (arith, no_ppcs j);
    range = λ j h. omega arith;
    fresh = λ e j h. refl;
  };
  no_irqs = λ j h. refl;
  idle_ntfns = λ j h. refl;
  idle_calls = λ j h. refl;
}

pub request-Once : Once platform cspace (omega arith) memory info header
unfolding read_le64
request-Once = record { ntfns = λ id. ground arith; calls = λ id. ground arith }

context_switch-Round_example :
    Accepted
      (Round platform cspace (omega arith) memory info header fresh)
      (context_switch platform memory info header fresh)
context_switch-Round_example =
    context_switch-Round platform cspace (omega arith) memory info header fresh refl fresh-Settled
      request-Once

-- The status of a run, and the channel's state and slot at its end.
abbrev summary : Outcome (Machine Slots) Status → Option (Status × ℕ × Option ℕ)
summary (done st s) = some (st, s.ctxt.states notifications 3, s.kernel.slots 13)
summary (crashed e s) = none

first_round :
    summary (context_switch platform memory info header fresh) ≡ some (no_error, used, some 100)
unfolding context_switch context_activate context_refresh parse_request populate_req2ctxt
    populate_xrts populate_loop workerfunc allow parse_xrt_header check_notification check_ppc
    check_irq find_resource find_loop delegator_resource read_le16 read_le64 enforce_pola
    revoke_caps restore_caps restore_notifications restore_ppcs restore_irqs restore_mappings
    restore_mappings_loop restore_loop restore_one restore_notification_cap pd_deprivilege set_state
first_round = refl

find_resource-Finds_example : Finds memory info 1 3 0 (find_resource memory info 1 3)
find_resource-Finds_example = find_resource-Finds memory info 1 3
