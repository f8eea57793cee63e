-- ===== src/Tests/Switches.antt =====
-- The parts of the context switch at the concrete round.
use libtrustedlo.Prelude.{
  ℕ, zero, suc, inl, ◌+◌, ◌*◌, ◌≡◌, ◌≢◌, ◌<◌, refl, ◌==◌, arith, none, some, if◌then◌else◌, true,
}
use libtrustedlo.Platform.{Status, done, crashed}
use libtrustedlo.Cap.{ntfn_base_cap, revoke_notification_cap, restore_notification_cap}
use libtrustedlo.Cap.CSpace.{revoke_notification_cap-Deletes, restore_notification_cap-Copies}
use libtrustedlo.Ctxt.{notifications, used, allowed, unset, allow, allow_mapping}
use libtrustedlo.Xrt.{
  Machine, check_notification, revoke_loop, restore_loop, revoke_one, restore_one, revoke_mappings,
  revoke_mapping, restore_mapping,
}
use libtrustedlo.Xrt.Restore.{Restored, Fillable, restore_loop-Restored}
use libtrustedlo.Xrt.Revoke.{Revoked, revoke_loop-Revoked}
use libtrustedlo.Platform.Ensures.{Ensures}
use libtrustedlo.Bytes.{read_le16, read_le64}
use libtrustedlo.Dlg.{find_resource, find_loop, delegator_resource}
use libtrustedlo.Request.{total_num, serialised_offset, populate_xrts, try}
use libtrustedlo.Request.Populate.{Populated, populate_xrts-Populated}
use libtrustedlo.Request.Accepted.{Accepted}
use libtrustedlo.Switch.{enforce_pola, context_activate, populate_req2ctxt}
use libtrustedlo.Switch.Pola.{enforce_pola-Enforces}
use libtrustedlo.Switch.Phases.{Consistent, Enforces}
use libtrustedlo.Switch.Valid.{Valid, Grantable}
use libtrustedlo.Switch.Mappings.{populate-revoke_mappings, allow_mapping-reuses}
use libtrustedlo.Switch.Repeats.{allow-allow_crashes}
use libtrustedlo.Tests.Kernel.{Slots, platform, cspace}
use libtrustedlo.Tests.Store.{memory, info, header}
use libtrustedlo.Tests.Rounds.{fresh, fresh_ctxt, fresh-Settled}

pub request-Valid : Valid platform cspace (omega arith) memory info header
unfolding read_le64 check_notification find_resource find_loop delegator_resource read_le16
request-Valid = record {
  present = λ e. absurd (cc e);
  size = omega arith;
  offset = omega arith;
  entries = λ i lt. inl (only i lt);
  mappings = omega arith;
}
  where
    only :
        (i : ℕ)
        → i < total_num memory header
        → Grantable platform cspace
            (omega arith)
            memory
            info
            (header + serialised_offset memory header + i * 16)
    only zero lt = record {
      kind = notifications;
      type = refl;
      range = omega arith;
      delegated = refl;
    }
    only (suc i) lt = absurd (omega (arith, lt))

fresh-Consistent : Consistent platform cspace (omega arith) memory info fresh
fresh-Consistent = record {
  ntfns = fresh-Settled.ntfns;
  calls = fresh-Settled.calls;
  no_irqs = fresh-Settled.no_irqs;
  granted = refl;
}

enforce_pola-Enforces_example :
    Ensures
      (fresh_ctxt.mapping_count ≢ 0)
      (Enforces platform cspace (omega arith) memory info fresh)
      (enforce_pola platform memory info fresh)
enforce_pola-Enforces_example =
    enforce_pola-Enforces platform cspace (omega arith) memory info fresh fresh-Consistent

populate_xrts-Populated_example :
    Accepted
      (Populated platform memory info
        (header + serialised_offset memory header)
        (total_num memory header)
        0
        fresh)
      (populate_xrts platform memory info header fresh)
populate_xrts-Populated_example = populate_xrts-Populated platform memory info header fresh

populate-revoke_mappings_example :
    Accepted
      (λ t. revoke_mappings platform memory t ≡ done tt t)
      (try (context_activate platform memory) (populate_req2ctxt platform memory info header) fresh)
populate-revoke_mappings_example = populate-revoke_mappings platform memory info header fresh

-- Channel 3 and a first mapping are in use.
abbrev busy : Machine Slots
busy = record {
  kernel = record {
    slots = λ a. if a == 13 then some 100 else none;
    backups = λ a. if a == 13 then some 100 else none;
    mapped = 0;
    granted = true;
  };
  ctxt = record fresh_ctxt {
    switch_count = 1;
    states = λ kind i. if i == 3 then used else unset;
    mapping_data = λ i. 4112;
    mapping_state = λ i. if i == 0 then used else unset;
  };
}

allow_mapping-reuses_example :
    let t : Machine Slots = record busy { ctxt = allow_mapping busy.ctxt 4128 } in
    (t.ctxt.mapping_data 0 ≡ 4128)
    × (revoke_mapping platform memory 0 t ≡ done tt t)
    × ((u : Machine Slots) × (restore_mapping platform memory 0 t ≡ done tt u)
        × (u.kernel ≡ busy.kernel)
        × (u.ctxt.mapping_state 0 ≡ used)
        × (u.ctxt.mapping_data 0 ≡ 4128))
allow_mapping-reuses_example = allow_mapping-reuses platform memory info busy 4128 refl

allow-allow_crashes_example :
    let t : Machine Slots = record busy {
      ctxt = allow notifications (allow notifications busy.ctxt 3) 3;
    } in
    (revoke_one notifications (λ i. i == 3) (revoke_notification_cap platform) 3 t ≡ done tt t)
    × ((e : Status) × (u : Machine Slots) × (restore_one notifications
            (λ i. i == 3)
            (restore_notification_cap platform)
            3
            t
          ≡ crashed e u))
allow-allow_crashes_example =
    allow-allow_crashes platform cspace (λ i. i == 3) (revoke_notification_cap platform) 3 100 busy
      (omega arith) refl refl refl

revoke_loop-Revoked_example :
    (t : Machine Slots) × (revoke_loop notifications
        (λ i. i == 3)
        (revoke_notification_cap platform)
        62
        0
        busy
      ≡ done tt t)
    × Revoked platform cspace notifications ntfn_base_cap (λ i. i == 3) 0 62 busy t
revoke_loop-Revoked_example =
    revoke_loop-Revoked platform cspace notifications ntfn_base_cap (λ i. i == 3)
      (revoke_notification_cap platform)
      (revoke_notification_cap-Deletes platform cspace (omega arith)) 62 0 busy refl (omega arith)

-- Channel 3 is asked for, and its slot is empty.
abbrev asking : Machine Slots
asking = record fresh {
  ctxt = record fresh_ctxt { states = λ kind i. if i == 3 then allowed else unset };
}

asking-Fillable : Fillable platform cspace notifications ntfn_base_cap (λ i. i == 3) 0 62 asking
asking-Fillable = record { empty = λ j h. refl; full = λ j h e. ground (arith, h, e) }

restore_loop-Restored_example :
    (t : Machine Slots) × (restore_loop notifications
        (λ i. i == 3)
        (restore_notification_cap platform)
        62
        0
        asking
      ≡ done tt t)
    × Restored platform cspace notifications ntfn_base_cap (λ i. i == 3) 0 62 asking t
restore_loop-Restored_example =
    restore_loop-Restored platform cspace notifications ntfn_base_cap (λ i. i == 3)
      (restore_notification_cap platform)
      (restore_notification_cap-Copies platform cspace (omega arith)) 62 0 asking refl (omega arith)
      asking-Fillable
