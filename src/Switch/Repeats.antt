-- ===== src/Switch/Repeats.antt =====
-- A request that asks twice for a channel that is in use.
use libtrustedlo.Prelude.{ℕ, ◌+◌, ◌≡◌, ◌≢◌, ◌<◌, refl, Bool, true, arith, some}
use libtrustedlo.Platform.{Status, no_error, failed_lookup, error, Platform, Cmd, done, crashed}
use libtrustedlo.Cap.{restore_notification_cap, ntfn_base_cap, copy_cap_from_backup_cnode, checked}
use libtrustedlo.Cap.CSpace.{CSpace, status, after, copy_call}
use libtrustedlo.Ctxt.{used, allowed, notifications, allow, set_state, check_state}
use libtrustedlo.Xrt.{Machine, revoke_one, restore_one}

module _ {K : Type 0} (p : Platform K) (c : CSpace p) where
  open c use {slot, backup}

  checked-fails : (st : Status) (k : K) → st ≢ no_error → checked st k ≡ crashed st k
  checked-fails no_error k h = absurd (h refl)
  checked-fails failed_lookup k h = refl
  checked-fails (error e) k h = refl

  -- A notification channel that is in use and asked for twice is not revoked, but restored into the
  -- slot that its capability still fills, and the loader crashes.
  pub allow-allow_crashes :
      (check : ℕ → Bool) (revoke : ℕ → Cmd K (Unit {0})) (id cap : ℕ) (s : Machine K)
      → id < p.max_channels
      → check id ≡ true
      → s.ctxt.states notifications id ≡ used
      → slot s.kernel (ntfn_base_cap + id) ≡ some cap
      → let t : Machine K = record s {
        ctxt = allow notifications (allow notifications s.ctxt id) id;
      } in
        (revoke_one notifications check revoke id t ≡ done tt t)
        × ((e : Status) × (u : Machine K) × (restore_one notifications check
                (restore_notification_cap p)
                id
                t
              ≡ crashed e u))
  unfolding allow revoke_one restore_one restore_notification_cap set_state check_state
      copy_cap_from_backup_cnode
  allow-allow_crashes check revoke id cap s lt known held full =
      let t : Machine K = record s {
        ctxt = allow notifications (allow notifications s.ctxt id) id;
      } in
      let call = copy_call p (ntfn_base_cap + id) (ntfn_base_cap + id) in
      let fails =
        checked-fails (status p call s.kernel) (after p call s.kernel)
          (c.copy_occupied s.kernel (ntfn_base_cap + id) (ntfn_base_cap + id) cap full) in
      let twice : t.ctxt.states notifications id ≡ allowed = ground (arith, held) in
      (
        ground (arith, twice),
        (
          status p call s.kernel,
          record t { kernel = after p call s.kernel },
          ground (arith, twice, known, fails),
        ),
      )
