-- ===== src/Switch.antt =====
-- The context switch of src/trustedlo_cfuncs.c: activate the context, read the request into it,
-- and bring the delegator's capabilities in line with it.
use libtrustedlo.Prelude.{ℕ, suc, ◌+◌, Bool, true, false, ◌==◌, if◌then◌else◌}
use libtrustedlo.Memory.{Memory}
use libtrustedlo.Platform.{
  Status, no_error, failed_lookup, error, minus_one, Platform, Cmd, done, pure, ◌>>=◌, ◌>>◌,
}
use libtrustedlo.Cap.{pd_deprivilege}
use libtrustedlo.Xrt.{
  Machine, on_kernel, modify, revoke_notifications, revoke_ppcs, revoke_irqs, revoke_mappings,
  restore_notifications, restore_ppcs, restore_irqs, restore_mappings,
}
use libtrustedlo.Request.{parse_xrt_header, populate_xrts, try}
pub mod Channel
pub mod Phases
pub mod Pola
pub mod Irqs
pub mod Round
pub mod Settled
pub mod Mappings
pub mod Repeats
pub mod Remap
pub mod Valid
pub mod Success
pub mod Runs
pub mod HalfWay
pub mod Leftover
pub mod Calls
pub mod Unmaps

module _ {K : Type 0} (p : Platform K) (m : Memory) where
  unfoldable pub parse_request : ℕ → Status
  parse_request xrt_req_header =
      if xrt_req_header == 0 then minus_one else parse_xrt_header m xrt_req_header

  unfoldable pub populate_req2ctxt : ℕ → ℕ → Cmd (Machine K) Status
  populate_req2ctxt info xrt_req_header = populate_xrts p m info xrt_req_header

  -- On the first execution there is nothing to revoke.
  unfoldable pub revoke_caps : ℕ → Cmd (Machine K) (Unit {0})
  revoke_caps info s =
      if s.ctxt.switch_count == 0
      then modify (λ c. record c { switch_count = c.switch_count + 1 }) s
      else (revoke_notifications p m info
            >> (revoke_ppcs p m info >> (revoke_irqs p m info >> revoke_mappings p m)))
          s

  unfoldable pub restore_caps : ℕ → Cmd (Machine K) (Unit {0})
  restore_caps info =
      restore_notifications p m info
      >> (restore_ppcs p m info >> (restore_irqs p m info >> restore_mappings p m))

  unfoldable pub enforce_pola : ℕ → Cmd (Machine K) Status
  enforce_pola info = revoke_caps info >> (restore_caps info >> pure no_error)

  -- The context is a pointer in the code; a null one never reaches here.
  unfoldable pub context_activate : Cmd (Machine K) Status
  context_activate = modify (λ c. record c { mapping_count = 0 }) >> pure no_error

  unfoldable pub context_refresh : ℕ → ℕ → Cmd (Machine K) Status
  context_refresh info xrt_req_header = try (pure (parse_request xrt_req_header)) (
      try (populate_req2ctxt info xrt_req_header)
        (try (enforce_pola info) (on_kernel (pd_deprivilege p) >> pure no_error)))

  unfoldable pub context_switch : ℕ → ℕ → Cmd (Machine K) Status
  context_switch info xrt_req_header =
      try context_activate (try (context_refresh info xrt_req_header) (pure no_error))
