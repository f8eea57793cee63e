-- ===== src/Monitor.antt =====
-- The monitor's half of src/trustedlo_mfuncs.c that calls the kernel: it hands a template protection
-- domain the CNode with its delegated capabilities. (The other half, the encoding of requests, is
-- in Request.)
use libtrustedlo.Prelude.{ℕ}
use libtrustedlo.Platform.{Platform, Cmd}
use libtrustedlo.Cap.{pd_privilege}
pub mod Grants
pub mod Regrant

module _ {K : Type 0} (p : Platform K) where
  unfoldable pub privilege_template_pd : ℕ → Cmd K (Unit {0})
  privilege_template_pd cid = pd_privilege p cid
