-- ===== src/Xrt/Channels.antt =====
-- What the loops over the channels of src/xrt.c share.
use libtrustedlo.Prelude.{ℕ, ◌≡◌, refl, true, arith}
use libtrustedlo.Platform.{Cmd, done, ◌>>◌}
use libtrustedlo.Ctxt.{XrtState, Kind, same_kind, Ctxt}
use libtrustedlo.Xrt.{Machine, on_kernel, modify}

abbrev pub with_states : Ctxt → (Kind → ℕ → XrtState) → Ctxt
with_states c f = record c { states = f }

pub same_kind_refl : (k : Kind) → same_kind k k ≡ true
same_kind_refl k = ground arith

-- A capability operation that returns, followed by another command.
pub on_kernel-then :
    {K B : Type 0} (cmd : Cmd K (Unit {0})) (next : Cmd (Machine K) B) (s : Machine K) (k : K)
    → cmd s.kernel ≡ done tt k
    → (on_kernel cmd >> next) s ≡ next (record s { kernel = k })
on_kernel-then cmd next s k e = rw (e, on_kernel) refl

-- A capability operation that returns, followed by an update of the context.
pub on_kernel-done :
    {K : Type 0} (cmd : Cmd K (Unit {0})) (f : Ctxt → Ctxt) (s : Machine K) (k : K)
    → cmd s.kernel ≡ done tt k
    → (on_kernel cmd >> modify f) s ≡ done tt (record { kernel = k; ctxt = f s.ctxt })
on_kernel-done cmd f s k e = ground (arith, e)
