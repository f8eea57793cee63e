-- ===== src/Ctxt/States.antt =====
-- What the states of a channel stand for.
use libtrustedlo.Prelude.{ℕ, Bool, ◌||◌, ◌==◌}
use libtrustedlo.Ctxt.{XrtState, Ctxt, allowed, used, keep}

-- The request has asked for the channel.
abbrev pub requested : XrtState → Bool
requested st = st == allowed || st == keep

-- The protection domain holds the channel's capability.
abbrev pub held : XrtState → Bool
held st = st == used || st == keep

-- The channel and the call by which the trampoline reaches the monitor.
abbrev pub monitor_of : Ctxt → ℕ × ℕ
monitor_of c = (c.channel, c.call_id)
