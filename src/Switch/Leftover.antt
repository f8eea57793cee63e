-- ===== src/Switch/Leftover.antt =====
-- What the next round of the context switch of src/trustedlo_cfuncs.c makes of a request that was
-- refused half-way.
use libtrustedlo.Prelude.{ℕ, ◌+◌, ◌≡◌, ◌≤◌, ◌<◌}
use libtrustedlo.Memory.{Memory}
use libtrustedlo.Platform.{Platform}
use libtrustedlo.Cap.CSpace.{CSpace}
use libtrustedlo.Ctxt.{used, Kind}
use libtrustedlo.Xrt.{Machine}
use libtrustedlo.Request.{serialised_offset}
use libtrustedlo.Request.Entry.{times}
use libtrustedlo.Switch.Settled.{Settled}
use libtrustedlo.Switch.Valid.{Valid}

module _ {K : Type 0} (p : Platform K) (c : CSpace p) (few : p.max_channels ≤ 64) (m g : Memory)
    (info : ℕ) where
  open c use {slot, backup}

  -- A channel of the kind that is in use, with its capability from the backup before `s`.
  abbrev pub Holds : Kind → ℕ → Machine K → Machine K → ℕ → Type 0
  Holds kind base s u id =
      (u.ctxt.states kind id ≡ used) × (slot u.kernel (base + id) ≡ backup s.kernel (base + id))

  -- One of the entries before the unknown one asks for the channel.
  abbrev pub AskedBefore : ℕ → ℕ → Kind → ℕ → Type 0
  AskedBefore header k kind id = 0 < times m (header + serialised_offset m header) k 0 kind id
