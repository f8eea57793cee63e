-- ===== src/Tests/Runs.antt =====
-- Two rounds: the request for channel 3, and then one that asks for nothing; and the same where the
-- first request is refused.
use libtrustedlo.Prelude.{ℕ, ◌≡◌, refl, ◌==◌, if◌then◌else◌, arith, [], ◌∷◌}
use libtrustedlo.Memory.{Memory}
use libtrustedlo.Bytes.{read_le16, read_le64}
use libtrustedlo.Dlg.{find_resource, find_loop, delegator_resource}
use libtrustedlo.Platform.{done, no_error}
use libtrustedlo.Xrt.{Machine, check_notification, check_ppc}
use libtrustedlo.Request.Accepted.{Accepted}
use libtrustedlo.Switch.Settled.{Once, Settled}
use libtrustedlo.Switch.Valid.{Valid}
use libtrustedlo.Switch.Runs.{Turn, SameChecks, Turns, serve, serve_succeeds}
use libtrustedlo.Tests.Kernel.{Slots, platform, cspace, regrants}
use libtrustedlo.Tests.Store.{memory, info, header}
use libtrustedlo.Tests.Rounds.{fresh, fresh-Settled, request-Once}
use libtrustedlo.Tests.Switches.{request-Valid}

-- At `idle_header` lies a request without an entry.
abbrev pub idle_header : ℕ
idle_header = 12288

abbrev pub idle_memory : Memory
idle_memory q = if q == 12296 then 16 else memory q

abbrev first : Turn
first = record { memory = memory; header = header }

abbrev second : Turn
second = record { memory = idle_memory; header = idle_header }

same_checks : SameChecks platform cspace (omega arith) info memory memory
same_checks = record { ntfns = λ id. refl; calls = λ id. refl }

pub idle_checks : SameChecks platform cspace (omega arith) info memory idle_memory
unfolding check_notification check_ppc find_resource find_loop delegator_resource read_le16
    read_le64
idle_checks = record { ntfns = λ id. refl; calls = λ id. refl }

idle-Once : Once platform cspace (omega arith) idle_memory info idle_header
unfolding read_le64
idle-Once = record { ntfns = λ id. omega arith; calls = λ id. omega arith }

idle-Valid : Valid platform cspace (omega arith) idle_memory info idle_header
unfolding read_le64
idle-Valid = record {
  present = λ e. absurd (cc e);
  size = omega arith;
  offset = omega arith;
  entries = λ i lt. absurd (omega (arith, lt));
  mappings = omega arith;
}

turns : Turns platform cspace (omega arith) info memory (first ∷ second ∷ [])
turns = (same_checks, request-Once, (idle_checks, idle-Once, tt))

serve_succeeds_example :
    (t : Machine Slots) × (serve platform cspace (omega arith) info 0 (first ∷ second ∷ []) fresh
      ≡ done no_error t)
    × Settled platform cspace (omega arith) idle_memory info t
serve_succeeds_example =
    serve_succeeds platform cspace (omega arith) info 0 regrants memory fresh (first ∷ second ∷ [])
      fresh-Settled turns (request-Valid, (idle-Valid, tt))

-- The first request has a second entry, of type 0.
abbrev refused_memory : Memory
refused_memory q = if q == 8192 then 2 else memory q

abbrev then_idle : Memory
then_idle q = if q == 12296 then 16 else refused_memory q
