-- ===== src/Trampoline.antt =====
-- trampoline/trampoline.c: the trampoline saves the loader's context through a call of the monitor,
-- wipes the loader's regions and jumps to the client. The monitor's side of the call is a
-- parameter.
use libtrustedlo.Prelude.{ℕ, zero, suc, ◌+◌, ◌*◌, Bool, true, false, not, ◌==◌, if◌then◌else◌}
use libtrustedlo.Memory.{Memory, memset}
use libtrustedlo.Bytes.{read_le64}
pub mod Wipe

-- The fields of trampoline_args_t in memory.
abbrev pub region_address : Memory → ℕ → ℕ → ℕ
region_address m args i = read_le64 m (args + i * 16)

abbrev pub region_size : Memory → ℕ → ℕ → ℕ
region_size m args i = read_le64 m (args + i * 16 + 8)

abbrev pub container_stack_top : Memory → ℕ → ℕ
container_stack_top m args = read_le64 m (args + 96)

abbrev pub client_entry : Memory → ℕ → ℕ
client_entry m args = read_le64 m (args + 104)

abbrev pub monitor_channel : Memory → ℕ → ℕ
monitor_channel m args = read_le64 m (args + 120)

abbrev pub monitor_pcmcall_id : Memory → ℕ → ℕ
monitor_pcmcall_id m args = read_le64 m (args + 128)

-- The trampoline never returns: it jumps with a stack and an entry, or it aborts.
pub data Finish : Type 0 where
  entered : (stack entry : ℕ) → Memory → Finish
  aborted : Memory → Finish

-- `seL4_Call` on a channel with message register 0: the label of the answer and the memory that
-- the monitor leaves.
abbrev pub MonitorCall : Type 0
MonitorCall = ℕ → ℕ → Memory → ℕ × Memory

-- The loop over the regions with its rounds left, from region `i`.
unfoldable pub wipe_loop : ℕ → ℕ → ℕ → Memory → Memory
wipe_loop args zero i m = m
wipe_loop args (suc n) i m =
    wipe_loop args n (i + 1) (memset (region_address m args i) 0 (region_size m args i) m)

unfoldable pub trampoline_entry : MonitorCall → ℕ → Memory → Finish
trampoline_entry call args m =
    let answer = call (monitor_channel m args) (monitor_pcmcall_id m args) m in
    let m' = answer.1 in
    let wiped = wipe_loop args 6 0 m' in
    if not (answer.0 == 0)
    then aborted m'
    else entered (container_stack_top wiped args) (client_entry wiped args) wiped
