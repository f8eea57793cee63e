-- ===== src/Trampoline/Wipe.antt =====
-- What the trampoline leaves to the client.
use libtrustedlo.Prelude.{
  ℕ, zero, suc, ◌+◌, ◌*◌, ◌≡◌, ◌≢◌, ◌≤◌, ◌<◌, refl, Bool, false, ◌||◌, if◌then◌else◌, arith,
}
use libtrustedlo.Memory.{Memory, memset}
use libtrustedlo.Memory.Copy.{inside, memset-at}
use libtrustedlo.Bytes.{read_le64}
use libtrustedlo.Trampoline.{
  region_address, region_size, container_stack_top, client_entry, monitor_channel,
  monitor_pcmcall_id, MonitorCall, entered, aborted, wipe_loop, trampoline_entry,
}

-- The address lies in one of the `n` regions from region `i`.
abbrev pub in_regions : Memory → ℕ → ℕ → ℕ → ℕ → Bool
in_regions m args zero i q = false
in_regions m args (suc n) i q =
    inside (region_address m args i) (region_size m args i) q || in_regions m args n (i + 1) q

-- The two memories hold the same arguments.
abbrev pub SameArgs : ℕ → Memory → Memory → Type 0
SameArgs args m m' = (j : ℕ) → j < 136 → m' (args + j) ≡ m (args + j)

read_same :
    (m m' : Memory) (p : ℕ)
    → ((j : ℕ) → j < 8 → m' (p + j) ≡ m (p + j))
    → read_le64 m' p ≡ read_le64 m p
unfolding read_le64
read_same m m' p h = ground (
  arith,
  h 0 (omega arith),
  h 1 (omega arith),
  h 2 (omega arith),
  h 3 (omega arith),
  h 4 (omega arith),
  h 5 (omega arith),
  h 6 (omega arith),
  h 7 (omega arith),
)

args_same :
    (args : ℕ) (m m' : Memory) (k : ℕ)
    → SameArgs args m m'
    → k + 8 ≤ 136
    → read_le64 m' (args + k) ≡ read_le64 m (args + k)
args_same args m m' k h le =
    read_same m m' (args + k) (λ j lt. ground (arith, h (k + j) (omega arith)))

in_regions_same :
    (args : ℕ) (m m' : Memory) (n i q : ℕ)
    → SameArgs args m m'
    → n + i ≤ 6
    → in_regions m' args n i q ≡ in_regions m args n i q
in_regions_same args m m' zero i q h le = refl
in_regions_same args m m' (suc n) i q h le = ground (
  arith,
  args_same args m m' (i * 16) h (omega arith),
  args_same args m m' (i * 16 + 8) h (omega arith),
  in_regions_same args m m' n (i + 1) q h (omega arith),
)

wipe_loop_lem :
    (args : ℕ) (n i : ℕ) (m : Memory)
    → n + i ≤ 6
    → ((j : ℕ) → j < 136 → in_regions m args n i (args + j) ≡ false)
    → (q : ℕ) → wipe_loop args n i m q ≡ (if in_regions m args n i q then 0 else m q)
unfolding wipe_loop
wipe_loop_lem args zero i m le apart q = refl
wipe_loop_lem args (suc n) i m le apart q =
    let m' : Memory = memset (region_address m args i) 0 (region_size m args i) m in
    let same : SameArgs args m m' = λ j lt. ground (
      arith,
      apart j lt,
      memset-at (region_address m args i) 0 (region_size m args i) m (args + j),
    ) in
    let rest =
      wipe_loop_lem args n (i + 1) m' (omega arith)
        (λ j lt.
          ground
            (arith, apart j lt, in_regions_same args m m' n (i + 1) (args + j) same (omega arith)))
        q in
    ground (
      arith,
      rest,
      in_regions_same args m m' n (i + 1) q same (omega arith),
      memset-at (region_address m args i) 0 (region_size m args i) m q,
    )

module _ (call : MonitorCall) (args : ℕ) (m : Memory) where
  abbrev pub saved : Memory
  saved = (call (monitor_channel m args) (monitor_pcmcall_id m args) m).1

  abbrev pub label : ℕ
  label = (call (monitor_channel m args) (monitor_pcmcall_id m args) m).0

  -- If the monitor accepts the loader's context, and no wiped region meets the arguments, the
  -- trampoline enters the client at the entry and with the stack of its arguments, in a memory in
  -- which the six regions are 0 and every other byte is what the monitor left.
  pub trampoline_entry-wipes :
      label ≡ 0
      → ((j : ℕ) → j < 136 → in_regions saved args 6 0 (args + j) ≡ false)
      → (g : Memory) × (trampoline_entry call args m
          ≡ entered (container_stack_top saved args) (client_entry saved args) g)
        × ((q : ℕ) → g q ≡ (if in_regions saved args 6 0 q then 0 else saved q))
  unfolding trampoline_entry
  trampoline_entry-wipes ok apart =
      let wiped = wipe_loop_lem args 6 0 saved (omega arith) apart in
      let same : SameArgs args saved (wipe_loop args 6 0 saved) =
        λ j lt. ground (arith, wiped (args + j), apart j lt) in
      (
        wipe_loop args 6 0 saved,
        rw
            (
              ok,
              args_same args saved (wipe_loop args 6 0 saved) 96 same (omega arith),
              args_same args saved (wipe_loop args 6 0 saved) 104 same (omega arith),
            )
            refl,
        wiped,
      )

  -- If the monitor refuses, the trampoline aborts, with nothing wiped.
  pub trampoline_entry_aborts : label ≢ 0 → trampoline_entry call args m ≡ aborted saved
  unfolding trampoline_entry
  trampoline_entry_aborts bad = ground (arith, bad)
