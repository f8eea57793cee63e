-- ===== src/Tests/Loads.antt =====
-- The loader's entry, the trampoline, the symbol search and the request's encoding, run at concrete
-- images.
use libtrustedlo.Prelude.{
  ℕ, ◌+◌, ◌==◌, ◌≡◌, ◌≢◌, ◌<◌, inl, refl, false, arith, [], ◌∷◌, if◌then◌else◌,
}
use libtrustedlo.Memory.{Memory}
use libtrustedlo.Bytes.{read_le32, read_le64}
use libtrustedlo.Image.Integrity.{IsImage}
use libtrustedlo.Loader.{World, returned, self_load_entry}
use libtrustedlo.Loader.Entry.{self_load_entry_refuses}
use libtrustedlo.Trampoline.{
  MonitorCall, entered, aborted, trampoline_entry, container_stack_top, client_entry,
}
use libtrustedlo.Trampoline.Wipe.{
  in_regions, label, trampoline_entry-wipes, trampoline_entry_aborts,
}
use libtrustedlo.Tests.Kernel.{Slots, platform}
use libtrustedlo.Tests.Store.{bytes, memory, literals, layout}
use libtrustedlo.Tests.Rounds.{fresh}

abbrev world : World Slots
world = record { machine = fresh; memory = memory }

-- A memory without images.
abbrev blank : World Slots
blank = record { machine = fresh; memory = λ a. 0 }

blank_not-IsImage : ¬ IsImage literals blank.memory 65536
unfolding read_le32
blank_not-IsImage i = absurd (cc i.magic)

self_load_entry_refuses_example :
    self_load_entry platform literals layout 65536 blank ≡ returned blank
self_load_entry_refuses_example =
    self_load_entry_refuses platform literals layout 65536 blank (inl blank_not-IsImage)

-- Trampoline arguments at 4096 whose first region is the 16 bytes from 8192.
abbrev args_memory : Memory
args_memory = bytes ((4097, 32) ∷ (4104, 16) ∷ (4200, 7) ∷ (4216, 5) ∷ (4224, 9) ∷ (8195, 77) ∷ [])

-- A monitor that takes the call of channel 5 with identifier 9, and refuses all others.
abbrev monitor : MonitorCall
monitor channel id m = (if channel == 5 then (if id == 9 then 0 else 1) else 1, m)

channel_5 : read_le64 args_memory 4216 ≡ 5
unfolding read_le64
channel_5 = refl

call_9 : read_le64 args_memory 4224 ≡ 9
unfolding read_le64
call_9 = refl

accepted : label monitor 4096 args_memory ≡ 0
accepted = rw (channel_5, call_9) refl

apart_args : (j : ℕ) → j < 136 → in_regions args_memory 4096 6 0 (4096 + j) ≡ false
unfolding read_le64
apart_args j lt = ground arith

trampoline_entry-wipes_example :
    (g : Memory) × (trampoline_entry monitor 4096 args_memory
      ≡ entered (container_stack_top args_memory 4096) (client_entry args_memory 4096) g)
    × ((q : ℕ) → g q ≡ (if in_regions args_memory 4096 6 0 q then 0 else args_memory q))
trampoline_entry-wipes_example = trampoline_entry-wipes monitor 4096 args_memory accepted apart_args

refused_call : label monitor 0 (λ a. 0) ≢ 0
unfolding read_le64
refused_call e = absurd (cc e)

refused_aborts : trampoline_entry monitor 0 (λ a. 0) ≡ aborted (λ a. 0)
refused_aborts = trampoline_entry_aborts monitor 0 (λ a. 0) refused_call
