-- ===== src/Tests/Mappings.antt =====
-- The restoration and the revocation of one mapping, and a whole run of the loader.
use libtrustedlo.Prelude.{
  ℕ, zero, suc, ◌+◌, ◌≡◌, ◌≤◌, ◌<◌, refl, ◌⊎◌, inl, ◌==◌, if◌then◌else◌, arith, Option, none, some,
  [], ◌∷◌,
}
use libtrustedlo.Memory.{Memory, memcmp, memcmp_loop, memcpy, memcpy_loop, memset, memset_loop}
use libtrustedlo.Bytes.{read_le16, read_le32, read_le64, write_le64}
use libtrustedlo.Platform.{done}
use libtrustedlo.Ctxt.{allowed, unset}
use libtrustedlo.Xrt.{Machine, restore_mappings}
use libtrustedlo.Xrt.Granting.{Pending, Mapped, restore_mappings-Mapped}
use libtrustedlo.Xrt.{
  check_notification, check_ppc, check_irq, restore_notifications, restore_ppcs, restore_irqs,
  restore_mappings_loop, restore_loop, restore_one,
}
use libtrustedlo.Dlg.{find_resource, find_loop, delegator_resource}
use libtrustedlo.Ctxt.{allow, set_state}
use libtrustedlo.Cap.{restore_notification_cap, pd_deprivilege}
use libtrustedlo.Request.{parse_xrt_header, populate_xrts, populate_loop, workerfunc}
use libtrustedlo.Switch.{
  parse_request, populate_req2ctxt, revoke_caps, restore_caps, enforce_pola, context_activate,
  context_refresh, context_switch,
}
use libtrustedlo.Image.{
  client_image_check_integrity, payload_check_integrity, client_image_elf, client_image_mktsymb,
  client_image_load, payload_load, client_patch_symbols, patch_loop,
}
use libtrustedlo.Symb.{mktsymb_read}
use libtrustedlo.Elf.Load.{load_elf, header_valid, load_segments, segment_fits, copy_segment}
use libtrustedlo.Args.{
  write_tramp_args, write_regions, write_client_args, word_of, fill_client_args, mark_loop, mark,
  shift_one, fill_tramp_args,
}
use libtrustedlo.Xrt.{revoke_mappings}
use libtrustedlo.Ctxt.{used}
use libtrustedlo.Xrt.Unmapping.{Unmapped, revoke_mappings-Unmapped}
use libtrustedlo.Loader.{Exit, returned, jumped, crash_at, undefined_at, self_load_entry}
use libtrustedlo.Tests.Kernel.{Slots, platform}
use libtrustedlo.Tests.Store.{bytes, memory, literals, layout}
use libtrustedlo.Tests.Rounds.{fresh, fresh_ctxt}

-- A memory region of two pages from slot 140, to be mapped at 2 ^ 16.
abbrev region_memory : Memory
region_memory = bytes ((5000, 3) ∷ (5002, 140) ∷ (5004, 2) ∷ (5008, 1) ∷ [])

abbrev mapping : Machine Slots
mapping = record fresh {
  ctxt = record fresh_ctxt {
    mapping_count = 1;
    mapping_data = λ i. 5000;
    mapping_state = λ i. if i == 0 then allowed else unset;
  };
}

mapping-Pending : Pending platform region_memory 0 1 mapping
unfolding read_le16 read_le64
mapping-Pending = record {
  state = only;
  mappable =
      λ j lo hi. record { region = refl; from = omega arith; to = omega arith; maps = λ k. refl };
}
  where
    only :
        (j : ℕ)
        → 0 ≤ j
        → j < 0 + 1
        → (mapping.ctxt.mapping_state j ≡ allowed) ⊎ (mapping.ctxt.mapping_state j ≡ 3)
    only zero lo hi = inl refl
    only (suc j) lo hi = absurd (omega (arith, hi))

restore_mappings-Mapped_example :
    (t : Machine Slots) × (restore_mappings platform region_memory mapping ≡ done tt t)
    × Mapped platform region_memory 0 1 mapping t
restore_mappings-Mapped_example =
    restore_mappings-Mapped platform region_memory mapping mapping-Pending

abbrev mapped : Machine Slots
mapped = record mapping {
  ctxt = record mapping.ctxt { mapping_state = λ i. if i == 0 then used else unset };
}

revoke_mappings-Unmapped_example :
    (t : Machine Slots) × (revoke_mappings platform region_memory mapped ≡ done tt t)
    × Unmapped platform region_memory 0 1 mapped t
revoke_mappings-Unmapped_example =
    revoke_mappings-Unmapped platform region_memory mapped (λ j k e. refl)

-- The stack and the entry of the jump, a byte of the loaded client, a byte that was filled, and
-- a byte of the client's entry in the arguments.
abbrev jump_of : Exit Slots → Option (ℕ × ℕ × ℕ × ℕ × ℕ)
jump_of (jumped stack entry args w) =
    some (stack, entry, w.memory 131073, w.memory 131075, w.memory (args + 106))
jump_of (returned w) = none
jump_of (crash_at e w) = none
jump_of (undefined_at w) = none

loader_run :
    jump_of
      (self_load_entry platform literals layout 4 (record { machine = fresh; memory = memory }))
    ≡ some (0xe1000, 262144, 187, 0, 2)
unfolding write_tramp_args write_regions write_client_args word_of write_le64 self_load_entry
    client_image_check_integrity payload_check_integrity client_image_elf client_image_mktsymb
    memcmp memcmp_loop context_switch context_activate context_refresh parse_request
    populate_req2ctxt populate_xrts populate_loop workerfunc allow parse_xrt_header
    check_notification check_ppc check_irq find_resource find_loop delegator_resource read_le16
    read_le32 read_le64 enforce_pola revoke_caps restore_caps restore_notifications restore_ppcs
    restore_irqs restore_mappings restore_mappings_loop restore_loop restore_one
    restore_notification_cap pd_deprivilege set_state client_image_load payload_load load_elf
    header_valid load_segments segment_fits copy_segment memcpy memcpy_loop memset memset_loop
    client_patch_symbols patch_loop mktsymb_read fill_client_args mark_loop mark shift_one
    fill_tramp_args
loader_run = refl
