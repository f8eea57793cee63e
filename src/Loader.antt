-- ===== src/Loader.antt =====
-- `mktxlo_self_load_entry` of src/trustedlo_cfuncs.c, which loader/loader.c enters: the loader's
-- steps from the integrity checks to the jump into the trampoline. The context is kept beside the
-- memory that holds the images, the metadata and the request.
use libtrustedlo.Prelude.{ℕ, ◌+◌, Option, none, some}
use libtrustedlo.Memory.{Memory}
use libtrustedlo.Elf.{e_entry}
use libtrustedlo.Elf.Load.{Request}
use libtrustedlo.Platform.{Status, no_error, failed_lookup, error, Platform, Outcome, done, crashed}
use libtrustedlo.Xrt.{Machine}
use libtrustedlo.Switch.{context_switch}
use libtrustedlo.Image.{
  Literals, client_image_check_integrity, payload_check_integrity, payload_load, client_image_load,
}
use libtrustedlo.Args.{
  VmLayout, ClientArgs, sizeof_tramp_args, fill_client_args, fill_tramp_args, write_tramp_args,
  write_client_args,
}
pub mod Entry
pub mod Success
pub mod Handover

pub record World (K : Type 0) : Type 0 where
  pub machine : Machine K
  pub memory : Memory

-- How a run of the loader ends: it returns, it jumps with the stack, the entry and the
-- address of the arguments it has filled in, it crashes, or it meets what C leaves undefined.
pub data Exit (K : Type 0) : Type 0 where
  returned : World K → Exit K
  jumped : (stack entry args : ℕ) → World K → Exit K
  crash_at : Status → World K → Exit K
  undefined_at : World K → Exit K

-- TRY_OR_RETURN_VOID.
abbrev pub or_return : {K : Type 0} → Status → World K → Exit K → Exit K
or_return no_error w next = next
or_return failed_lookup w next = returned w
or_return (error e) w next = returned w

module _ {K : Type 0} (p : Platform K) (lits : Literals) (vm : VmLayout) (fuel : ℕ) where
  abbrev pub trampoline_request : Request
  trampoline_request = record {
    ehdr = vm.trampoline_image.base;
    elf_size = vm.trampoline_image.size;
    load_base = vm.trampoline_program.base;
    load_vaddr = vm.trampoline_program.base;
    load_size = vm.trampoline_program.size;
  }

  -- The trampoline's arguments are written before the client's are put together.
  abbrev pub with_tramp_args : World K → Memory
  with_tramp_args w =
      write_tramp_args vm.trampoline_args.base (fill_tramp_args p.arch vm w.memory w.machine.ctxt)
        w.memory

  abbrev pub with_client_args : ClientArgs → Memory → Memory
  with_client_args args m = write_client_args (vm.trampoline_args.base + sizeof_tramp_args) args m

  abbrev pub jump : World K → Exit K
  jump w =
      let m = with_tramp_args w in
      elim (fill_client_args p.max_channels m vm.loader_metadata.base w.machine.ctxt) [
        | none ↦ undefined_at (record w { memory = m })
        | some args ↦
            jumped vm.trampoline_stack_end
              (e_entry (with_client_args args m) vm.trampoline_image.base) vm.trampoline_args.base
              (record w { memory = with_client_args args m })
      ]

  abbrev pub load_trampoline : World K → Exit K
  load_trampoline w = elim (payload_load fuel trampoline_request w.memory) [
    | none ↦ undefined_at w
    | some (status, m) ↦ or_return status (record w { memory = m }) (jump (record w { memory = m }))
  ]

  abbrev pub load_client : World K → Exit K
  load_client w =
      elim (client_image_load fuel vm.container_program vm.container_image.base w.memory) [
        | none ↦ undefined_at w
        | some (status, m) ↦
            or_return status (record w { memory = m }) (load_trampoline (record w { memory = m }))
      ]

  abbrev pub switched : Memory → Outcome (Machine K) Status → Exit K
  switched m (done status s) =
      or_return status (record { machine = s; memory = m })
        (load_client (record { machine = s; memory = m }))
  switched m (crashed e s) = crash_at e (record { machine = s; memory = m })

  unfoldable pub self_load_entry : World K → Exit K
  self_load_entry w =
      or_return (client_image_check_integrity lits w.memory vm.container_image.base) w (
        or_return (payload_check_integrity lits w.memory vm.trampoline_image.base) w (
          switched w.memory
            (context_switch p w.memory vm.loader_metadata.base vm.txlo_xrt_req.base w.machine)))
