-- ===== src/Loader/Success.antt =====
-- When `mktxlo_self_load_entry` reaches the trampoline.
use libtrustedlo.Prelude.{ℕ, ◌+◌, ◌^◌, ◌≡◌, ◌∙◌, ◌≤◌, refl, true, false, arith, some}
use libtrustedlo.Memory.{Memory}
use libtrustedlo.Memory.Copy.{inside, Apart}
use libtrustedlo.Memory.Compare.{SameBytes}
use libtrustedlo.Bytes.Agreement.{Agree}
use libtrustedlo.Platform.{no_error, Platform}
use libtrustedlo.Cap.CSpace.{CSpace}
use libtrustedlo.Ctxt.{notifications, ppcs}
use libtrustedlo.Xrt.{Machine}
use libtrustedlo.Elf.{e_entry, e_phoff, e_phnum}
use libtrustedlo.Elf.Load.Accept.{Loadable}
use libtrustedlo.Elf.Load.Safety.{contents}
use libtrustedlo.Elf.Load.Stable.{Loadable-Agree, entry_same}
use libtrustedlo.Switch.Settled.{Settled, Once, Round, asked}
use libtrustedlo.Switch.Success.{context_switch_succeeds}
use libtrustedlo.Switch.Valid.{Valid}
use libtrustedlo.Image.{Literals, client_image_elf, client_image_load}
use libtrustedlo.Image.Integrity.{IsImage, payload_check_iff, client_check-IsImage}
use libtrustedlo.Image.Loading.{Client, client_byte, client_image_load-Client, payload_loads}
use libtrustedlo.Image.Patch.{status_of}
use libtrustedlo.Args.{VmLayout, ClientArgs, fill_client_args}
use libtrustedlo.Args.Bitmaps.{Low, fill_client_args_iff}
use libtrustedlo.Loader.Entry.{args_frame}
use libtrustedlo.Loader.{
  with_tramp_args, with_client_args, World, jumped, trampoline_request, switched, jump,
  load_trampoline, load_client, self_load_entry,
}

module _ {K : Type 0} (p : Platform K) (c : CSpace p) (few : p.max_channels ≤ 64) (lits : Literals)
    (vm : VmLayout) (fuel : ℕ) where
  -- A world in which nothing is wrong: a settled context, a valid request for no channel of number
  -- 31 or above, two well-formed images outside the regions that they are loaded into.
  pub record Launchable (w : World K) : Type 0 where
    pub settled : Settled p c few w.memory vm.loader_metadata.base w.machine
    pub granted : c.granted w.machine.kernel ≡ true
    pub once : Once p c few w.memory vm.loader_metadata.base vm.txlo_xrt_req.base
    pub valid : Valid p c few w.memory vm.loader_metadata.base vm.txlo_xrt_req.base
    pub low_ntfns :
        (id : ℕ)
        → 31 ≤ id
        → asked p c few w.memory vm.loader_metadata.base vm.txlo_xrt_req.base notifications id
          ≡ false
    pub low_ppcs :
        (id : ℕ)
        → 31 ≤ id
        → asked p c few w.memory vm.loader_metadata.base vm.txlo_xrt_req.base ppcs id ≡ false
    pub image : IsImage lits w.memory vm.container_image.base
    pub magic : SameBytes w.memory vm.trampoline_image.base lits.elfmag 4
    pub client : Client fuel w.memory vm.container_program vm.container_image.base
    pub all_found :
        status_of fuel w.memory vm.container_program
          (client_image_elf w.memory vm.container_image.base)
          client.plan
        ≡ no_error
    pub size : 64 ≤ vm.trampoline_image.size
    pub apart :
        Apart vm.trampoline_program.base vm.trampoline_program.size vm.trampoline_image.base
          vm.trampoline_image.size
    pub client_apart :
        Apart vm.container_program.base vm.container_program.size vm.trampoline_image.base
          vm.trampoline_image.size
    pub args_apart :
        Apart vm.trampoline_args.base 232 vm.trampoline_image.base vm.trampoline_image.size
    pub trampoline : Loadable w.memory (trampoline_request p lits vm fuel)

  -- What the loader has made of `w` when it jumps.
  pub record Launched (w : World K) (ready : Launchable w) : Type 0 where
    pub machine : Machine K
    pub client_memory : Memory
    pub trampoline_memory : Memory
    pub args : ClientArgs
    pub memory : Memory
    pub run :
        self_load_entry p lits vm fuel w
        ≡ jumped vm.trampoline_stack_end
            (e_entry w.memory vm.trampoline_image.base)
            vm.trampoline_args.base
            (record { machine = machine; memory = memory })
    pub round :
        Round p c few w.memory vm.loader_metadata.base vm.txlo_xrt_req.base w.machine machine
    pub client :
        (q : ℕ)
        → client_memory q
          ≡ client_byte fuel w.memory vm.container_program vm.container_image.base ready.client q
    pub trampoline :
        (q : ℕ)
        → let r = trampoline_request p lits vm fuel in
          trampoline_memory q
          ≡ contents client_memory r
              (r.ehdr + e_phoff client_memory r.ehdr)
              (e_phnum client_memory r.ehdr)
              0
              (client_memory q)
              q
    pub loaded_outside :
        (q : ℕ)
        → inside vm.container_program.base vm.container_program.size q ≡ false
        → inside vm.trampoline_program.base vm.trampoline_program.size q ≡ false
        → trampoline_memory q ≡ w.memory q
    pub filled :
        let m =
          with_tramp_args p lits vm fuel
            (record { machine = machine; memory = trampoline_memory }) in
        (fill_client_args p.max_channels m vm.loader_metadata.base machine.ctxt ≡ some args)
        × (memory ≡ with_client_args p lits vm fuel args m)
    pub outside :
        (q : ℕ)
        → inside vm.container_program.base vm.container_program.size q ≡ false
        → inside vm.trampoline_program.base vm.trampoline_program.size q ≡ false
        → inside vm.trampoline_args.base 232 q ≡ false
        → memory q ≡ w.memory q

  module _ (w : World K) (ready : Launchable w) where
    Low-Round :
        (s : Machine K)
        → Round p c few w.memory vm.loader_metadata.base vm.txlo_xrt_req.base w.machine s
        → Low (s.ctxt.states notifications) 0 p.max_channels
          × Low (s.ctxt.states ppcs) 0 p.max_channels
    Low-Round s r = (
      (λ j h. ground (arith, r.ntfns.states j, ready.low_ntfns j)),
      (λ j h. ground (arith, r.calls.states j, ready.low_ppcs j)),
    )

    -- With a settled context, the delegation CNode granted, a valid request that asks for no channel
    -- twice and for none of number 31 or above, two images that pass the checks, are loadable and lie
    -- outside the regions that they are loaded into, and all symbols of the client found in its
    -- region, the loader jumps to the entry of the trampoline. It has then
    -- done a round of the context switch, loaded and patched the client's program, loaded the
    -- trampoline, written the arguments of both, and changed no byte outside the two program regions
    -- and the arguments.
    pub self_load_entry-Launched : 2 ^ 16 ≤ fuel → Launched w ready
    unfolding self_load_entry
    self_load_entry-Launched enough =
        let info = vm.loader_metadata.base in
        let header = vm.txlo_xrt_req.base in
        let (s, switch_run, round, mapped) =
          context_switch_succeeds p c few w.memory info header w.machine ready.granted ready.settled
            ready.once ready.valid in
        let (g, client_run, client, client_outside) =
          client_image_load-Client fuel w.memory vm.container_program vm.container_image.base enough
            ready.client in
        let r = trampoline_request p lits vm fuel in
        let kept : Agree r.ehdr r.elf_size w.memory g =
          λ q lo hi. client_outside q (ground (arith, ready.client_apart)) in
        let loadable = Loadable-Agree w.memory g r kept ready.size ready.apart ready.trampoline in
        let (h, trampoline_run, outside, trampoline) =
          payload_loads fuel r g enough ready.size ready.apart loadable in
        let (args, filled) =
          (fill_client_args_iff p.max_channels
              (with_tramp_args p lits vm fuel (record { machine = s; memory = h })) info s.ctxt).1
            (Low-Round s round) in
        let memory =
          with_client_args p lits vm fuel args
            (with_tramp_args p lits vm fuel (record { machine = s; memory = h })) in
        let args_outside : (q : ℕ) → inside vm.trampoline_args.base 232 q ≡ false → memory q ≡ h q =
          args_frame p c few lits vm fuel args s h in
        let kept' : Agree r.ehdr r.elf_size w.memory memory = λ q lo hi.
          args_outside q (ground (arith, ready.args_apart))
          ∙ (outside q (ground (arith, ready.apart)) ∙ kept q lo hi) in
        let entry = entry_same w.memory memory r kept' ready.size in
        let found : client_image_load fuel vm.container_program vm.container_image.base w.memory
            ≡ some (no_error, g) =
          rw ready.all_found at client_run in
        record {
          machine = s;
          client_memory = g;
          trampoline_memory = h;
          args = args;
          memory = memory;
          run =
              rw
                (
                  (client_check-IsImage lits w.memory vm.container_image.base).1 ready.image,
                  (payload_check_iff lits w.memory vm.trampoline_image.base).1 ready.magic,
                  switch_run,
                  found,
                  trampoline_run,
                  filled,
                  entry,
                  switched,
                  load_client,
                  load_trampoline,
                  jump,
                )
                refl;
          round = round;
          client = client;
          trampoline = trampoline;
          loaded_outside = λ q out out'. outside q out' ∙ client_outside q out;
          filled = (filled, refl);
          outside =
              λ q out out' out''. args_outside q out'' ∙ (outside q out' ∙ client_outside q out);
        }
