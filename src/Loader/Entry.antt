-- ===== src/Loader/Entry.antt =====
-- What has happened before the loader jumps into the trampoline.
use libtrustedlo.Prelude.{
  ℕ, ◌≡◌, ◌≤◌, ◌⊎◌, ◌∙◌, ◌+◌, ◌^◌, ap, refl, arith, Bool, true, false, some, Option-cases, inl, inr,
  ◌≢◌,
}
use libtrustedlo.Memory.{Memory}
use libtrustedlo.Memory.Compare.{SameBytes}
use libtrustedlo.Memory.Copy.{inside, Apart}
use libtrustedlo.Bytes.Agreement.{Agree}
use libtrustedlo.Elf.Load.{Request, load_elf}
use libtrustedlo.Elf.Load.Accept.{load_elf-outside}
use libtrustedlo.Image.Loading.{Client, client_image_load-Client}
use libtrustedlo.Args.Written.{write_tramp_args-frame, write_client_args-frame}
use libtrustedlo.Platform.{Status, no_error, failed_lookup, error, Platform, Outcome, done, crashed}
use libtrustedlo.Cap.CSpace.{CSpace}
use libtrustedlo.Ctxt.{notifications, ppcs}
use libtrustedlo.Request.Accepted.{Accepted}
use libtrustedlo.Xrt.{Machine}
use libtrustedlo.Switch.Round.{context_switch-Round}
use libtrustedlo.Switch.Settled.{Settled, Once, Round}
use libtrustedlo.Image.{Literals, payload_load, client_image_load}
use libtrustedlo.Image.Integrity.{IsImage, payload_check_iff, client_check-IsImage}
use libtrustedlo.Args.{VmLayout, ClientArgs, fill_client_args, fill_tramp_args}
use libtrustedlo.Args.Bitmaps.{Low, fill_client_args_iff}
use libtrustedlo.Loader.{
  World, Exit, returned, jumped, crash_at, undefined_at, or_return, trampoline_request,
  with_tramp_args, with_client_args, jump, load_trampoline, load_client, switched, self_load_entry,
}

-- What holds if the loader jumps.
abbrev pub OnJump : {K : Type 0} → (World K → Type 0) → Exit K → Type 0
OnJump P (jumped stack entry args w) = P w
OnJump P (returned w) = Unit
OnJump P (crash_at e w) = Unit
OnJump P (undefined_at w) = Unit

or_return-OnJump :
    {K : Type 0} (P : World K → Type 0) (status : Status) (w : World K) (next : Exit K)
    → (status ≡ no_error → OnJump P next)
    → OnJump P (or_return status w next)
or_return-OnJump P no_error w next h = h refl
or_return-OnJump P failed_lookup w next h = tt
or_return-OnJump P (error e) w next h = tt

refused :
    {K : Type 0} (status : Status) (w : World K) (next : Exit K)
    → status ≢ no_error
    → or_return status w next ≡ returned w
refused no_error w next h = absurd (h refl)
refused failed_lookup w next h = refl
refused (error e) w next h = refl

twice_refused :
    {K : Type 0} (first second : Status) (w : World K) (next : Exit K)
    → second ≢ no_error
    → or_return first w (or_return second w next) ≡ returned w
twice_refused no_error second w next h = refused second w next h
twice_refused failed_lookup second w next h = refl
twice_refused (error e) second w next h = refl

payload_memory :
    (fuel : ℕ) (r : Request) (m h : Memory) (b : Bool) (g : Memory)
    → load_elf fuel r m ≡ some (b, g)
    → payload_load fuel r m ≡ some (no_error, h)
    → h ≡ g
unfolding payload_load
payload_memory fuel r m h true g e run = let x = rw (e, payload_load) at run in cc
payload_memory fuel r m h false g e run = let x = rw (e, payload_load) at run in absurd (cc x)

module _ {K : Type 0} (p : Platform K) (c : CSpace p) (few : p.max_channels ≤ 64) (lits : Literals)
    (vm : VmLayout) (fuel : ℕ) where
  -- Nothing that the loader writes meets its own context in memory: the client's image is loadable
  -- with its symbols in the client's program region, and the two program regions and the arguments
  -- lie outside the page of the context.
  pub record Separate (w : World K) : Type 0 where
    pub enough : 2 ^ 16 ≤ fuel
    pub client : Client fuel w.memory vm.container_program vm.container_image.base
    pub size : 64 ≤ vm.trampoline_image.size
    pub image_apart :
        Apart vm.trampoline_program.base vm.trampoline_program.size vm.trampoline_image.base
          vm.trampoline_image.size
    pub client_apart :
        Apart vm.container_program.base vm.container_program.size vm.loader_context.base 4096
    pub trampoline_apart :
        Apart vm.trampoline_program.base vm.trampoline_program.size vm.loader_context.base 4096
    pub args_apart : Apart vm.trampoline_args.base 232 vm.loader_context.base 4096

  pub args_frame :
      (args : ClientArgs) (s : Machine K) (h : Memory) (q : ℕ)
      → inside vm.trampoline_args.base 232 q ≡ false
      → with_client_args p lits vm fuel args
          (with_tramp_args p lits vm fuel (record { machine = s; memory = h }))
          q
        ≡ h q
  unfolding fill_tramp_args
  args_frame args s h q out =
      write_client_args-frame (vm.trampoline_args.base + 136) args _ q (ground (arith, out))
      ∙ write_tramp_args-frame vm.trampoline_args.base _ h q refl (ground (arith, out))

  client_outside :
      (w : World K) (m : Memory)
      → Separate w
      → client_image_load fuel vm.container_program vm.container_image.base w.memory
        ≡ some (no_error, m)
      → (q : ℕ) → inside vm.container_program.base vm.container_program.size q ≡ false
      → m q ≡ w.memory q
  client_outside w m sep run q out =
      let (g, run', _, outside) =
        client_image_load-Client fuel w.memory vm.container_program vm.container_image.base
          sep.enough sep.client in
      let same : m ≡ g = cc in ap (λ f. f q) same ∙ outside q out

  trampoline_outside :
      (w : World K) (m h : Memory)
      → Separate w
      → payload_load fuel (trampoline_request p lits vm fuel) m ≡ some (no_error, h)
      → (q : ℕ) → inside vm.trampoline_program.base vm.trampoline_program.size q ≡ false
      → h q ≡ m q
  unfolding payload_load
  trampoline_outside w m h sep run q out =
      let r = trampoline_request p lits vm fuel in
      let (b, g, run', outside) = load_elf-outside fuel r m sep.enough sep.size sep.image_apart in
      let same : h ≡ g = payload_memory fuel r m h b g run' run in
      ap (λ f. f q) same ∙ outside q out

  context_kept :
      (w v : World K) (m : Memory) (args : ClientArgs)
      → Separate w
      → client_image_load fuel vm.container_program vm.container_image.base w.memory
        ≡ some (no_error, m)
      → payload_load fuel (trampoline_request p lits vm fuel) m ≡ some (no_error, v.memory)
      → Agree vm.loader_context.base 4096 w.memory
          (with_client_args p lits vm fuel args (with_tramp_args p lits vm fuel v))
  context_kept w v m args sep client tramp q lo hi =
      args_frame args v.machine v.memory q (ground (arith, sep.args_apart))
      ∙ (trampoline_outside w m v.memory sep tramp q (ground (arith, sep.trampoline_apart))
          ∙ client_outside w m sep client q (ground (arith, sep.client_apart)))

  -- What the loader has checked and done when it jumps with `v`, entered with `w`.
  pub record Launch (w v : World K) : Type 0 where
    pub image : IsImage lits w.memory vm.container_image.base
    pub trampoline : SameBytes w.memory vm.trampoline_image.base lits.elfmag 4
    pub round :
        Round p c few w.memory vm.loader_metadata.base vm.txlo_xrt_req.base w.machine v.machine
    pub client_memory : Memory
    pub client_loaded :
        client_image_load fuel vm.container_program vm.container_image.base w.memory
        ≡ some (no_error, client_memory)
    pub trampoline_memory : Memory
    pub trampoline_loaded :
        payload_load fuel (trampoline_request p lits vm fuel) client_memory
        ≡ some (no_error, trampoline_memory)
    pub args : ClientArgs
    pub filled :
        let m =
          with_tramp_args p lits vm fuel
            (record { machine = v.machine; memory = trampoline_memory }) in
        (fill_client_args p.max_channels m vm.loader_metadata.base v.machine.ctxt ≡ some args)
        × (v.memory ≡ with_client_args p lits vm fuel args m)
    pub context : Agree vm.loader_context.base 4096 w.memory v.memory
    pub low_ntfns : Low (v.machine.ctxt.states notifications) 0 p.max_channels
    pub low_ppcs : Low (v.machine.ctxt.states ppcs) 0 p.max_channels

  module _ (w : World K) (sep : Separate w) (image : IsImage lits w.memory vm.container_image.base)
      (trampoline : SameBytes w.memory vm.trampoline_image.base lits.elfmag 4) where
    jump-Launch :
        (v : World K) (m : Memory)
        → Round p c few w.memory vm.loader_metadata.base vm.txlo_xrt_req.base w.machine v.machine
        → client_image_load fuel vm.container_program vm.container_image.base w.memory
          ≡ some (no_error, m)
        → payload_load fuel (trampoline_request p lits vm fuel) m ≡ some (no_error, v.memory)
        → OnJump (Launch w) (jump p lits vm fuel v)
    jump-Launch v m round client tramp =
        let info = vm.loader_metadata.base in
        let g = with_tramp_args p lits vm fuel v in
        elim (Option-cases (fill_client_args p.max_channels g info v.machine.ctxt)) [
          | inl e ↦ rw (e, OnJump) tt
          | inr (args, e) ↦
              let (l, k) =
                (fill_client_args_iff p.max_channels g info v.machine.ctxt).0 (args, e) in
              rw (e, OnJump)
                (record {
                  image = image;
                  trampoline = trampoline;
                  round = round;
                  client_memory = m;
                  client_loaded = client;
                  trampoline_memory = v.memory;
                  trampoline_loaded = tramp;
                  args = args;
                  filled = (e, refl);
                  context = context_kept w v m args sep client tramp;
                  low_ntfns = l;
                  low_ppcs = k;
                })
        ]

    load_trampoline-Launch :
        (v : World K)
        → Round p c few w.memory vm.loader_metadata.base vm.txlo_xrt_req.base w.machine v.machine
        → client_image_load fuel vm.container_program vm.container_image.base w.memory
          ≡ some (no_error, v.memory)
        → OnJump (Launch w) (load_trampoline p lits vm fuel v)
    load_trampoline-Launch v round client =
        elim (Option-cases (payload_load fuel (trampoline_request p lits vm fuel) v.memory)) [
          | inl e ↦ rw (e, OnJump) tt
          | inr ((status, m), e) ↦
              rw (e, OnJump)
                (or_return-OnJump (Launch w) status _ _
                  (λ ok. jump-Launch (record v { memory = m }) v.memory round client (rw ok at e)))
        ]

    load_client-Launch :
        (s : Machine K)
        → Round p c few w.memory vm.loader_metadata.base vm.txlo_xrt_req.base w.machine s
        → OnJump (Launch w) (load_client p lits vm fuel (record { machine = s; memory = w.memory }))
    load_client-Launch s round =
        elim (Option-cases
          (client_image_load fuel vm.container_program vm.container_image.base w.memory)) [
            | inl e ↦ rw (e, OnJump) tt
            | inr ((status, m), e) ↦
                rw (e, OnJump)
                  (or_return-OnJump (Launch w) status _ _ (λ ok.
                    load_trampoline-Launch (record { machine = s; memory = m }) round (rw ok at e)))
          ]

    switched-Launch :
        (o : Outcome (Machine K) Status)
        → Accepted (Round p c few w.memory vm.loader_metadata.base vm.txlo_xrt_req.base w.machine) o
        → OnJump (Launch w) (switched p lits vm fuel w.memory o)
    switched-Launch (done no_error s) round = load_client-Launch s round
    switched-Launch (done failed_lookup s) round = tt
    switched-Launch (done (error e) s) round = tt
    switched-Launch (crashed e s) round = tt

  -- Entered in a settled state, with the delegation CNode granted and a request that asks for no
  -- channel twice, and where nothing that it writes meets its context in memory (the client's image
  -- is loadable with its symbols in the client's program region, which like the trampoline's and the
  -- arguments lies outside the context's page), the loader jumps into the trampoline only after both
  -- images have passed their checks, the context switch has done a round, the client's image and
  -- then the trampoline's have been loaded, and the arguments of both have been written; no channel
  -- of number 31 or above is in use, and the page of the context is as it was before the loading.
  pub self_load_entry-Launch :
      (w : World K)
      → Separate w
      → c.granted w.machine.kernel ≡ true
      → Settled p c few w.memory vm.loader_metadata.base w.machine
      → Once p c few w.memory vm.loader_metadata.base vm.txlo_xrt_req.base
      → OnJump (Launch w) (self_load_entry p lits vm fuel w)
  unfolding self_load_entry
  self_load_entry-Launch w sep on settled once = or_return-OnJump (Launch w) _ w _ (λ ok.
      or_return-OnJump (Launch w) _ w _ (λ ok'.
        switched-Launch w sep ((client_check-IsImage lits w.memory _).0 ok)
          ((payload_check_iff lits w.memory _).0 ok') _
          (context_switch-Round p c few w.memory _ _ w.machine on settled once)))

-- If the client's image or the trampoline's does not begin as it must, the loader returns with the
-- kernel, the context and the memory as they were.
pub self_load_entry_refuses :
    {K : Type 0} (p : Platform K) (lits : Literals) (vm : VmLayout) (fuel : ℕ) (w : World K)
    → (¬ IsImage lits w.memory vm.container_image.base)
      ⊎ (¬ SameBytes w.memory vm.trampoline_image.base lits.elfmag 4)
    → self_load_entry p lits vm fuel w ≡ returned w
unfolding self_load_entry
self_load_entry_refuses p lits vm fuel w (inl bad) =
    refused _ w _ (λ ok. bad ((client_check-IsImage lits w.memory _).0 ok))
self_load_entry_refuses p lits vm fuel w (inr bad) =
    twice_refused _ _ w _ (λ ok. bad ((payload_check_iff lits w.memory _).0 ok))
