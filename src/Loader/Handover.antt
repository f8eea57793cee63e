-- ===== src/Loader/Handover.antt =====
-- From the loader through the trampoline to the client: the trampoline reads the arguments that the
-- loader has written.
use libtrustedlo.Prelude.{
  ℕ, ◌+◌, ◌*◌, ◌%◌, ◌^◌, ◌≡◌, ◌∙◌, ◌≤◌, ◌<◌, refl, ap, Bool, false, ◌||◌, if◌then◌else◌, List, [],
  ◌∷◌, length, arith,
}
use libtrustedlo.Memory.{Memory}
use libtrustedlo.Memory.Copy.{inside}
use libtrustedlo.Bytes.{read_le64-lt}
use libtrustedlo.Bytes.Agreement.{Agree, read_le64-Agree}
use libtrustedlo.Elf.{e_entry}
use libtrustedlo.Platform.{Platform}
use libtrustedlo.Cap.CSpace.{CSpace}
use libtrustedlo.Image.{Region, Literals, client_image_elf, elf_offset}
use libtrustedlo.Image.Patch.{Outside}
use libtrustedlo.Args.{VmLayout, TrampolineArgs, fill_tramp_args}
use libtrustedlo.Args.Written.{
  Regions, AreRegions, AreArgs, Written, Written-Agree, write_tramp_args-Written,
  write_client_args-frame,
}
use libtrustedlo.Loader.{World, with_tramp_args}
use libtrustedlo.Loader.Success.{Launchable, Launched}
use libtrustedlo.Trampoline.{MonitorCall, entered, trampoline_entry}
use libtrustedlo.Trampoline.Wipe.{in_regions, saved, trampoline_entry-wipes}

-- The address lies in one of the regions.
abbrev pub covered : List Region → ℕ → Bool
covered [] q = false
covered (r ∷ rs) q = inside r.base r.size q || covered rs q

in_regions-covered :
    (rs : List Region) (args i : ℕ) (m : Memory) (q : ℕ)
    → Regions m (args + i * 16) rs
    → in_regions m args (length rs) i q ≡ covered rs q
in_regions-covered [] args i m q h = refl
in_regions-covered (r ∷ rs) args i m q (base, size, h) =
    let e : args + i * 16 + 16 ≡ args + (i + 1) * 16 = omega arith in
    rw (base, size, in_regions-covered rs args (i + 1) m q (rw e at h)) refl

six_covered :
    (rs : List Region) (args n : ℕ) (m : Memory) (q : ℕ)
    → length rs ≡ n
    → Regions m args rs
    → in_regions m args n 0 q ≡ covered rs q
six_covered rs args n m q e h =
    let here : args + 0 * 16 ≡ args = omega arith in
    rw (← e) (in_regions-covered rs args 0 m q (rw (← here) at h))

same_call :
    (call : MonitorCall) (m : Memory) (c c' i i' : ℕ) → c ≡ c' → i ≡ i' → call c i m ≡ call c' i' m
same_call call m c c' i i' e f = rw (e, f) refl

same_choice :
    (b b' : Bool) (v v' : ℕ) → b ≡ b' → v ≡ v' → (if b then 0 else v) ≡ (if b' then 0 else v')
same_choice b b' v v' e f = rw (e, f) refl

same_entry : (s s' e e' : ℕ) (g : Memory) → s ≡ s' → e ≡ e' → entered s e g ≡ entered s' e' g
same_entry s s' e e' g x y = rw (x, y) refl

module _ (call : MonitorCall) (args : ℕ) (a : TrampolineArgs) (m : Memory) where
  -- The monitor's answer to the call that the arguments name, and the memory that it leaves.
  abbrev pub answer : ℕ × Memory
  answer = call a.monitor_channel a.monitor_pcmcall_id m

  -- With its arguments in memory, and a monitor that accepts the call and leaves them there, the
  -- trampoline enters the client with all their regions wiped.
  pub trampoline_entry-Written :
      AreArgs a
      → Written m args a
      → answer.0 ≡ 0
      → Agree args 136 m answer.1
      → ((j : ℕ) → j < 136 → covered a.regions (args + j) ≡ false)
      → (g : Memory) × (trampoline_entry call args m ≡ entered a.container_stack_top a.client_elf g)
        × ((q : ℕ) → g q ≡ (if covered a.regions q then 0 else answer.1 q))
  trampoline_entry-Written ok w accepted same apart =
      let called = same_call call m _ _ _ _ w.channel w.call in
      let after = saved call args m in
      let after_same : (q : ℕ) → after q ≡ answer.1 q = λ q. ap (λ x. x.1 q) called in
      let w' : Written after args a =
        Written-Agree m after args a ok.six (λ q lo hi. after_same q ∙ same q lo hi) w in
      let wiped : (q : ℕ) → in_regions after args 6 0 q ≡ covered a.regions q =
        λ q. six_covered a.regions args 6 after q ok.six w'.regions in
      let (g, run, bytes) =
        trampoline_entry-wipes call args m (ap (λ x. x.0) called ∙ accepted)
          (λ j lt. wiped (args + j) ∙ apart j lt) in
      (
        g,
        run ∙ same_entry _ _ _ _ g w'.stack w'.entry,
        (λ q. bytes q ∙ same_choice _ _ _ _ (wiped q) (after_same q)),
      )

module _ {K : Type 0} (p : Platform K) (c : CSpace p) (few : p.max_channels ≤ 64) (lits : Literals)
    (vm : VmLayout) (fuel : ℕ) (w : World K) (ready : Launchable p c few lits vm fuel w)
    (l : Launched p c few lits vm fuel w ready) where
  -- The arguments that the loader has put together for the trampoline.
  abbrev pub handed : TrampolineArgs
  handed = fill_tramp_args p.arch vm l.trampoline_memory l.machine.ctxt

  -- The layout and the context are made of words.
  pub record AreWords : Type 0 where
    pub regions : AreRegions (fill_tramp_args p.arch vm w.memory w.machine.ctxt).regions
    pub stack : vm.container_stack_end < 2 ^ 64
    pub channel : w.machine.ctxt.channel < 2 ^ 64
    pub call : w.machine.ctxt.call_id < 2 ^ 64

  handed-AreArgs : AreWords → AreArgs handed
  unfolding fill_tramp_args
  handed-AreArgs h = record {
    six = refl;
    regions = h.regions;
    stack = h.stack;
    entry = read_le64-lt l.trampoline_memory _;
    channel = rw (ap (λ x. x.0) l.round.monitor) h.channel;
    call = rw (ap (λ x. x.1) l.round.monitor) h.call;
  }

  handed-Written : AreArgs handed → Written l.memory vm.trampoline_args.base handed
  handed-Written ok =
      let base = vm.trampoline_args.base in
      let m =
        with_tramp_args p lits vm fuel
          (record { machine = l.machine; memory = l.trampoline_memory }) in
      let kept : Agree base 136 m l.memory = λ q lo hi.
        ap (λ f. f q) l.filled.1 ∙ write_client_args-frame (base + 136) l.args m q (ground arith) in
      Written-Agree m l.memory base handed ok.six kept
        (write_tramp_args-Written base handed l.trampoline_memory ok)

  -- What a client must not see: the loader's stack page, its metadata, the request, the client's
  -- stack, the loader's context and the loader's program.
  abbrev pub secret : ℕ → Bool
  secret q =
      inside (vm.microkit_stack p.arch).base vm.page_size q
      || inside vm.loader_metadata.base vm.loader_metadata.size q
      || inside vm.txlo_xrt_req.base vm.txlo_xrt_req.size q
      || inside vm.container_stack.base vm.container_stack.size q
      || inside vm.loader_context.base vm.loader_context.size q
      || inside vm.loader_program.base vm.loader_program.size q

  handed-secret : (q : ℕ) → covered handed.regions q ≡ secret q
  unfolding fill_tramp_args
  handed-secret q = ground arith

  -- The client's ELF file in the image, before anything is loaded.
  abbrev pub client_file : ℕ
  client_file = client_image_elf w.memory vm.container_image.base

  -- The trampoline's program lies outside the headers of the client's image and of its ELF file.
  pub record HeadersKept : Type 0 where
    pub header : Outside vm.trampoline_program vm.container_image.base 40
    pub elf : Outside vm.trampoline_program client_file 64

  handed-entry : HeadersKept → handed.client_elf ≡ e_entry w.memory client_file
  unfolding fill_tramp_args client_image_elf
  handed-entry kept =
      let tm = l.trampoline_memory in
      let image = vm.container_image.base in
      let header : Agree image 40 w.memory tm =
        λ q lo hi. l.loaded_outside q (ready.client.header q lo hi) (kept.header q lo hi) in
      let elf : Agree client_file 64 w.memory tm = λ q lo hi.
        l.loaded_outside q (ground (arith, ready.client.apart, ready.client.size))
          (kept.elf q lo hi) in
      let there : (image + elf_offset tm image) % 2 ^ 64 ≡ client_file =
        ap (λ o. (image + o) % 2 ^ 64)
          (read_le64-Agree w.memory tm image 40 (image + 24) header (omega arith) (omega arith)) in
      ap (λ f. e_entry tm f) there
      ∙ read_le64-Agree w.memory tm client_file 64 (client_file + 24) elf (omega arith)
          (omega arith)

  -- Where the loader has launched, the monitor accepts the trampoline's call on the channel and with
  -- the number of the loader's context and leaves the arguments in place, which none of the wiped
  -- regions meets, and the trampoline's program lies outside the headers of the client's image, the
  -- client is entered at the entry of its ELF file, on its own stack, with the loader's stack page,
  -- its metadata, the request, the client's stack, the loader's context and the loader's program all
  -- 0, and every other byte as the monitor left it.
  pub launch-Handover :
      AreWords
      → HeadersKept
      → (call : MonitorCall)
      → let left = call w.machine.ctxt.channel w.machine.ctxt.call_id l.memory in
        left.0 ≡ 0
        → Agree vm.trampoline_args.base 136 l.memory left.1
        → ((j : ℕ) → j < 136 → secret (vm.trampoline_args.base + j) ≡ false)
        → (g : Memory) × (trampoline_entry call vm.trampoline_args.base l.memory
            ≡ entered vm.container_stack_end (e_entry w.memory client_file) g)
          × ((q : ℕ) → g q ≡ (if secret q then 0 else left.1 q))
  unfolding fill_tramp_args
  launch-Handover words kept call accepted same apart =
      let ok = handed-AreArgs words in
      let called =
        same_call call l.memory handed.monitor_channel w.machine.ctxt.channel
          handed.monitor_pcmcall_id w.machine.ctxt.call_id (ap (λ x. x.0) l.round.monitor)
          (ap (λ x. x.1) l.round.monitor) in
      let (g, run, bytes) =
        trampoline_entry-Written call vm.trampoline_args.base handed l.memory ok (handed-Written ok)
          (ap (λ x. x.0) called ∙ accepted) (λ q lo hi. ap (λ x. x.1 q) called ∙ same q lo hi)
          (λ j lt. handed-secret (vm.trampoline_args.base + j) ∙ apart j lt) in
      (
        g,
        run ∙ same_entry _ _ _ _ g refl (handed-entry kept),
        (λ q. bytes q ∙ same_choice _ _ _ _ (handed-secret q) (ap (λ x. x.1 q) called)),
      )
