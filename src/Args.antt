-- ===== src/Args.antt =====
-- The arguments that src/trustedlo_cfuncs.c leaves for the trampoline and for the client. A
-- seL4_Word that serves as a bitmap is its 64 bits.
use libtrustedlo.Prelude.{
  ℕ, zero, suc, ◌+◌, ◌/◌, ◌%◌, ◌^◌, Bool, true, false, ◌&&◌, ◌||◌, not, ◌==◌, if◌then◌else◌, ltb,
  Option, none, some, List, [], ◌∷◌,
}
use libtrustedlo.Memory.{Memory, memset}
use libtrustedlo.Bytes.{read_le64, write_le64}
use libtrustedlo.Elf.{e_entry}
use libtrustedlo.Platform.{Arch, aarch64, x86_64}
use libtrustedlo.Ctxt.{Kind, notifications, ppcs, used, Ctxt}
use libtrustedlo.Image.{Region, client_image_elf}
pub mod Bitmaps
pub mod Written
pub mod Client

abbrev pub Bits : Type 0
Bits = ℕ → Bool

abbrev pub no_bits : Bits
no_bits j = false

-- The bits of a 64-bit field in memory.
abbrev pub bits_of : ℕ → Bits
bits_of w j = ltb j 64 && w / 2 ^ j % 2 == 1

-- `1 << i` on `int`: defined as long as the result is an `int`.
unfoldable pub shift_one : ℕ → Option Bits
shift_one i = if ltb i 31 then some (λ j. j == i) else none

abbrev pub or_bits : Bits → Bits → Bits
or_bits a b j = a j || b j

abbrev pub and_then {ℓ} : {A : Type ℓ} → Option Bits → (Bits → Option A) → Option A
and_then none k = none
and_then (some b) k = k b

-- `if (states[i] == XRT_STATE_USED) bitmap |= (1 << i);`; `none` where the shift is undefined.
unfoldable pub mark : (ℕ → ℕ) → ℕ → Bits → Option Bits
mark states i bitmap =
    if states i == used
    then and_then (shift_one i) (λ bit. some (or_bits bitmap bit))
    else some bitmap

-- The loop over the channels with its rounds left, from channel `i`.
unfoldable pub mark_loop : Ctxt → ℕ → ℕ → Bits → Bits → Option (Bits × Bits)
mark_loop c zero i ntfns calls = some (ntfns, calls)
mark_loop c (suc n) i ntfns calls = and_then (mark (c.states notifications) i ntfns) (λ ntfns'.
    and_then (mark (c.states ppcs) i calls) (λ calls'. mark_loop c n (i + 1) ntfns' calls'))

-- The fields of txlo_info_t that are read.
abbrev pub bitmap_opt_notifications : Memory → ℕ → ℕ
bitmap_opt_notifications m info = read_le64 m (info + 8)

abbrev pub bitmap_opt_ppcs : Memory → ℕ → ℕ
bitmap_opt_ppcs m info = read_le64 m (info + 16)

abbrev pub microkit_notifications : Memory → ℕ → ℕ
microkit_notifications m info = read_le64 m (info + 40)

abbrev pub microkit_pps : Memory → ℕ → ℕ
microkit_pps m info = read_le64 m (info + 48)

abbrev pub microkit_irqs : Memory → ℕ → ℕ
microkit_irqs m info = read_le64 m (info + 56)

abbrev pub microkit_ioports : Memory → ℕ → ℕ
microkit_ioports m info = read_le64 m (info + 64)

-- client_args_t
pub record ClientArgs : Type 0 where
  pub bitmap_irqs : Bits
  pub bitmap_notifications : Bits
  pub bitmap_ppcs : Bits
  pub bitmap_ioports : Bits
  pub dynamic_pd_name : List ℕ

-- `(all & ~opt) | marked`
abbrev pub merge_bits : Bits → Bits → Bits → Bits
merge_bits all opt marked j = all j && not (opt j) || marked j

-- The array of the initialiser that is not named is all 0, here empty.
unfoldable pub fill_client_args : ℕ → Memory → ℕ → Ctxt → Option ClientArgs
fill_client_args max_channels m info c = elim (mark_loop c max_channels 0 no_bits no_bits) [
  | none ↦ none
  | some (ntfns, calls) ↦ some (record {
    bitmap_notifications =
        merge_bits (bits_of (microkit_notifications m info))
          (bits_of (bitmap_opt_notifications m info)) ntfns;
    bitmap_ppcs =
        merge_bits (bits_of (microkit_pps m info)) (bits_of (bitmap_opt_ppcs m info)) calls;
    bitmap_irqs = bits_of (microkit_irqs m info);
    bitmap_ioports = bits_of (microkit_ioports m info);
    dynamic_pd_name = [];
  })
]

-- The memory layout of tsldr_vm_layout.h, a file that the build generates.
pub record VmLayout : Type 0 where
  pub page_size : ℕ
  pub ipc_buffer : Region
  pub microkit_stack : Arch → Region
  pub loader_program : Region
  pub loader_metadata : Region
  pub loader_context : Region
  pub txlo_xrt_req : Region
  pub trampoline_args : Region
  pub trampoline_image : Region
  pub trampoline_program : Region
  pub container_image : Region
  pub container_program : Region
  pub container_stack : Region
  pub container_stack_end : ℕ
  pub trampoline_stack_end : ℕ

-- trampoline_args_t, its regions in the order of the enumeration.
pub record TrampolineArgs : Type 0 where
  pub regions : List Region
  pub container_stack_top : ℕ
  pub client_elf : ℕ
  pub ipc_buffer : ℕ
  pub monitor_channel : ℕ
  pub monitor_pcmcall_id : ℕ

unfoldable pub fill_tramp_args : Arch → VmLayout → Memory → Ctxt → TrampolineArgs
unfolding client_image_elf
fill_tramp_args arch vm m c = record {
  regions =
      record { base = (vm.microkit_stack arch).base; size = vm.page_size }
      ∷ vm.loader_metadata
      ∷ vm.txlo_xrt_req
      ∷ vm.container_stack
      ∷ vm.loader_context
      ∷ vm.loader_program
      ∷ [];
  container_stack_top = vm.container_stack_end;
  client_elf = e_entry m (client_image_elf m vm.container_image.base);
  ipc_buffer = vm.ipc_buffer.base;
  monitor_channel = c.channel;
  monitor_pcmcall_id = c.call_id;
}

-- The word of a bitmap's bits below the `n`th.
unfoldable pub word_of : Bits → ℕ → ℕ
word_of bits zero = 0
word_of bits (suc n) = word_of bits n + (if bits n then 2 ^ n else 0)

abbrev pub sizeof_tramp_args : ℕ
sizeof_tramp_args = 136

-- The array of regions of trampoline_args_t in memory.
unfoldable pub write_regions : ℕ → List Region → Memory → Memory
write_regions p [] m = m
write_regions p (r ∷ rs) m =
    write_regions (p + 16) rs (write_le64 (write_le64 m p r.base) (p + 8) r.size)

-- The assignment to a trampoline_args_t in memory.
unfoldable pub write_tramp_args : ℕ → TrampolineArgs → Memory → Memory
unfolding write_regions
write_tramp_args p a m =
    let m1 = write_regions p a.regions m in
    let m2 = write_le64 m1 (p + 96) a.container_stack_top in
    let m3 = write_le64 m2 (p + 104) a.client_elf in
    let m4 = write_le64 m3 (p + 112) a.ipc_buffer in
    write_le64 (write_le64 m4 (p + 120) a.monitor_channel) (p + 128) a.monitor_pcmcall_id

-- The assignment to a client_args_t in memory; the name that is not given is 64 zeros.
unfoldable pub write_client_args : ℕ → ClientArgs → Memory → Memory
write_client_args p a m =
    let m1 = write_le64 m p (word_of a.bitmap_irqs 64) in
    let m2 = write_le64 m1 (p + 8) (word_of a.bitmap_notifications 64) in
    let m3 = write_le64 m2 (p + 16) (word_of a.bitmap_ppcs 64) in
    memset (p + 32) 0 64 (write_le64 m3 (p + 24) (word_of a.bitmap_ioports 64))
