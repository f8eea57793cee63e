-- ===== src/Tests/Launches.antt =====
-- A world in which the loader reaches the trampoline.
use libtrustedlo.Prelude.{
  ℕ, zero, suc, ◌+◌, ◌*◌, ◌≡◌, ◌<◌, inl, inr, refl, false, if◌then◌else◌, arith,
}
use libtrustedlo.Memory.{Memory}
use libtrustedlo.Bytes.{read_le16, read_le32, read_le64}
use libtrustedlo.Platform.{no_error}
use libtrustedlo.Prelude.{Bool}
use libtrustedlo.Elf.{e_entry, e_phoff, e_phnum, p_type}
use libtrustedlo.Elf.Load.{Request}
use libtrustedlo.Elf.Load.Accept.{Loadable}
use libtrustedlo.Elf.Load.Segment.{Fits}
use libtrustedlo.Symb.{mktsymb_read}
use libtrustedlo.Image.{
  Region, client_image_elf, client_image_mktsymb, client_image_check_integrity,
  payload_check_integrity,
}
use libtrustedlo.Image.Integrity.{payload_check_iff, client_check-IsImage}
use libtrustedlo.Memory.{memcmp, memcmp_loop}
use libtrustedlo.Image.Loading.{Client}
use libtrustedlo.Image.Patch.{Patches, finished, missing, patch, status_of}
use libtrustedlo.Loader.{World, trampoline_request}
use libtrustedlo.Loader.Handover.{AreWords, HeadersKept, secret, launch-Handover}
use libtrustedlo.Loader.Entry.{OnJump, Launch, Separate, self_load_entry-Launch}
use libtrustedlo.Loader.{self_load_entry}
use libtrustedlo.Trampoline.{MonitorCall, entered, trampoline_entry}
use libtrustedlo.Args.{fill_tramp_args}
use libtrustedlo.Loader.Success.{Launchable, Launched, self_load_entry-Launched}
use libtrustedlo.Tests.Kernel.{Slots, platform, cspace}
use libtrustedlo.Tests.Store.{memory, literals, layout}
use libtrustedlo.Tests.Rounds.{fresh, fresh-Settled, request-Once}
use libtrustedlo.Tests.Switches.{request-Valid}
use libtrustedlo.Tests.Images.{client-Loadable}

abbrev world : World Slots
world = record { machine = fresh; memory = memory }

abbrev tramp : Request
tramp = trampoline_request platform literals layout 65536

trampoline-Fits : Fits memory tramp 196672
unfolding read_le64
trampoline-Fits = record {
  shorter = omega arith;
  in_file = omega arith;
  above = omega arith;
  in_region = omega arith;
}

trampoline-Loadable : Loadable memory tramp
unfolding read_le16 read_le32 read_le64
trampoline-Loadable = record {
  entry_size = refl;
  table = omega arith;
  entry_from = omega arith;
  entry_to = omega arith;
  segments = only;
}
  where
    only :
        (i : ℕ)
        → i < e_phnum memory 196608
        → p_type memory (196608 + e_phoff memory 196608 + i * 56) ≡ 1
        → Fits memory tramp (196608 + e_phoff memory 196608 + i * 56)
    only zero lt t = trampoline-Fits
    only (suc i) lt t = absurd (omega (arith, lt))

image-Client : Client 65536 memory layout.container_program 65536
unfolding client_image_elf client_image_mktsymb mktsymb_read read_le16 read_le32 read_le64
image-Client = record {
  header = λ q lo hi. ground arith;
  symbols = λ q lo hi. ground arith;
  size = omega arith;
  apart = inr (omega arith);
  loadable = client-Loadable;
  plan = finished _;
}

no_symbols : (mktsymb_read memory (client_image_mktsymb memory 65536)).symbol_cnt ≡ 0
unfolding client_image_mktsymb mktsymb_read read_le32 read_le64
no_symbols = refl

none_missing :
    (fuel : ℕ) (m : Memory) (region : Region) (ehdr n p : ℕ) (plan : Patches fuel m region ehdr n p)
    → n ≡ 0
    → status_of fuel m region ehdr plan ≡ no_error
none_missing fuel m region ehdr _ _ (finished p) e = refl
none_missing fuel m region ehdr _ _ (missing n p r x) e = absurd (omega (arith, e))
none_missing fuel m region ehdr _ _ (patch n p sym r x o lo hi rest) e = absurd (omega (arith, e))

image_passes : client_image_check_integrity literals memory 65536 ≡ no_error
unfolding client_image_check_integrity payload_check_integrity client_image_elf client_image_mktsymb
    memcmp memcmp_loop read_le32 read_le64
image_passes = refl

trampoline_passes : payload_check_integrity literals memory 196608 ≡ no_error
unfolding payload_check_integrity memcmp memcmp_loop
trampoline_passes = refl

world-Launchable : Launchable platform cspace (omega arith) literals layout 65536 world
unfolding client_image_elf client_image_mktsymb read_le16 read_le32 read_le64
world-Launchable = record {
  settled = fresh-Settled;
  granted = refl;
  once = request-Once;
  valid = request-Valid;
  low_ntfns = λ id h. ground arith;
  low_ppcs = λ id h. ground arith;
  image = (client_check-IsImage literals memory 65536).0 image_passes;
  magic = (payload_check_iff literals memory 196608).0 trampoline_passes;
  client = image-Client;
  all_found =
      none_missing 65536 memory layout.container_program 65664 _ _ image-Client.plan no_symbols;
  size = omega arith;
  apart = inr (omega arith);
  client_apart = inl (omega arith);
  args_apart = inr (omega arith);
  trampoline = trampoline-Loadable;
}

self_load_entry-Launched_example :
    Launched platform cspace (omega arith) literals layout 65536 world world-Launchable
self_load_entry-Launched_example =
    self_load_entry-Launched platform cspace (omega arith) literals layout 65536 world
      world-Launchable (omega arith)

launched : Launched platform cspace (omega arith) literals layout 65536 world world-Launchable
launched =
    self_load_entry-Launched platform cspace (omega arith) literals layout 65536 world
      world-Launchable (omega arith)

-- A monitor that accepts every call and changes nothing.
abbrev accepting : MonitorCall
accepting channel id m = (0, m)

words : AreWords platform cspace (omega arith) literals layout 65536 world world-Launchable launched
unfolding fill_tramp_args
words = record {
  regions = ground arith;
  stack = omega arith;
  channel = omega arith;
  call = omega arith;
}

headers-HeadersKept :
    HeadersKept platform cspace (omega arith) literals layout 65536 world world-Launchable launched
unfolding client_image_elf read_le64
headers-HeadersKept = record {
  header = λ q lo hi. ground (arith, lo, hi);
  elf = λ q lo hi. ground (arith, lo, hi);
}

abbrev hidden : ℕ → Bool
hidden = secret platform cspace (omega arith) literals layout 65536 world world-Launchable launched

hidden_apart : (j : ℕ) → j < 136 → hidden (0xc0000 + j) ≡ false
hidden_apart j lt = ground arith

launch-Handover_example :
    (g : Memory) × (trampoline_entry accepting 0xc0000 launched.memory
      ≡ entered 0xd1000 (e_entry memory (client_image_elf memory 65536)) g)
    × ((q : ℕ) → g q ≡ (if hidden q then 0 else launched.memory q))
launch-Handover_example =
    launch-Handover platform cspace (omega arith) literals layout 65536 world world-Launchable
      launched words headers-HeadersKept accepting refl (λ q lo hi. refl) hidden_apart

world-Separate : Separate platform cspace (omega arith) literals layout 65536 world
world-Separate = record {
  enough = omega arith;
  client = image-Client;
  size = omega arith;
  image_apart = inr (omega arith);
  client_apart = inl (omega arith);
  trampoline_apart = inl (omega arith);
  args_apart = inr (omega arith);
}

self_load_entry-Launch_example :
    OnJump
      (Launch platform cspace (omega arith) literals layout 65536 world)
      (self_load_entry platform literals layout 65536 world)
self_load_entry-Launch_example =
    self_load_entry-Launch platform cspace (omega arith) literals layout 65536 world world-Separate
      refl fresh-Settled request-Once
