-- ===== src/Tests/Images.antt =====
-- The checks and the loading of concrete images.
use libtrustedlo.Prelude.{
  ℕ, zero, suc, ◌+◌, ◌*◌, ◌≡◌, ◌<◌, ◌↔◌, inr, refl, Bool, true, false, arith, some,
}
use libtrustedlo.Memory.{Memory}
use libtrustedlo.Memory.Copy.{inside, Apart}
use libtrustedlo.Memory.Compare.{IsString}
use libtrustedlo.Bytes.{read_le16, read_le32, read_le64}
use libtrustedlo.Elf.{e_phoff, e_phnum, p_type}
use libtrustedlo.Elf.Load.{load_elf}
use libtrustedlo.Elf.Load.Segment.{Fits}
use libtrustedlo.Elf.Load.Safety.{contents}
use libtrustedlo.Elf.Load.Accept.{Loadable, load_elf-outside, load_elf-Loadable, load_elf-contents}
use libtrustedlo.Platform.{no_error}
use libtrustedlo.Image.{client_image_check_integrity}
use libtrustedlo.Image.Integrity.{IsImage, client_check-IsImage}
use libtrustedlo.Tests.Store.{memory, client_request, literals}

apart : Apart 131072 4096 65664 122
apart = inr (omega arith)

load_elf-outside_example :
    (b : Bool) × (g : Memory) × (load_elf 65536 client_request memory ≡ some (b, g))
    × ((q : ℕ) → inside 131072 4096 q ≡ false → g q ≡ memory q)
load_elf-outside_example =
    load_elf-outside 65536 client_request memory (omega arith) (omega arith) apart

load_elf-Loadable_example :
    ((g : Memory) × (load_elf 65536 client_request memory ≡ some (true, g)))
    ↔ Loadable memory client_request
load_elf-Loadable_example =
    load_elf-Loadable 65536 client_request memory (omega arith) (omega arith) apart

segment-Fits : Fits memory client_request 65728
unfolding read_le64
segment-Fits = record {
  shorter = omega arith;
  in_file = omega arith;
  above = omega arith;
  in_region = omega arith;
}

pub client-Loadable : Loadable memory client_request
unfolding read_le16 read_le32 read_le64
client-Loadable = record {
  entry_size = refl;
  table = omega arith;
  entry_from = omega arith;
  entry_to = omega arith;
  segments = only;
}
  where
    only :
        (i : ℕ)
        → i < e_phnum memory 65664
        → p_type memory (65664 + e_phoff memory 65664 + i * 56) ≡ 1
        → Fits memory client_request (65664 + e_phoff memory 65664 + i * 56)
    only zero lt t = segment-Fits
    only (suc i) lt t = absurd (omega (arith, lt))

client_loaded : (g : Memory) × (load_elf 65536 client_request memory ≡ some (true, g))
client_loaded =
    (load_elf-Loadable 65536 client_request memory (omega arith) (omega arith) apart).1
      client-Loadable

-- The second file byte is at its place.
load_elf-contents_example :
    client_loaded.0 131073
    ≡ contents memory client_request
        (65664 + e_phoff memory 65664)
        (e_phnum memory 65664)
        0
        (memory 131073)
        131073
load_elf-contents_example =
    load_elf-contents 65536 client_request memory (omega arith) (omega arith) apart client_loaded.0
      client_loaded.1 131073

client_check-IsImage_example :
    (client_image_check_integrity literals memory 65536 ≡ no_error) ↔ IsImage literals memory 65536
client_check-IsImage_example = client_check-IsImage literals memory 65536

name-IsString : IsString memory 40 7
name-IsString = record { ends = refl; before = λ i lt. ground arith }
