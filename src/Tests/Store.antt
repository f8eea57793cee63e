-- ===== src/Tests/Store.antt =====
-- A memory with the metadata, a request and the two images, for the tests.
use libtrustedlo.Prelude.{ℕ, ◌+◌, ◌==◌, if◌then◌else◌, List, [], ◌∷◌, ◌++◌}
use libtrustedlo.Memory.{Memory}
use libtrustedlo.Image.{Literals, Region}
use libtrustedlo.Elf.Load.{Request}
use libtrustedlo.Args.{VmLayout}

-- Memory that is 0 but for the listed bytes.
abbrev pub bytes : List (ℕ × ℕ) → Memory
bytes [] q = 0
bytes ((a, v) ∷ rest) q = if q == a then v else bytes rest q

abbrev pub info : ℕ
info = 4096

abbrev pub header : ℕ
header = 8192

-- The metadata delegates notification channel 3; the request asks for it.
abbrev pub request : List (ℕ × ℕ)
request =
    (info + 2, 1)
    ∷ (info + 16, 1)
    ∷ (info + 22, 3)
    ∷ (header, 1)
    ∷ (header + 8, 16)
    ∷ (header + 16, 1)
    ∷ (header + 24, 3)
    ∷ []

-- The literals of the checks: the ELF magic and MKTSYMB.
abbrev pub literals : Literals
literals = record { elfmag = 32; mktsymb_magic = 40 }

abbrev pub magics : List (ℕ × ℕ)
magics =
    (32, 0x7f)
    ∷ (33, 0x45)
    ∷ (34, 0x4c)
    ∷ (35, 0x46)
    ∷ (40, 0x4d)
    ∷ (41, 0x4b)
    ∷ (42, 0x54)
    ∷ (43, 0x53)
    ∷ (44, 0x59)
    ∷ (45, 0x4d)
    ∷ (46, 0x42)
    ∷ []

-- An ELF file of 122 bytes with one PT_LOAD segment of two file bytes and four memory bytes, to
-- load and to enter at `page` * 2 ^ 16.
abbrev pub elf : ℕ → ℕ → List (ℕ × ℕ)
elf a page =
    (a, 0x7f)
    ∷ (a + 1, 0x45)
    ∷ (a + 2, 0x4c)
    ∷ (a + 3, 0x46)
    ∷ (a + 26, page)
    ∷ (a + 32, 64)
    ∷ (a + 54, 56)
    ∷ (a + 56, 1)
    ∷ (a + 64, 1)
    ∷ (a + 72, 120)
    ∷ (a + 82, page)
    ∷ (a + 96, 2)
    ∷ (a + 104, 4)
    ∷ (a + 120, 170)
    ∷ (a + 121, 187)
    ∷ []

-- The header of the client's image and its symbol image, which names no symbol.
abbrev pub client : ℕ → List (ℕ × ℕ)
client a =
    (a, 0x4d)
    ∷ (a + 1, 0x49)
    ∷ (a + 2, 0x43)
    ∷ (a + 3, 0x50)
    ∷ (a + 8, 64)
    ∷ (a + 24, 128)
    ∷ (a + 32, 122)
    ∷ (a + 64, 0x4d)
    ∷ (a + 65, 0x4b)
    ∷ (a + 66, 0x54)
    ∷ (a + 67, 0x53)
    ∷ (a + 68, 0x59)
    ∷ (a + 69, 0x4d)
    ∷ (a + 70, 0x42)
    ∷ []

abbrev pub memory : Memory
memory = bytes (request ++ (magics ++ (client 65536 ++ (elf 65664 2 ++ elf 196608 4))))

abbrev pub client_request : Request
client_request = record {
  ehdr = 65664;
  elf_size = 122;
  load_base = 131072;
  load_vaddr = 131072;
  load_size = 4096;
}

abbrev pub region : ℕ → ℕ → Region
region base size = record { base = base; size = size }

abbrev pub layout : VmLayout
layout = record {
  page_size = 4096;
  ipc_buffer = region 1024 1024;
  microkit_stack = λ arch. region 0x90000 4096;
  loader_program = region 0xa0000 4096;
  loader_metadata = region info 4096;
  loader_context = region 0xb0000 4096;
  txlo_xrt_req = region header 4096;
  trampoline_args = region 0xc0000 4096;
  trampoline_image = region 196608 122;
  trampoline_program = region 262144 4096;
  container_image = region 65536 256;
  container_program = region 131072 4096;
  container_stack = region 0xd0000 4096;
  container_stack_end = 0xd1000;
  trampoline_stack_end = 0xe1000;
}
