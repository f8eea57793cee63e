-- ===== src/Tests/Patches.antt =====
-- A client image with one symbol to patch.
use libtrustedlo.Prelude.{ℕ, zero, suc, ◌≡◌, refl, arith, some, [], ◌∷◌}
use libtrustedlo.Memory.{Memory, memcmp, memcmp_loop, strlen_loop}
use libtrustedlo.Bytes.{read_le16, read_le32, read_le64}
use libtrustedlo.Symb.{mktsymb_read, mktsymb_read_symbol}
use libtrustedlo.Image.{
  Region, client_image_elf, client_image_mktsymb, client_patch_symbols, elf_find_symbol,
  find_in_sections, find_in_table, symbol_named,
}
use libtrustedlo.Image.Stable.{KeptElf, KeptSections, KeptTable, KeptString}
use libtrustedlo.Image.Patch.{
  Patches, finished, patch, Readable, Untouched, status_of, patched, client_patch_symbols-Patches,
}
use libtrustedlo.Tests.Store.{bytes, region}

-- The image at 2048 has its symbol image at 2112 and its ELF file at 4096. The ELF file has a symbol
-- table at 4396 with the one symbol "a", of value 8192; the record at 2126 patches it with 5, 6.
abbrev image : Memory
image = bytes (
    (2056, 64)
    ∷ (2073, 8)
    ∷ (2122, 1)
    ∷ (2126, 1)
    ∷ (2130, 2)
    ∷ (2142, 97)
    ∷ (2143, 5)
    ∷ (2144, 6)
    ∷ (4136, 100)
    ∷ (4156, 2)
    ∷ (4200, 2)
    ∷ (4220, 44)
    ∷ (4221, 1)
    ∷ (4228, 24)
    ∷ (4236, 1)
    ∷ (4284, 144)
    ∷ (4285, 1)
    ∷ (4396, 1)
    ∷ (4405, 32)
    ∷ (4497, 97)
    ∷ [])

abbrev program : Region
program = region 8192 256

module _ (g : Memory) (same : Untouched program image g) where
  image-KeptElf : KeptElf 8 image g 4096
  unfolding read_le16 read_le32 read_le64
  image-KeptElf = record { header = λ q lo hi. same q (ground arith); sections = kept }
    where
      kept_name : KeptString 8 image g 4497
      kept_name = record {
        len = 1;
        string = record { ends = refl; before = λ i lt. ground arith };
        ends = omega arith;
        kept = λ q lo hi. same q (ground arith);
      }

      only : KeptTable 8 image g 4396 4496 0 1
      only zero lo hi = ((λ q l h. same q (ground arith)), kept_name)
      only (suc l) lo hi = absurd (omega (arith, hi))

      kept : KeptSections 8 image g 4096 0 2
      kept zero lo hi = record {
        header = λ q l h. same q (ground arith);
        strings = λ q l h. same q (ground arith);
        table = λ t. only;
      }
      kept (suc zero) lo hi = record {
        header = λ q l h. same q (ground arith);
        strings = λ q l h. same q (ground arith);
        table = λ t. absurd (cc t);
      }
      kept (suc (suc l)) lo hi = absurd (omega (arith, hi))

image-Readable : Readable 8 image program 4096 2126
unfolding mktsymb_read_symbol read_le16 read_le32
image-Readable = record { bytes = λ q lo hi. ground arith; elf = image-KeptElf }

plan : Patches 8 image program 4096 1 2126
unfolding mktsymb_read_symbol read_le16 read_le32 read_le64 elf_find_symbol find_in_sections
    find_in_table symbol_named strlen_loop memcmp memcmp_loop
plan =
    patch 0 2126 4396 image-Readable refl (λ q lo hi. ground arith) (omega arith) (omega arith)
      (finished 2145)

client_patch_symbols-Patches_example :
    (m' : Memory) × (client_patch_symbols 8 2048 image
      ≡ some (status_of 8 image program 4096 plan, m'))
    × ((q : ℕ) → m' q ≡ patched 8 image program 4096 plan q (image q))
    × Untouched program image m'
unfolding client_image_elf client_image_mktsymb mktsymb_read read_le16 read_le32 read_le64
client_patch_symbols-Patches_example = client_patch_symbols-Patches 8 image program 2048 plan
