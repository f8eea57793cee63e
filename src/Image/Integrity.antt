-- ===== src/Image/Integrity.antt =====
-- What the integrity checks of src/trustedlo_cfuncs.c accept.
use libtrustedlo.Prelude.{ℕ, zero, suc, ◌≡◌, ◌↔◌, inl, inr, true, Bool-cases, refl, arith}
use libtrustedlo.Memory.{Memory, Difference, above, below, memcmp}
use libtrustedlo.Memory.Compare.{SameBytes, memcmp_iff}
use libtrustedlo.Platform.{no_error}
use libtrustedlo.Image.{
  Literals, image_magic, protocon_image_magic, client_image_elf, client_image_mktsymb, is_zero,
  payload_check_integrity, client_image_check_integrity,
}

pub is_zero_iff : (d : Difference) → (is_zero d ≡ true) ↔ (d ≡ above 0)
is_zero_iff (above zero) = (λ e. refl, λ e. refl)
is_zero_iff (above (suc n)) = (λ e. absurd (cc), λ e. absurd (ground arith))
is_zero_iff (below n) = (λ e. absurd (cc), λ e. absurd (cc))

module _ (lits : Literals) (m : Memory) where
  -- The payload begins with the four bytes of the ELF magic.
  pub payload_check_iff :
      (elf : ℕ) → (payload_check_integrity lits m elf ≡ no_error) ↔ SameBytes m elf lits.elfmag 4
  unfolding payload_check_integrity
  payload_check_iff elf = elim (Bool-cases (is_zero (memcmp m elf lits.elfmag 4))) [
    | inl yes' ↦ (λ h. (memcmp_iff m elf lits.elfmag 4).0 ((is_zero_iff _).0 yes'), λ same. rw yes')
    | inr no' ↦ (
      λ h. absurd (ground (arith, no')),
      λ same. absurd (cc (no', (is_zero_iff _).1 ((memcmp_iff m elf lits.elfmag 4).1 same))),
    )
  ]

  -- What a client image must begin with, stated with no reference to the code of the checks.
  pub record IsImage (image : ℕ) : Type 0 where
    pub magic : image_magic m image ≡ protocon_image_magic
    pub symbols : SameBytes m (client_image_mktsymb m image) lits.mktsymb_magic 8
    pub elf : SameBytes m (client_image_elf m image) lits.elfmag 4

  -- The check accepts an image exactly if its header's magic, the magic of its symbol image and
  -- the magic of its ELF file are right.
  pub client_check-IsImage :
      (image : ℕ) → (client_image_check_integrity lits m image ≡ no_error) ↔ IsImage image
  unfolding client_image_check_integrity
  client_check-IsImage image = (accepted, accepts)
    where
      symb : Difference
      symb = memcmp m (client_image_mktsymb m image) lits.mktsymb_magic 8

      accepted : client_image_check_integrity lits m image ≡ no_error → IsImage image
      accepted h = record {
        magic = ground arith;
        symbols = (memcmp_iff m _ _ 8).0 ((is_zero_iff symb).0 (ground arith));
        elf = (payload_check_iff (client_image_elf m image)).0 (ground arith);
      }

      accepts : IsImage image → client_image_check_integrity lits m image ≡ no_error
      accepts i = ground (
        arith,
        i.magic,
        (is_zero_iff symb).1 ((memcmp_iff m _ _ 8).1 i.symbols),
        (payload_check_iff (client_image_elf m image)).1 i.elf,
      )
