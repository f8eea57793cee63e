-- ===== src/Platform.antt =====
-- The seL4 and Microkit platform that the library calls, none of which is in this repository: the
-- kernel's invocations as data, the kernel itself as a parameter, and the crash of
-- `microkit_internal_crash` as an outcome of a command.
use libtrustedlo.Prelude.{ℕ, Bool, true, false}
pub mod Ensures

-- seL4_Error: the two values that the code names, and any other.
pub data Status : Type 0 where
  no_error : Status
  failed_lookup : Status
  error : ℕ → Status

-- The -1 that the library's own functions return and crash with, in 32 bits.
abbrev pub minus_one : Status
minus_one = error 0xffff_ffff

pub data Arch : Type 0 where
  aarch64 x86_64 : Arch

-- A page range for the map invocations with an absolute address: the VSpace, the CNode that holds
-- the frames, the first slot, the lookup depth and the number of pages.
pub record Frames : Type 0 where
  pub vspace : ℕ
  pub cnode : ℕ
  pub page_slot : ℕ
  pub depth : ℕ
  pub page_num : ℕ

-- One call of the kernel's interface, with its arguments in the kernel's order.
pub data Invocation : Type 0 where
  cnode_delete : (cnode index depth : ℕ) → Invocation
  cnode_move : (dest_cnode dest dest_depth src_cnode src src_depth : ℕ) → Invocation
  cnode_copy : (dest_cnode dest dest_depth src_cnode src src_depth rights : ℕ) → Invocation
  arm_page_map x86_page_map : (page vspace vaddr rights attrs : ℕ) → Invocation
  arm_page_unmap x86_page_unmap : (page : ℕ) → Invocation
  arm_map_absolute x86_map_absolute : Frames → (vaddr rights attrs : ℕ) → Invocation
  arm_unmap_absolute x86_unmap_absolute : Frames → Invocation

-- The kernel with its state `K`, and the constants of the platform's headers.
pub record Platform (K : Type 0) : Type 0 where
  pub invoke : Invocation → K → Status × K
  pub arch : Arch
  pub word_bits : ℕ
  pub max_channels : ℕ
  pub all_rights : ℕ
  pub root_slot_to_cptr : ℕ → ℕ

-- A command returns, or crashes in some state.
pub data Outcome (S A : Type 0) : Type 0 where
  done : A → S → Outcome S A
  crashed : Status → S → Outcome S A

abbrev pub Cmd : Type 0 → Type 0 → Type 0
Cmd S A = S → Outcome S A

abbrev pub pure : {S A : Type 0} → A → Cmd S A
pure = done

abbrev pub crash : {S A : Type 0} → Status → Cmd S A
crash = crashed

module _ {S A B : Type 0} where
  abbrev pub and_then : Outcome S A → (A → Cmd S B) → Outcome S B
  and_then (done a s) k = k a s
  and_then (crashed e s) k = crashed e s

  infixl 5 ◌>>=◌
  abbrev pub ◌>>=◌ : Cmd S A → (A → Cmd S B) → Cmd S B
  m >>= k = λ s. and_then (m s) k

module _ {S B : Type 0} where
  infixl 5 ◌>>◌
  abbrev pub ◌>>◌ : Cmd S (Unit {0}) → Cmd S B → Cmd S B
  m >> k = m >>= λ _. k

-- TSLDR_ASSERT.
abbrev pub assert : {S : Type 0} → Bool → Cmd S (Unit {0})
assert true = pure tt
assert false = crash minus_one
