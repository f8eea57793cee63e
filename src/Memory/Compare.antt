-- ===== src/Memory/Compare.antt =====
-- What the comparison loops of src/memory.c decide.
use libtrustedlo.Prelude.{
  ℕ, zero, suc, ◌+◌, ◌≤◌, ◌<◌, ◌≡◌, ◌≢◌, refl, inl, inr, ◌↔◌, arith, ◌==◌, Bool-cases, ==→ne, some,
}
use libtrustedlo.Memory.{Memory, load, above, diff, memcmp_loop, memcmp, strlen_loop}

-- The `n` bytes at `a` are those at `b`.
abbrev pub SameBytes : Memory → ℕ → ℕ → ℕ → Type 0
SameBytes m a b n = (i : ℕ) → i < n → load m (a + i) ≡ load m (b + i)

diff-zero : (x y : ℕ) → diff x y ≡ above 0 → x ≡ y
diff-zero x y h = ground arith

memcmp_loop_sound :
    (m : Memory) (n i a b : ℕ)
    → memcmp_loop m n i a b ≡ above 0
    → (j : ℕ) → i ≤ j
    → j < i + n
    → load m (a + j) ≡ load m (b + j)
unfolding memcmp_loop
memcmp_loop_sound m zero i a b h j lo hi = absurd (omega arith)
memcmp_loop_sound m (suc n) i a b h j lo hi = elim (Bool-cases (load m (a + i) == load m (b + i))) [
  | inl same ↦ elim (Bool-cases (j == i)) [
    | inl here ↦ ground arith
    | inr later ↦ memcmp_loop_sound m n (i + 1) a b (ground arith) j (ground arith) (omega arith)
  ]
  | inr differ ↦ absurd (==→ne _ _ differ (diff-zero _ _ (ground arith)))
]

memcmp_loop_complete :
    (m : Memory) (n i a b : ℕ)
    → ((j : ℕ) → i ≤ j → j < i + n → load m (a + j) ≡ load m (b + j))
    → memcmp_loop m n i a b ≡ above 0
unfolding memcmp_loop
memcmp_loop_complete m zero i a b h = refl
memcmp_loop_complete m (suc n) i a b h = ground (
  arith,
  h i (omega arith) (omega arith),
  memcmp_loop_complete m n (i + 1) a b (λ j lo hi. h j (omega arith) (omega arith)),
)

-- memcmp returns 0 exactly when the two runs of bytes are equal.
pub memcmp_iff : (m : Memory) (a b n : ℕ) → (memcmp m a b n ≡ above 0) ↔ SameBytes m a b n
unfolding memcmp
memcmp_iff m a b n = (
  λ h j lt. memcmp_loop_sound m n 0 a b h j (omega arith) (omega arith),
  λ same. memcmp_loop_complete m n 0 a b (λ j lo hi. same j (omega arith)),
)

-- A string of `len` bytes that are not 0, followed by a 0.
pub record IsString (m : Memory) (s len : ℕ) : Type 0 where
  pub ends : load m (s + len) ≡ 0
  pub before : (i : ℕ) → i < len → load m (s + i) ≢ 0

strlen_loop-ends :
    (m : Memory) (f s len k : ℕ)
    → IsString m s (len + k)
    → k < f
    → strlen_loop m f s len ≡ some (len + k)
unfolding strlen_loop
strlen_loop-ends m zero s len k is h = absurd (omega arith)
strlen_loop-ends m (suc f) s len zero is h =
    let e : len + 0 ≡ len = omega arith in ground (arith, is.ends, e)
strlen_loop-ends m (suc f) s len (suc k) is h =
    let e : len + suc k ≡ len + 1 + k = omega arith in
    rw e (
      ground (
        arith,
        is.before len (omega arith),
        strlen_loop-ends m f s (len + 1) k (rw e at is) (omega arith),
      ))

-- strlen stops at the first 0 byte and returns its offset, for every fuel above it.
pub strlen_loop_lem :
    (m : Memory) (f s len : ℕ) → IsString m s len → len < f → strlen_loop m f s 0 ≡ some len
strlen_loop_lem m f s len is h =
    let e : 0 + len ≡ len = omega arith in
    rw (← e) (strlen_loop-ends m f s 0 len (rw (← e) at is) h)
