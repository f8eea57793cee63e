-- ===== src/Memory/Copy.antt =====
-- What the copy and fill loops of src/memory.c leave in memory.
use libtrustedlo.Prelude.{
  ℕ, zero, suc, ◌+◌, ◌-◌, ◌%◌, ◌≤◌, ◌≡◌, refl, ◌⊎◌, Bool, false, ◌&&◌, arith, leb, ltb,
  if◌then◌else◌, ◌==◌,
}
use libtrustedlo.Memory.{Memory, load, memcpy_loop, memcpy, memset_loop, memset}

-- The address lies in the `n` bytes from `p`.
abbrev pub inside : ℕ → ℕ → ℕ → Bool
inside p n q = leb p q && ltb q (p + n)

-- The two ranges of `n` bytes do not overlap.
abbrev pub Apart : ℕ → ℕ → ℕ → ℕ → Type 0
Apart a n b k = (a + n ≤ b) ⊎ (b + k ≤ a)

memset_loop_lem :
    (n i d c : ℕ) (m : Memory) (q : ℕ)
    → memset_loop n i d c m q ≡ (if inside (d + i) n q then c % 256 else m q)
unfolding memset_loop
memset_loop_lem zero i d c m q = ground arith
memset_loop_lem (suc n) i d c m q =
    ground (arith, memset_loop_lem n (i + 1) d c (λ j. if j == d + i then c % 256 else m j) q)

pub memset-at :
    (d c n : ℕ) (m : Memory) (q : ℕ) → memset d c n m q ≡ (if inside d n q then c % 256 else m q)
unfolding memset
memset-at d c n m q = ground (arith, memset_loop_lem n 0 d c m q)

-- Whatever the source, a copy writes nowhere but in its destination.
memcpy_loop_frame :
    (n i d s : ℕ) (m : Memory) (q : ℕ) → inside (d + i) n q ≡ false → memcpy_loop n i d s m q ≡ m q
unfolding memcpy_loop
memcpy_loop_frame zero i d s m q h = refl
memcpy_loop_frame (suc n) i d s m q h = ground (
  arith,
  memcpy_loop_frame n (i + 1) d s (λ j. if j == d + i then m (s + i) % 256 % 256 else m j) q,
)

pub memcpy_frame : (d s n : ℕ) (m : Memory) (q : ℕ) → inside d n q ≡ false → memcpy d s n m q ≡ m q
unfolding memcpy
memcpy_frame d s n m q h = ground (arith, memcpy_loop_frame n 0 d s m q)

memcpy_loop_lem :
    (n i d s : ℕ) (m : Memory) (q : ℕ)
    → Apart (d + i) n (s + i) n
    → memcpy_loop n i d s m q ≡ (if inside (d + i) n q then m (s + (q - d)) % 256 else m q)
unfolding memcpy_loop
memcpy_loop_lem zero i d s m q h = ground arith
memcpy_loop_lem (suc n) i d s m q h = ground (
  arith,
  memcpy_loop_lem n (i + 1) d s (λ j. if j == d + i then m (s + i) % 256 % 256 else m j) q,
)

-- Between two ranges that do not overlap, memcpy leaves the source's bytes in the destination and
-- every other byte as it was.
pub memcpy-at :
    (d s n : ℕ) (m : Memory) (q : ℕ)
    → Apart d n s n
    → memcpy d s n m q ≡ (if inside d n q then load m (s + (q - d)) else m q)
unfolding memcpy
memcpy-at d s n m q h = ground (arith, memcpy_loop_lem n 0 d s m q)
