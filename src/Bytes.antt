-- ===== src/Bytes.antt =====
-- Little-endian loads and stores of 16, 32 and 64 bits: `read_le16`, `read_le32` and `read_le64`
-- of src/mktsymb.c, and the loads and stores of struct fields, which are little-endian on both
-- supported architectures. The bytes that `|` joins do not overlap, so it is a sum.
use libtrustedlo.Prelude.{ℕ, ◌+◌, ◌*◌, ◌/◌, ◌^◌, ◌≡◌, ◌≤◌, ◌<◌, ◌⊎◌, ◌%◌, arith}
use libtrustedlo.Memory.{Memory, load, store}
pub mod Agreement

unfoldable pub read_le16 : Memory → ℕ → ℕ
read_le16 m p = load m p + load m (p + 1) * 2 ^ 8

unfoldable pub read_le32 : Memory → ℕ → ℕ
read_le32 m p =
    load m p + load m (p + 1) * 2 ^ 8 + load m (p + 2) * 2 ^ 16 + load m (p + 3) * 2 ^ 24

unfoldable pub read_le64 : Memory → ℕ → ℕ
read_le64 m p =
    load m p
    + load m (p + 1) * 2 ^ 8
    + load m (p + 2) * 2 ^ 16
    + load m (p + 3) * 2 ^ 24
    + load m (p + 4) * 2 ^ 32
    + load m (p + 5) * 2 ^ 40
    + load m (p + 6) * 2 ^ 48
    + load m (p + 7) * 2 ^ 56

-- A store of a 64-bit field.
unfoldable pub write_le64 : Memory → ℕ → ℕ → Memory
write_le64 m p v =
    store
      (store
        (store
          (store
            (store (store (store (store m p v) (p + 1) (v / 2 ^ 8)) (p + 2) (v / 2 ^ 16)) (p + 3)
              (v / 2 ^ 24))
            (p + 4) (v / 2 ^ 32))
          (p + 5) (v / 2 ^ 40))
        (p + 6) (v / 2 ^ 48))
      (p + 7) (v / 2 ^ 56)

pub read_le16-lt : (m : Memory) (p : ℕ) → read_le16 m p < 2 ^ 16
unfolding read_le16
read_le16-lt m p = omega arith

pub read_le32-lt : (m : Memory) (p : ℕ) → read_le32 m p < 2 ^ 32
unfolding read_le32
read_le32-lt m p = omega arith

pub read_le64-lt : (m : Memory) (p : ℕ) → read_le64 m p < 2 ^ 64
unfolding read_le64
read_le64-lt m p = omega arith

digits64 :
    (v : ℕ)
    → v < 2 ^ 64
    → v % 256
        + v / 2 ^ 8 % 256 * 2 ^ 8
        + v / 2 ^ 16 % 256 * 2 ^ 16
        + v / 2 ^ 24 % 256 * 2 ^ 24
        + v / 2 ^ 32 % 256 * 2 ^ 32
        + v / 2 ^ 40 % 256 * 2 ^ 40
        + v / 2 ^ 48 % 256 * 2 ^ 48
        + v / 2 ^ 56 % 256 * 2 ^ 56
      ≡ v
digits64 v h = omega arith

pub write_le64-frame : (m : Memory) (p v q : ℕ) → (q < p) ⊎ (p + 8 ≤ q) → write_le64 m p v q ≡ m q
unfolding write_le64
write_le64-frame m p v q h = ground arith

write_le64-at :
    (m : Memory) (p v : ℕ)
    → let m' = write_le64 m p v in
      (m' p ≡ v % 256)
      × (m' (p + 1) ≡ v / 2 ^ 8 % 256)
      × (m' (p + 2) ≡ v / 2 ^ 16 % 256)
      × (m' (p + 3) ≡ v / 2 ^ 24 % 256)
      × (m' (p + 4) ≡ v / 2 ^ 32 % 256)
      × (m' (p + 5) ≡ v / 2 ^ 40 % 256)
      × (m' (p + 6) ≡ v / 2 ^ 48 % 256)
      × (m' (p + 7) ≡ v / 2 ^ 56 % 256)
unfolding write_le64
write_le64-at m p v = (
  ground arith,
  ground arith,
  ground arith,
  ground arith,
  ground arith,
  ground arith,
  ground arith,
  ground arith,
)

-- A 64-bit field reads back what was stored in it.
pub read_le64-write_le64 : (m : Memory) (p v : ℕ) → v < 2 ^ 64 → read_le64 (write_le64 m p v) p ≡ v
unfolding read_le64
read_le64-write_le64 m p v h = omega (arith, write_le64-at m p v, digits64 v h)
