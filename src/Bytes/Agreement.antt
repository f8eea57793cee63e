-- ===== src/Bytes/Agreement.antt =====
-- Two memories that agree on a range of bytes: what is read within the range is the same in both.
use libtrustedlo.Prelude.{ℕ, zero, suc, ◌+◌, ◌≡◌, ◌≤◌, ◌<◌, refl, ap, sym, ◌∙◌, ◌%◌, arith}
use libtrustedlo.Memory.{Memory, load, memcmp_loop, memcmp}
use libtrustedlo.Memory.Compare.{IsString}
use libtrustedlo.Bytes.{read_le16, read_le32, read_le64}

-- Two memories agree on the `n` bytes from `p`.
abbrev pub Agree : ℕ → ℕ → Memory → Memory → Type 0
Agree p n m g = (q : ℕ) → p ≤ q → q < p + n → g q ≡ m q

pub read_le64-Agree :
    (m g : Memory) (p n q : ℕ)
    → Agree p n m g
    → p ≤ q
    → q + 8 ≤ p + n
    → read_le64 g q ≡ read_le64 m q
unfolding read_le64
read_le64-Agree m g p n q same lo hi = ground (
  arith,
  same q,
  same (q + 1),
  same (q + 2),
  same (q + 3),
  same (q + 4),
  same (q + 5),
  same (q + 6),
  same (q + 7),
)

pub read_le32-Agree :
    (m g : Memory) (p n q : ℕ)
    → Agree p n m g
    → p ≤ q
    → q + 4 ≤ p + n
    → read_le32 g q ≡ read_le32 m q
unfolding read_le32
read_le32-Agree m g p n q same lo hi =
    ground (arith, same q, same (q + 1), same (q + 2), same (q + 3))

pub read_le16-Agree :
    (m g : Memory) (p n q : ℕ)
    → Agree p n m g
    → p ≤ q
    → q + 2 ≤ p + n
    → read_le16 g q ≡ read_le16 m q
unfolding read_le16
read_le16-Agree m g p n q same lo hi = ground (arith, same q, same (q + 1))

pub load-Agree :
    (m g : Memory) (p n q : ℕ) → Agree p n m g → p ≤ q → q < p + n → load g q ≡ load m q
load-Agree m g p n q same lo hi = ap (λ v. v % 256) (same q lo hi)

pub IsString-Agree :
    (m g : Memory) (s len : ℕ) → Agree s (len + 1) m g → IsString m s len → IsString g s len
IsString-Agree m g s len same is = record {
  ends = load-Agree m g s (len + 1) (s + len) same (omega arith) (omega arith) ∙ is.ends;
  before = λ i h z.
      is.before i h (sym (load-Agree m g s (len + 1) (s + i) same (omega arith) (omega arith)) ∙ z);
}

memcmp_loop-Agree :
    (m g : Memory) (a b n i : ℕ)
    → Agree a (i + n) m g
    → Agree b (i + n) m g
    → memcmp_loop g n i a b ≡ memcmp_loop m n i a b
unfolding memcmp_loop
memcmp_loop-Agree m g a b zero i left right = refl
memcmp_loop-Agree m g a b (suc n) i left right =
    let rest =
      memcmp_loop-Agree m g a b n (i + 1) (λ q lo hi. left q lo (omega arith))
        (λ q lo hi. right q lo (omega arith)) in
    rw
      (
        load-Agree m g a (i + suc n) (a + i) left (omega arith) (omega arith),
        load-Agree m g b (i + suc n) (b + i) right (omega arith) (omega arith),
        rest,
      )
      refl

pub memcmp-Agree :
    (m g : Memory) (a b n : ℕ) → Agree a n m g → Agree b n m g → memcmp g a b n ≡ memcmp m a b n
unfolding memcmp
memcmp-Agree m g a b n left right =
    memcmp_loop-Agree m g a b n 0 (λ q lo hi. left q lo (omega arith))
      (λ q lo hi. right q lo (omega arith))
