-- ===== src/Args/Client.antt =====
-- The client's arguments in memory, as the client reads them: the bitmaps and the name that
-- src/trustedlo_cfuncs.c leaves.
use native.Mathlib.Nat.{add-mul-div_left, div-eq_of_lt}
use native.Mathlib.Omega.{pow_step}
use libtrustedlo.Prelude.{
  ℕ, zero, suc, ◌+◌, ◌-◌, ◌*◌, ◌/◌, ◌%◌, ◌^◌, ◌≡◌, ◌∙◌, ◌≤◌, ◌<◌, sym, ap, inl, Bool, ◌&&◌, ◌||◌,
  not, some, if◌then◌else◌, arith,
}
use libtrustedlo.Memory.{Memory, memset}
use libtrustedlo.Bytes.{read_le64, write_le64, read_le64-write_le64}
use libtrustedlo.Ctxt.{notifications, ppcs, Ctxt}
use libtrustedlo.Args.{
  Bits, bits_of, word_of, ClientArgs, write_client_args, fill_client_args, microkit_notifications,
  bitmap_opt_notifications, microkit_pps, bitmap_opt_ppcs,
}
use libtrustedlo.Args.Bitmaps.{in_use, fill_client_args-bits}
use libtrustedlo.Args.Written.{read_le64-write_apart, memset_frame}
use libtrustedlo.Bytes.Agreement.{Agree, read_le64-Agree}
use libtrustedlo.Memory.Copy.{memset-at}

abbrev digit : Bool → ℕ
digit b = if b then 1 else 0

word_of-fits : (b : Bits) (n : ℕ) → word_of b n < 2 ^ n
unfolding word_of
word_of-fits b zero = omega arith
word_of-fits b (suc n) = ground (arith, word_of-fits b n)

two_pow : (j d : ℕ) → 2 ^ suc (d + j) ≡ 2 ^ j * (2 * 2 ^ d)
two_pow j zero =
    let e : 0 + j ≡ j = omega arith in ap (λ x. 2 ^ suc x) e ∙ (pow_step 2 j ∙ omega arith)
two_pow j (suc d) =
    let e : suc d + j ≡ suc (d + j) = omega arith in
    ap (λ x. 2 ^ suc x) e ∙ (pow_step 2 (suc (d + j)) ∙ grind (arith, two_pow j d, pow_step 2 d))

-- The word from bit `j` upwards.
word_of-split :
    (b : Bits) (j d : ℕ)
    → (rest : ℕ) × (word_of b (suc (d + j)) ≡ word_of b j + 2 ^ j * (digit (b j) + 2 * rest))
unfolding word_of
word_of-split b j zero = (0, ground arith)
word_of-split b j (suc d) =
    let (rest, e) = word_of-split b j d in
    (rest + digit (b (suc (d + j))) * 2 ^ d, grind (arith, e, two_pow j d))

word_of-at : (b : Bits) (j d : ℕ) → word_of b (suc (d + j)) / 2 ^ j % 2 ≡ digit (b j)
word_of-at b j d =
    let (rest, e) = word_of-split b j d in
    let above : word_of b (suc (d + j)) / 2 ^ j ≡ digit (b j) + 2 * rest =
      ap (λ w. w / 2 ^ j) e
      ∙ (add-mul-div_left (word_of b j) (digit (b j) + 2 * rest) (omega (arith, word_of-fits b j))
          ∙ ap (λ x. x + (digit (b j) + 2 * rest)) (div-eq_of_lt (word_of-fits b j))
          ∙ omega arith) in
    ap (λ x. x % 2) above ∙ ground arith

-- The bits of a bitmap that is written as a word are its bits.
bits_of-word_of : (b : Bits) (j : ℕ) → j < 64 → bits_of (word_of b 64) j ≡ b j
bits_of-word_of b j lt =
    let e : suc (63 - j + j) ≡ 64 = omega (arith, lt) in
    let at : word_of b 64 / 2 ^ j % 2 ≡ digit (b j) =
      ap (λ n. word_of b n / 2 ^ j % 2) (sym e) ∙ word_of-at b j (63 - j) in
    ground (arith, at, lt)

-- What a client finds at `p`: the four bitmaps, and a name of 64 zeros.
pub record ClientReads (m : Memory) (p : ℕ) (a : ClientArgs) : Type 0 where
  pub bits :
      (j : ℕ)
      → j < 64
      → (bits_of (read_le64 m p) j ≡ a.bitmap_irqs j)
        × (bits_of (read_le64 m (p + 8)) j ≡ a.bitmap_notifications j)
        × (bits_of (read_le64 m (p + 16)) j ≡ a.bitmap_ppcs j)
        × (bits_of (read_le64 m (p + 24)) j ≡ a.bitmap_ioports j)
  pub name : (q : ℕ) → p + 32 ≤ q → q < p + 96 → m q ≡ 0

pub write_client_args-ClientReads :
    (p : ℕ) (a : ClientArgs) (m : Memory) → ClientReads (write_client_args p a m) p a
unfolding write_client_args
write_client_args-ClientReads p a m =
    let m1 = write_le64 m p (word_of a.bitmap_irqs 64) in
    let m2 = write_le64 m1 (p + 8) (word_of a.bitmap_notifications 64) in
    let m3 = write_le64 m2 (p + 16) (word_of a.bitmap_ppcs 64) in
    let m4 = write_le64 m3 (p + 24) (word_of a.bitmap_ioports 64) in
    let m5 = memset (p + 32) 0 64 m4 in
    let unnamed : Agree p 32 m4 m5 =
      λ q lo hi. memset_frame (p + 32) 0 64 m4 q (ground (arith, hi)) in
    let keep = λ (g : Memory) (k v o : ℕ) (h : o + 8 ≤ k).
      read_le64-write_apart g (p + k) v (p + o) (inl (omega (arith, h))) in
    let last = λ (o : ℕ) (h : o + 8 ≤ 32).
      read_le64-Agree m4 m5 p 32 (p + o) unnamed (omega arith) (omega (arith, h)) in
    let bit = λ (b : Bits) (w j : ℕ) (lt : j < 64) (e : w ≡ word_of b 64).
      ap (λ x. bits_of x j) e ∙ bits_of-word_of b j lt in
    record {
      bits = λ j lt. (
        bit a.bitmap_irqs _ j lt (
            read_le64-Agree m4 m5 p 32 p unnamed (omega arith) (omega arith)
            ∙ (read_le64-write_apart m3 (p + 24) _ p (inl (omega arith))
                ∙ (read_le64-write_apart m2 (p + 16) _ p (inl (omega arith))
                    ∙ (read_le64-write_apart m1 (p + 8) _ p (inl (omega arith))
                        ∙ read_le64-write_le64 m p _ (word_of-fits a.bitmap_irqs 64))))),
        bit a.bitmap_notifications _ j lt (
            last 8 (omega arith)
            ∙ (keep m3 24 _ 8 (omega arith)
                ∙ (keep m2 16 _ 8 (omega arith)
                    ∙ read_le64-write_le64 m1 (p + 8) _ (word_of-fits a.bitmap_notifications 64)))),
        bit a.bitmap_ppcs _ j lt (
            last 16 (omega arith)
            ∙ (keep m3 24 _ 16 (omega arith)
                ∙ read_le64-write_le64 m2 (p + 16) _ (word_of-fits a.bitmap_ppcs 64))),
        bit a.bitmap_ioports _ j lt (
            last 24 (omega arith)
            ∙ read_le64-write_le64 m3 (p + 24) _ (word_of-fits a.bitmap_ioports 64)),
      );
      name = λ q lo hi. ground (arith, memset-at (p + 32) 0 64 m4 q, lo, hi);
    }

-- When `mktxlo_fill_client_args` is defined, the client reads in its arguments in memory that bit
-- `j` of the notifications is set exactly if it is a Microkit notification that is not optional, or
-- a notification channel in use, and the same for the protected procedures.
pub client_args-bits :
    (n : ℕ) (m : Memory) (info : ℕ) (c : Ctxt) (args : ClientArgs)
    → fill_client_args n m info c ≡ some args
    → (p : ℕ) (g : Memory) (j : ℕ) → j < 64
    → (bits_of (read_le64 (write_client_args p args g) (p + 8)) j ≡ (
        bits_of (microkit_notifications m info) j
          && not (bits_of (bitmap_opt_notifications m info) j)
        || in_use (c.states notifications) 0 n j))
      × (bits_of (read_le64 (write_client_args p args g) (p + 16)) j ≡ (
          bits_of (microkit_pps m info) j && not (bits_of (bitmap_opt_ppcs m info) j)
          || in_use (c.states ppcs) 0 n j))
client_args-bits n m info c args h p g j lt =
    let (_, ntfns, calls, _) = (write_client_args-ClientReads p args g).bits j lt in
    let (ntfns', calls') = fill_client_args-bits n m info c args h j in
    (ntfns ∙ ntfns', calls ∙ calls')
