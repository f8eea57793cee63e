-- ===== src/Memory.antt =====
-- Byte-addressed memory and the functions of src/memory.c.
-- A pointer is a number; a load and a store go through one byte, `unsigned char`.
use libtrustedlo.Prelude.{
  ℕ, zero, suc, ◌+◌, ◌-◌, ◌%◌, Bool, true, false, ◌&&◌, ◌==◌, if◌then◌else◌, ltb, Option, none,
  some, update, not,
}
pub mod Copy
pub mod Compare
pub mod Strings

abbrev pub Memory : Type 0
Memory = ℕ → ℕ

abbrev pub load : Memory → ℕ → ℕ
load m p = m p % 256

abbrev pub store : Memory → ℕ → ℕ → Memory
store m p v = update m p (v % 256)

-- `for (size_t i = 0; i < n; ++i) d[i] = s[i];`, with the rounds left and `i`.
unfoldable pub memcpy_loop : ℕ → ℕ → ℕ → ℕ → Memory → Memory
memcpy_loop zero i d s m = m
memcpy_loop (suc n) i d s m = memcpy_loop n (i + 1) d s (store m (d + i) (load m (s + i)))

unfoldable pub memcpy : ℕ → ℕ → ℕ → Memory → Memory
unfolding memcpy_loop
memcpy dest src n m = memcpy_loop n 0 dest src m

unfoldable pub memset_loop : ℕ → ℕ → ℕ → ℕ → Memory → Memory
memset_loop zero i d c m = m
memset_loop (suc n) i d c m = memset_loop n (i + 1) d c (store m (d + i) c)

unfoldable pub memset : ℕ → ℕ → ℕ → Memory → Memory
unfolding memset_loop
memset dest c n m = memset_loop n 0 dest c m

-- The difference of two `unsigned char`, an `int`: `below n` is -(n + 1).
pub data Difference : Type 0 where
  above : ℕ → Difference
  below : ℕ → Difference

abbrev pub diff : ℕ → ℕ → Difference
diff a b = if ltb a b then below (b - a - 1) else above (a - b)

unfoldable pub memcmp_loop : Memory → ℕ → ℕ → ℕ → ℕ → Difference
memcmp_loop m zero i a b = above 0
memcmp_loop m (suc n) i a b =
    let rest = memcmp_loop m n (i + 1) a b in
    if load m (a + i) == load m (b + i) then rest else diff (load m (a + i)) (load m (b + i))

unfoldable pub memcmp : Memory → ℕ → ℕ → ℕ → Difference
unfolding memcmp_loop
memcmp m a b n = memcmp_loop m n 0 a b

-- The `while` loops of strcmp and strlen on fuel; `none` when it runs out.
unfoldable pub strcmp_loop : Memory → ℕ → ℕ → ℕ → ℕ → Option Difference
strcmp_loop m zero i a b = none
strcmp_loop m (suc f) i a b =
    let rest = strcmp_loop m f (i + 1) a b in
    let last = diff (load m (a + i)) (load m (b + i)) in
    if not (load m (a + i) == 0) && not (load m (b + i) == 0)
    then (if load m (a + i) == load m (b + i) then rest else some last)
    else some last

unfoldable pub strlen_loop : Memory → ℕ → ℕ → ℕ → Option ℕ
strlen_loop m zero s len = none
strlen_loop m (suc f) s len =
    let rest = strlen_loop m f s (len + 1) in if load m (s + len) == 0 then some len else rest
