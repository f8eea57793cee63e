-- ===== src/Elf/Section.antt =====
-- `tsldr_miscutil_fetch_elf_section_with_vaddr` of src/miscutils.c: the file address of the
-- section that covers a virtual address.
use libtrustedlo.Prelude.{
  ℕ, zero, suc, ◌+◌, ◌-◌, ◌*◌, ◌%◌, ◌^◌, ◌≡◌, ◌≢◌, ◌≤◌, ◌<◌, inl, inr, Bool, true, false, ◌&&◌,
  ◌==◌, if◌then◌else◌, ltb, leb, Option, none, some, Bool-cases, ==→eq, ==→ne, arith,
}
use libtrustedlo.Memory.{Memory}
use libtrustedlo.Elf.{e_shoff, e_shnum, shdr_size, sh_type, sh_addr, sh_offset, sh_size, sht_nobits}

-- `vaddr >= start && vaddr < start + size`, where the sum wraps at 64 bits.
abbrev pub section_covers : Memory → ℕ → ℕ → Bool
section_covers m sh vaddr =
    leb (sh_addr m sh) vaddr && ltb vaddr ((sh_addr m sh + sh_size m sh) % 2 ^ 64)

-- The loop with its rounds left, from section `i`. The result is the address and the size that is
-- stored through `sh_size`; `none` is the (seL4_Word)-1 of the code, which stores nothing.
unfoldable pub fetch_loop : Memory → ℕ → ℕ → ℕ → ℕ → ℕ → Option (ℕ × ℕ)
fetch_loop m base table vaddr zero i = none
fetch_loop m base table vaddr (suc n) i =
    let sh = table + i * shdr_size in
    let rest = fetch_loop m base table vaddr n (i + 1) in
    if section_covers m sh vaddr
    then (if sh_type m sh == sht_nobits
        then none
        else some ((base + sh_offset m sh + (vaddr - sh_addr m sh)) % 2 ^ 64, sh_size m sh))
    else rest

unfoldable pub fetch_elf_section_with_vaddr : Memory → ℕ → ℕ → Option (ℕ × ℕ)
fetch_elf_section_with_vaddr m base vaddr =
    fetch_loop m base (base + e_shoff m base) vaddr (e_shnum m base) 0

abbrev section_at : Memory → ℕ → ℕ → ℕ
section_at m base i = base + e_shoff m base + i * shdr_size

-- The first section that covers the address decides, and none below it does.
pub data Fetches (m : Memory) (base vaddr i : ℕ) : Option (ℕ × ℕ) → Type 0 where
  fetched :
      (j : ℕ)
      → i ≤ j
      → j < e_shnum m base
      → section_covers m (section_at m base j) vaddr ≡ true
      → sh_type m (section_at m base j) ≢ sht_nobits
      → ((l : ℕ) → i ≤ l → l < j → section_covers m (section_at m base l) vaddr ≡ false)
      → Fetches m base vaddr i (
          some (
            (base + sh_offset m (section_at m base j) + (vaddr - sh_addr m (section_at m base j)))
                % 2 ^ 64,
            sh_size m (section_at m base j),
          ))
  no_bits :
      (j : ℕ)
      → i ≤ j
      → j < e_shnum m base
      → section_covers m (section_at m base j) vaddr ≡ true
      → sh_type m (section_at m base j) ≡ sht_nobits
      → ((l : ℕ) → i ≤ l → l < j → section_covers m (section_at m base l) vaddr ≡ false)
      → Fetches m base vaddr i none
  nowhere :
      ((l : ℕ) → i ≤ l → l < e_shnum m base → section_covers m (section_at m base l) vaddr ≡ false)
      → Fetches m base vaddr i none

module _ (m : Memory) (base vaddr : ℕ) where
  Fetches-later :
      (i : ℕ) {o : Option (ℕ × ℕ)}
      → section_covers m (section_at m base i) vaddr ≡ false
      → Fetches m base vaddr (i + 1) o
      → Fetches m base vaddr i o
  Fetches-later i miss (fetched j lo hi hit bits before) =
      fetched j (omega arith) hi hit bits (λ l lo' hi'. elim (Bool-cases (l == i)) [
        | inl e ↦ rw (==→eq l i e) miss
        | inr e ↦ before l (ground arith) hi'
      ])
  Fetches-later i miss (no_bits j lo hi hit bits before) =
      no_bits j (omega arith) hi hit bits (λ l lo' hi'. elim (Bool-cases (l == i)) [
        | inl e ↦ rw (==→eq l i e) miss
        | inr e ↦ before l (ground arith) hi'
      ])
  Fetches-later i miss (nowhere all) = nowhere (λ l lo' hi'. elim (Bool-cases (l == i)) [
    | inl e ↦ rw (==→eq l i e) miss
    | inr e ↦ all l (ground arith) hi'
  ])

  fetch_loop-Fetches :
      (n i : ℕ)
      → i + n ≡ e_shnum m base
      → Fetches m base vaddr i (fetch_loop m base (base + e_shoff m base) vaddr n i)
  unfolding fetch_loop
  fetch_loop-Fetches zero i e = nowhere (λ l lo hi. absurd (omega arith))
  fetch_loop-Fetches (suc n) i e =
      elim (Bool-cases (section_covers m (section_at m base i) vaddr)) [
        | inr miss ↦ rw miss (Fetches-later i miss (fetch_loop-Fetches n (i + 1) (omega arith)))
        | inl hit ↦ elim (Bool-cases (sh_type m (section_at m base i) == sht_nobits)) [
          | inl empty ↦
              rw (hit, empty)
                (no_bits i (omega arith) (omega arith) hit (==→eq _ _ empty)
                  (λ l lo hi. absurd (omega arith)))
          | inr full ↦
              rw (hit, full)
                (fetched i (omega arith) (omega arith) hit (==→ne _ _ full)
                  (λ l lo hi. absurd (omega arith)))
        ]
      ]

  -- The lookup answers for the first section that covers the address: its file address modulo
  -- 2 ^ 64, or nothing if that section is SHT_NOBITS; without such a section it answers nothing.
  pub fetch-Fetches : Fetches m base vaddr 0 (fetch_elf_section_with_vaddr m base vaddr)
  unfolding fetch_elf_section_with_vaddr
  fetch-Fetches = fetch_loop-Fetches (e_shnum m base) 0 (omega arith)
