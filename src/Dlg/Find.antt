-- ===== src/Dlg/Find.antt =====
-- `trustedlo_xrt_util_find_resource` finds the first resource of a kind and value.
use libtrustedlo.Prelude.{
  ℕ, zero, suc, ◌+◌, ◌*◌, ◌≤◌, ◌<◌, ◌≡◌, inl, inr, ◌&&◌, ◌==◌, Bool-cases, arith, Option, none,
  some,
}
use libtrustedlo.Memory.{Memory}
use libtrustedlo.Dlg.{
  dlg_resource_size, dlg_delegator_header_size, resource_kind, resource_arg0, resource_count,
  delegator_resource, find_loop, find_resource,
}

-- The address of the resource at an index.
abbrev pub resource_at : ℕ → ℕ → ℕ
resource_at info i = info + dlg_delegator_header_size + i * dlg_resource_size

abbrev pub Matches : Memory → ℕ → ℕ → ℕ → ℕ → Type 0
Matches m info kind value i =
    (resource_kind m (resource_at info i) ≡ kind) × (resource_arg0 m (resource_at info i) ≡ value)

-- The answer of a search from index `i`: the first match, or none where nothing matches.
pub data Finds (m : Memory) (info kind value i : ℕ) : Option ℕ → Type 0 where
  found :
      (j : ℕ)
      → i ≤ j
      → j < resource_count m info
      → Matches m info kind value j
      → ((l : ℕ) → i ≤ l → l < j → ¬ Matches m info kind value l)
      → Finds m info kind value i (some (resource_at info j))
  missing :
      ((l : ℕ) → i ≤ l → l < resource_count m info → ¬ Matches m info kind value l)
      → Finds m info kind value i none

module _ (m : Memory) (info kind value : ℕ) where
  Finds-later :
      (i : ℕ) {o : Option ℕ}
      → ¬ Matches m info kind value i
      → Finds m info kind value (i + 1) o
      → Finds m info kind value i o
  Finds-later i miss (found j lo hi hit before) = found j (omega arith) hi hit (λ l lo' hi' h.
      elim (Bool-cases (l == i)) [
        | inl e ↦ miss (ground (arith, h))
        | inr e ↦ before l (ground arith) hi' h
      ])
  Finds-later i miss (missing all) = missing (λ l lo' hi' h. elim (Bool-cases (l == i)) [
    | inl e ↦ miss (ground (arith, h))
    | inr e ↦ all l (ground arith) hi' h
  ])

  delegator_resource-at :
      (i : ℕ) → i < resource_count m info → delegator_resource m info i ≡ some (resource_at info i)
  unfolding delegator_resource
  delegator_resource-at i h = ground arith

  find_loop-Finds :
      (n i : ℕ)
      → i + n ≡ resource_count m info
      → Finds m info kind value i (find_loop m info kind value n i)
  unfolding find_loop
  find_loop-Finds zero i e = missing (λ l lo hi h. omega arith)
  find_loop-Finds (suc n) i e =
      rw (delegator_resource-at i (omega arith), find_loop)
        (elim (Bool-cases (
          resource_kind m (resource_at info i) == kind
          && resource_arg0 m (resource_at info i) == value)) [
            | inl hit ↦
                rw hit
                  (found i (omega arith) (omega arith) (ground arith) (λ l lo hi h. omega arith))
            | inr miss ↦
                rw miss
                  (Finds-later i (λ h. ground arith) (find_loop-Finds n (i + 1) (omega arith)))
          ])

  -- The search answers with the first resource of the kind and the value, and with nothing only if
  -- there is none.
  pub find_resource-Finds : Finds m info kind value 0 (find_resource m info kind value)
  unfolding find_resource
  find_resource-Finds = find_loop-Finds (resource_count m info) 0 (omega arith)
