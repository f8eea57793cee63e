-- ===== src/Xrt/Unmapping.antt =====
-- What `trustedlo_xrt_util_revoke_mappings` unmaps.
use libtrustedlo.Prelude.{
  ℕ, zero, suc, ◌+◌, ◌≡◌, ◌≤◌, ◌∙◌, refl, inl, inr, Bool, ◌==◌, ◌&&◌, if◌then◌else◌, arith,
  Bool-cases, update,
}
use libtrustedlo.Memory.{Memory}
use libtrustedlo.Memory.Copy.{inside}
use libtrustedlo.Platform.{no_error, Platform, done}
use libtrustedlo.Cap.{unmap_absolute, pd_revoke_page_access}
use libtrustedlo.Cap.CSpace.{checked_ok, status, after}
use libtrustedlo.Ctxt.{unset, used}
use libtrustedlo.Dlg.{resource_slot, resource_cap_count}
use libtrustedlo.Xrt.{Machine, revoke_mapping, revoke_mappings_loop, revoke_mappings}

module _ {K : Type 0} (p : Platform K) (m : Memory) where
  -- The call that unmaps the region of a cookie.
  abbrev pub unmap_region : ℕ → K → K
  unmap_region cookie k =
      after p (unmap_absolute p (resource_slot m cookie) (resource_cap_count m cookie)) k

  -- The kernel after the regions of the indexes marked among the `n` from `i` are unmapped, in order.
  abbrev pub unmap_regions : (ℕ → Bool) → (ℕ → ℕ) → ℕ → ℕ → K → K
  unmap_regions held cookies zero i k = k
  unmap_regions held cookies (suc n) i k =
      unmap_regions held cookies n (i + 1) (if held i then unmap_region (cookies i) k else k)

  -- The mapping at the index is in use.
  abbrev pub used_at : Machine K → ℕ → Bool
  used_at s i = s.ctxt.mapping_state i == used

  -- The kernel unmaps every region that is in use.
  abbrev pub Unmappable : Machine K → Type 0
  Unmappable s =
      (j : ℕ) (k : K)
      → s.ctxt.mapping_state j ≡ used
      → status p
          (unmap_absolute p (resource_slot m (s.ctxt.mapping_data j))
            (resource_cap_count m (s.ctxt.mapping_data j)))
          k
        ≡ no_error

  -- What the revocation of the `n` mappings from `i` leaves.
  pub record Unmapped (i n : ℕ) (s t : Machine K) : Type 0 where
    pub kernel : t.kernel ≡ unmap_regions (used_at s) s.ctxt.mapping_data n i s.kernel
    pub states :
        (j : ℕ)
        → t.ctxt.mapping_state j
          ≡ (if inside i n j && used_at s j then unset else s.ctxt.mapping_state j)
    pub cookies : t.ctxt.mapping_data ≡ s.ctxt.mapping_data
    pub channels : t.ctxt.states ≡ s.ctxt.states

  unmapped_at : ℕ → Machine K → Machine K
  unmapped_at i s =
      if used_at s i
      then record s {
        ctxt = record s.ctxt { mapping_state = update s.ctxt.mapping_state i unset };
        kernel = unmap_region (s.ctxt.mapping_data i) s.kernel;
      }
      else s

  revoke_mapping_lem :
      (i : ℕ) (s : Machine K) → Unmappable s → revoke_mapping p m i s ≡ done tt (unmapped_at i s)
  unfolding revoke_mapping pd_revoke_page_access unmapped_at
  revoke_mapping_lem i s h = elim (Bool-cases (used_at s i)) [
    | inr free ↦ ground (arith, free)
    | inl held ↦
        let ok =
          checked_ok _ (unmap_region (s.ctxt.mapping_data i) s.kernel)
            (h i s.kernel (ground (arith, held))) in
        ground (arith, held, ok)
  ]

  unmapped_state :
      (i j : ℕ) (s : Machine K)
      → (unmapped_at i s).ctxt.mapping_state j
        ≡ (if j == i && used_at s j then unset else s.ctxt.mapping_state j)
  unfolding unmapped_at
  unmapped_state i j s = elim (Bool-cases (used_at s i)) [
    | inr free ↦ rw free (ground (arith, free))
    | inl held ↦ rw held (ground (arith, held))
  ]

  unmapped_rest :
      (i : ℕ) (s : Machine K)
      → ((unmapped_at i s).kernel
          ≡ (if used_at s i then unmap_region (s.ctxt.mapping_data i) s.kernel else s.kernel))
        × ((unmapped_at i s).ctxt.mapping_data ≡ s.ctxt.mapping_data)
        × ((unmapped_at i s).ctxt.states ≡ s.ctxt.states)
  unfolding unmapped_at
  unmapped_rest i s = elim (Bool-cases (used_at s i)) [
    | inr free ↦ rw (free, unmapped_at) (refl, refl, refl)
    | inl held ↦ rw (held, unmapped_at) (refl, refl, refl)
  ]

  unmap_regions_same :
      (f g : ℕ → Bool) (cookies : ℕ → ℕ) (n i : ℕ) (k : K)
      → ((j : ℕ) → i ≤ j → f j ≡ g j)
      → unmap_regions f cookies n i k ≡ unmap_regions g cookies n i k
  unmap_regions_same f g cookies zero i k h = refl
  unmap_regions_same f g cookies (suc n) i k h =
      rw (h i (omega arith))
        (unmap_regions_same f g cookies n (i + 1) _ (λ j lo. h j (omega arith)))

  Unmapped-next :
      (i n : ℕ) (s t : Machine K) → Unmapped (i + 1) n (unmapped_at i s) t → Unmapped i (suc n) s t
  Unmapped-next i n s t a =
      let (kernel, cookies, channels) = unmapped_rest i s in
      record {
        kernel =
            a.kernel
            ∙ (rw (kernel, cookies) refl
                ∙ unmap_regions_same (used_at (unmapped_at i s)) (used_at s) s.ctxt.mapping_data n
                    (i + 1) _ (λ j lo. ground (arith, unmapped_state i j s)));
        states = λ j. ground (arith, a.states j, unmapped_state i j s);
        cookies = a.cookies ∙ cookies;
        channels = a.channels ∙ channels;
      }

  revoke_loop-Unmapped :
      (n i : ℕ) (s : Machine K)
      → Unmappable s
      → (t : Machine K) × (revoke_mappings_loop p m n i s ≡ done tt t) × Unmapped i n s t
  unfolding revoke_mappings_loop
  revoke_loop-Unmapped zero i s h = (
    s,
    refl,
    record { kernel = refl; states = λ j. ground arith; cookies = refl; channels = refl },
  )
  revoke_loop-Unmapped (suc n) i s h =
      let (kernel, cookies, channels) = unmapped_rest i s in
      let (t, later, more) =
        revoke_loop-Unmapped n (i + 1) (unmapped_at i s)
          (λ j k e. rw cookies (h j k (ground (arith, e, unmapped_state i j s)))) in
      (t, rw (revoke_mapping_lem i s h) later, Unmapped-next i n s t more)

  -- If the kernel unmaps every region in use, the revocation returns: it unmaps exactly the regions
  -- in use below the mapping count, each once and in order, makes them unset, and changes no
  -- other mapping and no channel.
  pub revoke_mappings-Unmapped :
      (s : Machine K)
      → Unmappable s
      → (t : Machine K) × (revoke_mappings p m s ≡ done tt t) × Unmapped 0 s.ctxt.mapping_count s t
  unfolding revoke_mappings
  revoke_mappings-Unmapped s h =
      let (t, run, a) = revoke_loop-Unmapped s.ctxt.mapping_count 0 s h in (t, rw run refl, a)
