-- ===== src/Xrt/Granting.antt =====
-- What `trustedlo_xrt_util_restore_mappings` maps.
use libtrustedlo.Prelude.{
  ℕ, zero, suc, ◌+◌, ◌≡◌, ◌≤◌, ◌<◌, ◌∙◌, refl, ◌⊎◌, inl, inr, Bool, false, ◌==◌, ◌||◌,
  if◌then◌else◌, ltb, leb, arith, update,
}
use libtrustedlo.Memory.{Memory}
use libtrustedlo.Memory.Copy.{inside}
use libtrustedlo.Platform.{no_error, Platform, done}
use libtrustedlo.Cap.{map_absolute, pd_grant_page_access, dlg_map_cap_start, dlg_map_cap_end}
use libtrustedlo.Cap.CSpace.{checked_ok, status, after}
use libtrustedlo.Ctxt.{allowed, used, keep}
use libtrustedlo.Dlg.{
  resource_kind, resource_memory_region, resource_slot, resource_cap_count, resource_arg0,
}
use libtrustedlo.Xrt.{Machine, restore_mapping, restore_mappings_loop, restore_mappings}

module _ {K : Type 0} (p : Platform K) (m : Memory) where
  -- The call that maps the region of a cookie.
  abbrev pub map_region : ℕ → K → K
  map_region cookie k =
      after p
        (map_absolute p (resource_slot m cookie) (resource_arg0 m cookie) p.all_rights 0
          (resource_cap_count m cookie))
        k

  -- The kernel after the regions of the indexes marked among the `n` from `i` are mapped, in order.
  abbrev pub map_regions : (ℕ → Bool) → (ℕ → ℕ) → ℕ → ℕ → K → K
  map_regions wanted cookies zero i k = k
  map_regions wanted cookies (suc n) i k =
      map_regions wanted cookies n (i + 1) (if wanted i then map_region (cookies i) k else k)

  -- The mapping at the index is one that the restoration maps.
  abbrev pub asked_at : Machine K → ℕ → Bool
  asked_at s i = s.ctxt.mapping_state i == allowed

  -- The cookie is a memory region with a slot in range, and the kernel maps it.
  pub record Mappable (cookie : ℕ) : Type 0 where
    pub region : resource_kind m cookie ≡ resource_memory_region
    pub from : dlg_map_cap_start ≤ resource_slot m cookie
    pub to : resource_slot m cookie < dlg_map_cap_end
    pub maps :
        (k : K)
        → status p
            (map_absolute p
              (resource_slot m cookie)
              (resource_arg0 m cookie)
              p.all_rights
              0
              (resource_cap_count m cookie))
            k
          ≡ no_error

  -- Every mapping among the `n` from `i` is asked for or kept, and can be mapped.
  pub record Pending (i n : ℕ) (s : Machine K) : Type 0 where
    pub state :
        (j : ℕ)
        → i ≤ j
        → j < i + n
        → (s.ctxt.mapping_state j ≡ allowed) ⊎ (s.ctxt.mapping_state j ≡ keep)
    pub mappable : (j : ℕ) → i ≤ j → j < i + n → Mappable (s.ctxt.mapping_data j)

  -- What the restoration of the `n` mappings from `i` leaves.
  pub record Mapped (i n : ℕ) (s t : Machine K) : Type 0 where
    pub kernel : t.kernel ≡ map_regions (asked_at s) s.ctxt.mapping_data n i s.kernel
    pub states :
        (j : ℕ) → t.ctxt.mapping_state j ≡ (if inside i n j then used else s.ctxt.mapping_state j)
    pub cookies : t.ctxt.mapping_data ≡ s.ctxt.mapping_data
    pub channels : t.ctxt.states ≡ s.ctxt.states

  mapped_at : ℕ → Machine K → Machine K
  mapped_at i s = record s {
    ctxt = record s.ctxt { mapping_state = update s.ctxt.mapping_state i used };
    kernel = if asked_at s i then map_region (s.ctxt.mapping_data i) s.kernel else s.kernel;
  }

  restore_mapping_lem :
      (i n : ℕ) (s : Machine K)
      → Pending i (suc n) s
      → restore_mapping p m i s ≡ done tt (mapped_at i s)
  unfolding restore_mapping pd_grant_page_access mapped_at
  restore_mapping_lem i n s h = elim (h.state i (omega arith) (omega arith)) [
    | inr kept ↦ ground (arith, kept)
    | inl new ↦
        let a = h.mappable i (omega arith) (omega arith) in
        let ok = checked_ok _ (map_region (s.ctxt.mapping_data i) s.kernel) (a.maps s.kernel) in
        let within : (ltb (resource_slot m (s.ctxt.mapping_data i)) 138
              || leb 960 (resource_slot m (s.ctxt.mapping_data i)))
            ≡ false =
          ground (arith, a.from, a.to) in
        ground (arith, new, a.region, within, ok)
  ]

  Pending-next : (i n : ℕ) (s : Machine K) → Pending i (suc n) s → Pending (i + 1) n (mapped_at i s)
  unfolding mapped_at
  Pending-next i n s h = record {
    state = λ j lo hi. elim (h.state j (omega arith) (omega arith)) [
      | inl e ↦ inl (ground (arith, e))
      | inr e ↦ inr (ground (arith, e))
    ];
    mappable = λ j lo hi. h.mappable j (omega arith) (omega arith);
  }

  -- What is asked for behind the index does not change.
  map_regions_same :
      (f g : ℕ → Bool) (cookies : ℕ → ℕ) (n i : ℕ) (k : K)
      → ((j : ℕ) → i ≤ j → f j ≡ g j)
      → map_regions f cookies n i k ≡ map_regions g cookies n i k
  map_regions_same f g cookies zero i k h = refl
  map_regions_same f g cookies (suc n) i k h =
      rw (h i (omega arith)) (map_regions_same f g cookies n (i + 1) _ (λ j lo. h j (omega arith)))

  Mapped-next :
      (i n : ℕ) (s t : Machine K) → Mapped (i + 1) n (mapped_at i s) t → Mapped i (suc n) s t
  unfolding mapped_at
  Mapped-next i n s t a = record {
    kernel =
        a.kernel
        ∙ map_regions_same (asked_at (mapped_at i s)) (asked_at s) s.ctxt.mapping_data n (i + 1) _
            (λ j lo. ground arith);
    states = λ j. ground (arith, a.states j);
    cookies = a.cookies;
    channels = a.channels;
  }

  restore_loop-Mapped :
      (n i : ℕ) (s : Machine K)
      → Pending i n s
      → (t : Machine K) × (restore_mappings_loop p m n i s ≡ done tt t) × Mapped i n s t
  unfolding restore_mappings_loop
  restore_loop-Mapped zero i s h = (
    s,
    refl,
    record { kernel = refl; states = λ j. ground arith; cookies = refl; channels = refl },
  )
  restore_loop-Mapped (suc n) i s h =
      let (t, later, more) = restore_loop-Mapped n (i + 1) (mapped_at i s) (Pending-next i n s h) in
      (t, rw (restore_mapping_lem i n s h) later, Mapped-next i n s t more)

  -- If every mapping of the context is asked for or kept, names a memory region with a slot in
  -- range, and the kernel maps it, the restoration returns: it maps exactly the regions asked for,
  -- each once and in order, makes all of them used, and changes no channel.
  pub restore_mappings-Mapped :
      (s : Machine K)
      → Pending 0 s.ctxt.mapping_count s
      → (t : Machine K) × (restore_mappings p m s ≡ done tt t) × Mapped 0 s.ctxt.mapping_count s t
  unfolding restore_mappings
  restore_mappings-Mapped s h =
      let (t, run, a) = restore_loop-Mapped s.ctxt.mapping_count 0 s h in (t, rw run refl, a)
