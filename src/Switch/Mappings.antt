-- ===== src/Switch/Mappings.antt =====
-- What becomes of the memory mappings between the reading of a request and its enforcement.
use libtrustedlo.Prelude.{
  ℕ, zero, suc, ◌+◌, ◌*◌, ◌≡◌, ◌≢◌, ◌≤◌, ◌<◌, refl, inl, inr, Bool, ◌==◌, ltb, arith, Bool-cases,
  Option-cases, ==→eq, update,
}
use libtrustedlo.Memory.{Memory}
use libtrustedlo.Platform.{Platform, done}
use libtrustedlo.Ctxt.{used, Kind, allow, allow_mapping}
use libtrustedlo.Xrt.{
  Machine, check_mapping, revoke_mapping, revoke_mappings_loop, revoke_mappings, restore_mapping,
}
use libtrustedlo.Request.{
  xrt_entry_size, entry_data, allow_channel, allow_memory, workerfunc, try, populate_loop,
  populate_xrts, total_num, serialised_offset,
}
use libtrustedlo.Request.Entry.{workerfunc_elim, check_of}
use libtrustedlo.Request.Accepted.{Accepted, Accepted-try, Accepted-mono}
use libtrustedlo.Switch.{populate_req2ctxt, context_activate}

module _ {K : Type 0} (p : Platform K) (m : Memory) (info : ℕ) where
  -- No mapping that counts is recorded as mapped.
  abbrev pub NoneUsed : Machine K → Type 0
  NoneUsed s = (i : ℕ) → i < s.ctxt.mapping_count → s.ctxt.mapping_state i ≢ used

  allow_channel-NoneUsed :
      (kind : Kind) (check : ℕ → Bool) (id : ℕ) (s : Machine K)
      → NoneUsed s
      → Accepted NoneUsed (allow_channel p m kind check id s)
  unfolding allow_channel allow
  allow_channel-NoneUsed kind check id s h = elim (Bool-cases (ltb id p.max_channels)) [
    | inr out ↦ rw out tt
    | inl within ↦ elim (Bool-cases (check id)) [
      | inr foreign ↦ rw (within, foreign) tt
      | inl known ↦ rw (within, known) h
    ]
  ]

  allow_memory-NoneUsed :
      (vaddr : ℕ) (s : Machine K) → NoneUsed s → Accepted NoneUsed (allow_memory p m info vaddr s)
  unfolding allow_memory allow_mapping
  allow_memory-NoneUsed vaddr s h = elim (Bool-cases (ltb s.ctxt.mapping_count p.max_channels)) [
    | inr full ↦ rw full tt
    | inl room ↦ elim (Option-cases (check_mapping m info vaddr)) [
      | inl nowhere ↦ rw (room, nowhere) tt
      | inr (cookie, found) ↦ rw (room, found) (λ i lt e. ground (arith, h i))
    ]
  ]

  pub workerfunc-NoneUsed :
      (entry : ℕ) (s : Machine K) → NoneUsed s → Accepted NoneUsed (workerfunc p m info entry s)
  workerfunc-NoneUsed entry s h =
      workerfunc_elim p m info NoneUsed entry s
        (λ kind e. allow_channel-NoneUsed kind (check_of m info kind) (entry_data m entry) s h)
        (λ e. allow_memory-NoneUsed (entry_data m entry) s h)

  pub populate_loop-NoneUsed :
      (entries n i : ℕ) (s : Machine K)
      → NoneUsed s
      → Accepted NoneUsed (populate_loop p m info entries n i s)
  unfolding populate_loop
  populate_loop-NoneUsed entries zero i s h = h
  populate_loop-NoneUsed entries (suc n) i s h =
      Accepted-try NoneUsed NoneUsed (workerfunc p m info (entries + i * xrt_entry_size))
        (populate_loop p m info entries n (i + 1)) s
        (workerfunc-NoneUsed (entries + i * xrt_entry_size) s h)
        (λ t k. populate_loop-NoneUsed entries n (i + 1) t k)

  revoke_loop_idle :
      (n i : ℕ) (s : Machine K)
      → ((j : ℕ) → i ≤ j → j < i + n → s.ctxt.mapping_state j ≢ used)
      → revoke_mappings_loop p m n i s ≡ done tt s
  unfolding revoke_mappings_loop revoke_mapping
  revoke_loop_idle zero i s h = refl
  revoke_loop_idle (suc n) i s h = elim (Bool-cases (s.ctxt.mapping_state i == used)) [
    | inl e ↦ absurd (h i (omega arith) (omega arith) (==→eq _ _ e))
    | inr e ↦ rw e (revoke_loop_idle n (i + 1) s (λ j lo hi. h j (omega arith) (omega arith)))
  ]

  pub revoke_mappings_idle : (s : Machine K) → NoneUsed s → revoke_mappings p m s ≡ done tt s
  unfolding revoke_mappings
  revoke_mappings_idle s h =
      rw (revoke_loop_idle s.ctxt.mapping_count 0 s (λ j lo hi. h j (omega arith))) refl

  -- Once the context is activated and a request read into it, the revocation of the mappings does
  -- nothing, whatever was mapped before and whatever the request asks for.
  pub populate-revoke_mappings :
      (header : ℕ) (s : Machine K)
      → Accepted
          (λ t. revoke_mappings p m t ≡ done tt t)
          (try (context_activate p m) (populate_req2ctxt p m info header) s)
  unfolding context_activate populate_req2ctxt populate_xrts
  populate-revoke_mappings header s =
      Accepted-mono NoneUsed (λ t. revoke_mappings p m t ≡ done tt t)
        (populate_xrts p m info header (record s { ctxt = record s.ctxt { mapping_count = 0 } }))
        (populate_loop-NoneUsed (header + serialised_offset m header) (total_num m header) 0
          (record s { ctxt = record s.ctxt { mapping_count = 0 } }) (λ i lt. absurd (omega arith)))
        revoke_mappings_idle

  -- A mapping that is allowed at an index where another was in use is never mapped: the new cookie
  -- takes the place of the old one, and neither revocation nor restoration calls the kernel.
  pub allow_mapping-reuses :
      (s : Machine K) (cookie : ℕ)
      → s.ctxt.mapping_state s.ctxt.mapping_count ≡ used
      → let i = s.ctxt.mapping_count in
        let t : Machine K = record s { ctxt = allow_mapping s.ctxt cookie } in
        (t.ctxt.mapping_data i ≡ cookie)
        × (revoke_mapping p m i t ≡ done tt t)
        × ((u : Machine K) × (restore_mapping p m i t ≡ done tt u)
            × (u.kernel ≡ s.kernel)
            × (u.ctxt.mapping_state i ≡ used)
            × (u.ctxt.mapping_data i ≡ cookie))
  unfolding allow_mapping revoke_mapping restore_mapping
  allow_mapping-reuses s cookie h =
      let t : Machine K = record s { ctxt = allow_mapping s.ctxt cookie } in
      let i = s.ctxt.mapping_count in
      (
        ground arith,
        ground (arith, h),
        (
          record t { ctxt = record t.ctxt { mapping_state = update t.ctxt.mapping_state i used } },
          ground (arith, h),
          refl,
          ground arith,
          ground arith,
        ),
      )
