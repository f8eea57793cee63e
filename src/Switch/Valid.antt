-- ===== src/Switch/Valid.antt =====
-- The requests that the loader has no reason to refuse, and their reading.
use libtrustedlo.Prelude.{
  ℕ, zero, suc, ◌+◌, ◌*◌, ◌≡◌, ◌≢◌, ◌≤◌, ◌<◌, refl, ◌⊎◌, inl, inr, true, ◌==◌, if◌then◌else◌, some,
  Bool-cases, arith,
}
use libtrustedlo.Memory.{Memory}
use libtrustedlo.Platform.{no_error, Platform, done}
use libtrustedlo.Cap.CSpace.{CSpace}
use libtrustedlo.Ctxt.{
  Kind, notifications, ppcs, irqs, ioports, used, allow, allow_mapping, set_state,
}
use libtrustedlo.Xrt.{Machine, check_mapping}
use libtrustedlo.Xrt.Granting.{Mappable}
use libtrustedlo.Request.{
  xrt_type_memory, entry_type, entry_data, allow_channel, allow_memory, workerfunc, populate_loop,
  total_num, serialised_offset, parse_xrt_header,
}
use libtrustedlo.Request.Entry.{type_of, check_of}
use libtrustedlo.Switch.{parse_request}
use libtrustedlo.Switch.Remap.{AllPending}

module _ {K : Type 0} (p : Platform K) (c : CSpace p) (few : p.max_channels ≤ 64) (m : Memory)
    (info : ℕ) where
  -- The entry asks for a delegated channel in range.
  pub record Grantable (entry : ℕ) : Type 0 where
    pub kind : Kind
    pub type : entry_type m entry ≡ type_of kind
    pub range : entry_data m entry < p.max_channels
    pub delegated : check_of m info kind (entry_data m entry) ≡ true

  -- The entry asks for a delegated memory region that can be mapped.
  pub record Remappable (entry : ℕ) : Type 0 where
    pub type : entry_type m entry ≡ xrt_type_memory
    pub cookie : ℕ
    pub delegated : check_mapping m info (entry_data m entry) ≡ some cookie
    pub mappable : Mappable p m cookie

  -- How many of the `n` entries from index `i` ask for memory.
  abbrev pub memory_times : ℕ → ℕ → ℕ → ℕ
  memory_times entries zero i = 0
  memory_times entries (suc n) i =
      (if entry_type m (entries + i * 16) == xrt_type_memory then 1 else 0)
      + memory_times entries n (i + 1)

  -- A request that the loader has no reason to refuse.
  pub record Valid (header : ℕ) : Type 0 where
    pub present : header ≢ 0
    pub size : total_num m header ≤ 186
    pub offset : 16 ≤ serialised_offset m header
    pub entries :
        (i : ℕ)
        → i < total_num m header
        → let entry = header + serialised_offset m header + i * 16 in
          Grantable entry ⊎ Remappable entry
    pub mappings :
        memory_times (header + serialised_offset m header) (total_num m header) 0 ≤ p.max_channels

  pub parse_request-Valid : (header : ℕ) → Valid header → parse_request p m header ≡ no_error
  unfolding parse_request parse_xrt_header
  parse_request-Valid header v = ground (arith, v.present, v.size, v.offset)

  -- An accepted entry, with what it does to the recorded mappings.
  pub record Taken (entry : ℕ) (s t : Machine K) : Type 0 where
    pub run : workerfunc p m info entry s ≡ done no_error t
    pub counts :
        t.ctxt.mapping_count
        ≡ (if entry_type m entry == xrt_type_memory then 1 else 0) + s.ctxt.mapping_count
    pub pending : AllPending p c few m info s → AllPending p c few m info t

  channel_type : (kind : Kind) → type_of kind ≢ xrt_type_memory
  channel_type notifications e = absurd (cc e)
  channel_type ppcs e = absurd (cc e)
  channel_type irqs e = absurd (cc e)
  channel_type ioports e = absurd (cc e)

  pub workerfunc_grants :
      (entry : ℕ) (s : Machine K) → Grantable entry → (t : Machine K) × Taken entry s t
  unfolding workerfunc allow_channel allow set_state
  workerfunc_grants entry s g = (
    record s { ctxt = allow g.kind s.ctxt (entry_data m entry) },
    record {
      run = run g.kind g.type g.delegated;
      counts = ground (arith, g.type, channel_type g.kind);
      pending = λ h. record { state = h.state; mappable = h.mappable };
    },
  )
    where
      run :
          (kind : Kind)
          → entry_type m entry ≡ type_of kind
          → check_of m info kind (entry_data m entry) ≡ true
          → workerfunc p m info entry s
            ≡ done no_error (record s { ctxt = allow kind s.ctxt (entry_data m entry) })
      run notifications e d = ground (arith, e, d, g.range)
      run ppcs e d = ground (arith, e, d, g.range)
      run irqs e d = ground (arith, e, d, g.range)
      run ioports e d = ground (arith, e, d, g.range)

  workerfunc_maps :
      (entry : ℕ) (s : Machine K)
      → Remappable entry
      → s.ctxt.mapping_count < p.max_channels
      → (t : Machine K) × Taken entry s t
  unfolding workerfunc allow_memory allow_mapping
  workerfunc_maps entry s r room = (
    record s { ctxt = allow_mapping s.ctxt r.cookie },
    record {
      run = ground (arith, r.type, r.delegated, room);
      counts = ground (arith, r.type);
      pending = λ h. record {
        state = λ j lo hi. elim (Bool-cases (j == s.ctxt.mapping_count)) [
          | inl here ↦ elim (Bool-cases (s.ctxt.mapping_state s.ctxt.mapping_count == used)) [
            | inl again ↦ inr (ground (arith, here, again))
            | inr new ↦ inl (ground (arith, here, new))
          ]
          | inr other ↦ rw other (h.state j lo (ground (arith, other)))
        ];
        mappable = λ j lo hi. elim (Bool-cases (j == s.ctxt.mapping_count)) [
          | inl here ↦ rw here r.mappable
          | inr other ↦ rw other (h.mappable j lo (ground (arith, other)))
        ];
      };
    },
  )

  -- The entry is taken, as long as there is room for its mapping.
  pub workerfunc_takes :
      (entry : ℕ) (s : Machine K)
      → Grantable entry ⊎ Remappable entry
      → (if entry_type m entry == xrt_type_memory then 1 else 0) + s.ctxt.mapping_count
        ≤ p.max_channels
      → (t : Machine K) × Taken entry s t
  workerfunc_takes entry s (inl g) room = workerfunc_grants entry s g
  workerfunc_takes entry s (inr r) room = workerfunc_maps entry s r (ground (arith, r.type))

  pub populate_loop_returns :
      (entries n i : ℕ) (s : Machine K)
      → ((j : ℕ) → i ≤ j → j < i + n → Grantable (entries + j * 16) ⊎ Remappable (entries + j * 16))
      → memory_times entries n i + s.ctxt.mapping_count ≤ p.max_channels
      → AllPending p c few m info s
      → (t : Machine K) × (populate_loop p m info entries n i s ≡ done no_error t)
        × (t.ctxt.mapping_count ≡ memory_times entries n i + s.ctxt.mapping_count)
        × AllPending p c few m info t
  unfolding populate_loop
  populate_loop_returns entries zero i s h room pending = (s, refl, omega arith, pending)
  populate_loop_returns entries (suc n) i s h room pending =
      let (t, taken) =
        workerfunc_takes (entries + i * 16) s (h i (omega arith) (omega arith))
          (omega (arith, room)) in
      let (u, rest, count, pending') =
        populate_loop_returns entries n (i + 1) t
          (λ j lo hi. h j (omega (arith, lo)) (omega (arith, hi)))
          (omega (arith, room, taken.counts)) (taken.pending pending) in
      (u, rw taken.run rest, omega (arith, count, taken.counts), pending')
