-- ===== src/Request/Entry.antt =====
-- `trustedlo_acrt_workerfunc`: what one entry of a request leaves in the context.
use libtrustedlo.Ctxt.States.{monitor_of}
use libtrustedlo.Request.Accepted.{Accepted}
use libtrustedlo.Prelude.{
  ℕ, zero, suc, ◌+◌, ◌*◌, ◌≡◌, ◌<◌, refl, inl, inr, Bool, true, false, ◌&&◌, ◌==◌, if◌then◌else◌,
  ltb, arith, Bool-cases, Option-cases,
}
use libtrustedlo.Memory.{Memory}
use libtrustedlo.Platform.{Platform}
use libtrustedlo.Ctxt.{
  allowed, used, keep, Kind, notifications, ppcs, irqs, ioports, same_kind, allow, allow_mapping,
}
use libtrustedlo.Xrt.{
  Machine, check_notification, check_ppc, check_irq, check_ioport, check_mapping,
}
use libtrustedlo.Request.{
  xrt_type_ntfn, xrt_type_ppc, xrt_type_irq, xrt_type_ioport, xrt_type_memory, xrt_entry_size,
  entry_type, entry_data, allow_channel, allow_memory, workerfunc,
}

abbrev pub type_of : Kind → ℕ
type_of notifications = xrt_type_ntfn
type_of ppcs = xrt_type_ppc
type_of irqs = xrt_type_irq
type_of ioports = xrt_type_ioport

abbrev pub check_of : Memory → ℕ → Kind → ℕ → Bool
check_of m info notifications = check_notification m info
check_of m info ppcs = check_ppc m info
check_of m info irqs = check_irq m info
check_of m info ioports = check_ioport m info

-- The entry asks for the channel.
abbrev pub asks : Memory → ℕ → Kind → ℕ → Bool
asks m entry kind id = entry_type m entry == type_of kind && entry_data m entry == id

asks-same :
    (m : Memory) (entry : ℕ) (kind k : Kind) (id : ℕ)
    → (entry_type m entry == type_of kind) ≡ true
    → asks m entry k id ≡ (same_kind k kind && id == entry_data m entry)
asks-same m entry notifications notifications id e = ground arith
asks-same m entry _ _ id e = ground arith

-- How many of the `n` entries from index `i` ask for the channel.
abbrev pub times : Memory → ℕ → ℕ → ℕ → Kind → ℕ → ℕ
times m entries zero i kind id = 0
times m entries (suc n) i kind id =
    (if asks m (entries + i * xrt_entry_size) kind id then 1 else 0)
    + times m entries n (i + 1) kind id

module _ {K : Type 0} (p : Platform K) (m : Memory) (info : ℕ) where
  -- One accepted entry.
  pub record Step (entry : ℕ) (s t : Machine K) : Type 0 where
    pub kernel : t.kernel ≡ s.kernel
    pub switches : t.ctxt.switch_count ≡ s.ctxt.switch_count
    pub monitor : monitor_of t.ctxt ≡ monitor_of s.ctxt
    pub states :
        (k : Kind) (id : ℕ)
        → t.ctxt.states k id ≡ (
            if asks m entry k id
            then (if s.ctxt.states k id == used then keep else allowed)
            else s.ctxt.states k id)
    pub valid :
        (k : Kind) (id : ℕ)
        → asks m entry k id ≡ true
        → (id < p.max_channels) × (check_of m info k id ≡ true)

  asked :
      (entry : ℕ) (kind k : Kind) (id : ℕ)
      → (entry_type m entry == type_of kind) ≡ true
      → ltb (entry_data m entry) p.max_channels ≡ true
      → check_of m info kind (entry_data m entry) ≡ true
      → asks m entry k id ≡ true
      → (id < p.max_channels) × (check_of m info k id ≡ true)
  asked entry notifications notifications id e within known a = (ground arith, ground arith)
  asked entry _ _ id e within known a = (ground arith, ground arith)

  allow_channel-Step :
      (kind : Kind) (entry : ℕ) (s : Machine K)
      → (entry_type m entry == type_of kind) ≡ true
      → Accepted
          (Step entry s)
          (allow_channel p m kind (check_of m info kind) (entry_data m entry) s)
  unfolding allow_channel allow
  allow_channel-Step kind entry s e = elim (Bool-cases (ltb (entry_data m entry) p.max_channels)) [
    | inr out ↦ rw out tt
    | inl within ↦ elim (Bool-cases (check_of m info kind (entry_data m entry))) [
      | inr foreign ↦ rw (within, foreign) tt
      | inl known ↦
          rw (within, known)
            (record {
              kernel = refl;
              switches = refl;
              monitor = refl;
              states = λ k id. ground (arith, asks-same m entry kind k id e);
              valid = λ k id a. asked entry kind k id e within known a;
            })
    ]
  ]

  -- A request for memory asks for no channel.
  memory_asks :
      (entry : ℕ) (k : Kind) (id : ℕ)
      → (entry_type m entry == xrt_type_memory) ≡ true
      → asks m entry k id ≡ false
  memory_asks entry notifications id e = ground arith
  memory_asks entry _ id e = ground arith

  allow_memory-Step :
      (entry : ℕ) (s : Machine K)
      → (entry_type m entry == xrt_type_memory) ≡ true
      → Accepted (Step entry s) (allow_memory p m info (entry_data m entry) s)
  unfolding allow_memory allow_mapping
  allow_memory-Step entry s e = elim (Bool-cases (ltb s.ctxt.mapping_count p.max_channels)) [
    | inr full ↦ rw full tt
    | inl room ↦ elim (Option-cases (check_mapping m info (entry_data m entry))) [
      | inl none_found ↦ rw (room, none_found) tt
      | inr (cookie, found) ↦
          rw (room, found)
            (record {
              kernel = refl;
              switches = refl;
              monitor = refl;
              states = λ k id. ground (arith, memory_asks entry k id e);
              valid = λ k id a. absurd (cc (memory_asks entry k id e));
            })
    ]
  ]

  -- What holds of the two kinds of accepted entries holds of every accepted entry.
  pub workerfunc_elim :
      (P : Machine K → Type 0) (entry : ℕ) (s : Machine K)
      → ((kind : Kind)
          → (entry_type m entry == type_of kind) ≡ true
          → Accepted P (allow_channel p m kind (check_of m info kind) (entry_data m entry) s))
      → ((entry_type m entry == xrt_type_memory) ≡ true
          → Accepted P (allow_memory p m info (entry_data m entry) s))
      → Accepted P (workerfunc p m info entry s)
  unfolding workerfunc
  workerfunc_elim P entry s channel memory =
      elim (Bool-cases (entry_type m entry == xrt_type_ntfn)) [
        | inl a ↦ rw a (channel notifications a)
        | inr a ↦ elim (Bool-cases (entry_type m entry == xrt_type_ppc)) [
          | inl b ↦ rw (a, b) (channel ppcs b)
          | inr b ↦ elim (Bool-cases (entry_type m entry == xrt_type_irq)) [
            | inl d ↦ rw (a, b, d) (channel irqs d)
            | inr d ↦ elim (Bool-cases (entry_type m entry == xrt_type_ioport)) [
              | inl e ↦ rw (a, b, d, e) (channel ioports e)
              | inr e ↦ elim (Bool-cases (entry_type m entry == xrt_type_memory)) [
                | inl f ↦ rw (a, b, d, e, f) (memory f)
                | inr f ↦ rw (a, b, d, e, f) tt
              ]
            ]
          ]
        ]
      ]

  pub workerfunc-Step :
      (entry : ℕ) (s : Machine K) → Accepted (Step entry s) (workerfunc p m info entry s)
  workerfunc-Step entry s =
      workerfunc_elim (Step entry s) entry s (λ kind e. allow_channel-Step kind entry s e)
        (λ e. allow_memory-Step entry s e)
