-- ===== src/Request/Encode.antt =====
-- What `trustedlo_xrt_util_encode_xrts` leaves, read as the loader reads it.
use libtrustedlo.Prelude.{ℕ, zero, suc, ◌+◌, ◌*◌, ◌^◌, ◌≡◌, ◌∙◌, ◌<◌, refl, inl, true, false, arith}
use libtrustedlo.Memory.{Memory, store}
use libtrustedlo.Memory.Copy.{inside}
use libtrustedlo.Bytes.{read_le64, read_le64-write_le64, write_le64-frame}
use libtrustedlo.Request.{
  entry_type, entry_data, XrtReq, write_entry, encode_loop, encode_xrts, prepare_xrt_req_list,
}

write_entry-type :
    (entry type v : ℕ) (m : Memory)
    → type < 256
    → entry_type (write_entry entry type v m) entry ≡ type
unfolding write_entry
write_entry-type entry type v m h =
    ground (arith, write_le64-frame (store m entry type) (entry + 8) v entry (inl (omega arith)))

write_entry-data :
    (entry type v : ℕ) (m : Memory) → v < 2 ^ 64 → entry_data (write_entry entry type v m) entry ≡ v
unfolding write_entry
write_entry-data entry type v m h = read_le64-write_le64 (store m entry type) (entry + 8) v h

write_entry_frame :
    (entry type v : ℕ) (m : Memory) (q : ℕ)
    → inside entry 16 q ≡ false
    → write_entry entry type v m q ≡ m q
unfolding write_entry
write_entry_frame entry type v m q h =
    ground (arith, write_le64-frame (store m entry type) (entry + 8) v q (ground arith))

encode_loop_frame :
    (type : ℕ) (values : ℕ → ℕ) (n i entry : ℕ) (m : Memory) (q : ℕ)
    → inside entry (n * 16) q ≡ false
    → encode_loop type values n i entry m q ≡ m q
unfolding encode_loop
encode_loop_frame type values zero i entry m q h = refl
encode_loop_frame type values (suc n) i entry m q h =
    encode_loop_frame type values n (i + 1) (entry + 16) (write_entry entry type (values i) m) q
      (ground arith)
    ∙ write_entry_frame entry type (values i) m q (ground arith)

-- The memory holds, from `entry`, the `n` entries of one type with the values from index `i`.
abbrev pub Holds : Memory → ℕ → (ℕ → ℕ) → ℕ → ℕ → ℕ → Type 0
Holds m type values n i entry =
    (j : ℕ)
    → j < n
    → (entry_type m (entry + j * 16) ≡ type) × (entry_data m (entry + j * 16) ≡ values (i + j))

same_entry :
    (m m' : Memory) (entry : ℕ)
    → ((k : ℕ) → k < 16 → m' (entry + k) ≡ m (entry + k))
    → (entry_type m' entry ≡ entry_type m entry) × (entry_data m' entry ≡ entry_data m entry)
unfolding read_le64
same_entry m m' entry h = (
  ground (arith, h 0 (omega arith)),
  ground (
    arith,
    h 8 (omega arith),
    h 9 (omega arith),
    h 10 (omega arith),
    h 11 (omega arith),
    h 12 (omega arith),
    h 13 (omega arith),
    h 14 (omega arith),
    h 15 (omega arith),
  ),
)

Holds-frame :
    (m m' : Memory) (type : ℕ) (values : ℕ → ℕ) (n i entry : ℕ)
    → ((q : ℕ) → inside entry (n * 16) q ≡ true → m' q ≡ m q)
    → Holds m type values n i entry
    → Holds m' type values n i entry
Holds-frame m m' type values n i entry same h j lt =
    let (t, d) = same_entry m m' (entry + j * 16) (λ k lt'. same _ (ground arith)) in
    (t ∙ (h j lt).0, d ∙ (h j lt).1)

encode_loop-Holds :
    (type : ℕ) (values : ℕ → ℕ) (n i entry : ℕ) (m : Memory)
    → type < 256
    → ((j : ℕ) → j < n → values (i + j) < 2 ^ 64)
    → Holds (encode_loop type values n i entry m) type values n i entry
unfolding encode_loop
encode_loop-Holds type values zero i entry m small words j lt = absurd (omega arith)
encode_loop-Holds type values (suc n) i entry m small words zero lt =
    let m₁ = write_entry entry type (values i) m in
    let (t, d) =
      same_entry m₁ (encode_loop type values n (i + 1) (entry + 16) m₁) (entry + 0)
        (λ k lt'. encode_loop_frame type values n (i + 1) (entry + 16) m₁ _ (ground arith)) in
    (
      ground (arith, t, write_entry-type entry type (values i) m small),
      ground (
        arith,
        d,
        write_entry-data entry type (values i) m (ground (arith, words 0 (omega arith))),
      ),
    )
encode_loop-Holds type values (suc n) i entry m small words (suc j) lt =
    let (t, d) =
      encode_loop-Holds type values n (i + 1) (entry + 16) (write_entry entry type (values i) m)
        small (λ k lt'. ground (arith, words (suc k) (omega arith))) j (omega arith) in
    (ground (arith, t), ground (arith, d))

-- The list that the monitor leaves: the notifications, then the PPCs, the IRQs, the I/O ports and
-- the mappings, each with its type and value, 16 bytes an entry.
pub record Encoded (base : ℕ) (req : XrtReq) (m : Memory) : Type 0 where
  pub ntfns : Holds m 1 req.req_notifications req.num_req_notifications 0 base
  pub ppcs : Holds m 2 req.req_ppcs req.num_req_ppcs 0 (base + req.num_req_notifications * 16)
  pub irqs :
      Holds m 3 req.req_irqs req.num_req_irqs 0
        (base + req.num_req_notifications * 16 + req.num_req_ppcs * 16)
  pub ioports :
      Holds m 4 req.req_ioports req.num_req_ioports 0
        (base + req.num_req_notifications * 16 + req.num_req_ppcs * 16 + req.num_req_irqs * 16)
  pub mappings : Holds m 5 req.req_mappings req.num_req_mappings 0 (
      base
      + req.num_req_notifications * 16
      + req.num_req_ppcs * 16
      + req.num_req_irqs * 16
      + req.num_req_ioports * 16)

-- The values of a request are 64-bit words.
pub record Words (req : XrtReq) : Type 0 where
  pub ntfns : (j : ℕ) → req.req_notifications j < 2 ^ 64
  pub ppcs : (j : ℕ) → req.req_ppcs j < 2 ^ 64
  pub irqs : (j : ℕ) → req.req_irqs j < 2 ^ 64
  pub ioports : (j : ℕ) → req.req_ioports j < 2 ^ 64
  pub mappings : (j : ℕ) → req.req_mappings j < 2 ^ 64

abbrev pub total : XrtReq → ℕ
total req =
    req.num_req_notifications + req.num_req_ppcs + req.num_req_irqs + req.num_req_ioports
    + req.num_req_mappings

-- What the monitor encodes at `base` reads back entry by entry, as the loader reads it, and no byte
-- outside the list changes.
pub prepare_xrt_req_list-Encoded :
    (base : ℕ) (req : XrtReq) (m : Memory)
    → Words req
    → Encoded base req (prepare_xrt_req_list base req m)
      × ((q : ℕ) → inside base (total req * 16) q ≡ false → prepare_xrt_req_list base req m q ≡ m q)
unfolding prepare_xrt_req_list encode_xrts
prepare_xrt_req_list-Encoded base req m w =
    let n₁ = req.num_req_notifications in
    let n₂ = req.num_req_ppcs in
    let n₃ = req.num_req_irqs in
    let n₄ = req.num_req_ioports in
    let n₅ = req.num_req_mappings in
    let b₂ = base + n₁ * 16 in
    let b₃ = b₂ + n₂ * 16 in
    let b₄ = b₃ + n₃ * 16 in
    let b₅ = b₄ + n₄ * 16 in
    let m₁ = encode_loop 1 req.req_notifications n₁ 0 base m in
    let m₂ = encode_loop 2 req.req_ppcs n₂ 0 b₂ m₁ in
    let m₃ = encode_loop 3 req.req_irqs n₃ 0 b₃ m₂ in
    let m₄ = encode_loop 4 req.req_ioports n₄ 0 b₄ m₃ in
    let m₅ = encode_loop 5 req.req_mappings n₅ 0 b₅ m₄ in
    let f₁ = encode_loop_frame 1 req.req_notifications n₁ 0 base m in
    let f₂ = encode_loop_frame 2 req.req_ppcs n₂ 0 b₂ m₁ in
    let f₃ = encode_loop_frame 3 req.req_irqs n₃ 0 b₃ m₂ in
    let f₄ = encode_loop_frame 4 req.req_ioports n₄ 0 b₄ m₃ in
    let f₅ = encode_loop_frame 5 req.req_mappings n₅ 0 b₅ m₄ in
    let h₁ =
      encode_loop-Holds 1 req.req_notifications n₁ 0 base m (omega arith)
        (λ j lt. w.ntfns (0 + j)) in
    let h₂ = encode_loop-Holds 2 req.req_ppcs n₂ 0 b₂ m₁ (omega arith) (λ j lt. w.ppcs (0 + j)) in
    let h₃ = encode_loop-Holds 3 req.req_irqs n₃ 0 b₃ m₂ (omega arith) (λ j lt. w.irqs (0 + j)) in
    let h₄ =
      encode_loop-Holds 4 req.req_ioports n₄ 0 b₄ m₃ (omega arith) (λ j lt. w.ioports (0 + j)) in
    let h₅ =
      encode_loop-Holds 5 req.req_mappings n₅ 0 b₅ m₄ (omega arith) (λ j lt. w.mappings (0 + j)) in
    (
      record {
        ntfns =
            Holds-frame m₁ m₅ _ req.req_notifications _ 0 _
              (λ q e.
                f₅ q (ground arith)
                ∙ (f₄ q (ground arith) ∙ (f₃ q (ground arith) ∙ f₂ q (ground arith))))
              h₁;
        ppcs =
            Holds-frame m₂ m₅ _ req.req_ppcs _ 0 _
              (λ q e. f₅ q (ground arith) ∙ (f₄ q (ground arith) ∙ f₃ q (ground arith))) h₂;
        irqs =
            Holds-frame m₃ m₅ _ req.req_irqs _ 0 _
              (λ q e. f₅ q (ground arith) ∙ f₄ q (ground arith)) h₃;
        ioports = Holds-frame m₄ m₅ _ req.req_ioports _ 0 _ (λ q e. f₅ q (ground arith)) h₄;
        mappings = h₅;
      },
      λ q e.
          f₅ q (ground arith)
          ∙ (f₄ q (ground arith)
              ∙ (f₃ q (ground arith) ∙ (f₂ q (ground arith) ∙ f₁ q (ground arith)))),
    )
