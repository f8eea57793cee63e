-- ===== src/Request.antt =====
-- The access-right request: its encoding by the monitor and its reading by the loader, from
-- src/xrt.c and the structs of include/libtrustedlo.h. An entry is 16 bytes, its type in the first
-- and its data in the last eight.
use libtrustedlo.Prelude.{
  ℕ, zero, suc, ◌+◌, ◌*◌, Bool, true, false, ◌==◌, if◌then◌else◌, ltb, Option, none, some,
}
use libtrustedlo.Memory.{Memory, load, store}
use libtrustedlo.Bytes.{read_le64, write_le64}
use libtrustedlo.Platform.{
  Status, no_error, failed_lookup, error, minus_one, Platform, Cmd, done, crashed, pure, assert,
  crash, ◌>>=◌, ◌>>◌,
}
use libtrustedlo.Ctxt.{Kind, notifications, ppcs, irqs, ioports, Ctxt, allow, allow_mapping}
use libtrustedlo.Xrt.{
  Machine, modify, check_notification, check_ppc, check_irq, check_ioport, check_mapping,
}
pub mod Populate
pub mod Accepted
pub mod Final
pub mod Calls
pub mod Entry
pub mod Encode

abbrev pub xrt_type_ntfn : ℕ
xrt_type_ntfn = 1

abbrev pub xrt_type_ppc : ℕ
xrt_type_ppc = 2

abbrev pub xrt_type_irq : ℕ
xrt_type_irq = 3

abbrev pub xrt_type_ioport : ℕ
xrt_type_ioport = 4

abbrev pub xrt_type_memory : ℕ
xrt_type_memory = 5

abbrev pub xrt_entry_size : ℕ
xrt_entry_size = 16

abbrev pub entry_type : Memory → ℕ → ℕ
entry_type m entry = load m entry

abbrev pub entry_data : Memory → ℕ → ℕ
entry_data m entry = read_le64 m (entry + 8)

abbrev pub max_xrt_num : ℕ
max_xrt_num = 62 * 3

abbrev pub xrtreq_header_size : ℕ
xrtreq_header_size = 16

abbrev pub total_num : Memory → ℕ → ℕ
total_num m header = read_le64 m header

abbrev pub serialised_offset : Memory → ℕ → ℕ
serialised_offset m header = read_le64 m (header + 8)

-- trustedlo_xrtreq_t
pub record XrtReq : Type 0 where
  pub num_req_notifications : ℕ
  pub num_req_ppcs : ℕ
  pub num_req_irqs : ℕ
  pub num_req_ioports : ℕ
  pub num_req_mappings : ℕ
  pub req_notifications : ℕ → ℕ
  pub req_ppcs : ℕ → ℕ
  pub req_irqs : ℕ → ℕ
  pub req_ioports : ℕ → ℕ
  pub req_mappings : ℕ → ℕ

unfoldable pub write_entry : ℕ → ℕ → ℕ → Memory → Memory
write_entry entry type value m = write_le64 (store m entry type) (entry + 8) value

-- One of the five loops, with its rounds left, from index `i`; `entry` moves on by one each round.
unfoldable pub encode_loop : ℕ → (ℕ → ℕ) → ℕ → ℕ → ℕ → Memory → Memory
encode_loop type values zero i entry m = m
encode_loop type values (suc n) i entry m =
    encode_loop type values n (i + 1) (entry + xrt_entry_size) (write_entry entry type (values i) m)

unfoldable pub encode_xrts : ℕ → XrtReq → Memory → Memory
encode_xrts base req m =
    let after_ntfns = base + req.num_req_notifications * xrt_entry_size in
    let after_ppcs = after_ntfns + req.num_req_ppcs * xrt_entry_size in
    let after_irqs = after_ppcs + req.num_req_irqs * xrt_entry_size in
    let after_ioports = after_irqs + req.num_req_ioports * xrt_entry_size in
    encode_loop xrt_type_memory req.req_mappings req.num_req_mappings 0 after_ioports (
      encode_loop xrt_type_ioport req.req_ioports req.num_req_ioports 0 after_irqs (
        encode_loop xrt_type_irq req.req_irqs req.num_req_irqs 0 after_ppcs (
          encode_loop xrt_type_ppc req.req_ppcs req.num_req_ppcs 0 after_ntfns
            (encode_loop xrt_type_ntfn req.req_notifications req.num_req_notifications 0 base m))))

-- `mktxlo_prepare_xrt_req_list`
unfoldable pub prepare_xrt_req_list : ℕ → XrtReq → Memory → Memory
unfolding encode_xrts
prepare_xrt_req_list xrt_entry_list req m = encode_xrts xrt_entry_list req m

-- The null pointer is 0.
unfoldable pub parse_xrt_header : Memory → ℕ → Status
parse_xrt_header m header =
    if header == 0
    then minus_one
    else if ltb max_xrt_num (total_num m header)
    then minus_one
    else if ltb (serialised_offset m header) xrtreq_header_size
    then minus_one
    else no_error

-- TRY_OR_RETURN_ERROR
abbrev pub try : {S : Type 0} → Cmd S Status → Cmd S Status → Cmd S Status
try c rest = c >>= λ status. elim status [
  | no_error ↦ rest
  | failed_lookup ↦ pure failed_lookup
  | error e ↦ pure (error e)
]

module _ {K : Type 0} (p : Platform K) (m : Memory) where
  -- `TSLDR_ASSERT` of the range and of the check, then `trustedlo_ctxt_allow__…`.
  unfoldable pub allow_channel : Kind → (ℕ → Bool) → ℕ → Cmd (Machine K) Status
  allow_channel kind check id = do
    assert (ltb id p.max_channels)
    assert (check id)
    modify (λ c. allow kind c id)
    pure no_error

  unfoldable pub allow_memory : ℕ → ℕ → Cmd (Machine K) Status
  allow_memory info vaddr s =
      (assert (ltb s.ctxt.mapping_count p.max_channels) >> elim (check_mapping m info vaddr) [
        | none ↦ crash minus_one
        | some cookie ↦ modify (λ c. allow_mapping c cookie) >> pure no_error
      ])
        s

  -- `trustedlo_acrt_workerfunc` on the entry at an address.
  unfoldable pub workerfunc : ℕ → ℕ → Cmd (Machine K) Status
  unfolding allow_channel allow_memory
  workerfunc info entry =
      let type = entry_type m entry in
      let id = entry_data m entry in
      if type == xrt_type_ntfn
      then allow_channel notifications (check_notification m info) id
      else if type == xrt_type_ppc
      then allow_channel ppcs (check_ppc m info) id
      else if type == xrt_type_irq
      then allow_channel irqs (check_irq m info) id
      else if type == xrt_type_ioport
      then allow_channel ioports (check_ioport m info) id
      else if type == xrt_type_memory
      then allow_memory info id
      else pure minus_one

  -- The loop of `trustedlo_xrt_util_populate_xrts` with its rounds left, from index `i`.
  unfoldable pub populate_loop : ℕ → ℕ → ℕ → ℕ → Cmd (Machine K) Status
  populate_loop info entries zero i = pure no_error
  populate_loop info entries (suc n) i =
      try (workerfunc info (entries + i * xrt_entry_size)) (populate_loop info entries n (i + 1))

  unfoldable pub populate_xrts : ℕ → ℕ → Cmd (Machine K) Status
  populate_xrts info header =
      populate_loop info (header + serialised_offset m header) (total_num m header) 0
