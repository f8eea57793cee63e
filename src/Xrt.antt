-- ===== src/Xrt.antt =====
-- The access-right operations of src/xrt.c. They run on the kernel's state and the loader's
-- context; the metadata and the request lie in memory `m`, which they only read.
use libtrustedlo.Prelude.{
  ℕ, zero, suc, ◌+◌, ◌*◌, Bool, true, false, ◌==◌, if◌then◌else◌, ltb, Option, none, some, not,
  update,
}
use libtrustedlo.Memory.{Memory, load, store}
use libtrustedlo.Bytes.{read_le64, write_le64}
use libtrustedlo.Platform.{
  Status, no_error, minus_one, Platform, Outcome, Cmd, done, crashed, pure, assert, ◌>>=◌, ◌>>◌,
}
use libtrustedlo.Cap.{
  revoke_notification_cap, revoke_ppc_cap, revoke_irq_cap, restore_notification_cap,
  restore_ppc_cap, restore_irq_cap, pd_grant_page_access, pd_revoke_page_access,
  pd_grant_vspace_access, pd_revoke_vspace_access,
}
use libtrustedlo.Dlg.{
  resource_channel_notify, resource_channel_ppc, resource_memory_region, resource_ioport,
  resource_kind, resource_slot, resource_cap_count, resource_arg0, find_resource,
}
use libtrustedlo.Ctxt.{
  XrtState, unset, used, keep, Kind, notifications, ppcs, irqs, ioports, Ctxt, set_state, allow,
  allow_mapping,
}
pub mod Channels
pub mod Revoke
pub mod Restore
pub mod Frame
pub mod Mappings
pub mod Granting
pub mod Unmapping

pub record Machine (K : Type 0) : Type 0 where
  pub kernel : K
  pub ctxt : Ctxt

-- `resource != NULL`
abbrev pub is_some : Option ℕ → Bool
is_some none = false
is_some (some _) = true

-- The cookie is the resource's address.
unfoldable pub check_mapping : Memory → ℕ → ℕ → Option ℕ
check_mapping m info vaddr = find_resource m info resource_memory_region vaddr

unfoldable pub check_notification : Memory → ℕ → ℕ → Bool
check_notification m info ntfn = is_some (find_resource m info resource_channel_notify ntfn)

unfoldable pub check_ppc : Memory → ℕ → ℕ → Bool
check_ppc m info ppc = is_some (find_resource m info resource_channel_ppc ppc)

unfoldable pub check_irq : Memory → ℕ → ℕ → Bool
check_irq m info irq = false

unfoldable pub check_ioport : Memory → ℕ → ℕ → Bool
check_ioport m info ioport = is_some (find_resource m info resource_ioport ioport)

module _ {K : Type 0} where
  -- A capability operation leaves the context alone.
  abbrev pub on_kernel : Cmd K (Unit {0}) → Cmd (Machine K) (Unit {0})
  on_kernel c s = elim (c s.kernel) [
    | done _ k ↦ done tt (record s { kernel = k })
    | crashed e k ↦ crashed e (record s { kernel = k })
  ]

  abbrev pub modify : (Ctxt → Ctxt) → Cmd (Machine K) (Unit {0})
  modify f s = done tt (record s { ctxt = f s.ctxt })

  abbrev pub set_mapping_state : ℕ → XrtState → Cmd (Machine K) (Unit {0})
  set_mapping_state i state =
      modify (λ c. record c { mapping_state = update c.mapping_state i state })

  -- One round of XRT_REVOKE for channel `id`.
  unfoldable pub revoke_one :
      Kind → (ℕ → Bool) → (ℕ → Cmd K (Unit {0})) → ℕ → Cmd (Machine K) (Unit {0})
  revoke_one field check revoke id s =
      if not (s.ctxt.states field id == used)
      then done tt s
      else if not (check id)
      then done tt s
      else (on_kernel (revoke id) >> modify (λ c. set_state field c id unset)) s

  -- The loop of XRT_REVOKE with its rounds left, from channel `id`.
  unfoldable pub revoke_loop :
      Kind → (ℕ → Bool) → (ℕ → Cmd K (Unit {0})) → ℕ → ℕ → Cmd (Machine K) (Unit {0})
  revoke_loop field check revoke zero id = pure tt
  revoke_loop field check revoke (suc n) id =
      revoke_one field check revoke id >> revoke_loop field check revoke n (id + 1)

  -- One round of XRT_RESTORE for channel `id`.
  unfoldable pub restore_one :
      Kind → (ℕ → Bool) → (ℕ → Cmd K (Unit {0})) → ℕ → Cmd (Machine K) (Unit {0})
  restore_one field check restore id s =
      if s.ctxt.states field id == keep
      then modify (λ c. set_state field c id used) s
      else if s.ctxt.states field id == unset
      then done tt s
      else if not (check id)
      then done tt s
      else (on_kernel (restore id) >> modify (λ c. set_state field c id used)) s

  unfoldable pub restore_loop :
      Kind → (ℕ → Bool) → (ℕ → Cmd K (Unit {0})) → ℕ → ℕ → Cmd (Machine K) (Unit {0})
  restore_loop field check restore zero id = pure tt
  restore_loop field check restore (suc n) id =
      restore_one field check restore id >> restore_loop field check restore n (id + 1)

module _ {K : Type 0} (p : Platform K) (m : Memory) where
  unfoldable pub revoke_notifications : ℕ → Cmd (Machine K) (Unit {0})
  revoke_notifications info =
      revoke_loop notifications (check_notification m info) (revoke_notification_cap p)
        p.max_channels 0

  unfoldable pub revoke_ppcs : ℕ → Cmd (Machine K) (Unit {0})
  revoke_ppcs info = revoke_loop ppcs (check_ppc m info) (revoke_ppc_cap p) p.max_channels 0

  unfoldable pub revoke_irqs : ℕ → Cmd (Machine K) (Unit {0})
  revoke_irqs info = revoke_loop irqs (check_irq m info) (revoke_irq_cap p) p.max_channels 0

  unfoldable pub restore_notifications : ℕ → Cmd (Machine K) (Unit {0})
  restore_notifications info =
      restore_loop notifications (check_notification m info) (restore_notification_cap p)
        p.max_channels 0

  unfoldable pub restore_ppcs : ℕ → Cmd (Machine K) (Unit {0})
  restore_ppcs info = restore_loop ppcs (check_ppc m info) (restore_ppc_cap p) p.max_channels 0

  unfoldable pub restore_irqs : ℕ → Cmd (Machine K) (Unit {0})
  restore_irqs info = restore_loop irqs (check_irq m info) (restore_irq_cap p) p.max_channels 0

  -- One round of `trustedlo_xrt_util_restore_mappings`.
  unfoldable pub restore_mapping : ℕ → Cmd (Machine K) (Unit {0})
  unfolding pd_grant_page_access
  restore_mapping i s =
      let cookie = s.ctxt.mapping_data i in
      if s.ctxt.mapping_state i == keep
      then set_mapping_state i used s
      else if s.ctxt.mapping_state i == unset
      then done tt s
      else (assert (resource_kind m cookie == resource_memory_region)
            >> (on_kernel (
                  pd_grant_page_access p (resource_slot m cookie) (resource_arg0 m cookie)
                    p.all_rights 0 (resource_cap_count m cookie))
                >> set_mapping_state i used))
          s

  unfoldable pub restore_mappings_loop : ℕ → ℕ → Cmd (Machine K) (Unit {0})
  restore_mappings_loop zero i = pure tt
  restore_mappings_loop (suc n) i = restore_mapping i >> restore_mappings_loop n (i + 1)

  unfoldable pub restore_mappings : Cmd (Machine K) (Unit {0})
  unfolding pd_grant_vspace_access pd_revoke_vspace_access
  restore_mappings s =
      (on_kernel (pd_grant_vspace_access p)
          >> (restore_mappings_loop s.ctxt.mapping_count 0
              >> on_kernel (pd_revoke_vspace_access p)))
        s

  -- One round of `trustedlo_xrt_util_revoke_mappings`.
  unfoldable pub revoke_mapping : ℕ → Cmd (Machine K) (Unit {0})
  unfolding pd_revoke_page_access
  revoke_mapping i s =
      let cookie = s.ctxt.mapping_data i in
      if not (s.ctxt.mapping_state i == used)
      then done tt s
      else (on_kernel
              (pd_revoke_page_access p (resource_slot m cookie) (resource_cap_count m cookie))
            >> set_mapping_state i unset)
          s

  unfoldable pub revoke_mappings_loop : ℕ → ℕ → Cmd (Machine K) (Unit {0})
  revoke_mappings_loop zero i = pure tt
  revoke_mappings_loop (suc n) i = revoke_mapping i >> revoke_mappings_loop n (i + 1)

  unfoldable pub revoke_mappings : Cmd (Machine K) (Unit {0})
  unfolding pd_grant_vspace_access pd_revoke_vspace_access
  revoke_mappings s =
      (on_kernel (pd_grant_vspace_access p)
          >> (revoke_mappings_loop s.ctxt.mapping_count 0 >> on_kernel (pd_revoke_vspace_access p)))
        s
