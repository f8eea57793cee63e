-- ===== src/Cap.antt =====
-- The capability operations of src/cap.c, with the slots and CPtrs of include/txlocap.h.
-- They run on the kernel's state. Of the mapping code the two configurations that compile are
-- modelled, CONFIG_ARM_ABS_MAP on AArch64 and CONFIG_X86_ABS_MAP on x86-64: without them
-- `trustedlo_cap_util_pd_page_map` and `trustedlo_cap_util_pd_page_unmap` are an #error.
use Prim.Native.Nat.{bit_or}
use libtrustedlo.Prelude.{ℕ, ◌+◌, ◌-◌, ◌^◌, Bool, true, false, ◌||◌, ◌==◌, if◌then◌else◌, ltb, leb}
use libtrustedlo.Platform.{
  Status, no_error, failed_lookup, error, Arch, aarch64, x86_64, Frames, Invocation, cnode_delete,
  cnode_move, cnode_copy, arm_page_map, x86_page_map, arm_page_unmap, x86_page_unmap,
  arm_map_absolute, x86_map_absolute, arm_unmap_absolute, x86_unmap_absolute, Platform, Cmd, done,
  pure, crash, ◌>>=◌, ◌>>◌,
}
pub mod CSpace

abbrev pub lookup_depth_root : ℕ
lookup_depth_root = 6

abbrev pub lookup_depth_microkit : ℕ
lookup_depth_microkit = 10

abbrev pub delegation_cnode_root_base : ℕ
delegation_cnode_root_base = 48

abbrev pub delegation_slot_microkit_cnode : ℕ
delegation_slot_microkit_cnode = 1

abbrev pub delegation_slot_root_cnode : ℕ
delegation_slot_root_cnode = 2

abbrev pub delegation_slot_grant_cap : ℕ
delegation_slot_grant_cap = 3

abbrev pub delegation_slot_vspace : ℕ
delegation_slot_vspace = 4

abbrev pub delegation_grant_root_slot : ℕ
delegation_grant_root_slot = 15

abbrev pub ntfn_base_cap : ℕ
ntfn_base_cap = 10

abbrev pub ppc_base_cap : ℕ
ppc_base_cap = ntfn_base_cap + 64

abbrev pub backup_ntfn_base_cap : ℕ
backup_ntfn_base_cap = 10

abbrev pub dlg_map_cap_start : ℕ
dlg_map_cap_start = 138

abbrev pub dlg_map_cap_end : ℕ
dlg_map_cap_end = 2 ^ 10 - 64

-- `if (err != seL4_NoError) microkit_internal_crash(err);`
abbrev pub checked : {K : Type 0} → Status → Cmd K (Unit {0})
checked no_error k = done tt k
checked failed_lookup k = crash failed_lookup k
checked (error e) k = crash (error e) k

module _ {K : Type 0} (p : Platform K) where
  abbrev pub lookup_depth_delegation : ℕ
  lookup_depth_delegation = p.word_bits - 6 - 10

  abbrev pub delegation_cnode_cap : ℕ
  delegation_cnode_cap = p.root_slot_to_cptr delegation_grant_root_slot

  abbrev pub delegator_root_cnode : ℕ
  delegator_root_cnode = bit_or delegation_cnode_cap delegation_slot_root_cnode

  abbrev pub delegator_microkit_cnode : ℕ
  delegator_microkit_cnode = bit_or delegation_cnode_cap delegation_slot_microkit_cnode

  abbrev pub delegator_vspace : ℕ
  delegator_vspace = bit_or delegation_cnode_cap delegation_slot_vspace

  -- DELEGATION_CNODE_CPTR and DELEGATOR_ROOT_CNODE_CPTR, as the monitor sees them.
  abbrev pub delegation_cnode_cptr : ℕ → ℕ
  delegation_cnode_cptr pd = p.root_slot_to_cptr (delegation_cnode_root_base + pd)

  abbrev pub delegator_root_cnode_cptr : ℕ → ℕ
  delegator_root_cnode_cptr pd = bit_or (delegation_cnode_cptr pd) delegation_slot_root_cnode

  -- An invocation that must succeed: any other status crashes.
  abbrev pub must : Invocation → Cmd K (Unit {0})
  must call k = checked (p.invoke call k).0 (p.invoke call k).1

  unfoldable pub delete_cap : ℕ → Cmd K (Unit {0})
  delete_cap cap_idx = must (cnode_delete delegator_microkit_cnode cap_idx lookup_depth_microkit)

  unfoldable pub load_cap_from_backup_cnode : ℕ → ℕ → Cmd K (Unit {0})
  load_cap_from_backup_cnode dest_idx src_idx = must (
      cnode_move delegator_microkit_cnode dest_idx lookup_depth_microkit delegation_cnode_cap
        src_idx lookup_depth_delegation)

  unfoldable pub store_cap_to_backup_cnode : ℕ → ℕ → Cmd K (Unit {0})
  store_cap_to_backup_cnode dest_idx src_idx = must (
      cnode_move delegation_cnode_cap dest_idx lookup_depth_delegation delegator_microkit_cnode
        src_idx lookup_depth_microkit)

  unfoldable pub copy_cap_from_backup_cnode : ℕ → ℕ → ℕ → Cmd K (Unit {0})
  copy_cap_from_backup_cnode dest_idx src_idx rights = must (
      cnode_copy delegator_microkit_cnode dest_idx lookup_depth_microkit delegation_cnode_cap
        src_idx lookup_depth_delegation rights)

  unfoldable pub pd_deprivilege : Cmd K (Unit {0})
  pd_deprivilege =
      must (cnode_delete delegator_root_cnode delegation_grant_root_slot lookup_depth_root)

  -- The old grant may be missing: a failed lookup is passed over here.
  unfoldable pub pd_privilege : ℕ → Cmd K (Unit {0})
  pd_privilege pd_idx k =
      let call =
        cnode_delete (delegator_root_cnode_cptr pd_idx) delegation_grant_root_slot
          lookup_depth_root in
      let grant = must (
        cnode_copy (delegator_root_cnode_cptr pd_idx) delegation_grant_root_slot lookup_depth_root
          (delegation_cnode_cptr pd_idx) delegation_slot_grant_cap lookup_depth_delegation
          p.all_rights) in
      let (status, k') = p.invoke call k in
      elim status [ no_error ↦ grant k' | failed_lookup ↦ grant k' | error e ↦ crash (error e) k' ]

  unfoldable pub pd_grant_vspace_access : Cmd K (Unit {0})
  pd_grant_vspace_access = pure tt

  unfoldable pub pd_revoke_vspace_access : Cmd K (Unit {0})
  pd_revoke_vspace_access = pure tt

  abbrev frames : ℕ → ℕ → Frames
  frames page_slot page_num = record {
    vspace = delegator_vspace;
    cnode = delegation_cnode_cap;
    page_slot = page_slot;
    depth = lookup_depth_delegation;
    page_num = page_num;
  }

  abbrev pub map_absolute : ℕ → ℕ → ℕ → ℕ → ℕ → Invocation
  map_absolute page_slot vaddr rights attrs page_num = elim p.arch [
    | aarch64 ↦ arm_map_absolute (frames page_slot page_num) vaddr rights attrs
    | x86_64 ↦ x86_map_absolute (frames page_slot page_num) vaddr rights attrs
  ]

  abbrev pub unmap_absolute : ℕ → ℕ → Invocation
  unmap_absolute page_slot page_num = elim p.arch [
    | aarch64 ↦ arm_unmap_absolute (frames page_slot page_num)
    | x86_64 ↦ x86_unmap_absolute (frames page_slot page_num)
  ]

  -- An invalid slot is only reported: the caller cannot tell.
  unfoldable pub pd_grant_page_access : ℕ → ℕ → ℕ → ℕ → ℕ → Cmd K (Unit {0})
  pd_grant_page_access page_slot vaddr rights attrs page_num =
      if ltb page_slot dlg_map_cap_start || leb dlg_map_cap_end page_slot
      then pure tt
      else must (map_absolute page_slot vaddr rights attrs page_num)

  unfoldable pub pd_revoke_page_access : ℕ → ℕ → Cmd K (Unit {0})
  pd_revoke_page_access page_slot page_num = must (unmap_absolute page_slot page_num)

  unfoldable pub revoke_irq_cap : ℕ → Cmd K (Unit {0})
  revoke_irq_cap irq_idx = pure tt

  unfoldable pub revoke_ppc_cap : ℕ → Cmd K (Unit {0})
  unfolding delete_cap
  revoke_ppc_cap ppc_idx =
      if leb p.max_channels ppc_idx then pure tt else delete_cap (ppc_base_cap + ppc_idx)

  unfoldable pub revoke_notification_cap : ℕ → Cmd K (Unit {0})
  unfolding delete_cap
  revoke_notification_cap ntfn_idx =
      if leb p.max_channels ntfn_idx then pure tt else delete_cap (ntfn_base_cap + ntfn_idx)

  unfoldable pub restore_irq_cap : ℕ → Cmd K (Unit {0})
  restore_irq_cap irq_idx = pure tt

  unfoldable pub restore_ppc_cap : ℕ → Cmd K (Unit {0})
  unfolding copy_cap_from_backup_cnode
  restore_ppc_cap ppc_idx =
      if leb p.max_channels ppc_idx
      then pure tt
      else copy_cap_from_backup_cnode (ppc_base_cap + ppc_idx) (ppc_base_cap + ppc_idx) p.all_rights

  unfoldable pub restore_notification_cap : ℕ → Cmd K (Unit {0})
  unfolding copy_cap_from_backup_cnode
  restore_notification_cap ntfn_idx =
      if leb p.max_channels ntfn_idx
      then pure tt
      else copy_cap_from_backup_cnode (ntfn_base_cap + ntfn_idx) (backup_ntfn_base_cap + ntfn_idx)
          p.all_rights

  -- With `flags` 0 the page capability itself is mapped, otherwise one page by its slot.
  unfoldable pub pd_page_map : ℕ → ℕ → ℕ → ℕ → ℕ → Cmd K (Unit {0})
  pd_page_map page_slot vaddr rights attrs flags =
      if flags == 0
      then must (elim p.arch [
        | aarch64 ↦ arm_page_map page_slot delegator_vspace vaddr rights attrs
        | x86_64 ↦ x86_page_map page_slot delegator_vspace vaddr rights attrs
      ])
      else must (map_absolute page_slot vaddr rights attrs 1)

  unfoldable pub pd_page_unmap : ℕ → ℕ → Cmd K (Unit {0})
  pd_page_unmap page_slot flags =
      if flags == 0
      then must
          (elim p.arch [ aarch64 ↦ arm_page_unmap page_slot | x86_64 ↦ x86_page_unmap page_slot ])
      else must (unmap_absolute page_slot 1)
