-- ===== src/Cap/CSpace.antt =====
-- What seL4 documents of the capability invocations, as far as the library relies on it: the slots
-- of the delegator's Microkit CNode and of its delegation CNode, in any kernel state.
use libtrustedlo.Prelude.{
  ℕ, ◌+◌, ◌^◌, ◌≡◌, refl, ◌≢◌, ◌≤◌, ◌<◌, ◌==◌, if◌then◌else◌, Bool, true, false, Option, none, some,
  arith,
}
use libtrustedlo.Platform.{
  Status, no_error, Invocation, cnode_delete, cnode_copy, Platform, Cmd, done,
}
use libtrustedlo.Cap.{
  checked, delegator_microkit_cnode, delegator_root_cnode, delegation_grant_root_slot,
  lookup_depth_root, delegation_cnode_cap, lookup_depth_delegation, lookup_depth_microkit,
  ntfn_base_cap, ppc_base_cap, map_absolute, unmap_absolute, revoke_notification_cap,
  revoke_ppc_cap, restore_notification_cap, restore_ppc_cap,
}

-- A checked status that is no error returns.
pub checked_ok : {K : Type 0} (st : Status) (k : K) → st ≡ no_error → checked st k ≡ done tt k
checked_ok st k e = rw e refl

module _ {K : Type 0} (p : Platform K) where
  abbrev pub status : Invocation → K → Status
  status call k = (p.invoke call k).0

  abbrev pub after : Invocation → K → K
  after call k = (p.invoke call k).1

  abbrev pub delete_call : ℕ → Invocation
  delete_call i = cnode_delete (delegator_microkit_cnode p) i lookup_depth_microkit

  abbrev pub copy_call : ℕ → ℕ → Invocation
  copy_call dest src =
      cnode_copy (delegator_microkit_cnode p) dest lookup_depth_microkit (delegation_cnode_cap p)
        src (lookup_depth_delegation p) p.all_rights

  abbrev pub root_delete_call : Invocation
  root_delete_call =
      cnode_delete (delegator_root_cnode p) delegation_grant_root_slot lookup_depth_root

  -- Both CNodes are reached through the delegation CNode, as long as the delegator has been granted
  -- it. Then a slot of the Microkit CNode, one of 2 ^ 10, can be deleted whether it is empty or not;
  -- a copy wants a full source and an empty destination; and the grant itself can be deleted, after
  -- which it is gone. Mapping and the deletion of the grant touch neither of the CNodes.
  pub record CSpace : Type 0 where
    pub slot : K → ℕ → Option ℕ
    pub backup : K → ℕ → Option ℕ
    pub granted : K → Bool
    pub delete_status :
        (k : K) (i : ℕ) → granted k ≡ true → i < 2 ^ 10 → status (delete_call i) k ≡ no_error
    pub delete_slot :
        (k : K) (i : ℕ)
        → granted k ≡ true
        → i < 2 ^ 10
        → (a : ℕ) → slot (after (delete_call i) k) a ≡ (if a == i then none else slot k a)
    pub delete_backup : (k : K) (i : ℕ) (a : ℕ) → backup (after (delete_call i) k) a ≡ backup k a
    pub delete_granted : (k : K) (i : ℕ) → granted (after (delete_call i) k) ≡ granted k
    pub copy_status :
        (k : K) (dest src cap : ℕ)
        → granted k ≡ true
        → dest < 2 ^ 10
        → slot k dest ≡ none
        → backup k src ≡ some cap
        → status (copy_call dest src) k ≡ no_error
    pub copy_slot :
        (k : K) (dest src cap : ℕ)
        → granted k ≡ true
        → dest < 2 ^ 10
        → slot k dest ≡ none
        → backup k src ≡ some cap
        → (a : ℕ)
        → slot (after (copy_call dest src) k) a ≡ (if a == dest then some cap else slot k a)
    pub copy_backup :
        (k : K) (dest src : ℕ) (a : ℕ) → backup (after (copy_call dest src) k) a ≡ backup k a
    pub copy_granted : (k : K) (dest src : ℕ) → granted (after (copy_call dest src) k) ≡ granted k
    pub copy_occupied :
        (k : K) (dest src cap : ℕ)
        → slot k dest ≡ some cap
        → status (copy_call dest src) k ≢ no_error
    pub root_status : (k : K) → granted k ≡ true → status root_delete_call k ≡ no_error
    pub root_granted : (k : K) → granted (after root_delete_call k) ≡ false
    pub root_slot : (k : K) (a : ℕ) → slot (after root_delete_call k) a ≡ slot k a
    pub root_backup : (k : K) (a : ℕ) → backup (after root_delete_call k) a ≡ backup k a
    pub map_slot :
        (k : K) (page vaddr rights attrs num : ℕ) (a : ℕ)
        → slot (after (map_absolute p page vaddr rights attrs num) k) a ≡ slot k a
    pub map_backup :
        (k : K) (page vaddr rights attrs num : ℕ) (a : ℕ)
        → backup (after (map_absolute p page vaddr rights attrs num) k) a ≡ backup k a
    pub map_granted :
        (k : K) (page vaddr rights attrs num : ℕ)
        → granted (after (map_absolute p page vaddr rights attrs num) k) ≡ granted k
    pub unmap_granted :
        (k : K) (page num : ℕ) → granted (after (unmap_absolute p page num) k) ≡ granted k
    pub unmap_slot :
        (k : K) (page num : ℕ) (a : ℕ) → slot (after (unmap_absolute p page num) k) a ≡ slot k a
    pub unmap_backup :
        (k : K) (page num : ℕ) (a : ℕ) → backup (after (unmap_absolute p page num) k) a ≡ backup k a

  module _ (c : CSpace) where
    open c use {slot, backup, granted}

    -- `revoke` empties the slot of a channel and touches nothing else.
    abbrev pub Deletes : ℕ → (ℕ → Cmd K (Unit {0})) → Type 0
    Deletes base revoke =
        (id : ℕ) (k : K)
        → granted k ≡ true
        → id < p.max_channels
        → (k' : K) × (revoke id k ≡ done tt k')
          × ((a : ℕ) → slot k' a ≡ (if a == base + id then none else slot k a))
          × ((a : ℕ) → backup k' a ≡ backup k a)
          × (granted k' ≡ granted k)

    -- `restore` fills the empty slot of a channel from its backup and touches nothing else.
    abbrev pub Copies : ℕ → (ℕ → Cmd K (Unit {0})) → Type 0
    Copies base restore =
        (id : ℕ) (k : K) (cap : ℕ)
        → granted k ≡ true
        → id < p.max_channels
        → slot k (base + id) ≡ none
        → backup k (base + id) ≡ some cap
        → (k' : K) × (restore id k ≡ done tt k')
          × ((a : ℕ) → slot k' a ≡ (if a == base + id then some cap else slot k a))
          × ((a : ℕ) → backup k' a ≡ backup k a)
          × (granted k' ≡ granted k)

    in_range :
        (id base : ℕ) → id < p.max_channels → p.max_channels ≤ 64 → base ≤ 74 → base + id < 2 ^ 10
    in_range id base h few b = omega arith

    pub revoke_notification_cap-Deletes :
        p.max_channels ≤ 64 → Deletes ntfn_base_cap (revoke_notification_cap p)
    unfolding revoke_notification_cap
    revoke_notification_cap-Deletes few id k on h =
        let small = in_range id ntfn_base_cap h few (omega arith) in
        (
          after (delete_call (ntfn_base_cap + id)) k,
          ground (arith, on, c.delete_status k (ntfn_base_cap + id)),
          c.delete_slot k _ on small,
          c.delete_backup k _,
          c.delete_granted k _,
        )

    pub revoke_ppc_cap-Deletes : p.max_channels ≤ 64 → Deletes ppc_base_cap (revoke_ppc_cap p)
    unfolding revoke_ppc_cap
    revoke_ppc_cap-Deletes few id k on h =
        let small = in_range id ppc_base_cap h few (omega arith) in
        (
          after (delete_call (ppc_base_cap + id)) k,
          ground (arith, on, c.delete_status k (ppc_base_cap + id)),
          c.delete_slot k _ on small,
          c.delete_backup k _,
          c.delete_granted k _,
        )

    pub restore_notification_cap-Copies :
        p.max_channels ≤ 64 → Copies ntfn_base_cap (restore_notification_cap p)
    unfolding restore_notification_cap
    restore_notification_cap-Copies few id k cap on h empty full =
        let small = in_range id ntfn_base_cap h few (omega arith) in
        (
          after (copy_call (ntfn_base_cap + id) (ntfn_base_cap + id)) k,
          ground (arith, c.copy_status k (ntfn_base_cap + id) (ntfn_base_cap + id) cap),
          c.copy_slot k _ _ cap on small empty full,
          c.copy_backup k _ _,
          c.copy_granted k _ _,
        )

    pub restore_ppc_cap-Copies : p.max_channels ≤ 64 → Copies ppc_base_cap (restore_ppc_cap p)
    unfolding restore_ppc_cap
    restore_ppc_cap-Copies few id k cap on h empty full =
        let small = in_range id ppc_base_cap h few (omega arith) in
        (
          after (copy_call (ppc_base_cap + id) (ppc_base_cap + id)) k,
          ground (arith, c.copy_status k (ppc_base_cap + id) (ppc_base_cap + id) cap),
          c.copy_slot k _ _ cap on small empty full,
          c.copy_backup k _ _,
          c.copy_granted k _ _,
        )
