-- ===== src/Monitor/Regrant.antt =====
-- What the monitor's `mktxlo_privilege_template_pd`, of src/trustedlo_mfuncs.c, means to the loader in
-- the template domain: it has its delegation CNode again.
use libtrustedlo.Prelude.{ℕ, ◌≡◌, ◌∙◌, true, false, ◌⊎◌, inl, inr}
use libtrustedlo.Platform.{no_error, failed_lookup, Platform, done}
use libtrustedlo.Cap.{pd_privilege}
use libtrustedlo.Cap.CSpace.{CSpace, status, after, checked_ok}
use libtrustedlo.Monitor.{privilege_template_pd}
use libtrustedlo.Monitor.Grants.{ungrant_call, grant_call}

module _ {K : Type 0} (p : Platform K) (c : CSpace p) (pd : ℕ) where
  open c use {slot, backup, granted}

  -- What seL4 documents of the two invocations on the domain `pd`, as its loader sees them: the old
  -- grant is deleted, or there is none to look up; the capability to grant is in the place where the
  -- build puts it, and is copied into the empty slot.
  pub record Regrants : Type 0 where
    pub ungrant_status :
        (k : K)
        → (status p (ungrant_call p pd) k ≡ no_error)
          ⊎ (status p (ungrant_call p pd) k ≡ failed_lookup)
    pub ungrant_granted : (k : K) → granted (after p (ungrant_call p pd) k) ≡ false
    pub ungrant_slot : (k : K) (a : ℕ) → slot (after p (ungrant_call p pd) k) a ≡ slot k a
    pub ungrant_backup : (k : K) (a : ℕ) → backup (after p (ungrant_call p pd) k) a ≡ backup k a
    pub grant_status : (k : K) → granted k ≡ false → status p (grant_call p pd) k ≡ no_error
    pub grant_granted : (k : K) → granted k ≡ false → granted (after p (grant_call p pd) k) ≡ true
    pub grant_slot : (k : K) (a : ℕ) → slot (after p (grant_call p pd) k) a ≡ slot k a
    pub grant_backup : (k : K) (a : ℕ) → backup (after p (grant_call p pd) k) a ≡ backup k a

  -- The call returns, and all that changes for the loader is that it has the CNode.
  pub privilege_grants :
      Regrants
      → (k : K)
      → (k' : K) × (privilege_template_pd p pd k ≡ done tt k')
        × (granted k' ≡ true)
        × ((a : ℕ) → slot k' a ≡ slot k a)
        × ((a : ℕ) → backup k' a ≡ backup k a)
  unfolding privilege_template_pd pd_privilege
  privilege_grants r k =
      let k1 = after p (ungrant_call p pd) k in
      let off = r.ungrant_granted k in
      let ok = r.grant_status k1 off in
      (
        after p (grant_call p pd) k1,
        elim (r.ungrant_status k) [
          | inl e ↦ rw (e, pd_privilege, privilege_template_pd) (checked_ok _ _ ok)
          | inr e ↦ rw (e, pd_privilege, privilege_template_pd) (checked_ok _ _ ok)
        ],
        r.grant_granted k1 off,
        (λ a. r.grant_slot k1 a ∙ r.ungrant_slot k a),
        (λ a. r.grant_backup k1 a ∙ r.ungrant_backup k a),
      )
