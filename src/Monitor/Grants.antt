-- ===== src/Monitor/Grants.antt =====
-- Which template protection domains hold their delegation CNode after the monitor's calls of
-- `mktxlo_privilege_template_pd`, of src/trustedlo_mfuncs.c.
use libtrustedlo.Prelude.{
  ℕ, ◌≡◌, ◌<◌, ◌∙◌, refl, Bool, true, false, ◌||◌, ◌==◌, if◌then◌else◌, ◌⊎◌, inl, inr, ==→eq,
  Option, none, some, List, [], ◌∷◌, arith,
}
use libtrustedlo.Platform.{
  no_error, failed_lookup, Invocation, cnode_delete, cnode_copy, Platform, Cmd, done, pure, ◌>>◌,
}
use libtrustedlo.Cap.{
  delegator_root_cnode_cptr, delegation_cnode_cptr, delegation_grant_root_slot,
  delegation_slot_grant_cap, lookup_depth_root, lookup_depth_delegation, pd_privilege,
}
use libtrustedlo.Cap.CSpace.{status, after, checked_ok}
use libtrustedlo.Monitor.{privilege_template_pd}

-- The domains that a monitor can have.
abbrev pub max_dyn_pd_per_monitor : ℕ
max_dyn_pd_per_monitor = 16

abbrev pub listed : ℕ → List ℕ → Bool
listed q [] = false
listed q (pd ∷ pds) = q == pd || listed q pds

module _ {K : Type 0} (p : Platform K) where
  abbrev pub ungrant_call : ℕ → Invocation
  ungrant_call pd =
      cnode_delete (delegator_root_cnode_cptr p pd) delegation_grant_root_slot lookup_depth_root

  abbrev pub grant_call : ℕ → Invocation
  grant_call pd =
      cnode_copy (delegator_root_cnode_cptr p pd) delegation_grant_root_slot lookup_depth_root
        (delegation_cnode_cptr p pd) delegation_slot_grant_cap (lookup_depth_delegation p)
        p.all_rights

  -- What seL4 documents of the two invocations. The slots are the one in a domain's root CNode for
  -- the grant, and the one in its delegation CNode with the capability to grant. A deletion
  -- succeeds, or fails to look up a grant that is not there; a copy wants a full source and an
  -- empty destination.
  pub record Grants : Type 0 where
    pub grant : K → ℕ → Option ℕ
    pub source : K → ℕ → Option ℕ
    pub ungrant_status :
        (k : K) (pd : ℕ)
        → pd < max_dyn_pd_per_monitor
        → (status p (ungrant_call pd) k ≡ no_error)
          ⊎ ((status p (ungrant_call pd) k ≡ failed_lookup) × (grant k pd ≡ none))
    pub ungrant_grant :
        (k : K) (pd q : ℕ)
        → pd < max_dyn_pd_per_monitor
        → q < max_dyn_pd_per_monitor
        → grant (after p (ungrant_call pd) k) q ≡ (if q == pd then none else grant k q)
    pub ungrant_source : (k : K) (pd q : ℕ) → source (after p (ungrant_call pd) k) q ≡ source k q
    pub grant_status :
        (k : K) (pd cap : ℕ)
        → pd < max_dyn_pd_per_monitor
        → grant k pd ≡ none
        → source k pd ≡ some cap
        → status p (grant_call pd) k ≡ no_error
    pub grant_grant :
        (k : K) (pd q cap : ℕ)
        → pd < max_dyn_pd_per_monitor
        → q < max_dyn_pd_per_monitor
        → grant k pd ≡ none
        → source k pd ≡ some cap
        → grant (after p (grant_call pd) k) q ≡ (if q == pd then some cap else grant k q)
    pub grant_source : (k : K) (pd q : ℕ) → source (after p (grant_call pd) k) q ≡ source k q

  -- The monitor's calls for the domains of a list, in its order.
  abbrev pub privilege_all : List ℕ → Cmd K (Unit {0})
  privilege_all [] = pure tt
  privilege_all (pd ∷ pds) = privilege_template_pd p pd >> privilege_all pds

  module _ (g : Grants) where
    open g use {grant, source}

    -- From `k` to `k'` the domains of the list got what is to be granted to them, and no other.
    pub record Granted (pds : List ℕ) (k k' : K) : Type 0 where
      pub grants :
          (q : ℕ)
          → q < max_dyn_pd_per_monitor
          → grant k' q ≡ (if listed q pds then source k q else grant k q)
      pub sources : (q : ℕ) → source k' q ≡ source k q

    privilege-Granted :
        (k : K) (pd cap : ℕ)
        → pd < max_dyn_pd_per_monitor
        → source k pd ≡ some cap
        → (k' : K) × (privilege_template_pd p pd k ≡ done tt k') × Granted (pd ∷ []) k k'
    unfolding privilege_template_pd pd_privilege
    privilege-Granted k pd cap lt full =
        let k1 = after p (ungrant_call pd) k in
        let empty : grant k1 pd ≡ none = g.ungrant_grant k pd pd lt lt ∙ ground arith in
        let full' : source k1 pd ≡ some cap = g.ungrant_source k pd pd ∙ full in
        let ok = g.grant_status k1 pd cap lt empty full' in
        (
          after p (grant_call pd) k1,
          elim (g.ungrant_status k pd lt) [
            | inl e ↦ rw (e, pd_privilege, privilege_template_pd) (checked_ok _ _ ok)
            | inr (e, _) ↦ rw (e, pd_privilege, privilege_template_pd) (checked_ok _ _ ok)
          ],
          record {
            grants = λ q h. ground (
              arith,
              g.grant_grant k1 pd q cap lt h empty full',
              g.ungrant_grant k pd q lt h,
              full,
              ==→eq q pd,
            );
            sources = λ q. g.grant_source k1 pd q ∙ g.ungrant_source k pd q;
          },
        )

    -- The monitor's calls for any list of its domains, in any order and with repetitions, return if
    -- each of them has a capability to grant; then the domains of the list hold the one to grant
    -- to them, whatever they held, and the grant of every other domain is as it was.
    pub privilege_all-Granted :
        (pds : List ℕ) (k : K)
        → ((pd : ℕ)
            → listed pd pds ≡ true
            → (pd < max_dyn_pd_per_monitor) × ((cap : ℕ) × (source k pd ≡ some cap)))
        → (k' : K) × (privilege_all pds k ≡ done tt k') × Granted pds k k'
    privilege_all-Granted [] k h = (k, refl, record { grants = λ q lt. refl; sources = λ q. refl })
    privilege_all-Granted (pd ∷ pds) k h =
        let (lt, (cap, full)) = h pd (ground arith) in
        let (t, run, first) = privilege-Granted k pd cap lt full in
        let (u, rest, later) = privilege_all-Granted pds t (λ q l.
          let (in_range, (cap', full')) = h q (ground (arith, l)) in
          (in_range, (cap', first.sources q ∙ full'))) in
        (
          u,
          rw run rest,
          record {
            grants = λ q small.
                ground (arith, later.grants q small, first.grants q small, first.sources q);
            sources = λ q. later.sources q ∙ first.sources q;
          },
        )
