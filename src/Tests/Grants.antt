-- ===== src/Tests/Grants.antt =====
-- The monitor's calls on a kernel that keeps the grant slots of its sixteen domains.
use Prim.Native.Nat.{bit_or}
use libtrustedlo.Prelude.{
  ℕ, zero, suc, ◌+◌, ◌-◌, ◌/◌, ◌^◌, ◌≡◌, ◌<◌, refl, Bool, true, ◌&&◌, ap, ◌∙◌, ◌==◌, ◌⊎◌, inl, inr,
  if◌then◌else◌, Bool-cases, ==→eq, ==→ne, update, Option, none, some, List, [], ◌∷◌, arith,
}
use libtrustedlo.Platform.{
  Status, no_error, failed_lookup, error, aarch64, Invocation, cnode_delete, cnode_copy, Platform,
  done,
}
use libtrustedlo.Tests.Kernel.{cptr}
use libtrustedlo.Monitor.Grants.{Grants, Granted, privilege_all, privilege_all-Granted}

abbrev Held : Type 0
Held = ℕ → Option ℕ

-- The domain whose root CNode a CPtr names.
abbrev domain : ℕ → ℕ
domain root = root / 2 ^ 58 - 48

-- The capability to grant to a domain.
abbrev delegation : ℕ → ℕ
delegation pd = 900 + pd

abbrev ungrant : Option ℕ → ℕ → Held → Status × Held
ungrant none pd k = (failed_lookup, k)
ungrant (some cap) pd k = (no_error, update k pd none)

abbrev grant : Option ℕ → ℕ → Held → Status × Held
grant none pd k = (no_error, update k pd (some (delegation pd)))
grant (some cap) pd k = (error 8, k)

abbrev invoke : Invocation → Held → Status × Held
invoke (cnode_delete cnode i depth) k = ungrant (k (domain cnode)) (domain cnode) k
invoke (cnode_copy dest_cnode dest dest_depth src_cnode src src_depth rights) k =
    grant (k (domain dest_cnode)) (domain dest_cnode) k
invoke _ k = (no_error, k)

abbrev monitor_platform : Platform Held
monitor_platform = record {
  invoke = invoke;
  arch = aarch64;
  word_bits = 64;
  max_channels = 62;
  all_rights = 15;
  root_slot_to_cptr = cptr;
}

abbrev below : ℕ → (ℕ → Bool) → Bool
below zero f = true
below (suc n) f = f n && below n f

below_lem : (n : ℕ) (f : ℕ → Bool) → below n f ≡ true → (q : ℕ) → q < n → f q ≡ true
below_lem zero f h q lt = absurd (omega (arith, lt))
below_lem (suc n) f h q lt = elim (Bool-cases (q == n)) [
  | inl e ↦ rw (==→eq q n e) (ground (arith, h))
  | inr e ↦ below_lem n f (ground (arith, h)) q (omega (arith, lt, ==→ne q n e))
]

domain_lem : (pd : ℕ) → pd < 16 → domain (bit_or (cptr (48 + pd)) 2) ≡ pd
domain_lem pd lt = ==→eq _ _ (below_lem 16 (λ q. domain (bit_or (cptr (48 + q)) 2) == q) refl pd lt)

ungrant_status :
    (o : Option ℕ) (pd : ℕ) (k : Held)
    → ((ungrant o pd k).0 ≡ no_error) ⊎ (((ungrant o pd k).0 ≡ failed_lookup) × (o ≡ none))
ungrant_status none pd k = inr (refl, refl)
ungrant_status (some cap) pd k = inl refl

ungrant_grant :
    (o : Option ℕ) (pd q : ℕ) (k : Held)
    → k pd ≡ o
    → (ungrant o pd k).1 q ≡ (if q == pd then none else k q)
ungrant_grant none pd q k e = ground (arith, e, ==→eq q pd)
ungrant_grant (some cap) pd q k e = refl

grant_status : (o : Option ℕ) (pd : ℕ) (k : Held) → o ≡ none → (grant o pd k).0 ≡ no_error
grant_status o pd k e = rw e refl

grant_grant :
    (o : Option ℕ) (pd q cap : ℕ) (k : Held)
    → o ≡ none
    → some (delegation pd) ≡ some cap
    → (grant o pd k).1 q ≡ (if q == pd then some cap else k q)
grant_grant o pd q cap k e full = rw (e, ← full) refl

-- The same for the domain that a CPtr names.
module _ {d pd : ℕ} (e : d ≡ pd) where
  status_at :
      (k : Held)
      → ((ungrant (k d) d k).0 ≡ no_error)
        ⊎ (((ungrant (k d) d k).0 ≡ failed_lookup) × (k pd ≡ none))
  status_at k = rw (← e) (ungrant_status (k d) d k)

  ungrant_at : (q : ℕ) (k : Held) → (ungrant (k d) d k).1 q ≡ (if q == pd then none else k q)
  ungrant_at q k = rw (← e) (ungrant_grant (k d) d q k refl)

  filled_at : (k : Held) → k pd ≡ none → (grant (k d) d k).0 ≡ no_error
  filled_at k empty = grant_status (k d) d k (ap k e ∙ empty)

  grant_at :
      (q cap : ℕ) (k : Held)
      → k pd ≡ none
      → some (delegation pd) ≡ some cap
      → (grant (k d) d k).1 q ≡ (if q == pd then some cap else k q)
  grant_at q cap k empty full =
      rw (← e)
        (grant_grant (k d) d q cap k (ap k e ∙ empty) (ap (λ x. some (delegation x)) e ∙ full))

abbrev grants : Grants monitor_platform
grants = record {
  grant = λ k. k;
  source = λ k pd. some (delegation pd);
  ungrant_status = λ k pd lt. status_at (domain_lem pd lt) k;
  ungrant_grant = λ k pd q lt small. ungrant_at (domain_lem pd lt) q k;
  ungrant_source = λ k pd q. refl;
  grant_status = λ k pd cap lt empty full. filled_at (domain_lem pd lt) k empty;
  grant_grant = λ k pd q cap lt small empty full. grant_at (domain_lem pd lt) q cap k empty full;
  grant_source = λ k pd q. refl;
}

-- Domain 5 has an old grant, domain 7 a stranger's.
abbrev before : Held
before = update (update (λ q. none) 5 (some 1)) 7 (some 2)

-- Domain 3 without a grant, domain 5 with an old one, and domain 3 again.
abbrev named : List ℕ
named = 3 ∷ 5 ∷ 3 ∷ []

privilege_all-Granted_example :
    (k' : Held) × (privilege_all monitor_platform named before ≡ done tt k')
    × Granted monitor_platform grants named before k'
privilege_all-Granted_example =
    privilege_all-Granted monitor_platform grants named before
      (λ pd h. (ground (arith, h), (delegation pd, refl)))
