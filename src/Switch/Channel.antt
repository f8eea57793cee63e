-- ===== src/Switch/Channel.antt =====
-- One kind of delegated channel across `mktxlo_enforce_pola`: what holds before, between the
-- revocation and the restoration, and after.
use libtrustedlo.Prelude.{
  ℕ, ◌+◌, ◌≡◌, ◌≢◌, ◌≤◌, ◌<◌, ◌∙◌, sym, Bool, true, false, ◌==◌, if◌then◌else◌, none, arith, ◌⊎◌,
}
use libtrustedlo.Platform.{Platform}
use libtrustedlo.Cap.CSpace.{CSpace}
use libtrustedlo.Ctxt.{unset, used, keep, Kind, same_kind}
use libtrustedlo.Ctxt.States.{requested, held}
use libtrustedlo.Memory.{Memory}
use libtrustedlo.Request.Populate.{Populated}
use libtrustedlo.Request.Entry.{check_of, times}
use libtrustedlo.Xrt.{Machine}
use libtrustedlo.Xrt.Channels.{same_kind_refl}
use libtrustedlo.Xrt.Restore.{Restored, Fillable}
use libtrustedlo.Xrt.Revoke.{Revoked}
use libtrustedlo.Xrt.Frame.{Frame}

module _ {K : Type 0} (p : Platform K) (c : CSpace p) (kind : Kind) (base : ℕ)
    (check : ℕ → Bool) where
  open c use {slot, backup}

  -- Before: only delegated channels have a state, a slot is full exactly when the state says so,
  -- every delegated channel has a backup, and nothing is in use before the first execution.
  pub record Ready (s : Machine K) : Type 0 where
    pub known : (j : ℕ) → j < p.max_channels → check j ≡ false → s.ctxt.states kind j ≡ unset
    pub slots :
        (j : ℕ)
        → j < p.max_channels
        → check j ≡ true
        → slot s.kernel (base + j)
          ≡ (if held (s.ctxt.states kind j) then backup s.kernel (base + j) else none)
    pub full : (j : ℕ) → j < p.max_channels → check j ≡ true → backup s.kernel (base + j) ≢ none
    pub range : (j : ℕ) → j < p.max_channels → s.ctxt.states kind j ≤ keep
    pub fresh :
        s.ctxt.switch_count ≡ 0 → (j : ℕ) → j < p.max_channels → held (s.ctxt.states kind j) ≡ false

  -- Steps that do not concern this kind.
  pub record Keeps (s t : Machine K) : Type 0 where
    pub states : (j : ℕ) → j < p.max_channels → t.ctxt.states kind j ≡ s.ctxt.states kind j
    pub slots : (j : ℕ) → j < p.max_channels → slot t.kernel (base + j) ≡ slot s.kernel (base + j)
    pub backups : (a : ℕ) → backup t.kernel a ≡ backup s.kernel a

  pub Frame-Keeps : (s t : Machine K) → Frame p c s t → Keeps s t
  Frame-Keeps s t f = record {
    states = λ j h i. f.states i kind j;
    slots = λ j h. f.slots (base + j);
    backups = f.backups;
  }

  pub Ready-Keeps :
      (s t : Machine K)
      → Ready s
      → Keeps s t
      → (t.ctxt.switch_count ≡ 0 → s.ctxt.switch_count ≡ 0)
      → Ready t
  Ready-Keeps s t r k e = record {
    known = λ j h d. k.states j h ∙ r.known j h d;
    slots = λ j h d. ground (arith, k.states j h, k.slots j h, r.slots j h d, k.backups (base + j));
    full = λ j h d x. r.full j h d (sym (k.backups (base + j)) ∙ x);
    range = λ j h. ground (arith, k.states j h, r.range j h);
    fresh = λ x j h. ground (arith, k.states j h, r.fresh (e x) j h);
  }

  module _ (other : Kind) (base' : ℕ) (check' : ℕ → Bool) (differ : same_kind kind other ≡ false)
      (apart : (j : ℕ)
        → j < p.max_channels
        → (base + j < base' + 0) ⊎ (base' + 0 + p.max_channels ≤ base + j)) where
    pub Revoked-Keeps :
        (s t : Machine K) → Revoked p c other base' check' 0 p.max_channels s t → Keeps s t
    Revoked-Keeps s t r = record {
      states = λ j h. ground (arith, r.states kind j, differ);
      slots = λ j h. ground (arith, r.others (base + j), apart j h);
      backups = r.backups;
    }

    pub Restored-Keeps :
        (s t : Machine K) → Restored p c other base' check' 0 p.max_channels s t → Keeps s t
    Restored-Keeps s t r = record {
      states = λ j h. ground (arith, r.states kind j, differ);
      slots = λ j h. ground (arith, r.others (base + j), apart j h);
      backups = r.backups;
    }

  -- Between: what was in use and not asked for again is gone.
  pub record Cleared (s u : Machine K) : Type 0 where
    pub states :
        (j : ℕ)
        → j < p.max_channels
        → u.ctxt.states kind j
          ≡ (if s.ctxt.states kind j == used then unset else s.ctxt.states kind j)
    pub slots :
        (j : ℕ)
        → j < p.max_channels
        → check j ≡ true
        → slot u.kernel (base + j)
          ≡ (if s.ctxt.states kind j == keep then backup s.kernel (base + j) else none)
    pub others :
        (j : ℕ)
        → j < p.max_channels
        → check j ≡ false
        → slot u.kernel (base + j) ≡ slot s.kernel (base + j)
    pub backups : (a : ℕ) → backup u.kernel a ≡ backup s.kernel a

  pub Cleared-first :
      (s u : Machine K) → Ready s → s.ctxt.switch_count ≡ 0 → Keeps s u → Cleared s u
  Cleared-first s u r e k = record {
    states = λ j h. ground (arith, k.states j h, r.fresh e j h);
    slots = λ j h d. ground (arith, k.slots j h, r.slots j h d, r.fresh e j h);
    others = λ j h d. k.slots j h;
    backups = k.backups;
  }

  pub Cleared-later :
      (s t : Machine K) → Ready s → Revoked p c kind base check 0 p.max_channels s t → Cleared s t
  Cleared-later s t r v = record {
    states = λ j h. ground (arith, v.states kind j, same_kind_refl kind, r.known j h);
    slots = λ j h d. ground (arith, v.slots j, r.slots j h d);
    others = λ j h d. ground (arith, v.slots j);
    backups = v.backups;
  }

  pub Keeps-Cleared : (s t u : Machine K) → Keeps s t → Cleared t u → Cleared s u
  Keeps-Cleared s t u k v = record {
    states = λ j h. ground (arith, k.states j h, v.states j h);
    slots = λ j h d. ground (arith, k.states j h, v.slots j h d, k.backups (base + j));
    others = λ j h d. v.others j h d ∙ k.slots j h;
    backups = λ a. v.backups a ∙ k.backups a;
  }

  pub Cleared-Keeps : (s t u : Machine K) → Cleared s t → Keeps t u → Cleared s u
  Cleared-Keeps s t u v k = record {
    states = λ j h. k.states j h ∙ v.states j h;
    slots = λ j h d. k.slots j h ∙ v.slots j h d;
    others = λ j h d. k.slots j h ∙ v.others j h d;
    backups = λ a. k.backups a ∙ v.backups a;
  }

  pub Cleared-Fillable :
      (s u : Machine K) → Ready s → Cleared s u → Fillable p c kind base check 0 p.max_channels u
  Cleared-Fillable s u r v = record {
    empty = λ j h. ground (arith, v.slots j, v.states j);
    full = λ j h e. ground (arith, v.backups (base + j), r.full j);
  }

  -- After: exactly the requested channels are in use, and of the delegated channels exactly these
  -- have their capability; all other channels are as they were.
  pub record Enforced (s t : Machine K) : Type 0 where
    pub states :
        (j : ℕ)
        → j < p.max_channels
        → t.ctxt.states kind j ≡ (if requested (s.ctxt.states kind j) then used else unset)
    pub slots :
        (j : ℕ)
        → j < p.max_channels
        → check j ≡ true
        → slot t.kernel (base + j)
          ≡ (if requested (s.ctxt.states kind j) then backup s.kernel (base + j) else none)
    pub others :
        (j : ℕ)
        → j < p.max_channels
        → check j ≡ false
        → slot t.kernel (base + j) ≡ slot s.kernel (base + j)
    pub backups : (a : ℕ) → backup t.kernel a ≡ backup s.kernel a

  pub Restored-Enforced :
      (s u t : Machine K)
      → Ready s
      → Cleared s u
      → Restored p c kind base check 0 p.max_channels u t
      → Enforced s t
  Restored-Enforced s u t r v w = record {
    states = λ j h.
        ground
          (arith, w.states kind j, v.states j h, r.range j h, r.known j h, same_kind_refl kind);
    slots = λ j h d.
        ground (arith, w.slots j, v.slots j h d, v.states j h, r.range j h, v.backups (base + j));
    others = λ j h d. ground (arith, w.slots j, v.others j h d);
    backups = λ a. w.backups a ∙ v.backups a;
  }

  pub Enforced-Keeps : (s t u : Machine K) → Enforced s t → Keeps t u → Enforced s u
  Enforced-Keeps s t u v k = record {
    states = λ j h. k.states j h ∙ v.states j h;
    slots = λ j h d. k.slots j h ∙ v.slots j h d;
    others = λ j h d. k.slots j h ∙ v.others j h d;
    backups = λ a. k.backups a ∙ v.backups a;
  }

  -- What holds before holds again after, with no request pending.
  pub Enforced-Ready :
      (s t : Machine K) → Ready s → Enforced s t → t.ctxt.switch_count ≢ 0 → Ready t
  Enforced-Ready s t r v e = record {
    known = λ j h d. ground (arith, v.states j h, r.known j h d);
    slots = λ j h d. ground (arith, v.states j h, v.slots j h d, v.backups (base + j));
    full = λ j h d x. r.full j h d (sym (v.backups (base + j)) ∙ x);
    range = λ j h. ground (arith, v.states j h);
    fresh = λ x j h. absurd (e x);
  }

  pub Enforced-idle :
      (s t : Machine K)
      → Enforced s t
      → (j : ℕ) → j < p.max_channels
      → requested (t.ctxt.states kind j) ≡ false
  Enforced-idle s t v j h = ground (arith, v.states j h)

  -- A request read from an idle context, which asks for no channel twice.
  pub Populated-Ready :
      (m : Memory) (info entries n : ℕ) (s t : Machine K)
      → ((id : ℕ) → check id ≡ check_of m info kind id)
      → Ready s
      → ((j : ℕ) → j < p.max_channels → requested (s.ctxt.states kind j) ≡ false)
      → ((j : ℕ) → times m entries n 0 kind j ≤ 1)
      → Populated p m info entries n 0 s t
      → Ready t
  Populated-Ready m info entries n s t same r idle once q = record {
    known = λ j h d. ground (arith, q.same kind j, q.valid kind j, same j, r.known j h d, once j);
    slots =
        λ j h d. rw q.kernel (ground (arith, q.holds kind j (once j) (idle j h), r.slots j h d));
    full = λ j h d. rw q.kernel (r.full j h d);
    range = λ j h. q.range kind j (r.range j h);
    fresh = λ x j h.
        ground (arith, q.holds kind j (once j) (idle j h), r.fresh (sym q.switches ∙ x) j h);
  }
