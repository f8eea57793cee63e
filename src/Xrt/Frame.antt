-- ===== src/Xrt/Frame.antt =====
-- What the mapping operations of src/xrt.c leave alone: the channels, their slots and the counters.
use libtrustedlo.Ctxt.States.{monitor_of}
use libtrustedlo.Platform.Ensures.{Ensures}
use libtrustedlo.Prelude.{ℕ, ◌≡◌, ◌∙◌, refl, ◌⊎◌, inl, inr}
use libtrustedlo.Platform.{
  Status, no_error, failed_lookup, error, Platform, Outcome, Cmd, done, crashed, and_then, ◌>>◌,
  Invocation,
}
use libtrustedlo.Cap.{checked, must}
use libtrustedlo.Cap.CSpace.{CSpace, status, after}
use libtrustedlo.Xrt.{Machine, on_kernel, set_mapping_state}

module _ {K : Type 0} (p : Platform K) (c : CSpace p) where
  open c use {slot, backup, granted}

  -- Channels, their slots and the delegation CNode are as they were.
  pub record Frame (s t : Machine K) : Type 0 where
    pub states : t.ctxt.states ≡ s.ctxt.states
    pub switches : t.ctxt.switch_count ≡ s.ctxt.switch_count
    pub monitor : monitor_of t.ctxt ≡ monitor_of s.ctxt
    pub counts : t.ctxt.mapping_count ≡ s.ctxt.mapping_count
    pub slots : (a : ℕ) → slot t.kernel a ≡ slot s.kernel a
    pub backups : (a : ℕ) → backup t.kernel a ≡ backup s.kernel a
    pub granted : granted t.kernel ≡ granted s.kernel

  pub Frame-refl : (s : Machine K) → Frame s s
  Frame-refl s = record {
    states = refl;
    switches = refl;
    monitor = refl;
    counts = refl;
    slots = λ a. refl;
    backups = λ a. refl;
    granted = refl;
  }

  pub Frame-trans : (s t u : Machine K) → Frame s t → Frame t u → Frame s u
  Frame-trans s t u a b = record {
    states = b.states ∙ a.states;
    switches = b.switches ∙ a.switches;
    monitor = b.monitor ∙ a.monitor;
    counts = b.counts ∙ a.counts;
    slots = λ q. b.slots q ∙ a.slots q;
    backups = λ q. b.backups q ∙ a.backups q;
    granted = b.granted ∙ a.granted;
  }

  pub checked-cases :
      (st : Status) (k : K)
      → (checked st k ≡ done tt k) ⊎ ((e : Status) × (checked st k ≡ crashed e k))
  checked-cases no_error k = inl refl
  checked-cases failed_lookup k = inr (failed_lookup, refl)
  checked-cases (error e) k = inr (error e, refl)

  pub Frame-bind :
      (C : Type 0) (s : Machine K) (o : Outcome (Machine K) (Unit {0}))
      (next : Cmd (Machine K) (Unit {0}))
      → Ensures C (Frame s) o
      → ((t : Machine K) → Ensures C (Frame t) (next t))
      → Ensures C (Frame s) (and_then o (λ _. next))
  Frame-bind C s (crashed e t) next a k = a
  Frame-bind C s (done u t) next a k = later (next t) (k t)
    where
      later : (o : Outcome (Machine K) (Unit {0})) → Ensures C (Frame t) o → Ensures C (Frame s) o
      later (done v w) b = Frame-trans s t w a b
      later (crashed e w) b = b

  pub must-Frame :
      (C : Type 0) (may : C) (call : Invocation) (i state : ℕ) (s : Machine K)
      → ((k : K) (a : ℕ) → slot (after p call k) a ≡ slot k a)
      → ((k : K) (a : ℕ) → backup (after p call k) a ≡ backup k a)
      → ((k : K) → granted (after p call k) ≡ granted k)
      → Ensures C (Frame s) ((on_kernel (must p call) >> set_mapping_state i state) s)
  must-Frame C may call i state s h b d =
      elim (checked-cases (status p call s.kernel) (after p call s.kernel)) [
        | inl e ↦
            rw (e, on_kernel)
              (record {
                states = refl;
                switches = refl;
                monitor = refl;
                counts = refl;
                slots = h s.kernel;
                backups = b s.kernel;
                granted = d s.kernel;
              })
        | inr (x, e) ↦ rw (e, on_kernel) may
      ]
