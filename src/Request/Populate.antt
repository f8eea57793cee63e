-- ===== src/Request/Populate.antt =====
-- `trustedlo_xrt_util_populate_xrts`: what the request leaves in the context.
use libtrustedlo.Request.Entry.{check_of, asks, times, Step, workerfunc-Step}
use libtrustedlo.Request.Accepted.{Accepted, Accepted-mono, Accepted-try}
use libtrustedlo.Prelude.{
  ℕ, zero, suc, ◌+◌, ◌*◌, ◌≡◌, ◌≤◌, ◌<◌, ◌∙◌, refl, inl, inr, true, false, ◌||◌, ltb, arith,
  Bool-cases,
}
use libtrustedlo.Memory.{Memory}
use libtrustedlo.Platform.{Platform}
use libtrustedlo.Ctxt.{keep, Kind}
use libtrustedlo.Xrt.{Machine}
use libtrustedlo.Request.{
  xrt_entry_size, workerfunc, populate_loop, populate_xrts, total_num, serialised_offset,
}
use libtrustedlo.Ctxt.States.{monitor_of, requested, held}

module _ {K : Type 0} (p : Platform K) (m : Memory) (info : ℕ) where
  -- What the `n` entries from index `i` leave, read from a context in which no request is pending.
  pub record Populated (entries n i : ℕ) (s t : Machine K) : Type 0 where
    pub kernel : t.kernel ≡ s.kernel
    pub switches : t.ctxt.switch_count ≡ s.ctxt.switch_count
    pub monitor : monitor_of t.ctxt ≡ monitor_of s.ctxt
    pub pending :
        (k : Kind) (id : ℕ)
        → requested (t.ctxt.states k id)
          ≡ (requested (s.ctxt.states k id) || ltb 0 (times m entries n i k id))
    pub valid :
        (k : Kind) (id : ℕ)
        → 0 < times m entries n i k id
        → (id < p.max_channels) × (check_of m info k id ≡ true)
    pub same :
        (k : Kind) (id : ℕ) → times m entries n i k id ≡ 0 → t.ctxt.states k id ≡ s.ctxt.states k id
    pub holds :
        (k : Kind) (id : ℕ)
        → times m entries n i k id ≤ 1
        → requested (s.ctxt.states k id) ≡ false
        → held (t.ctxt.states k id) ≡ held (s.ctxt.states k id)
    pub range : (k : Kind) (id : ℕ) → s.ctxt.states k id ≤ keep → t.ctxt.states k id ≤ keep

  Populated-next :
      (entries n i : ℕ) (s t u : Machine K)
      → Step p m info (entries + i * xrt_entry_size) s t
      → Populated entries n (i + 1) t u
      → Populated entries (suc n) i s u
  Populated-next entries n i s t u a b = record {
    kernel = b.kernel ∙ a.kernel;
    switches = b.switches ∙ a.switches;
    monitor = b.monitor ∙ a.monitor;
    pending = λ k id. ground (arith, b.pending k id, a.states k id);
    valid = λ k id h. elim (Bool-cases (asks m (entries + i * xrt_entry_size) k id)) [
      | inl here ↦ a.valid k id here
      | inr not_here ↦ b.valid k id (ground (arith, not_here))
    ];
    same = λ k id h. ground (arith, b.same k id, a.states k id);
    holds = λ k id h r. ground (arith, b.same k id, b.holds k id, a.states k id);
    range = λ k id h. ground (arith, b.range k id, a.states k id);
  }

  pub populate_loop-Populated :
      (entries n i : ℕ) (s : Machine K)
      → Accepted (Populated entries n i s) (populate_loop p m info entries n i s)
  unfolding populate_loop
  populate_loop-Populated entries zero i s = record {
    kernel = refl;
    switches = refl;
    monitor = refl;
    pending = λ k id. ground arith;
    valid = λ k id h. absurd (omega arith);
    same = λ k id h. refl;
    holds = λ k id h r. refl;
    range = λ k id h. h;
  }
  populate_loop-Populated entries (suc n) i s =
      Accepted-try (Step p m info (entries + i * xrt_entry_size) s) (Populated entries (suc n) i s)
        (workerfunc p m info (entries + i * xrt_entry_size))
        (populate_loop p m info entries n (i + 1)) s
        (workerfunc-Step p m info (entries + i * xrt_entry_size) s)
        (λ t a.
          Accepted-mono (Populated entries n (i + 1) t) (Populated entries (suc n) i s)
            (populate_loop p m info entries n (i + 1) t)
            (populate_loop-Populated entries n (i + 1) t)
            (λ u b. Populated-next entries n i s t u a b))

  -- A request that is read without an error is recorded exactly: a channel is pending if it was
  -- before or an entry asks for it, and every entry that asks for a channel names one in range and
  -- delegated. A channel that no entry asks for keeps its state; one that is asked for at most once,
  -- and for which no request was pending, is held afterwards as it was before. The kernel is not
  -- called.
  pub populate_xrts-Populated :
      (header : ℕ) (s : Machine K)
      → Accepted
          (Populated (header + serialised_offset m header) (total_num m header) 0 s)
          (populate_xrts p m info header s)
  unfolding populate_xrts
  populate_xrts-Populated header s =
      populate_loop-Populated (header + serialised_offset m header) (total_num m header) 0 s
