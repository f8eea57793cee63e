-- ===== src/Switch/Phases.antt =====
-- The two halves of `mktxlo_enforce_pola` on channels: revocation, then restoration.
use libtrustedlo.Ctxt.States.{monitor_of}
use libtrustedlo.Prelude.{ℕ, ◌+◌, ◌≡◌, ◌≢◌, ◌≤◌, ◌<◌, ◌∙◌, true, refl, sym, ap, arith}
use libtrustedlo.Memory.{Memory}
use libtrustedlo.Platform.{Platform, done}
use libtrustedlo.Cap.{
  ntfn_base_cap, ppc_base_cap, revoke_notification_cap, revoke_ppc_cap, restore_notification_cap,
  restore_ppc_cap,
}
use libtrustedlo.Cap.CSpace.{
  CSpace, revoke_notification_cap-Deletes, revoke_ppc_cap-Deletes, restore_notification_cap-Copies,
  restore_ppc_cap-Copies,
}
use libtrustedlo.Ctxt.{unset, notifications, ppcs, irqs}
use libtrustedlo.Xrt.{
  Machine, check_notification, check_ppc, revoke_notifications, revoke_ppcs, restore_notifications,
  restore_ppcs,
}
use libtrustedlo.Xrt.Channels.{with_states}
use libtrustedlo.Xrt.Restore.{restore_loop-Restored}
use libtrustedlo.Xrt.Revoke.{revoke_loop-Revoked}
use libtrustedlo.Xrt.Frame.{Frame}
use libtrustedlo.Switch.Channel.{
  Ready, Ready-Keeps, Frame-Keeps, Revoked-Keeps, Restored-Keeps, Cleared, Cleared-first,
  Cleared-later, Keeps-Cleared, Cleared-Keeps, Cleared-Fillable, Enforced, Restored-Enforced,
  Enforced-Keeps,
}

module _ {K : Type 0} (p : Platform K) (c : CSpace p) (few : p.max_channels ≤ 64) (m : Memory)
    (info : ℕ) where
  open c use {slot, backup, granted}

  -- What holds when the request has been read into the context, with the delegation CNode granted.
  pub record Consistent (s : Machine K) : Type 0 where
    pub ntfns : Ready p c notifications ntfn_base_cap (check_notification m info) s
    pub calls : Ready p c ppcs ppc_base_cap (check_ppc m info) s
    pub no_irqs : (j : ℕ) → j < p.max_channels → s.ctxt.states irqs j ≡ unset
    pub granted : granted s.kernel ≡ true

  -- Where the revocation ends and the restoration begins.
  pub record Between (s u : Machine K) : Type 0 where
    pub ntfns : Cleared p c notifications ntfn_base_cap (check_notification m info) s u
    pub calls : Cleared p c ppcs ppc_base_cap (check_ppc m info) s u
    pub no_irqs : (j : ℕ) → j < p.max_channels → u.ctxt.states irqs j ≡ unset
    pub counts : u.ctxt.mapping_count ≡ s.ctxt.mapping_count
    pub switched : u.ctxt.switch_count ≢ 0
    pub granted : granted u.kernel ≡ granted s.kernel
    pub monitor : monitor_of u.ctxt ≡ monitor_of s.ctxt

  -- The recorded mappings are the same.
  pub record SameMappings (s t : Machine K) : Type 0 where
    pub counts : t.ctxt.mapping_count ≡ s.ctxt.mapping_count
    pub states : t.ctxt.mapping_state ≡ s.ctxt.mapping_state
    pub cookies : t.ctxt.mapping_data ≡ s.ctxt.mapping_data

  with_states-SameMappings :
      (s t : Machine K) → t.ctxt ≡ with_states s.ctxt t.ctxt.states → SameMappings s t
  with_states-SameMappings s t rest = record {
    counts = ap (λ x. x.mapping_count) rest;
    states = ap (λ x. x.mapping_state) rest;
    cookies = ap (λ x. x.mapping_data) rest;
  }

  SameMappings-trans : (s t u : Machine K) → SameMappings s t → SameMappings t u → SameMappings s u
  SameMappings-trans s t u a b = record {
    counts = b.counts ∙ a.counts;
    states = b.states ∙ a.states;
    cookies = b.cookies ∙ a.cookies;
  }

  pub revoke_first :
      (s : Machine K)
      → Consistent s
      → s.ctxt.switch_count ≡ 0
      → Between s (record s { ctxt = record s.ctxt { switch_count = s.ctxt.switch_count + 1 } })
  revoke_first s r e = record {
    ntfns =
        Cleared-first p c notifications ntfn_base_cap _ s _ r.ntfns e
          (record { states = λ j h. refl; slots = λ j h. refl; backups = λ a. refl });
    calls =
        Cleared-first p c ppcs ppc_base_cap _ s _ r.calls e
          (record { states = λ j h. refl; slots = λ j h. refl; backups = λ a. refl });
    no_irqs = r.no_irqs;
    counts = refl;
    switched = omega arith;
    granted = refl;
    monitor = refl;
  }

  -- The two revocation loops one after the other.
  pub revoke_channels :
      (s : Machine K)
      → Consistent s
      → s.ctxt.switch_count ≢ 0
      → (t u : Machine K) × (revoke_notifications p m info s ≡ done tt t)
        × (revoke_ppcs p m info t ≡ done tt u)
        × Between s u
        × SameMappings s u
  unfolding revoke_notifications revoke_ppcs
  revoke_channels s r later =
      let (t, run, a) =
        revoke_loop-Revoked p c notifications ntfn_base_cap (check_notification m info)
          (revoke_notification_cap p) (revoke_notification_cap-Deletes p c few) p.max_channels 0 s
          r.granted (omega arith) in
      let (u, run', b) =
        revoke_loop-Revoked p c ppcs ppc_base_cap (check_ppc m info) (revoke_ppc_cap p)
          (revoke_ppc_cap-Deletes p c few) p.max_channels 0 t (a.granted ∙ r.granted)
          (omega arith) in
      let untouched =
        Revoked-Keeps p c ppcs ppc_base_cap (check_ppc m info) notifications ntfn_base_cap
          (check_notification m info) refl (λ j h. omega arith) s t a in
      let untouched' =
        Revoked-Keeps p c notifications ntfn_base_cap (check_notification m info) ppcs ppc_base_cap
          (check_ppc m info) refl (λ j h. omega arith) t u b in
      let switches : t.ctxt.switch_count ≡ s.ctxt.switch_count = ap (λ x. x.switch_count) a.rest in
      let switches' : u.ctxt.switch_count ≡ t.ctxt.switch_count = ap (λ x. x.switch_count) b.rest in
      let mappings =
        SameMappings-trans s t u (with_states-SameMappings s t a.rest)
          (with_states-SameMappings t u b.rest) in
      (
        t,
        u,
        run,
        run',
        record {
          ntfns =
              Cleared-Keeps p c notifications ntfn_base_cap _ s t u
                (Cleared-later p c notifications ntfn_base_cap _ s t r.ntfns a) untouched';
          calls = Keeps-Cleared p c ppcs ppc_base_cap _ s t u untouched (
              Cleared-later p c ppcs ppc_base_cap _ t u
                (Ready-Keeps p c ppcs ppc_base_cap _ s t r.calls untouched (λ e. omega arith)) b);
          no_irqs = λ j h. ground (arith, b.states irqs j, a.states irqs j, r.no_irqs j h);
          counts = mappings.counts;
          switched = omega arith;
          granted = b.granted ∙ a.granted;
          monitor = ap monitor_of b.rest ∙ ap monitor_of a.rest;
        },
        mappings,
      )

  pub Between-Frame : (s u v : Machine K) → Between s u → Frame p c u v → Between s v
  Between-Frame s u v b f = record {
    ntfns =
        Cleared-Keeps p c notifications ntfn_base_cap _ s u v b.ntfns
          (Frame-Keeps p c notifications ntfn_base_cap (check_notification m info) u v f);
    calls =
        Cleared-Keeps p c ppcs ppc_base_cap _ s u v b.calls
          (Frame-Keeps p c ppcs ppc_base_cap (check_ppc m info) u v f);
    no_irqs = λ j h. (λ i. f.states i irqs j) ∙ b.no_irqs j h;
    counts = f.counts ∙ b.counts;
    switched = λ e. b.switched (sym f.switches ∙ e);
    granted = f.granted ∙ b.granted;
    monitor = f.monitor ∙ b.monitor;
  }

  -- After the switch's enforcement.
  pub record Enforces (s t : Machine K) : Type 0 where
    pub ntfns : Enforced p c notifications ntfn_base_cap (check_notification m info) s t
    pub calls : Enforced p c ppcs ppc_base_cap (check_ppc m info) s t
    pub no_irqs : (j : ℕ) → j < p.max_channels → t.ctxt.states irqs j ≡ unset
    pub switched : t.ctxt.switch_count ≢ 0
    pub monitor : monitor_of t.ctxt ≡ monitor_of s.ctxt

  pub restore_channels :
      (s u : Machine K)
      → Consistent s
      → Between s u
      → (v w : Machine K) × (restore_notifications p m info u ≡ done tt v)
        × (restore_ppcs p m info v ≡ done tt w)
        × Enforces s w
        × SameMappings u w
        × (granted w.kernel ≡ true)
  unfolding restore_notifications restore_ppcs
  restore_channels s u r b =
      let (v, run, x) =
        restore_loop-Restored p c notifications ntfn_base_cap (check_notification m info)
          (restore_notification_cap p) (restore_notification_cap-Copies p c few) p.max_channels 0 u
          (b.granted ∙ r.granted) (omega arith)
          (Cleared-Fillable p c notifications ntfn_base_cap _ s u r.ntfns b.ntfns) in
      let untouched =
        Restored-Keeps p c ppcs ppc_base_cap (check_ppc m info) notifications ntfn_base_cap
          (check_notification m info) refl (λ j h. omega arith) u v x in
      let calls = Cleared-Keeps p c ppcs ppc_base_cap (check_ppc m info) s u v b.calls untouched in
      let (w, run', y) =
        restore_loop-Restored p c ppcs ppc_base_cap (check_ppc m info) (restore_ppc_cap p)
          (restore_ppc_cap-Copies p c few) p.max_channels 0 v (x.granted ∙ (b.granted ∙ r.granted))
          (omega arith) (Cleared-Fillable p c ppcs ppc_base_cap _ s v r.calls calls) in
      let untouched' =
        Restored-Keeps p c notifications ntfn_base_cap (check_notification m info) ppcs ppc_base_cap
          (check_ppc m info) refl (λ j h. omega arith) v w y in
      let switches : v.ctxt.switch_count ≡ u.ctxt.switch_count = ap (λ x. x.switch_count) x.rest in
      let switches' : w.ctxt.switch_count ≡ v.ctxt.switch_count = ap (λ x. x.switch_count) y.rest in
      (
        v,
        w,
        run,
        run',
        record {
          ntfns =
              Enforced-Keeps p c notifications ntfn_base_cap _ s v w
                (Restored-Enforced p c notifications ntfn_base_cap _ s u v r.ntfns b.ntfns x)
                untouched';
          calls = Restored-Enforced p c ppcs ppc_base_cap _ s v w r.calls calls y;
          no_irqs = λ j h. ground (arith, y.states irqs j, x.states irqs j, b.no_irqs j h);
          switched = λ e. b.switched (sym switches ∙ (sym switches' ∙ e));
          monitor = ap monitor_of y.rest ∙ (ap monitor_of x.rest ∙ b.monitor);
        },
        SameMappings-trans u v w (with_states-SameMappings u v x.rest)
            (with_states-SameMappings v w y.rest),
        y.granted ∙ (x.granted ∙ (b.granted ∙ r.granted)),
      )

  -- Steps that touch no channel, whatever becomes of the grant.
  pub Enforces-Keeps :
      (s t u : Machine K)
      → Enforces s t
      → u.ctxt ≡ t.ctxt
      → ((a : ℕ) → slot u.kernel a ≡ slot t.kernel a)
      → ((a : ℕ) → backup u.kernel a ≡ backup t.kernel a)
      → Enforces s u
  Enforces-Keeps s t u b ctxts slots backups = record {
    ntfns = Enforced-Keeps p c notifications ntfn_base_cap _ s t u b.ntfns (record {
      states = λ j h. ap (λ x. x.states notifications j) ctxts;
      slots = λ j h. slots (ntfn_base_cap + j);
      backups = backups;
    });
    calls = Enforced-Keeps p c ppcs ppc_base_cap _ s t u b.calls (record {
      states = λ j h. ap (λ x. x.states ppcs j) ctxts;
      slots = λ j h. slots (ppc_base_cap + j);
      backups = backups;
    });
    no_irqs = λ j h. ap (λ x. x.states irqs j) ctxts ∙ b.no_irqs j h;
    switched = λ e. b.switched (sym (ap (λ x. x.switch_count) ctxts) ∙ e);
    monitor = ap monitor_of ctxts ∙ b.monitor;
  }

  pub Enforces-Frame : (s t u : Machine K) → Enforces s t → Frame p c t u → Enforces s u
  Enforces-Frame s t u b f = record {
    ntfns =
        Enforced-Keeps p c notifications ntfn_base_cap _ s t u b.ntfns
          (Frame-Keeps p c notifications ntfn_base_cap (check_notification m info) t u f);
    calls =
        Enforced-Keeps p c ppcs ppc_base_cap _ s t u b.calls
          (Frame-Keeps p c ppcs ppc_base_cap (check_ppc m info) t u f);
    no_irqs = λ j h. (λ i. f.states i irqs j) ∙ b.no_irqs j h;
    switched = λ e. b.switched (sym f.switches ∙ e);
    monitor = f.monitor ∙ b.monitor;
  }
