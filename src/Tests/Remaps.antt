-- ===== src/Tests/Remaps.antt =====
-- A request for a channel and for a memory region.
use libtrustedlo.Prelude.{
  ℕ, zero, suc, ◌+◌, ◌*◌, ◌≡◌, ◌<◌, refl, ◌⊎◌, inl, inr, false, ◌==◌, ◌&&◌, if◌then◌else◌, arith,
  [], ◌∷◌,
}
use libtrustedlo.Memory.{Memory}
use libtrustedlo.Bytes.{read_le16, read_le64}
use libtrustedlo.Dlg.{find_resource, find_loop, delegator_resource}
use libtrustedlo.Platform.{done, no_error}
use libtrustedlo.Ctxt.{notifications, unset, allowed, same_kind}
use libtrustedlo.Xrt.{Machine, check_notification, check_ppc, check_mapping}
use libtrustedlo.Request.{total_num, serialised_offset}
use libtrustedlo.Switch.{context_switch, enforce_pola}
use libtrustedlo.Switch.Phases.{Consistent, Enforces}
use libtrustedlo.Switch.Remap.{AllPending, Remapped, enforce_pola-Remapped}
use libtrustedlo.Switch.Settled.{Settled, Once, Round}
use libtrustedlo.Switch.Success.{AllMapped, context_switch_succeeds}
use libtrustedlo.Switch.Valid.{Valid, Grantable, Remappable}
use libtrustedlo.Tests.Kernel.{Slots, platform, cspace}
use libtrustedlo.Tests.Store.{bytes, info, header}
use libtrustedlo.Tests.Rounds.{fresh, fresh_ctxt}

-- The metadata delegates notification channel 3, and two pages from slot 140 to be mapped at
-- 2 ^ 16; the request asks for both.
abbrev pub both : Memory
both = bytes (
    (4098, 2)
    ∷ (4112, 1)
    ∷ (4118, 3)
    ∷ (4134, 3)
    ∷ (4136, 140)
    ∷ (4138, 2)
    ∷ (4142, 1)
    ∷ (8192, 2)
    ∷ (8200, 16)
    ∷ (8208, 1)
    ∷ (8216, 3)
    ∷ (8224, 5)
    ∷ (8234, 1)
    ∷ [])

delegated : (j : ℕ) → check_notification both info j ≡ (3 == j)
unfolding check_notification find_resource find_loop delegator_resource read_le16 read_le64
delegated j = ground arith

no_ppcs : (j : ℕ) → check_ppc both info j ≡ false
unfolding check_ppc find_resource find_loop delegator_resource read_le16 read_le64
no_ppcs j = refl

both-Settled : Settled platform cspace (omega arith) both info fresh
both-Settled = record {
  ntfns = record {
    known = λ j h d. refl;
    slots = λ j h d. refl;
    full = λ j h d e. ground (arith, delegated j);
    range = λ j h. omega arith;
    fresh = λ e j h. refl;
  };
  calls = record {
    known = λ j h d. refl;
    slots = λ j h d. refl;
    full = λ j h d e. ground (arith, no_ppcs j);
    range = λ j h. omega arith;
    fresh = λ e j h. refl;
  };
  no_irqs = λ j h. refl;
  idle_ntfns = λ j h. refl;
  idle_calls = λ j h. refl;
}

both-Once : Once platform cspace (omega arith) both info header
unfolding read_le64
both-Once = record { ntfns = λ id. ground arith; calls = λ id. ground arith }

both-Valid : Valid platform cspace (omega arith) both info header
unfolding read_le64 check_notification check_mapping find_resource find_loop delegator_resource
    read_le16
both-Valid = record {
  present = λ e. absurd (cc e);
  size = omega arith;
  offset = omega arith;
  entries = all;
  mappings = omega arith;
}
  where
    channel : Grantable platform cspace (omega arith) both info 8208
    channel = record { kind = notifications; type = refl; range = omega arith; delegated = refl }

    memory : Remappable platform cspace (omega arith) both info 8224
    memory = record {
      type = refl;
      cookie = 4134;
      delegated = refl;
      mappable = record { region = refl; from = omega arith; to = omega arith; maps = λ k. refl };
    }

    all :
        (i : ℕ)
        → i < total_num both header
        → let entry = header + serialised_offset both header + i * 16 in
          Grantable platform cspace (omega arith) both info entry
          ⊎ Remappable platform cspace (omega arith) both info entry
    all zero lt = inl channel
    all (suc zero) lt = inr memory
    all (suc (suc i)) lt = absurd (omega (arith, lt))

-- The context when both have been read.
abbrev asking : Machine Slots
asking = record fresh {
  ctxt = record fresh_ctxt {
    states = λ kind j. if same_kind kind notifications && j == 3 then allowed else unset;
    mapping_count = 1;
    mapping_data = λ j. 4134;
    mapping_state = λ j. if j == 0 then allowed else unset;
  };
}

asking-Consistent : Consistent platform cspace (omega arith) both info asking
asking-Consistent = record {
  granted = refl;
  ntfns = record {
    known = λ j h d. ground (arith, delegated j, d);
    slots = λ j h d. ground arith;
    full = λ j h d e. ground (arith, delegated j);
    range = λ j h. ground arith;
    fresh = λ e j h. ground arith;
  };
  calls = record {
    known = λ j h d. refl;
    slots = λ j h d. refl;
    full = λ j h d e. ground (arith, no_ppcs j);
    range = λ j h. omega arith;
    fresh = λ e j h. refl;
  };
  no_irqs = λ j h. refl;
}

asking-AllPending : AllPending platform cspace (omega arith) both info asking
unfolding read_le16 read_le64
asking-AllPending = record {
  state = λ j lo hi. inl (ground arith);
  mappable =
      λ j lo hi. record { region = refl; from = omega arith; to = omega arith; maps = λ k. refl };
}

enforce_pola-Remapped_example :
    (t : Machine Slots) × (enforce_pola platform both info asking ≡ done no_error t)
    × Enforces platform cspace (omega arith) both info asking t
    × Remapped platform cspace (omega arith) both info asking t
enforce_pola-Remapped_example =
    enforce_pola-Remapped platform cspace (omega arith) both info asking asking-Consistent
      asking-AllPending

context_switch_succeeds_example :
    (t : Machine Slots) × (context_switch platform both info header fresh ≡ done no_error t)
    × Round platform cspace (omega arith) both info header fresh t
    × AllMapped platform cspace (omega arith) both info header t
context_switch_succeeds_example =
    context_switch_succeeds platform cspace (omega arith) both info header fresh refl both-Settled
      both-Once both-Valid
