-- ===== src/Ctxt.antt =====
-- The loader's context of include/libtrustedlo.h and its accessors. The four `allowed_…` arrays,
-- which the header's macros treat alike, are one array for each kind.
use libtrustedlo.Prelude.{ℕ, suc, ◌+◌, Bool, true, false, ◌&&◌, ◌==◌, if◌then◌else◌, update}
pub mod States

-- xrt_state_t is a byte; the code names four of its values.
abbrev pub XrtState : Type 0
XrtState = ℕ

abbrev pub unset : XrtState
unset = 0

abbrev pub allowed : XrtState
allowed = 1

abbrev pub used : XrtState
used = 2

abbrev pub keep : XrtState
keep = 3

pub data Kind : Type 0 where
  notifications ppcs irqs ioports : Kind

abbrev pub same_kind : Kind → Kind → Bool
same_kind notifications notifications = true
same_kind ppcs ppcs = true
same_kind irqs irqs = true
same_kind ioports ioports = true
same_kind _ _ = false

pub record Ctxt : Type 0 where
  pub child_id : ℕ
  pub switch_count : ℕ
  pub channel : ℕ
  pub call_id : ℕ
  pub states : Kind → ℕ → XrtState
  pub mapping_count : ℕ
  pub mapping_data : ℕ → ℕ
  pub mapping_state : ℕ → XrtState

-- `ctxt->field[id] = state`
unfoldable pub set_state : Kind → Ctxt → ℕ → XrtState → Ctxt
set_state kind ctxt id state = record ctxt {
  states = λ k i. if same_kind k kind && i == id then state else ctxt.states k i;
}

unfoldable pub check_state : Kind → Ctxt → ℕ → XrtState → Bool
check_state kind ctxt id state = ctxt.states kind id == state

unfoldable pub allow : Kind → Ctxt → ℕ → Ctxt
unfolding set_state check_state
allow kind ctxt id =
    set_state kind ctxt id (if check_state kind ctxt id used then keep else allowed)

unfoldable pub allow_mapping : Ctxt → ℕ → Ctxt
allow_mapping ctxt mapping_cookie =
    let index = ctxt.mapping_count in
    let next_state = if ctxt.mapping_state index == used then keep else allowed in
    record ctxt {
      mapping_state = update ctxt.mapping_state index next_state;
      mapping_data = update ctxt.mapping_data index mapping_cookie;
      mapping_count = index + 1;
    }
