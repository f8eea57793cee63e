-- ===== src/Tests/Kernel.antt =====
-- A kernel that keeps the two CNodes the library works on, as functions of the slot, and counts
-- the ranges of pages that are mapped; they can be reached while the grant is there.
use libtrustedlo.Prelude.{
  ℕ, ◌+◌, ◌-◌, ◌*◌, ◌^◌, ◌≡◌, ◌≢◌, ◌∙◌, ap, ◌⊎◌, inl, inr, Bool, true, false, refl, ◌==◌,
  if◌then◌else◌, update, Option, none, some, arith,
}
use libtrustedlo.Platform.{
  Status, no_error, failed_lookup, error, aarch64, Invocation, cnode_delete, cnode_copy,
  arm_map_absolute, arm_unmap_absolute, Platform,
}
use libtrustedlo.Cap.CSpace.{CSpace}
use libtrustedlo.Monitor.Regrant.{Regrants}

pub record Slots : Type 0 where
  pub slots : ℕ → Option ℕ
  pub backups : ℕ → Option ℕ
  pub mapped : ℕ
  pub granted : Bool

-- Microkit's layout: six bits of root CNode on top of the 64-bit word.
abbrev pub cptr : ℕ → ℕ
cptr slot = slot * 2 ^ 58

abbrev pub microkit_cnode : ℕ
microkit_cnode = 15 * 2 ^ 58 + 1

-- The root CNode of the domain 0, as its loader and as the monitor names it.
abbrev pub loader_root : ℕ
loader_root = 15 * 2 ^ 58 + 2

abbrev pub monitor_root : ℕ
monitor_root = 48 * 2 ^ 58 + 2

abbrev pub fill : Option ℕ → Option ℕ → ℕ → Slots → Status × Slots
fill (some old) source dest k = (error 8, k)
fill none none dest k = (failed_lookup, k)
fill none (some cap) dest k = (no_error, record k { slots = update k.slots dest (some cap) })

-- Deleting the grant, from the loader or from the monitor.
abbrev pub drop_grant : Bool → Slots → Status × Slots
drop_grant true k = (no_error, record k { granted = false })
drop_grant false k = (failed_lookup, k)

abbrev pub give_grant : Bool → Slots → Status × Slots
give_grant true k = (error 8, k)
give_grant false k = (no_error, record k { granted = true })

abbrev pub reached : Bool → Status × Slots → Slots → Status × Slots
reached true result k = result
reached false result k = (failed_lookup, k)

abbrev pub invoke : Invocation → Slots → Status × Slots
invoke (cnode_delete cnode i depth) k =
    if cnode == microkit_cnode
    then reached k.granted (no_error, record k { slots = update k.slots i none }) k
    else if cnode == loader_root
    then drop_grant k.granted k
    else if cnode == monitor_root
    then drop_grant k.granted k
    else (no_error, k)
invoke (cnode_copy dest_cnode dest dest_depth src_cnode src src_depth rights) k =
    if dest_cnode == microkit_cnode
    then reached k.granted (fill (k.slots dest) (k.backups src) dest k) k
    else if dest_cnode == monitor_root
    then give_grant k.granted k
    else (no_error, k)
invoke (arm_map_absolute frames vaddr rights attrs) k =
    (no_error, record k { mapped = k.mapped + 1 })
invoke (arm_unmap_absolute frames) k = (no_error, record k { mapped = k.mapped - 1 })
invoke _ k = (no_error, k)

abbrev pub platform : Platform Slots
platform = record {
  invoke = invoke;
  arch = aarch64;
  word_bits = 64;
  max_channels = 62;
  all_rights = 15;
  root_slot_to_cptr = cptr;
}

pub fill_status :
    (o : Option ℕ) (s : Option ℕ) (d cap : ℕ) (k : Slots)
    → o ≡ none
    → s ≡ some cap
    → (fill o s d k).0 ≡ no_error
fill_status o s d cap k e f = ground arith

pub fill_slots :
    (o : Option ℕ) (s : Option ℕ) (d cap : ℕ) (k : Slots)
    → o ≡ none
    → s ≡ some cap
    → (a : ℕ) → (fill o s d k).1.slots a ≡ (if a == d then some cap else k.slots a)
fill_slots o s d cap k e f a = ground arith

pub fill_backups :
    (o : Option ℕ) (s : Option ℕ) (d : ℕ) (k : Slots) (a : ℕ)
    → (fill o s d k).1.backups a ≡ k.backups a
fill_backups o s d k a = ground arith

pub fill_occupied :
    (o : Option ℕ) (s : Option ℕ) (d cap : ℕ) (k : Slots)
    → o ≡ some cap
    → (fill o s d k).0 ≢ no_error
fill_occupied o s d cap k e h = ground arith

pub drop_granted : (b : Bool) (k : Slots) → k.granted ≡ b → (drop_grant b k).1.granted ≡ false
drop_granted true k e = refl
drop_granted false k e = e

pub drop_slots : (b : Bool) (k : Slots) (a : ℕ) → (drop_grant b k).1.slots a ≡ k.slots a
drop_slots b k a = ground arith

pub drop_backups : (b : Bool) (k : Slots) (a : ℕ) → (drop_grant b k).1.backups a ≡ k.backups a
drop_backups b k a = ground arith

give_slots : (b : Bool) (k : Slots) (a : ℕ) → (give_grant b k).1.slots a ≡ k.slots a
give_slots b k a = ground arith

give_backups : (b : Bool) (k : Slots) (a : ℕ) → (give_grant b k).1.backups a ≡ k.backups a
give_backups b k a = ground arith

pub fill_granted :
    (o : Option ℕ) (s : Option ℕ) (d : ℕ) (k : Slots) → (fill o s d k).1.granted ≡ k.granted
fill_granted o s d k = ground arith

pub reached_on :
    (b : Bool) (result : Status × Slots) (k : Slots) → b ≡ true → reached b result k ≡ result
reached_on b result k e = rw e refl

pub reached_backups :
    (b : Bool) (result : Status × Slots) (k : Slots) (a : ℕ)
    → result.1.backups a ≡ k.backups a
    → (reached b result k).1.backups a ≡ k.backups a
reached_backups b result k a e = ground (arith, e)

pub reached_granted :
    (b : Bool) (result : Status × Slots) (k : Slots)
    → result.1.granted ≡ k.granted
    → (reached b result k).1.granted ≡ k.granted
reached_granted b result k e = ground (arith, e)

pub reached_fails :
    (b : Bool) (result : Status × Slots) (k : Slots)
    → result.0 ≢ no_error
    → (reached b result k).0 ≢ no_error
reached_fails true result k e = e
reached_fails false result k e = λ x. absurd (cc x)

abbrev pub cspace : CSpace platform
cspace = record {
  slot = λ k. k.slots;
  backup = λ k. k.backups;
  granted = λ k. k.granted;
  delete_status = λ k i on h. rw on refl;
  delete_slot = λ k i on h a. rw on refl;
  delete_backup = λ k i a. reached_backups k.granted _ k a refl;
  delete_granted = λ k i. reached_granted k.granted _ k refl;
  copy_status = λ k d s cap on h e f.
      ap (λ x. x.0) (reached_on k.granted (fill (k.slots d) (k.backups s) d k) k on)
      ∙ fill_status _ _ d cap k e f;
  copy_slot = λ k d s cap on h e f a.
      ap (λ x. x.1.slots a) (reached_on k.granted (fill (k.slots d) (k.backups s) d k) k on)
      ∙ fill_slots _ _ d cap k e f a;
  copy_backup = λ k d s a.
      reached_backups k.granted (fill (k.slots d) (k.backups s) d k) k a (fill_backups _ _ d k a);
  copy_granted = λ k d s.
      reached_granted k.granted (fill (k.slots d) (k.backups s) d k) k (fill_granted _ _ d k);
  copy_occupied = λ k d s cap e.
      reached_fails k.granted (fill (k.slots d) (k.backups s) d k) k
        (fill_occupied _ (k.backups s) d cap k e);
  root_status = λ k on. rw on refl;
  root_granted = λ k. drop_granted k.granted k refl;
  root_slot = λ k a. drop_slots k.granted k a;
  root_backup = λ k a. drop_backups k.granted k a;
  map_slot = λ k page vaddr rights attrs num a. refl;
  map_backup = λ k page vaddr rights attrs num a. refl;
  map_granted = λ k page vaddr rights attrs num. refl;
  unmap_slot = λ k page num a. refl;
  unmap_backup = λ k page num a. refl;
  unmap_granted = λ k page num. refl;
}

drop_status :
    (b : Bool) (k : Slots) → ((drop_grant b k).0 ≡ no_error) ⊎ ((drop_grant b k).0 ≡ failed_lookup)
drop_status true k = inl refl
drop_status false k = inr refl

-- The monitor of the domain 0.
pub regrants : Regrants platform cspace 0
regrants = record {
  ungrant_status = λ k. drop_status k.granted k;
  ungrant_granted = λ k. drop_granted k.granted k refl;
  ungrant_slot = λ k a. drop_slots k.granted k a;
  ungrant_backup = λ k a. drop_backups k.granted k a;
  grant_status = λ k off. rw off refl;
  grant_granted = λ k off. rw off refl;
  grant_slot = λ k a. give_slots k.granted k a;
  grant_backup = λ k a. give_backups k.granted k a;
}
