-- ===== src/Image.antt =====
-- include/pmm/verify_repair_mixin.inc, and `load`, `verify`, `destroy` and `destroy_image` of
-- include/pmm/persist_memory_manager.h: what is checked of an image, and what is repaired.
pub mod Verified
pub mod Repaired
pub mod Refused
pub mod Loaded
use netkeep80_persist_memory.Base.{
  ℕ, ◌+◌, ◌%◌, Bool, true, false, ◌&&◌, ◌||◌, not, Option, none, some, List, [], ◌∷◌, zero, suc,
  ◌==◌, ltb, if◌then◌else◌,
}
use netkeep80_persist_memory.Traits.{Traits, default_traits, block_size}
use netkeep80_persist_memory.Memory.{ManagerHeader, Arena, with_header}
use netkeep80_persist_memory.Diagnostics.{
  ViolationType, DiagnosticAction, DiagnosticEntry, VerifyResult, add, fresh, header_corruption,
  forest_registry_missing, forest_domain_missing, forest_domain_flags_missing, aborted, repaired,
  rebuilt, verify, repair,
}
use netkeep80_persist_memory.Validation.{validate_block_header_full}
use netkeep80_persist_memory.Walker.{continue, for_each_physical_block}
use netkeep80_persist_memory.FreeTree.Policy.{FreeBlockTreePolicy}
use netkeep80_persist_memory.Allocator.Repair.{
  repair_linked_list, recompute_counters, rebuild_free_tree,
}
use netkeep80_persist_memory.Allocator.Verify.{
  verify_linked_list, verify_counters, verify_block_states,
}
use netkeep80_persist_memory.Allocator.TreeCheck.{verify_free_tree}
use netkeep80_persist_memory.Manager.{
  PmmError, ok, invalid_magic, unsupported_image_version, size_mismatch, granule_mismatch,
  backend_error, invalid_size,
}
use netkeep80_persist_memory.ManagerLayout.{magic_number, current_image_version}
use netkeep80_persist_memory.State.{ManagerState}
use netkeep80_persist_memory.Forest.{verify_forest_registry, validate_bootstrap_invariants}

-- `kMinMemorySize`; `sizeof( ManagerHeader<DefaultAddressTraits> )` is 64, as the source asserts
unfoldable pub min_memory_size : ℕ
min_memory_size =
    block_size default_traits + 64 + block_size default_traits + (block_size default_traits + 16)

unfoldable pub is_supported_image_version : ℕ → Bool
is_supported_image_version image_version = image_version == current_image_version

unfoldable pub image_version_requires_migration : ℕ → Bool
image_version_requires_migration image_version = false

-- what is wrong with a header: the error, and the two values that are reported
pub record HeaderViolation : Type 0 where
  pub error : PmmError
  pub expected : ℕ
  pub actual : ℕ

-- The four guards on the header, with which `load` and `verify_image_unlocked` begin.
unfoldable pub header_violation :
    Traits → (backend_size : ℕ) → ManagerHeader → Option HeaderViolation
header_violation at backend_size hdr =
    if not (hdr.magic == magic_number)
    then some (record { error = invalid_magic; expected = magic_number; actual = hdr.magic })
    else if not (is_supported_image_version hdr.image_version)
    then some (record {
      error = unsupported_image_version;
      expected = current_image_version;
      actual = hdr.image_version;
    })
    else if not (hdr.total_size == backend_size)
    then some (record { error = size_mismatch; expected = backend_size; actual = hdr.total_size })
    else if not (hdr.granule_size == at.granule_size % 65536)
    then some
        (record { error = granule_mismatch; expected = at.granule_size; actual = hdr.granule_size })
    else none

unfoldable pub report_header : HeaderViolation → VerifyResult → VerifyResult
report_header v r = add header_corruption aborted 0 v.expected v.actual r

module _ (at : Traits) (registry_size : ℕ) where
  -- the walk of `verify_image_unlocked`, and the checks behind it
  unfoldable pub verify_arena : Arena → VerifyResult → VerifyResult
  verify_arena a r = verify_free_tree at a (
      verify_counters at a (
        verify_linked_list at a (
          verify_block_states at a (
            (for_each_physical_block at (λ s. a)
              (λ idx s. (continue, validate_block_header_full at a a.header.total_size idx s))
              r).1))))

  -- `verify_image_unlocked`, from the guards on
  unfoldable pub verify_guarded :
      Option HeaderViolation → ManagerState → VerifyResult → VerifyResult
  verify_guarded (some v) s r = report_header v r
  verify_guarded none s r = verify_forest_registry at registry_size s (verify_arena s.arena r)

  unfoldable pub verify_image : ManagerState → VerifyResult → VerifyResult
  verify_image s r =
      verify_guarded (header_violation at s.backend_size s.arena.header) s
        (record r { mode = verify; ok = true })

  -- `PersistMemoryManager::verify`
  unfoldable pub verify_manager : ManagerState → VerifyResult
  verify_manager s =
      if not (s.initialized) || not (s.mapped)
      then add header_corruption aborted 0 0 0 fresh
      else verify_image s fresh

-- `mark_entries`: the entries from the slot `from` on get the action
abbrev pub mark_from : ℕ → DiagnosticAction → List DiagnosticEntry → List DiagnosticEntry
mark_from from act [] = []
mark_from zero act (e ∷ r) = record e { action = act } ∷ mark_from zero act r
mark_from (suc n) act (e ∷ r) = e ∷ mark_from n act r

-- a check in `load`, whose entries are marked with what is done about them
unfoldable pub marked :
    DiagnosticAction → (VerifyResult → VerifyResult) → VerifyResult → VerifyResult
marked act check r =
    let checked : VerifyResult = check r in
    record checked { entries = mark_from r.entry_count act checked.entries }

-- what `load` leaves: the state and the report, and whether it has returned false
pub record Loading : Type 0 where
  pub state : ManagerState
  pub report : VerifyResult
  pub refused : Bool

unfoldable pub refuse : PmmError → VerifyResult → ManagerState → Loading
refuse e r s = record { state = record s { last_error = e }; report = r; refused = true }

module _ (at : Traits) where
  -- the checks of `load` on an image whose header is accepted
  unfoldable pub inspect : Arena → VerifyResult → VerifyResult
  inspect a r = marked rebuilt (verify_free_tree at a) (
      marked rebuilt (verify_counters at a)
        (marked repaired (verify_linked_list at a) (marked repaired (verify_block_states at a) r)))

module _ (at : Traits) (ft : FreeBlockTreePolicy) where
  -- what `load` writes to the arena
  unfoldable pub repair_arena : Arena → Arena
  repair_arena a =
      let migrated : ℕ → ℕ =
        λ v. if image_version_requires_migration v then current_image_version else v in
      rebuild_free_tree at ft (
        recompute_counters at (
          repair_linked_list at (
            with_header
              (λ h. record h {
                image_version = migrated h.image_version;
                owns_memory = false;
                prev_total_size = 0;
              })
              a)))

  -- what `load` has made of the manager before it comes to the forest registry
  unfoldable pub repaired_state : ManagerState → ManagerState
  repaired_state s = record s { initialized = true; arena = repair_arena s.arena }

-- the entries of the check of the registry, added to the report of `load`
abbrev pub add_repaired : List DiagnosticEntry → VerifyResult → VerifyResult
add_repaired [] r = r
add_repaired (e ∷ es) r = add_repaired es (add e.type repaired e.block_index e.expected e.actual r)

abbrev pub is_forest_violation : ViolationType → Bool
is_forest_violation forest_registry_missing = true
is_forest_violation forest_domain_missing = true
is_forest_violation forest_domain_flags_missing = true
is_forest_violation other = false

-- the entries on the registry, once the bootstrap has failed
abbrev pub abort_forest : List DiagnosticEntry → List DiagnosticEntry
abort_forest [] = []
abort_forest (e ∷ es) =
    (if is_forest_violation e.type then record e { action = aborted } else e) ∷ abort_forest es

-- `validate_or_bootstrap` is `validate_or_bootstrap_forest_registry_unlocked`: the state that it leaves,
-- and whether it succeeds.
module _ (at : Traits) (ft : FreeBlockTreePolicy) (registry_size : ℕ)
    (validate_or_bootstrap : ManagerState → ManagerState × Bool) where
  -- `load` once the bootstrap has returned
  unfoldable pub finish_load : ManagerState × Bool → VerifyResult → Loading
  finish_load (s, done) r =
      if not done
      then record {
        state = record s { initialized = false };
        report = record r { entries = abort_forest r.entries };
        refused = true;
      }
      else if not (validate_bootstrap_invariants at registry_size s)
      then record { state = record s { initialized = false }; report = r; refused = true }
      else record { state = record s { last_error = ok }; report = r; refused = false }

  -- `load` of an image whose header is accepted
  unfoldable pub load_accepted : VerifyResult → ManagerState → Loading
  load_accepted r s =
      let s1 : ManagerState = repaired_state at ft s in
      let forest : VerifyResult = verify_forest_registry at registry_size s1 fresh in
      finish_load (validate_or_bootstrap s1) (add_repaired forest.entries (inspect at s.arena r))

  unfoldable pub load_guarded : Option HeaderViolation → VerifyResult → ManagerState → Loading
  load_guarded (some v) r s = refuse v.error (report_header v r) s
  load_guarded none r s = load_accepted r s

  unfoldable pub load : VerifyResult → ManagerState → Loading
  load result s =
      let r : VerifyResult = record result { mode = repair; ok = true } in
      if not (s.mapped) || ltb s.backend_size min_memory_size
      then refuse (if not (s.mapped) then backend_error else invalid_size)
          (add header_corruption aborted 0 0 0 r) s
      else load_guarded (header_violation at s.backend_size s.arena.header) r s

unfoldable pub destroy : ManagerState → ManagerState
destroy s = if not (s.initialized) then s else record s { initialized = false }

unfoldable pub destroy_image : ManagerState → ManagerState
destroy_image s = record s {
  initialized = false;
  arena =
      if s.mapped && not (ltb s.backend_size min_memory_size)
      then with_header (λ h. record h { magic = 0 }) s.arena
      else s.arena;
}
