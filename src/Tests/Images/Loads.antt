-- ===== src/Tests/Images/Loads.antt =====
-- The theorems on `load`, `verify` and the forest registry, applied to the images of Tests.Images.
use netkeep80_persist_memory.Base.{Bool, if◌then◌else◌, ◌≡◌, ◌≤◌, ◌⊎◌, refl, true, some, arith}
use netkeep80_persist_memory.Traits.{default_traits, size_max, block_size}
use netkeep80_persist_memory.Diagnostics.{IsBounded, fresh, repair, add, counter_mismatch, rebuilt}
use netkeep80_persist_memory.Layout.{IsHeap, bodies}
use netkeep80_persist_memory.Layout.Settled.{AllOn, AgreesOn}
use netkeep80_persist_memory.Allocator.Repair.{
  repair_linked_list, no_counters, rebuild_free_tree, rebuild_step, recompute_counters,
  accumulate_counters, count_block, repair_step,
}
use netkeep80_persist_memory.Walker.{for_each_physical_block, walk, follow}
use netkeep80_persist_memory.Allocator.Relinked.{IsRelinked, repair_linked_list-IsRelinked}
use netkeep80_persist_memory.Allocator.TreeCheck.{verify_free_tree}
use netkeep80_persist_memory.Allocator.TreeCheck.Silent.{verify_free_tree-IsTreeOf}
use netkeep80_persist_memory.Forest.{
  validate_bootstrap_invariants, verify_forest_registry, system_domain_registry,
  service_name_domain_root, set_domain_root, get_domain_root_offset, find_domain_slot, slot_in,
  find_slot, forest_registry_root, is_registry, forest_domain_name_equals, forest_domain_name_fits,
  registry_ok, header_ok, domain_ok, find_domain_by_name, forest_domain_root_index, record_at,
  is_system, record_ok, record_is,
}
use netkeep80_persist_memory.Forest.Agreement.{verify_forest_registry-validate_bootstrap_invariants}
use netkeep80_persist_memory.Forest.Root.{get_domain_root_offset-set_domain_root}
use netkeep80_persist_memory.Node.{is_free, is_allocated}
use netkeep80_persist_memory.BlockState.{repair_prev_offset, recover_state, reset_avl_fields_of}
use netkeep80_persist_memory.FreeTree.{insert, unlinked, set_root}
use netkeep80_persist_memory.Checked.{
  fits, checked_granule_offset, checked_mul, fits_range, checked_add,
}
use netkeep80_persist_memory.Manager.{is_valid_user_offset}
use netkeep80_persist_memory.Image.{
  verify_manager, repaired_state, load_accepted, load, min_memory_size, repair_arena,
  image_version_requires_migration,
}
use netkeep80_persist_memory.State.{ManagerState}
use netkeep80_persist_memory.Allocator.Verify.{counters_match}
use netkeep80_persist_memory.Allocator.Counting.{counted_on}
use netkeep80_persist_memory.Image.Verified.{verify_manager-IsHeap}
use netkeep80_persist_memory.Image.Loaded.{IsFinished, load-IsHeap, load-report}
use netkeep80_persist_memory.Image.Refused.{IsLoadable, IsRefusal, load-IsLoadable}
use netkeep80_persist_memory.Tests.{default-IsTraits, test_tree}
use netkeep80_persist_memory.Tests.Images.{
  layout, counted_arena, counted_arena-IsTreeOf, image_arena, image_arena-IsHeap,
  image_arena-IsTreeOf, one_node, test_state, test_state-valid, test_state-IsLoadable,
  damaged_arena, damaged_state, damaged_arena-IsRepairable, damaged_state-IsLoadable,
  registry_bytes,
}

wide : image_arena.header.total_size ≤ size_max
wide = omega arith

fresh-IsBounded : IsBounded fresh
fresh-IsBounded = record { filled = refl; fits = omega arith }

-- the bootstrap of a registry that is complete
abbrev complete : ManagerState → ManagerState × Bool
complete s = (s, true)

load-IsHeap_example :
    ((repaired_state default_traits test_tree damaged_state).initialized ≡ true)
    × ((repaired_state default_traits test_tree damaged_state).registry_at
        ≡ damaged_state.registry_at)
    × IsHeap default_traits (repaired_state default_traits test_tree damaged_state).arena layout
    × AgreesOn
        (bodies image_arena)
        (bodies (repaired_state default_traits test_tree damaged_state).arena)
        layout
    × IsFinished default_traits registry_bytes
        (complete (repaired_state default_traits test_tree damaged_state))
        (load default_traits test_tree registry_bytes complete fresh damaged_state)
load-IsHeap_example =
    load-IsHeap default-IsTraits test_tree registry_bytes complete layout fresh damaged_state
      damaged_state-IsLoadable image_arena image_arena-IsHeap wide refl refl
      damaged_arena-IsRepairable

-- an image whose counters are wrong
abbrev miscounted_state : ManagerState
miscounted_state = record test_state { arena = counted_arena 9 }

miscounted_state-IsLoadable : IsLoadable default_traits miscounted_state
unfolding min_memory_size
miscounted_state-IsLoadable =
    let k = test_state-IsLoadable in
    record {
      mapped = refl;
      large = k.large;
      image = record { magic = refl; version = refl; size = refl; granule = refl };
    }

miscounted_state-valid :
    validate_bootstrap_invariants default_traits registry_bytes
      (repaired_state default_traits test_tree miscounted_state)
    ≡ true
unfolding validate_bootstrap_invariants registry_ok header_ok domain_ok find_domain_by_name
    find_domain_slot forest_registry_root forest_domain_root_index record_at slot_in find_slot
    is_registry is_system record_ok record_is forest_domain_name_equals forest_domain_name_fits
    is_valid_user_offset checked_granule_offset checked_mul fits_range checked_add repaired_state
    repair_arena image_version_requires_migration rebuild_free_tree rebuild_step recompute_counters
    accumulate_counters count_block repair_linked_list repair_step for_each_physical_block walk
    follow fits block_size repair_prev_offset is_free recover_state is_allocated insert unlinked
    set_root reset_avl_fields_of
miscounted_state-valid = refl

load-report_example :
    (load default_traits test_tree registry_bytes complete fresh miscounted_state).report ≡ (
      if counters_match default_traits miscounted_state.arena.header
        (counted_on default_traits miscounted_state.arena no_counters layout)
      then record fresh { mode = repair; ok = true }
      else add counter_mismatch rebuilt 0 4 4 (record fresh { mode = repair; ok = true }))
load-report_example =
    load-report default-IsTraits test_tree registry_bytes complete layout fresh miscounted_state
      miscounted_state-IsLoadable one_node
      (record {
        chain = image_arena-IsHeap.chained.chain;
        fits = image_arena-IsHeap.chained.fits;
        first = refl;
        last = refl;
      })
      wide (counted_arena-IsTreeOf 9) fresh-IsBounded miscounted_state-valid refl

-- an image without the magic number
abbrev nameless_state : ManagerState
nameless_state = record test_state {
  arena = record image_arena { header = record image_arena.header { magic = 0 } };
}

load-IsLoadable_example :
    (IsLoadable default_traits nameless_state
      × (load default_traits test_tree registry_bytes complete fresh nameless_state
          ≡ load_accepted default_traits test_tree registry_bytes complete
              (record fresh { mode = repair; ok = true })
              nameless_state))
    ⊎ ((¬ IsLoadable default_traits nameless_state)
        × IsRefusal default_traits fresh nameless_state
            (load default_traits test_tree registry_bytes complete fresh nameless_state))
load-IsLoadable_example =
    load-IsLoadable default_traits test_tree registry_bytes complete fresh nameless_state

repair_linked_list-IsRelinked_example :
    AllOn
      (λ i. IsRelinked (bodies image_arena i))
      (bodies (repair_linked_list default_traits damaged_arena))
      layout
    × ((repair_linked_list default_traits damaged_arena).blocks 30
        ≡ record (damaged_arena.blocks 30) {
          prev_offset = ((repair_linked_list default_traits damaged_arena).blocks 30).prev_offset;
        })
    × ((repair_linked_list default_traits damaged_arena).header ≡ damaged_arena.header)
repair_linked_list-IsRelinked_example =
    repair_linked_list-IsRelinked default-IsTraits (bodies image_arena) damaged_arena layout
      (image_arena-IsHeap.chained.chain) (image_arena-IsHeap.chained.fits) refl wide
      damaged_arena-IsRepairable 30

verify_manager-IsHeap_example : verify_manager default_traits registry_bytes test_state ≡ fresh
verify_manager-IsHeap_example =
    verify_manager-IsHeap default-IsTraits registry_bytes layout one_node test_state
      image_arena-IsHeap wide image_arena-IsTreeOf test_state-valid

verify_free_tree-IsTreeOf_example : verify_free_tree default_traits image_arena fresh ≡ fresh
verify_free_tree-IsTreeOf_example =
    verify_free_tree-IsTreeOf default-IsTraits image_arena layout one_node fresh
      (image_arena-IsHeap.chained) wide image_arena-IsTreeOf

verify_forest_registry-validate_bootstrap_invariants_example :
    verify_forest_registry default_traits registry_bytes test_state fresh ≡ fresh
verify_forest_registry-validate_bootstrap_invariants_example =
    verify_forest_registry-validate_bootstrap_invariants default_traits registry_bytes test_state
      fresh test_state-valid

slots :
    (find_domain_slot default_traits registry_bytes test_state service_name_domain_root ≡ some 3)
    × (find_domain_slot default_traits registry_bytes test_state system_domain_registry ≡ some 2)
unfolding find_domain_slot slot_in find_slot forest_registry_root is_registry
    forest_domain_name_equals forest_domain_name_fits is_valid_user_offset checked_granule_offset
    checked_mul fits_range checked_add
slots = (refl, refl)

get_domain_root_offset-set_domain_root_example :
    ((set_domain_root default_traits registry_bytes test_state service_name_domain_root 22).1
      ≡ true)
    × (get_domain_root_offset default_traits registry_bytes
          (set_domain_root default_traits registry_bytes test_state service_name_domain_root 22).0
          service_name_domain_root
        ≡ 22)
    × (get_domain_root_offset default_traits registry_bytes
          (set_domain_root default_traits registry_bytes test_state service_name_domain_root 22).0
          system_domain_registry
        ≡ get_domain_root_offset default_traits registry_bytes test_state system_domain_registry)
get_domain_root_offset-set_domain_root_example =
    get_domain_root_offset-set_domain_root default_traits registry_bytes test_state
      service_name_domain_root system_domain_registry 22 3 2 refl slots.0 refl slots.1
      (λ e. omega (arith, e))
