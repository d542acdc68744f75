-- ===== src/Tests/Images.antt =====
-- Images of the arena of Tests, sound and damaged, with a forest registry in the data of block 10.
pub mod Loads
use netkeep80_persist_memory.Base.{
  ℕ, ◌≡◌, refl, true, false, List, [], ◌∷◌, arith, ◌==◌, if◌then◌else◌, inl,
}
use netkeep80_persist_memory.Traits.{
  default_traits, size_max, header_granules, block_size, block_header_min_size,
  block_header_core_size,
}
use netkeep80_persist_memory.Node.{is_free}
use netkeep80_persist_memory.Memory.{Arena}
use netkeep80_persist_memory.Checked.{checked_granule_offset, checked_mul, fits_range, checked_add}
use netkeep80_persist_memory.Validation.{validate_block_index}
use netkeep80_persist_memory.Layout.{IsHeap, IsChained, IsCounted, bodies}
use netkeep80_persist_memory.Layout.Settled.{AllOn}
use netkeep80_persist_memory.FreeTree.BestFit.{Shape, leaf, node}
use netkeep80_persist_memory.Allocator.Relinked.{IsRepairable}
use netkeep80_persist_memory.Allocator.TreeCheck.Sound.{IsTreeOf, IsNode}
use netkeep80_persist_memory.Manager.{ok, is_valid_user_offset}
use netkeep80_persist_memory.ManagerLayout.{magic_number, current_image_version}
use netkeep80_persist_memory.State.{ForestDomainRecord, ForestDomainRegistry, ManagerState}
use netkeep80_persist_memory.Forest.{
  forest_registry_magic, forest_registry_version, system_domain_free_tree, system_domain_symbols,
  system_domain_registry, service_name_domain_root, strncmp_equal, forest_domain_name_equals,
  forest_domain_name_fits, find_slot, slot_in, record_at, is_registry, is_system, record_ok,
  record_is, forest_registry_root, find_domain_slot, find_domain_by_name, forest_domain_root_index,
  domain_ok, header_ok, registry_ok, validate_bootstrap_invariants,
}
use netkeep80_persist_memory.Image.{min_memory_size}
use netkeep80_persist_memory.Image.Refused.{IsImage, IsLoadable}
use netkeep80_persist_memory.Tests.{test_arena, test_arena-IsHeap, none_at}

abbrev pub layout : List ℕ
layout = 0 ∷ 10 ∷ 20 ∷ 30 ∷ []

abbrev pub test_domain : (binding root kind : ℕ) → List ℕ → ForestDomainRecord
test_domain binding root kind name = record {
  binding_id = binding;
  root_offset = root;
  symbol_offset = 22;
  binding_kind = kind;
  flags = 1;
  name = name;
}

abbrev pub test_registry : ForestDomainRegistry
test_registry = record {
  magic = forest_registry_magic;
  version = forest_registry_version;
  domain_count = 4;
  next_binding_id = 5;
  domains = λ k.
      if k == 0
      then test_domain 1 0 1 system_domain_free_tree
      else if k == 1
      then test_domain 2 22 0 system_domain_symbols
      else if k == 2
      then test_domain 3 12 0 system_domain_registry
      else test_domain 4 0 0 service_name_domain_root;
}

abbrev pub image_arena : Arena
image_arena = record test_arena {
  header = record test_arena.header { magic = magic_number; root_offset = 12 };
}

abbrev pub test_state : ManagerState
test_state = record {
  initialized = true;
  mapped = true;
  backend_size = 1024;
  last_error = ok;
  arena = image_arena;
  registry_at = λ j. test_registry;
}

-- what is left after the links back, the owners, the counters, the tree and the free weights are lost
abbrev pub damaged_arena : Arena
damaged_arena = record {
  blocks = λ j. record (test_arena.blocks j) {
    weight = if j == 30 then 1 else (test_arena.blocks j).weight;
    left_offset = 20;
    parent_offset = 3;
    root_offset = 99;
    prev_offset = 7;
  };
  header = record image_arena.header {
    used_size = 0;
    block_count = 1;
    free_count = 9;
    alloc_count = 2;
    last_block_offset = 10;
    free_tree_root = 20;
  };
}

abbrev pub damaged_state : ManagerState
damaged_state = record test_state { initialized = false; arena = damaged_arena }

abbrev pub registry_bytes : ℕ
registry_bytes = 64

pub image_arena-IsHeap : IsHeap default_traits image_arena layout
image_arena-IsHeap =
    let h = test_arena-IsHeap in
    record {
      chained = record {
        chain = h.chained.chain;
        fits = h.chained.fits;
        first = h.chained.first;
        last = h.chained.last;
      };
      counted = record {
        blocks = h.counted.blocks;
        frees = h.counted.frees;
        allocs = h.counted.allocs;
        used = h.counted.used;
      };
    }

abbrev pub one_node : Shape
one_node = node leaf 30 leaf

-- the image with another count of free blocks in its header
abbrev pub counted_arena : (free_count : ℕ) → Arena
counted_arena free_count = record image_arena {
  header = record image_arena.header { free_count = free_count };
}

pub counted_arena-IsTreeOf :
    (free_count : ℕ) → IsTreeOf default_traits (counted_arena free_count) layout one_node
unfolding is_free validate_block_index block_size block_header_min_size block_header_core_size
counted_arena-IsTreeOf free_count = record {
  tree = (
    refl,
    record {
      some_block = λ e. omega (arith, e);
      valid = refl;
      free = refl;
      parent_link = refl;
      above = tt;
      below = tt;
      stored_height = refl;
      byte = omega arith;
      balanced = (omega arith, omega arith);
    },
    refl,
    refl,
  );
  count = refl;
  complete = ((λ e. cc), ((λ e. cc), ((λ e. cc), ((λ e. inl refl), tt))));
}

pub image_arena-IsTreeOf : IsTreeOf default_traits image_arena layout one_node
image_arena-IsTreeOf = counted_arena-IsTreeOf 1

pub test_state-valid : validate_bootstrap_invariants default_traits registry_bytes test_state ≡ true
unfolding validate_bootstrap_invariants registry_ok header_ok domain_ok find_domain_by_name
    find_domain_slot forest_registry_root forest_domain_root_index record_at slot_in find_slot
    is_registry is_system record_ok record_is forest_domain_name_equals forest_domain_name_fits
    is_valid_user_offset checked_granule_offset checked_mul fits_range checked_add
test_state-valid = refl

pub damaged_arena-IsRepairable :
    AllOn (λ i. IsRepairable (bodies image_arena i)) (bodies damaged_arena) layout
unfolding is_free
damaged_arena-IsRepairable = (
  record { next = refl; type = refl; weight = λ e. refl },
  (
    record { next = refl; type = refl; weight = λ e. refl },
    (
      record { next = refl; type = refl; weight = λ e. refl },
      (record { next = refl; type = refl; weight = λ e. cc }, tt),
    ),
  ),
)

pub damaged_state-IsLoadable : IsLoadable default_traits damaged_state
unfolding min_memory_size block_size block_header_min_size block_header_core_size
damaged_state-IsLoadable = record {
  mapped = refl;
  large = omega arith;
  image = record { magic = refl; version = refl; size = refl; granule = refl };
}

pub test_state-IsLoadable : IsLoadable default_traits test_state
unfolding min_memory_size block_size block_header_min_size block_header_core_size
test_state-IsLoadable = record {
  mapped = refl;
  large = omega arith;
  image = record { magic = refl; version = refl; size = refl; granule = refl };
}
