-- ===== src/Tests.antt =====
-- An arena of 64 granules with the manager's block, two blocks in use and a free one, and runs of the
-- model on it.
pub mod Witnesses
pub mod Checks
pub mod Values
pub mod Images
pub mod Pptrs
use netkeep80_persist_memory.Base.{
  ℕ, ◌≡◌, ◌≤◌, ◌<◌, refl, true, false, some, List, [], ◌∷◌, arith, ◌==◌, if◌then◌else◌,
}
use netkeep80_persist_memory.Traits.{
  default_traits, no_block, header_granules, block_size, block_header_min_size,
  block_header_core_size,
}
use netkeep80_persist_memory.Node.{NodeType, free, manager_header, generic, is_free, is_allocated}
use netkeep80_persist_memory.Memory.{BlockHeader, ManagerHeader, Arena, zeroed}
use netkeep80_persist_memory.FreeTree.Policy.{FreeBlockTreePolicy}
use netkeep80_persist_memory.FreeTree.Frame.{avl_free_tree}
use netkeep80_persist_memory.Layout.{IsTraits, IsHeap, IsChained, IsCounted}

pub default-IsTraits : IsTraits default_traits
unfolding header_granules block_size block_header_min_size block_header_core_size
default-IsTraits = record {
  header_pos = omega arith;
  block_fits_header = refl;
  granule_pos = omega arith;
  header_small = omega arith;
}

abbrev pub none_at : ℕ
none_at = no_block default_traits

abbrev pub test_block : (weight root prev next height : ℕ) → NodeType → BlockHeader
test_block weight root prev next height type = record {
  weight = weight;
  left_offset = none_at;
  right_offset = none_at;
  parent_offset = none_at;
  root_offset = root;
  prev_offset = prev;
  next_offset = next;
  avl_height = height;
  node_type = type;
}

abbrev pub test_arena : Arena
test_arena = record {
  blocks = λ j.
      if j == 0
      then test_block 8 0 none_at 10 0 manager_header
      else if j == 10
      then test_block 5 10 0 20 0 generic
      else if j == 20
      then test_block 8 20 10 30 0 generic
      else if j == 30
      then test_block 34 0 20 none_at 1 free
      else zeroed;
  header = record {
    magic = 0;
    total_size = 1024;
    used_size = 29;
    block_count = 4;
    free_count = 1;
    alloc_count = 3;
    first_block_offset = 0;
    last_block_offset = 30;
    free_tree_root = 30;
    owns_memory = false;
    image_version = 2;
    granule_size = 16;
    prev_total_size = 0;
    crc32 = 0;
    root_offset = none_at;
  };
}

pub test_arena-IsHeap : IsHeap default_traits test_arena (0 ∷ 10 ∷ 20 ∷ 30 ∷ [])
unfolding header_granules block_size block_header_min_size block_header_core_size is_free
    is_allocated
test_arena-IsHeap = record {
  chained = record {
    chain = (
      record {
        prev = refl;
        next = refl;
        room = omega arith;
        known = refl;
        sized = (omega arith, refl);
      },
      (
        record {
          prev = refl;
          next = refl;
          room = omega arith;
          known = refl;
          sized = (omega arith, refl);
        },
        (
          record {
            prev = refl;
            next = refl;
            room = omega arith;
            known = refl;
            sized = (omega arith, refl);
          },
          (
            record {
              prev = refl;
              next = refl;
              room = omega arith;
              known = refl;
              sized = (refl, refl);
            },
            tt,
          ),
        ),
      ),
    );
    fits = omega arith;
    first = refl;
    last = refl;
  };
  counted = record { blocks = refl; frees = refl; allocs = refl; used = refl };
}

abbrev pub test_tree : FreeBlockTreePolicy
test_tree = avl_free_tree default_traits 8

-- the first three blocks alone, the last of them in use
abbrev pub full_arena : Arena
full_arena = record {
  blocks = λ j. if j == 20 then test_block 8 20 10 none_at 0 generic else test_arena.blocks j;
  header = record test_arena.header {
    total_size = 480;
    used_size = 27;
    block_count = 3;
    free_count = 0;
    last_block_offset = 20;
    free_tree_root = none_at;
  };
}

pub full_arena-IsHeap : IsHeap default_traits full_arena (0 ∷ 10 ∷ 20 ∷ [])
unfolding header_granules block_size block_header_min_size block_header_core_size is_free
    is_allocated
full_arena-IsHeap = record {
  chained = record {
    chain = (
      record {
        prev = refl;
        next = refl;
        room = omega arith;
        known = refl;
        sized = (omega arith, refl);
      },
      (
        record {
          prev = refl;
          next = refl;
          room = omega arith;
          known = refl;
          sized = (omega arith, refl);
        },
        (
          record {
            prev = refl;
            next = refl;
            room = omega arith;
            known = refl;
            sized = (omega arith, refl);
          },
          tt,
        ),
      ),
    );
    fits = omega arith;
    first = refl;
    last = refl;
  };
  counted = record { blocks = refl; frees = refl; allocs = refl; used = refl };
}
