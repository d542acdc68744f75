-- ===== src/Tests/Witnesses.antt =====
-- The theorems applied to the arena of Tests.
use netkeep80_persist_memory.Base.{
  ℕ, ◌+◌, ◌*◌, ◌/◌, ◌≡◌, ◌≤◌, ◌<◌, refl, true, false, some, List, [], ◌∷◌, ◌++◌, arith,
}
use netkeep80_persist_memory.Traits.{
  default_traits, size_max, header_granules, block_size, block_header_min_size,
  block_header_core_size,
}
use netkeep80_persist_memory.Node.{is_free, is_allocated, can_be_deleted_from_pap}
use netkeep80_persist_memory.Memory.{Arena}
use netkeep80_persist_memory.Layout.{IsHeap, IsChained, bodies, sum_of, used_of}
use netkeep80_persist_memory.Allocator.{allocate_from_block, coalesce}
use netkeep80_persist_memory.Allocator.Candidate.{IsCandidate}
use netkeep80_persist_memory.Allocator.Allocate.{cut_off, allocate_from_block-IsHeap}
use netkeep80_persist_memory.Allocator.Coalesced.{front_after, back_after, coalesce-IsHeap}
use netkeep80_persist_memory.Manager.{
  mark_released, release_block, deallocate, lock_block, find_block_from_user_ptr,
}
use netkeep80_persist_memory.Manager.Mark.{mark_released-IsHeap, mark_released-is_free}
use netkeep80_persist_memory.Manager.Release.{deallocate-IsHeap, release_block-lock_block}
use netkeep80_persist_memory.Validation.Pointers.{IsUserBlock, find_block_from_user_ptr-IsUserBlock}
use netkeep80_persist_memory.ManagerLayout.{
  GrowthConfig, init_layout, append_block, extend_last, place_growth, do_expand,
}
use netkeep80_persist_memory.ManagerLayout.Grown.{do_expand-IsHeap}
use netkeep80_persist_memory.ManagerLayout.Created.{init_layout-IsHeap}
use netkeep80_persist_memory.ManagerLayout.Appended.{append_block-IsChained, append_block-used_size}
use netkeep80_persist_memory.Checked.{
  valid_block, compute_growth_for_traits, compute_growth, growth_target, accept_growth, above_cap,
  checked_add, checked_mul, round_up_checked, max_arena_size, byte_off_to_idx_checked,
}
use netkeep80_persist_memory.Validation.{validate_block_index}
use netkeep80_persist_memory.Validation.Agreement.{valid_block-validate_block_index}
use netkeep80_persist_memory.Tests.{
  full_arena, full_arena-IsHeap, default-IsTraits, test_arena, test_arena-IsHeap, test_tree,
}

abbrev front : List ℕ
front = 0 ∷ 10 ∷ 20 ∷ []

free-IsCandidate : IsCandidate default_traits test_arena front 30 4 []
unfolding header_granules block_size block_header_min_size block_header_core_size is_free
free-IsCandidate = record {
  heap = test_arena-IsHeap;
  is_free_block = refl;
  some_data = omega arith;
  enough = omega arith;
}

allocate_from_block-IsHeap_example :
    IsHeap default_traits
      (allocate_from_block default_traits test_tree test_arena 30 4).0
      (front ++ 30 ∷ (cut_off default_traits 30 4 34 ++ []))
    × ((allocate_from_block default_traits test_tree test_arena 30 4).1
        ≡ some (30 + header_granules default_traits))
allocate_from_block-IsHeap_example =
    allocate_from_block-IsHeap default-IsTraits test_tree test_arena front 30 4 [] free-IsCandidate

block20-busy : is_free (test_arena.blocks 20).node_type ≡ false
unfolding is_free
block20-busy = refl

-- the arena with block 20 marked as free, before a free block
abbrev marked_arena : Arena
marked_arena = mark_released default_traits 20 test_arena

coalesce-IsHeap_example :
    IsHeap default_traits (coalesce default_traits test_tree marked_arena 20) (
      front_after (bodies marked_arena) (0 ∷ 10 ∷ []) 20
      ++ back_after (bodies marked_arena) (30 ∷ []))
coalesce-IsHeap_example =
    coalesce-IsHeap default-IsTraits test_tree marked_arena (0 ∷ 10 ∷ []) 20 (30 ∷ [])
      (mark_released-is_free default-IsTraits test_arena (0 ∷ 10 ∷ []) 20 (30 ∷ [])
        test_arena-IsHeap block20-busy)
      (mark_released-IsHeap default-IsTraits test_arena (0 ∷ 10 ∷ []) 20 (30 ∷ []) test_arena-IsHeap
        block20-busy)

user_block20 : IsUserBlock default_traits 128 test_arena (0 ∷ 10 ∷ []) 20 (30 ∷ [])
unfolding header_granules block_size block_header_min_size block_header_core_size is_free
user_block20 = record {
  heap = test_arena-IsHeap;
  in_use = refl;
  some_data = λ e. omega (arith, e);
  behind_header = omega arith;
  header_inside = omega arith;
  wide = omega arith;
}

block20-deletable : can_be_deleted_from_pap (test_arena.blocks 20).node_type ≡ true
unfolding can_be_deleted_from_pap
block20-deletable = refl

mapped : 0 < 4096
mapped = omega arith

deallocate-IsHeap_example :
    IsHeap default_traits
      (deallocate default_traits test_tree 128 true test_arena 4096
        (4096 + (20 * 16 + block_size default_traits)))
      (front_after (bodies marked_arena) (0 ∷ 10 ∷ []) 20
        ++ back_after (bodies marked_arena) (30 ∷ []))
deallocate-IsHeap_example =
    deallocate-IsHeap default-IsTraits test_tree test_arena 128 (0 ∷ 10 ∷ []) 20 (30 ∷ []) 4096
      user_block20 block20-deletable mapped

find_block_from_user_ptr-IsUserBlock_example :
    find_block_from_user_ptr default_traits 128 test_arena 4096
      (4096 + (20 * 16 + block_size default_traits))
    ≡ some 20
find_block_from_user_ptr-IsUserBlock_example =
    find_block_from_user_ptr-IsUserBlock default-IsTraits 128 test_arena (0 ∷ 10 ∷ []) 20 (30 ∷ [])
      user_block20 4096 mapped

manager-kept : can_be_deleted_from_pap (test_arena.blocks 0).node_type ≡ false
unfolding can_be_deleted_from_pap
manager-kept = refl

block20-allocated : is_allocated (test_arena.blocks 20).node_type ≡ true
unfolding is_allocated
block20-allocated = refl

release_block-lock_block_example :
    release_block default_traits test_tree 20 (lock_block default_traits 20 test_arena).0
    ≡ (lock_block default_traits 20 test_arena).0
release_block-lock_block_example =
    release_block-lock_block default-IsTraits test_tree test_arena 20 block20-allocated

new_enough : (header_granules default_traits + 8) * 16 + block_size default_traits + 16 ≤ 1024
unfolding header_granules block_size block_header_min_size block_header_core_size
new_enough = omega arith

new_small : 1024 / 16 ≤ default_traits.index_max
new_small = omega arith

init_layout-IsHeap_example :
    (b : Arena) × (init_layout default_traits 8 1024 test_arena ≡ some b)
    × IsHeap default_traits b (0 ∷ (header_granules default_traits + 8) ∷ [])
init_layout-IsHeap_example =
    init_layout-IsHeap default-IsTraits 8 1024 test_arena new_enough new_small

growth_room : 30 + header_granules default_traits ≤ 60
unfolding header_granules block_size block_header_min_size block_header_core_size
growth_room = omega arith

growth_small : 60 ≤ default_traits.index_max
growth_small = omega arith

append_block-IsChained_example :
    IsChained default_traits
      (append_block default_traits test_tree 30 60 960 full_arena)
      (((0 ∷ 10 ∷ []) ++ 20 ∷ []) ++ 30 ∷ [])
append_block-IsChained_example =
    append_block-IsChained default-IsTraits test_tree full_arena (0 ∷ 10 ∷ []) 20 60 960
      full_arena-IsHeap growth_room growth_small refl

append_block-used_size_example :
    sum_of default_traits
      (used_of default_traits)
      (bodies (append_block default_traits test_tree 30 60 960 full_arena))
      (((0 ∷ 10 ∷ []) ++ 20 ∷ []) ++ 30 ∷ [])
    ≡ (append_block default_traits test_tree 30 60 960 full_arena).header.used_size
      + header_granules default_traits
append_block-used_size_example =
    append_block-used_size default-IsTraits test_tree full_arena (0 ∷ 10 ∷ []) 20 60 960
      full_arena-IsHeap growth_room growth_small

one_header : block_size default_traits ≤ size_max
unfolding block_size block_header_min_size block_header_core_size
one_header = omega arith

valid_block-validate_block_index_example :
    valid_block default_traits 1024 62 ≡ validate_block_index default_traits 1024 62
valid_block-validate_block_index_example =
    valid_block-validate_block_index default_traits 1024 (omega arith) (omega arith) one_header 62

block30-free : is_free (test_arena.blocks 30).node_type ≡ true
unfolding is_free
block30-free = refl

abbrev growth_config : GrowthConfig
growth_config = record { grow_numerator = 5; grow_denominator = 4; max_memory_gb = 64 }

abbrev grown_arena : Arena
grown_arena = extend_last default_traits test_tree 30 80 1280 test_arena

-- Growth by a quarter has room for ten granules.
growth_run :
    do_expand default_traits test_tree growth_config (λ asked. some asked) true 10 test_arena
    ≡ some grown_arena
unfolding do_expand place_growth compute_growth_for_traits compute_growth growth_target
    accept_growth above_cap checked_add checked_mul round_up_checked max_arena_size
    byte_off_to_idx_checked header_granules block_size block_header_min_size block_header_core_size
    is_free
growth_run = refl

asked_is_got : (asked got : ℕ) → some asked ≡ some got → asked ≤ got
asked_is_got asked got h = ground (arith, h)

do_expand-IsHeap_example :
    IsHeap default_traits grown_arena (front ++ 30 ∷ [])
    × (test_arena.header.total_size < grown_arena.header.total_size)
    × (is_free (grown_arena.blocks 30).node_type ≡ true)
    × ((test_arena.blocks 30).weight
          + (header_granules default_traits + 10 + header_granules default_traits)
        ≤ (grown_arena.blocks 30).weight)
do_expand-IsHeap_example =
    do_expand-IsHeap default-IsTraits test_tree test_arena front 30 test_arena-IsHeap block30-free
      growth_config (λ asked. some asked) true 10 grown_arena asked_is_got growth_run
