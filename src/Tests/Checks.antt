-- ===== src/Tests/Checks.antt =====
-- The theorems on walks, on the tree of free blocks and on `realloc_shrink`, applied to arenas of Tests.
use netkeep80_persist_memory.Base.{
  ℕ, ◌+◌, ◌≡◌, ◌≤◌, ◌<◌, refl, true, false, List, [], ◌∷◌, ◌++◌, arith, ◌==◌, if◌then◌else◌,
}
use netkeep80_persist_memory.Traits.{
  default_traits, size_max, header_granules, block_size, block_header_min_size,
  block_header_core_size,
}
use netkeep80_persist_memory.Node.{free, is_free}
use netkeep80_persist_memory.Memory.{Arena, SameBodies}
use netkeep80_persist_memory.Diagnostics.{fresh}
use netkeep80_persist_memory.Layout.{IsHeap}
use netkeep80_persist_memory.Layout.Walked.{fold_left, visit, for_each_physical_block-fold}
use netkeep80_persist_memory.Walker.{for_each_physical_block}
use netkeep80_persist_memory.Validation.{is_block_header_linked_in_canonical_chain}
use netkeep80_persist_memory.Validation.Canonical.{is_block_header_linked-IsHeap}
use netkeep80_persist_memory.FreeTree.{insert, remove, find_best_fit}
use netkeep80_persist_memory.FreeTree.Frame.{insert-SameBodies, remove-SameBodies}
use netkeep80_persist_memory.FreeTree.BestFit.{
  Shape, leaf, node, in_order, weight_of, find_best_fit-least,
}
use netkeep80_persist_memory.Allocator.{realloc_shrink}
use netkeep80_persist_memory.Allocator.Repair.{accumulate_counters, recompute_counters, no_counters}
use netkeep80_persist_memory.Allocator.Verify.{verify_block_states}
use netkeep80_persist_memory.Allocator.Counting.{
  counted_on, accumulate_counters-IsCounted, recompute_counters-IsHeap,
}
use netkeep80_persist_memory.Allocator.Silent.{verify_block_states-IsChained}
use netkeep80_persist_memory.Allocator.Slack.{realloc_shrink-slack}
use netkeep80_persist_memory.Tests.{
  default-IsTraits, test_arena, test_arena-IsHeap, test_tree, test_block, none_at,
}

abbrev layout : List ℕ
layout = 0 ∷ 10 ∷ 20 ∷ 30 ∷ []

wide : test_arena.header.total_size ≤ size_max
wide = omega arith

for_each_physical_block-fold_example :
    for_each_physical_block default_traits (λ r. test_arena) (visit (λ i s. i + s)) 0
    ≡ (true, fold_left (λ i s. i + s) layout 0)
for_each_physical_block-fold_example =
    for_each_physical_block-fold default-IsTraits test_arena (λ i s. i + s) layout 0
      (test_arena-IsHeap.chained) wide

accumulate_counters-IsCounted_example :
    accumulate_counters default_traits test_arena
    ≡ (true, counted_on default_traits test_arena no_counters layout)
accumulate_counters-IsCounted_example =
    accumulate_counters-IsCounted default-IsTraits test_arena layout (test_arena-IsHeap.chained)
      wide

recompute_counters-IsHeap_example :
    IsHeap default_traits (recompute_counters default_traits test_arena) layout
recompute_counters-IsHeap_example =
    recompute_counters-IsHeap default-IsTraits test_arena layout (test_arena-IsHeap.chained) wide

verify_block_states-IsChained_example : verify_block_states default_traits test_arena fresh ≡ fresh
verify_block_states-IsChained_example =
    verify_block_states-IsChained default-IsTraits test_arena layout fresh
      (test_arena-IsHeap.chained) wide

is_block_header_linked-IsHeap_example :
    is_block_header_linked_in_canonical_chain default_traits test_arena 1024 20 ≡ true
is_block_header_linked-IsHeap_example =
    is_block_header_linked-IsHeap default-IsTraits test_arena wide (0 ∷ 10 ∷ []) 20 (30 ∷ [])
      test_arena-IsHeap

insert-SameBodies_example : SameBodies test_arena (insert default_traits 8 test_arena 30)
insert-SameBodies_example = insert-SameBodies default_traits 8 test_arena 30

remove-SameBodies_example : SameBodies test_arena (remove default_traits 8 test_arena 30)
remove-SameBodies_example = remove-SameBodies default_traits 8 test_arena 30

-- a tree of three free blocks
abbrev three_free : Arena
three_free = record test_arena {
  blocks = λ j.
      if j == 30
      then record (test_block 9 0 0 none_at 2 free) { left_offset = 10; right_offset = 50 }
      else if j == 10
      then test_block 4 0 0 none_at 1 free
      else if j == 50
      then test_block 20 0 0 none_at 1 free
      else test_arena.blocks 0;
}

abbrev three_shape : Shape
three_shape = node (node leaf 10 leaf) 30 (node leaf 50 leaf)

find_best_fit-least_example :
    ((ps : List ℕ) × (qs : List ℕ) × (in_order three_shape
        ≡ ps ++ find_best_fit default_traits 3 three_free 6 ∷ qs))
    × (6 ≤ weight_of three_free (find_best_fit default_traits 3 three_free 6))
    × (weight_of three_free (find_best_fit default_traits 3 three_free 6) ≤ weight_of three_free 50)
find_best_fit-least_example =
    find_best_fit-least default_traits three_free 3 three_shape 6
      (
        refl,
        (λ e. omega (arith, e)),
        (refl, (λ e. omega (arith, e)), refl, refl),
        (refl, (λ e. omega (arith, e)), refl, refl),
      )
      ((omega arith, (omega arith, tt)), ((omega arith, tt), (tt, tt))) (omega arith) (10 ∷ 30 ∷ [])
      50 [] refl (omega arith)

block_busy :
    (is_free (test_arena.blocks 10).node_type ≡ false)
    × (is_free (test_arena.blocks 20).node_type ≡ false)
unfolding is_free
block_busy = (refl, refl)

shrink_room :
    (2 + header_granules default_traits + 1 ≤ 5) × (10 + header_granules default_traits + 5 < 20)
unfolding header_granules block_size block_header_min_size block_header_core_size
shrink_room = (omega arith, omega arith)

realloc_shrink-slack_example :
    (((realloc_shrink default_traits test_tree test_arena 10 5 2).blocks
        (10 + header_granules default_traits + 2)).next_offset
      ≡ 20)
    × (10
          + header_granules default_traits
          + 2
          + ((realloc_shrink default_traits test_tree test_arena 10 5 2).blocks
              (10 + header_granules default_traits + 2)).weight
        < 20)
realloc_shrink-slack_example =
    realloc_shrink-slack default-IsTraits test_arena 10 20 5 2 refl shrink_room.0 shrink_room.1
      (omega arith) test_tree block_busy.0 block_busy.1
