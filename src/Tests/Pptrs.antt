-- ===== src/Tests/Pptrs.antt =====
-- The theorems on allocation and on `pptr`, applied to the image of Tests.Images.
use netkeep80_persist_memory.Base.{
  ◌≢◌, ◌⊎◌, List, sym, ◌∙◌, ◌/◌, ℕ, ◌+◌, ◌-◌, ◌*◌, ◌≡◌, ◌≤◌, ◌<◌, inl, inr, refl, true, false,
  Option, none, some, [], ◌∷◌, ◌++◌, arith, leb, if◌then◌else◌, Bool-cases,
}
use netkeep80_persist_memory.Traits.{
  default_traits, header_granules, block_size, block_header_min_size, block_header_core_size,
  sub_index,
}
use netkeep80_persist_memory.Node.{
  can_be_deleted_from_pap, generic, is_free, is_allocated, is_known_node_type,
}
use netkeep80_persist_memory.Memory.{Arena}
use netkeep80_persist_memory.Checked.{
  checked_granule_offset, checked_mul, fits_range, checked_add, fits, valid_block,
  try_block_idx_from_user_idx, try_user_ptr,
}
use netkeep80_persist_memory.FreeTree.{
  insert, unlinked, remove, avl_rebalance_up, detach, set_child, set_root,
}
use netkeep80_persist_memory.FreeTree.BestFit.{leaf, node, find_best_fit-first_fit}
use netkeep80_persist_memory.Manager.{ok, allocate, mark_released}
use netkeep80_persist_memory.Manager.Allocate.{IsAnswer, IsOutcome, allocate-IsOutcome}
use netkeep80_persist_memory.ManagerLayout.{GrowthConfig, extend_last, do_expand}
use netkeep80_persist_memory.ManagerLayout.Grown.{place_growth-last, do_expand-cases}
use mathlib.Core.Path.{subst}
use netkeep80_persist_memory.State.{ManagerState}
use netkeep80_persist_memory.Typed.{
  Returned, returns, returns_error, resolve_checked, resolve_unchecked, raw_user_ptr_from_pptr,
  block_raw_ptr_from_pptr, block_idx_from_pptr, is_owned_block, try_checked_block_from_pptr,
  get_tree_left_offset, set_tree_left_offset, get_tree_right_offset, get_tree_parent_offset,
}
use netkeep80_persist_memory.Typed.Resolve.{resolve_checked-safe, resolve_checked-IsChained}
use netkeep80_persist_memory.Typed.TreeField.{outside, get_tree_left_offset-set_tree_left_offset}
use netkeep80_persist_memory.Typed.Allocate.{ObjectType, reallocate_typed}
use netkeep80_persist_memory.Typed.Destroy.{deallocate_typed, destroy_typed, destroy_typed-IsHeap}
use netkeep80_persist_memory.Layout.{IsHeap, bodies, total_granules}
use netkeep80_persist_memory.Views.{for_each_block, block_count, alloc_block_count}
use netkeep80_persist_memory.Views.Partition.{
  count_view, count_used, add_bytes, for_each_block-IsHeap,
}
use netkeep80_persist_memory.Allocator.Coalesced.{front_after, back_after}
use netkeep80_persist_memory.Validation.Pointers.{IsUserBlock}
use netkeep80_persist_memory.Typed.Answer.{IsAnswered, IsFresh, reallocate_typed-IsAnswered}
use netkeep80_persist_memory.Tests.{
  default-IsTraits, test_arena, test_arena-IsHeap, test_tree, none_at,
}
use netkeep80_persist_memory.Tests.Images.{image_arena-IsHeap, test_state}

abbrev front : List ℕ
front = 0 ∷ 10 ∷ 20 ∷ []

abbrev no_growth : ℕ → Arena → Option Arena
no_growth need a = none

-- the only free block is found if it is large enough
search :
    (b : Arena) (needed : ℕ)
    → (b.header.free_tree_root ≡ 30)
      × ((b.blocks 30).left_offset ≡ none_at)
      × ((b.blocks 30).right_offset ≡ none_at)
    → test_tree.find_best_fit b needed ≡ (if leb needed (b.blocks 30).weight then 30 else none_at)
search b needed (root, left, right) =
    find_best_fit-first_fit default_traits b 8 (node leaf 30 leaf) needed
      (root, (λ e. omega (arith, e)), left, right) (tt, tt) (omega arith)

-- the answers of the tree where block 30 is the only one that is free
answers_of :
    (b : Arena)
    → (b.header.free_tree_root ≡ 30)
      × ((b.blocks 30).left_offset ≡ none_at)
      × ((b.blocks 30).right_offset ≡ none_at)
    → is_free (b.blocks 30).node_type ≡ true
    → (is_free (b.blocks 0).node_type ≡ false)
      × (is_free (b.blocks 10).node_type ≡ false)
      × (is_free (b.blocks 20).node_type ≡ false)
    → (needed : ℕ) → IsAnswer default_traits test_tree b (front ++ 30 ∷ []) needed
answers_of b stands free (used0, used10, used20) needed =
    let weight : ℕ = (b.blocks 30).weight in
    elim (Bool-cases (leb needed weight)) [
      | inl e ↦
          let at30 : test_tree.find_best_fit b needed ≡ 30 = search b needed stands ∙ rw e refl in
          inr (front, [], rw at30 refl, rw at30 free, rw at30 (ground (arith, e)))
      | inr e ↦ inl (
        search b needed stands ∙ rw e refl,
        (rw used0 refl, (rw used10 refl, (rw used20 refl, (rw (free, e) refl, tt)))),
      )
    ]

block30 : is_free (test_arena.blocks 30).node_type ≡ true
unfolding is_free
block30 = refl

others_used :
    (is_free (test_arena.blocks 0).node_type ≡ false)
    × (is_free (test_arena.blocks 10).node_type ≡ false)
    × (is_free (test_arena.blocks 20).node_type ≡ false)
unfolding is_free
others_used = (refl, refl, refl)

abbrev quarter : GrowthConfig
quarter = record { grow_numerator = 5; grow_denominator = 4; max_memory_gb = 64 }

asked_is_got : (asked got : ℕ) → some asked ≡ some got → asked ≤ got
asked_is_got asked got h = ground (arith, h)

abbrev grown_to : (new_size : ℕ) → Arena
grown_to new_size = extend_last default_traits test_tree 30 (new_size / 16) new_size test_arena

grown_stands :
    (new_size : ℕ)
    → ((grown_to new_size).header.free_tree_root ≡ 30)
      × (((grown_to new_size).blocks 30).left_offset ≡ none_at)
      × (((grown_to new_size).blocks 30).right_offset ≡ none_at)
unfolding extend_last insert unlinked remove avl_rebalance_up detach set_child set_root
grown_stands new_size = (refl, refl, refl)

grown_answers :
    (need : ℕ) (b : Arena)
    → do_expand default_traits test_tree quarter (λ asked. some asked) true need test_arena ≡ some b
    → (needed : ℕ) → IsAnswer default_traits test_tree b (front ++ 30 ∷ []) needed
unfolding extend_last is_free insert unlinked remove avl_rebalance_up detach set_child set_root
grown_answers need b e =
    let (new_size, larger, room, placed) =
      do_expand-cases default-IsTraits test_tree test_arena front 30 test_arena-IsHeap block30
        quarter (λ asked. some asked) true need b asked_is_got e in
    let same =
      (place_growth-last default-IsTraits test_tree test_arena front 30 test_arena-IsHeap block30
        new_size b placed).0 in
    subst (λ x. (needed : ℕ) → IsAnswer default_traits test_tree x (front ++ 30 ∷ []) needed)
      (sym same) (answers_of (grown_to new_size) (grown_stands new_size) refl (refl, refl, refl))

allocate-IsOutcome_example :
    IsOutcome default_traits
      (do_expand default_traits test_tree quarter (λ asked. some asked) true)
      true
      800
      test_arena
      (front ++ 30 ∷ [])
      (allocate default_traits test_tree
        (do_expand default_traits test_tree quarter (λ asked. some asked) true)
        true
        800
        test_arena)
allocate-IsOutcome_example =
    allocate-IsOutcome default-IsTraits test_tree quarter (λ asked. some asked) test_arena front 30
      test_arena-IsHeap block30 asked_is_got
      (answers_of test_arena (refl, refl, refl) block30 others_used) grown_answers true 800

block10 :
    (header_granules default_traits ≡ 2) × (is_free (test_state.arena.blocks 10).node_type ≡ false)
unfolding header_granules block_size block_header_min_size block_header_core_size is_free
block10 = (refl, refl)

resolve_checked-IsChained_example :
    resolve_checked default_traits 40 test_state (10 + header_granules default_traits)
    ≡ returns_error ok (some ((10 + header_granules default_traits) * 16)) test_state
resolve_checked-IsChained_example =
    resolve_checked-IsChained default-IsTraits 40 test_state (omega arith) (0 ∷ []) 10
      (20 ∷ 30 ∷ []) (image_arena-IsHeap.chained) refl refl block10.1 (omega arith) (omega arith)

resolved : (resolve_checked default_traits 40 test_state 12).value ≡ some 192
unfolding header_granules block_size block_header_min_size block_header_core_size resolve_checked
    resolve_unchecked raw_user_ptr_from_pptr block_raw_ptr_from_pptr block_idx_from_pptr
    is_owned_block returns returns_error try_block_idx_from_user_idx valid_block fits
    checked_granule_offset checked_mul fits_range checked_add try_user_ptr is_allocated
    is_known_node_type sub_index
resolved = refl

resolve_checked-safe_example :
    (192 ≡ 12 * 16)
    × (192 < 1024)
    × (192 + 40 ≤ 1024)
    × (is_owned_block default_traits
          (test_state.arena.blocks (12 - header_granules default_traits))
          (block_idx_from_pptr default_traits 12)
        ≡ true)
resolve_checked-safe_example =
    resolve_checked-safe default-IsTraits 40 test_state (omega arith) 12 192 (omega arith) resolved

leads_to : (try_checked_block_from_pptr default_traits test_state 12).value ≡ some 10
unfolding header_granules block_size block_header_min_size block_header_core_size
    block_raw_ptr_from_pptr block_idx_from_pptr is_owned_block returns returns_error
    try_block_idx_from_user_idx valid_block fits checked_granule_offset checked_mul fits_range
    checked_add is_allocated is_known_node_type try_checked_block_from_pptr sub_index
leads_to = refl

abbrev after : ManagerState
after = set_tree_left_offset default_traits test_state 12 22

get_tree_left_offset-set_tree_left_offset_example :
    ((get_tree_left_offset default_traits after 12).value ≡ outside default_traits 22)
    × ((get_tree_right_offset default_traits after 12).value
        ≡ (get_tree_right_offset default_traits test_state 12).value)
    × ((get_tree_parent_offset default_traits after 12).value
        ≡ (get_tree_parent_offset default_traits test_state 12).value)
get_tree_left_offset-set_tree_left_offset_example =
    get_tree_left_offset-set_tree_left_offset default_traits test_state 12 10 leads_to 22

abbrev words : ObjectType
words = record { size_of = 8; node_type = generic }

abbrev old_pptr : ℕ
old_pptr = 12

reallocate_typed-IsAnswered_example :
    ((old_pptr ≢ 0)
      × IsAnswered
          (reallocate_typed default_traits words test_tree no_growth 4096 old_pptr 5 20 test_state))
    ⊎ ((old_pptr ≡ 0)
        × IsFresh default_traits words test_tree no_growth 4096 20 test_state (
            reallocate_typed default_traits words test_tree no_growth 4096 old_pptr 5 20
              test_state))
reallocate_typed-IsAnswered_example =
    reallocate_typed-IsAnswered default_traits words test_tree no_growth 4096 old_pptr 5 20
      test_state

user_block20 : IsUserBlock default_traits 128 test_state.arena (0 ∷ 10 ∷ []) 20 (30 ∷ [])
unfolding header_granules block_size block_header_min_size block_header_core_size is_free
user_block20 = record {
  heap = image_arena-IsHeap;
  in_use = refl;
  some_data = λ e. omega (arith, e);
  behind_header = omega arith;
  header_inside = omega arith;
  wide = omega arith;
}

block20 : can_be_deleted_from_pap (test_state.arena.blocks 20).node_type ≡ true
unfolding can_be_deleted_from_pap
block20 = refl

abbrev destroyed : Returned (Option ℕ)
destroyed =
    destroy_typed default_traits 40 test_tree 128 4096 (20 + header_granules default_traits)
      test_state

destroy_typed-IsHeap_example :
    (destroyed.value ≡ some (20 * 16 + block_size default_traits))
    × IsHeap default_traits destroyed.state.arena (
        front_after (bodies (mark_released default_traits 20 test_state.arena)) (0 ∷ 10 ∷ []) 20
        ++ back_after (bodies (mark_released default_traits 20 test_state.arena)) (30 ∷ []))
    × ((deallocate_typed default_traits 40 test_tree 128 4096
          (20 + header_granules default_traits)
          test_state).arena
        ≡ destroyed.state.arena)
destroy_typed-IsHeap_example =
    destroy_typed-IsHeap default-IsTraits 40 test_state 128 (0 ∷ 10 ∷ []) 20 (30 ∷ []) user_block20
      refl refl (omega arith) (omega arith) test_tree 4096 block20 (omega arith)

for_each_block-IsHeap_example :
    (for_each_block default_traits count_view test_state 0 ≡ (true, block_count test_state))
    × (for_each_block default_traits count_used test_state 0 ≡ (true, alloc_block_count test_state))
    × (for_each_block default_traits add_bytes test_state 0
        ≡ (true, total_granules default_traits test_state.arena * 16))
for_each_block-IsHeap_example =
    for_each_block-IsHeap default-IsTraits test_state (10 ∷ 20 ∷ 30 ∷ []) image_arena-IsHeap
      (omega arith) refl
