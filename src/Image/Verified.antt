-- ===== src/Image/Verified.antt =====
-- include/pmm/verify_repair_mixin.inc: what `verify` finds in a sound image.
use netkeep80_persist_memory.Base.{ℕ, ◌≤◌, ◌≡◌, ap, ◌∙◌, true, List, [], none, arith}
use netkeep80_persist_memory.Traits.{Traits, size_max}
use netkeep80_persist_memory.Memory.{Arena}
use netkeep80_persist_memory.Diagnostics.{VerifyResult, fresh}
use netkeep80_persist_memory.Validation.{validate_block_header_full}
use netkeep80_persist_memory.Validation.Full.{validate_block_header_full-fold}
use netkeep80_persist_memory.Layout.{IsTraits, IsHeap}
use netkeep80_persist_memory.Layout.Walked.{for_each_physical_block-fold}
use netkeep80_persist_memory.FreeTree.BestFit.{Shape}
use netkeep80_persist_memory.Allocator.Counting.{verify_counters-IsHeap}
use netkeep80_persist_memory.Allocator.Silent.{
  verify_linked_list-IsChained, verify_block_states-IsChained,
}
use netkeep80_persist_memory.Allocator.TreeCheck.Sound.{IsTreeOf}
use netkeep80_persist_memory.Allocator.TreeCheck.Silent.{verify_free_tree-IsTreeOf}
use netkeep80_persist_memory.State.{ManagerState}
use netkeep80_persist_memory.Forest.{header_ok, validate_bootstrap_invariants}
use netkeep80_persist_memory.Forest.Agreement.{
  validate_bootstrap_invariants-header_ok, verify_forest_registry-validate_bootstrap_invariants,
}
use netkeep80_persist_memory.Image.{
  is_supported_image_version, verify_arena, verify_guarded, verify_image, verify_manager,
  header_violation,
}

header_violation-header_ok :
    (at : Traits) (registry_size : ℕ) (s : ManagerState)
    → header_ok at registry_size s ≡ true
    → header_violation at s.backend_size s.arena.header ≡ none
unfolding header_ok header_violation is_supported_image_version
header_violation-header_ok at registry_size s h = ground (arith, h)

module _ {at : Traits} (t : IsTraits at) (registry_size : ℕ) (xs : List ℕ) (tree : Shape) where
  verify_arena-IsHeap :
      (a : Arena) (r : VerifyResult)
      → IsHeap at a xs
      → a.header.total_size ≤ size_max
      → IsTreeOf at a xs tree
      → verify_arena at registry_size a r ≡ r
  unfolding verify_arena
  verify_arena-IsHeap a r h wide sound =
      let headers =
        for_each_physical_block-fold t a (validate_block_header_full at a a.header.total_size) xs r
          h.chained wide
        ∙ ap (λ (v : VerifyResult). (true, v))
            (validate_block_header_full-fold t a wide [] xs r h.chained) in
      rw
        (
          headers,
          verify_block_states-IsChained t a xs r h.chained wide,
          verify_linked_list-IsChained t a xs r h.chained wide,
          verify_counters-IsHeap t a xs r h wide,
        )
        (verify_free_tree-IsTreeOf t a xs tree r h.chained wide sound)

  -- `verify` of an initialized manager reports nothing, where the arena is well formed, its size is a
  -- `size_t`, the tree of free blocks is sound, and the header and the forest registry are what `create`
  -- demands.
  pub verify_manager-IsHeap :
      (s : ManagerState)
      → IsHeap at s.arena xs
      → s.arena.header.total_size ≤ size_max
      → IsTreeOf at s.arena xs tree
      → validate_bootstrap_invariants at registry_size s ≡ true
      → verify_manager at registry_size s ≡ fresh
  unfolding verify_manager verify_image verify_guarded
  verify_manager-IsHeap s h wide sound forest =
      let ready = validate_bootstrap_invariants-header_ok at registry_size s forest in
      rw
        (
          ready.0,
          header_violation-header_ok at registry_size s ready.1,
          verify_arena-IsHeap s.arena fresh h wide sound,
        )
        (verify_forest_registry-validate_bootstrap_invariants at registry_size s fresh forest)
