-- ===== src/Manager/Release.antt =====
-- include/pmm/persist_memory_manager.h, `deallocate_unlocked`: what it leaves of a well-formed arena.
use netkeep80_persist_memory.Base.{
  ℕ, ◌+◌, ◌*◌, ◌<◌, ◌≡◌, ◌≢◌, refl, true, false, inl, inr, List, ◌∷◌, ◌++◌, arith, ◌==◌, eq_refl,
  eq_of_ne, Bool-cases,
}
use netkeep80_persist_memory.Traits.{Traits, block_size}
use netkeep80_persist_memory.Node.{
  NodeType, free, manager_header, generic, read_only_locked, pstringview, pstring, parray, pmap,
  pptr, unknown, is_free, is_allocated, can_be_deleted_from_pap,
}
use netkeep80_persist_memory.Memory.{Arena}
use netkeep80_persist_memory.FreeTree.Policy.{FreeBlockTreePolicy}
use netkeep80_persist_memory.Layout.{IsTraits, bodies, IsHeap}
use netkeep80_persist_memory.Allocator.Coalesced.{front_after, back_after, coalesce-IsHeap}
use netkeep80_persist_memory.Manager.{mark_released, release_block, lock_block, deallocate}
use netkeep80_persist_memory.Manager.Mark
use netkeep80_persist_memory.Validation.Pointers.{IsUserBlock, find_block_from_user_ptr-IsUserBlock}

-- what may be deleted is in use
pub can_be_deleted-is_allocated :
    (nt : NodeType)
    → can_be_deleted_from_pap nt ≡ true
    → (is_allocated nt ≡ true) × (is_free nt ≡ false)
unfolding can_be_deleted_from_pap is_allocated is_free
can_be_deleted-is_allocated free h = cc
can_be_deleted-is_allocated manager_header h = cc
can_be_deleted-is_allocated generic h = (refl, refl)
can_be_deleted-is_allocated read_only_locked h = cc
can_be_deleted-is_allocated pstringview h = (refl, refl)
can_be_deleted-is_allocated pstring h = (refl, refl)
can_be_deleted-is_allocated parray h = (refl, refl)
can_be_deleted-is_allocated pmap h = (refl, refl)
can_be_deleted-is_allocated pptr h = (refl, refl)
can_be_deleted-is_allocated (unknown b) h = cc

module _ {at : Traits} (t : IsTraits at) (ft : FreeBlockTreePolicy) (a : Arena) where
  -- Deallocating a block whose type may not be deleted (permanently locked, free, the manager's own, or
  -- unknown) leaves the arena as it is.
  pub release_block-keeps :
      (i : ℕ) → can_be_deleted_from_pap (a.blocks i).node_type ≡ false → release_block at ft i a ≡ a
  unfolding release_block
  release_block-keeps i h = elim (Bool-cases (is_allocated (a.blocks i).node_type)) [
    | inl e ↦ rw (e, h) refl
    | inr e ↦ rw e refl
  ]

  -- A block in use that may be deleted is freed: the arena stays well formed, the block is merged with
  -- the free blocks at its sides, and no other block leaves the layout.
  pub release_block-IsHeap :
      (pre : List ℕ) (i : ℕ) (post : List ℕ)
      → IsHeap at a (pre ++ i ∷ post)
      → can_be_deleted_from_pap (a.blocks i).node_type ≡ true
      → (a.blocks i).weight ≢ 0
      → IsHeap at (release_block at ft i a) (
          front_after (bodies (mark_released at i a)) pre i
          ++ back_after (bodies (mark_released at i a)) post)
  unfolding release_block
  release_block-IsHeap pre i post h deletable weighs =
      let kind = can_be_deleted-is_allocated (a.blocks i).node_type deletable in
      rw (kind.0, deletable, eq_of_ne (a.blocks i).weight 0 weighs)
        (coalesce-IsHeap t ft (mark_released at i a) pre i post
          (Mark.mark_released-is_free t a pre i post h kind.1)
          (Mark.mark_released-IsHeap t a pre i post h kind.1))

  -- Given the pointer to the data of a user block whose type may be deleted, an initialised manager's
  -- `deallocate` leaves the arena well formed, with the blocks that the list names: block `i`, or the one
  -- block that it and the free blocks at its sides have become.
  pub deallocate-IsHeap :
      (manager_header_size : ℕ) (pre : List ℕ) (i : ℕ) (post : List ℕ) (base_addr : ℕ)
      → IsUserBlock at manager_header_size a pre i post
      → can_be_deleted_from_pap (a.blocks i).node_type ≡ true
      → 0 < base_addr
      → IsHeap at
          (deallocate at ft manager_header_size true a base_addr
            (base_addr + (i * at.granule_size + block_size at)))
          (front_after (bodies (mark_released at i a)) pre i
            ++ back_after (bodies (mark_released at i a)) post)
  unfolding deallocate
  deallocate-IsHeap manager_header_size pre i post base_addr u deletable mapped =
      let not_null : (base_addr + (i * at.granule_size + block_size at) == 0) ≡ false =
        eq_of_ne (base_addr + (i * at.granule_size + block_size at)) 0
          (λ e. omega (arith, e, mapped)) in
      rw
        (
          not_null,
          find_block_from_user_ptr-IsUserBlock t manager_header_size a pre i post u base_addr
              mapped,
        )
        (release_block-IsHeap pre i post u.heap deletable u.some_data)

  -- Deallocating a block that was in use when it was locked permanently leaves the arena as it is.
  pub release_block-lock_block :
      (i : ℕ)
      → is_allocated (a.blocks i).node_type ≡ true
      → release_block at ft i (lock_block at i a).0 ≡ (lock_block at i a).0
  unfolding release_block lock_block can_be_deleted_from_pap is_allocated
  release_block-lock_block i busy = rw (busy, eq_refl i) refl
