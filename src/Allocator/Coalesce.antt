-- ===== src/Allocator/Coalesce.antt =====
-- include/pmm/allocator_policy.h, `coalesce`: a free block that is not in the tree takes in the free
-- block behind it, is taken in by the free block before it, and goes into the tree.
use netkeep80_persist_memory.Base.{ℕ, ◌<◌, ◌≡◌, true, List, ◌∷◌, ◌++◌, arith, head_or, head_or_mono}
use netkeep80_persist_memory.Traits.{Traits, no_block}
use netkeep80_persist_memory.Node.{is_free}
use netkeep80_persist_memory.Memory.{Arena}
use netkeep80_persist_memory.BlockState.{modify_if_block}
use netkeep80_persist_memory.BlockState.CoalescingBlock.{coalesce_with_next, coalesce_with_prev}
use netkeep80_persist_memory.FreeTree.Policy.{FreeBlockTreePolicy}
use netkeep80_persist_memory.Layout.{IsTraits, bodies, IsHeap}
use netkeep80_persist_memory.Layout.Merge.{with_merged}
use netkeep80_persist_memory.Allocator.{set_last_if_end, count_merged_free_block}
use netkeep80_persist_memory.Allocator.Effect.{SameHeader}
use netkeep80_persist_memory.Allocator.Merging
use netkeep80_persist_memory.Allocator.Merging.{IsFreePair, one_less}

module _ {at : Traits} (t : IsTraits at) (ft : FreeBlockTreePolicy) (a : Arena) (pre : List ℕ)
    (i x : ℕ) (post : List ℕ) (c : IsFreePair at a pre i x post) where
  far : (i < x) × (x < (a.blocks x).next_offset) × (x < at.index_max)
  far =
      let h = Merging.here t a pre i x post c in
      let e = Merging.post_in t a pre i x post c in
      let mono =
        head_or_mono post (Merging.total t a pre i x post c) (no_block at) c.heap.chained.fits in
      omega (arith, h.0.room, h.1.0.room, h.1.0.next, e, mono, t.header_pos, c.heap.chained.fits)

  -- the block behind
  abbrev pub merged_next : Arena
  merged_next =
      let nxt = a.blocks x in
      count_merged_free_block at (
        set_last_if_end at nxt.next_offset i
          (coalesce_with_next at i x nxt.next_offset i nxt.weight (ft.remove a x)))

  next_bodies :
      (j : ℕ)
      → bodies merged_next j ≡ with_merged at i x (Merging.weight t a pre i x post c) (bodies a) j
  unfolding count_merged_free_block set_last_if_end coalesce_with_next modify_if_block
  next_bodies j = ground (
    arith,
    far,
    Merging.weight_eq t a pre i x post c,
    (ft.remove-SameBodies a x).same_bodies i,
    (ft.remove-SameBodies a x).same_bodies x,
    (ft.remove-SameBodies a x).same_bodies j,
  )

  next_header : SameHeader (one_less at (head_or (no_block at) post) i a.header) merged_next.header
  unfolding count_merged_free_block set_last_if_end coalesce_with_next modify_if_block
  next_header =
      ground
        (arith, (Merging.here t a pre i x post c).1.0.next, (ft.remove-SameBodies a x).same_header)

  pub merged_next-IsHeap : IsHeap at merged_next (pre ++ i ∷ post)
  merged_next-IsHeap =
      Merging.merge-IsHeap t a pre i x post c merged_next (λ j hj. next_bodies j) next_header

  pub merged_next-free : is_free (merged_next.blocks i).node_type ≡ true
  merged_next-free = ground (arith, next_bodies i, c.first_free)

  pub merged_next-front : (j : ℕ) → j < i → bodies merged_next j ≡ bodies a j
  merged_next-front j lt = ground (arith, next_bodies j, far)

  -- the block before: `x` is the block that is coalesced, `i` the one that remains
  abbrev pub merged_prev : Arena
  merged_prev =
      let me = a.blocks x in
      count_merged_free_block at (
        set_last_if_end at me.next_offset i
          (coalesce_with_prev at x i me.next_offset i me.weight (ft.remove a i)))

  prev_bodies :
      (j : ℕ)
      → bodies merged_prev j ≡ with_merged at i x (Merging.weight t a pre i x post c) (bodies a) j
  unfolding count_merged_free_block set_last_if_end coalesce_with_prev modify_if_block
  prev_bodies j = ground (
    arith,
    far,
    Merging.weight_eq t a pre i x post c,
    (ft.remove-SameBodies a i).same_bodies i,
    (ft.remove-SameBodies a i).same_bodies x,
    (ft.remove-SameBodies a i).same_bodies j,
  )

  prev_header : SameHeader (one_less at (head_or (no_block at) post) i a.header) merged_prev.header
  unfolding count_merged_free_block set_last_if_end coalesce_with_prev modify_if_block
  prev_header =
      ground
        (arith, (Merging.here t a pre i x post c).1.0.next, (ft.remove-SameBodies a i).same_header)

  pub merged_prev-IsHeap : IsHeap at merged_prev (pre ++ i ∷ post)
  merged_prev-IsHeap =
      Merging.merge-IsHeap t a pre i x post c merged_prev (λ j hj. prev_bodies j) prev_header

  pub merged_prev-free : is_free (merged_prev.blocks i).node_type ≡ true
  merged_prev-free = ground (arith, prev_bodies i, c.first_free)
