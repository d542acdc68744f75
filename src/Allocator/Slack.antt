-- ===== src/Allocator/Slack.antt =====
-- include/pmm/allocator_policy.h, `realloc_shrink`: the block that it gives back behind a block with
-- granules to spare.
use netkeep80_persist_memory.Base.{
  ℕ, ◌+◌, ◌-◌, ◌≤◌, ◌<◌, ◌≡◌, refl, true, false, arith, eq_refl, eq_of_ne, leb, leb_when,
}
use netkeep80_persist_memory.Traits.{
  Traits, no_block, header_granules, add_index, sub_index, add_index-eq, sub_index-eq,
}
use netkeep80_persist_memory.Node.{is_free}
use netkeep80_persist_memory.Memory.{Arena, body, modify}
use netkeep80_persist_memory.BlockState.{init_fields, modify_if_block, finalize_coalesce}
use netkeep80_persist_memory.FreeTree.Policy.{FreeBlockTreePolicy}
use netkeep80_persist_memory.Layout.{IsTraits}
use netkeep80_persist_memory.Allocator.{
  shrink_cut, set_last_if_end, count_new_free_block, coalesce, coalesce_next, coalesce_prev,
  shrink_split, realloc_shrink,
}

module _ (at : Traits) (ft : FreeBlockTreePolicy) where
  next_stays :
      (a : Arena) (k : ℕ)
      → is_free (a.blocks (a.blocks k).next_offset).node_type ≡ false
      → coalesce_next at ft k a ≡ a
  unfolding coalesce_next
  next_stays a k f = rw f (ground arith)

  prev_stays :
      (a : Arena) (k : ℕ)
      → is_free (a.blocks (a.blocks k).prev_offset).node_type ≡ false
      → coalesce_prev at ft k a ≡ ft.insert (modify k (finalize_coalesce at) a) k
  unfolding coalesce_prev
  prev_stays a k f = rw f (ground arith)

  -- where neither neighbour is free, `coalesce` leaves the size and the link of the block
  coalesce-alone :
      (a : Arena) (k : ℕ)
      → is_free (a.blocks (a.blocks k).next_offset).node_type ≡ false
      → is_free (a.blocks (a.blocks k).prev_offset).node_type ≡ false
      → (((coalesce at ft a k).blocks k).weight ≡ (a.blocks k).weight)
        × (((coalesce at ft a k).blocks k).next_offset ≡ (a.blocks k).next_offset)
  unfolding coalesce finalize_coalesce
  coalesce-alone a k fn fp =
      let b = modify k (finalize_coalesce at) a in
      let same : body ((ft.insert b k).blocks k) ≡ body (finalize_coalesce at (a.blocks k)) =
        ground (arith, (ft.insert-SameBodies b k).same_bodies k) in
      rw (next_stays a k fn, prev_stays a k fp) (ground (arith, same))

module _ {at : Traits} (t : IsTraits at) (a : Arena) (i next old new : ℕ)
    (follows : (a.blocks i).next_offset ≡ next) (room : new + header_granules at + 1 ≤ old)
    (slack : i + header_granules at + old < next) (small : next < at.index_max) where
  abbrev k : ℕ
  k = i + header_granules at + new

  -- no index wraps
  in_range :
      (sub_index at old new ≡ old - new)
      × (add_index at (add_index at i (header_granules at)) new ≡ k)
  in_range =
      let h = add_index-eq at i (header_granules at) (omega arith) in
      (
        sub_index-eq at old new (omega arith) (omega arith),
        rw h (add_index-eq at (i + header_granules at) new (omega arith)),
      )

  -- what is cut off, and its neighbours
  cut_blocks :
      (((shrink_cut at a i old new).blocks k).weight ≡ old - new)
      × (((shrink_cut at a i old new).blocks k).next_offset ≡ next)
      × (((shrink_cut at a i old new).blocks k).prev_offset ≡ i)
      × (((shrink_cut at a i old new).blocks next).node_type ≡ (a.blocks next).node_type)
      × (((shrink_cut at a i old new).blocks i).node_type ≡ (a.blocks i).node_type)
  unfolding shrink_cut init_fields modify_if_block set_last_if_end count_new_free_block
  cut_blocks =
      let ki = eq_of_ne k i (λ e. omega (arith, e, t.header_pos)) in
      let ik = eq_of_ne i k (λ e. omega (arith, e, t.header_pos)) in
      let kn = eq_of_ne k next (λ e. omega (arith, e)) in
      let nk = eq_of_ne next k (λ e. omega (arith, e)) in
      let ni = eq_of_ne next i (λ e. omega (arith, e)) in
      let is_block = eq_of_ne next (no_block at) (λ e. omega (arith, e)) in
      let same = eq_refl k in ground (arith, in_range, follows, ki, ik, kn, nk, ni, is_block, same)

  -- The block `i` in use ends, at the next block, behind its header and its `old` granules of data, and
  -- the next block is not free. Where `old` exceeds `new` by more than a header, the free block that
  -- `realloc_shrink` leaves behind `i` weighs less than its distance to the next block.
  pub realloc_shrink-slack :
      (ft : FreeBlockTreePolicy)
      → is_free (a.blocks i).node_type ≡ false
      → is_free (a.blocks next).node_type ≡ false
      → (((realloc_shrink at ft a i old new).blocks k).next_offset ≡ next)
        × (k + ((realloc_shrink at ft a i old new).blocks k).weight < next)
  unfolding realloc_shrink shrink_split
  realloc_shrink-slack ft busy next_busy =
      let cut = cut_blocks in
      let splits : leb (header_granules at + 1) (old - new) ≡ true =
        leb_when (header_granules at + 1) (old - new) (omega arith) in
      let alone =
        coalesce-alone at ft (shrink_cut at a i old new) k (rw (cut.1, cut.3) next_busy)
          (rw (cut.2, cut.4) busy) in
      rw (in_range.0, splits, in_range.1, alone.0, alone.1, cut.0, cut.1) (refl, omega arith)
