-- ===== src/Allocator.antt =====
-- include/pmm/allocator_policy.h: `AllocatorPolicy` over any tree of free blocks. A `void*` result is
-- the granule index of the user data. The assertion of `FreeBlock::cast_from_raw` is left out, as in
-- a build with NDEBUG.
pub mod Effect
pub mod Candidate
pub mod Split
pub mod Whole
pub mod Allocate
pub mod Merging
pub mod Coalesce
pub mod Coalesced
pub mod Repair
pub mod Relinked
pub mod Rebuilt
pub mod Recounted
pub mod TreeCheck
pub mod Verify
pub mod Counting
pub mod Silent
pub mod Slack
use netkeep80_persist_memory.Base.{
  ℕ, ◌+◌, ◌-◌, Bool, true, false, ◌&&◌, ◌||◌, not, Option, none, some, ◌==◌, ltb, leb,
  if◌then◌else◌,
}
use netkeep80_persist_memory.Traits.{Traits, no_block, header_granules, add_index, sub_index}
use netkeep80_persist_memory.Node.{NodeType, free, is_free}
use netkeep80_persist_memory.Memory.{BlockHeader, ManagerHeader, Arena, modify, with_header, zeroed}
use netkeep80_persist_memory.BlockState.{
  mark_as_allocated, finalize_split, finalize_coalesce, init_fields, modify_if_block,
}
use netkeep80_persist_memory.BlockState.SplittingBlock.{initialize_new_block, link_new_block}
use netkeep80_persist_memory.BlockState.CoalescingBlock.{coalesce_with_next, coalesce_with_prev}
use netkeep80_persist_memory.FreeTree.Policy.{FreeBlockTreePolicy}

module _ (at : Traits) where
  -- `hdr->last_block_offset = idx` where the block that would follow is null
  unfoldable pub set_last_if_end : (next idx : ℕ) → Arena → Arena
  set_last_if_end next idx a =
      if next == no_block at then with_header (λ h. record h { last_block_offset = idx }) a else a

  -- the counters after a block was cut in two, the second part free
  unfoldable pub count_new_free_block : Arena → Arena
  count_new_free_block = with_header λ h. record h {
    block_count = add_index at h.block_count 1;
    free_count = add_index at h.free_count 1;
    used_size = add_index at h.used_size (header_granules at);
  }

  -- the counters after a free block was taken into another
  unfoldable pub count_merged_free_block : Arena → Arena
  count_merged_free_block = with_header λ h. record h {
    block_count = sub_index at h.block_count 1;
    free_count = sub_index at h.free_count 1;
    used_size =
        if leb (header_granules at) h.used_size
        then sub_index at h.used_size (header_granules at)
        else h.used_size;
  }

  -- the counters after a free block of `data_gran` data granules was handed out
  unfoldable pub count_allocated : ℕ → Arena → Arena
  count_allocated data_gran = with_header λ h. record h {
    alloc_count = add_index at h.alloc_count 1;
    free_count = sub_index at h.free_count 1;
    used_size = add_index at h.used_size data_gran;
  }

  unfoldable pub can_split : (total needed : ℕ) → Bool
  can_split total needed =
      leb needed (at.index_max - (header_granules at + 1))
      && leb (needed + (header_granules at + 1)) total

  -- the branch of `realloc_shrink` that gives the end of the block back, up to `coalesce`
  unfoldable pub shrink_cut : Arena → (blk_idx old_data_gran new_data_gran : ℕ) → Arena
  shrink_cut a blk_idx old_data_gran new_data_gran =
      let remainder : ℕ = sub_index at old_data_gran new_data_gran in
      let new_free_idx : ℕ =
        add_index at (add_index at blk_idx (header_granules at)) new_data_gran in
      let old_next : ℕ = (a.blocks blk_idx).next_offset in
      let a1 : Arena =
        modify new_free_idx (λ h. init_fields at blk_idx old_next 1 remainder 0 free zeroed) a in
      let a2 : Arena = modify blk_idx (λ h. record h { next_offset = new_free_idx }) a1 in
      let a3 : Arena =
        set_last_if_end old_next new_free_idx
          (modify_if_block at old_next (λ h. record h { prev_offset = new_free_idx }) a2) in
      let a4 : Arena = modify blk_idx (λ h. record h { weight = new_data_gran }) a3 in
      with_header
        (λ h. record h {
          used_size = sub_index at h.used_size (sub_index at old_data_gran new_data_gran);
        })
        (count_new_free_block a4)

module _ (at : Traits) (ft : FreeBlockTreePolicy) where
  open ft use {insert as tree_insert, remove as tree_remove, find_best_fit}

  -- the branch of `allocate_from_block` that splits
  unfoldable pub split_block : (blk_idx data_gran : ℕ) → Arena → Arena
  split_block blk_idx data_gran a =
      let needed : ℕ = add_index at (header_granules at) data_gran in
      let new_idx : ℕ = add_index at blk_idx needed in
      let curr_next : ℕ = (a.blocks blk_idx).next_offset in
      let new_total : ℕ = sub_index at (a.blocks blk_idx).weight needed in
      modify blk_idx (finalize_split at data_gran blk_idx) (
        tree_insert
          (count_new_free_block at (
            set_last_if_end at curr_next new_idx (
              link_new_block at blk_idx curr_next new_idx
                (initialize_new_block at blk_idx new_idx blk_idx new_total a))))
          new_idx)

  unfoldable pub allocate_from_block : Arena → (blk_idx data_gran : ℕ) → Arena × Option ℕ
  allocate_from_block a blk_idx data_gran =
      let a1 : Arena = tree_remove a blk_idx in
      let needed : ℕ = add_index at (header_granules at) data_gran in
      let a2 : Arena =
        if can_split at (a1.blocks blk_idx).weight needed
        then split_block blk_idx data_gran a1
        else modify blk_idx (mark_as_allocated at data_gran blk_idx) a1 in
      if data_gran == 0
      then (a, none)
      else if ltb (at.index_max - header_granules at) data_gran
      then (a, none)
      else (count_allocated at data_gran a2, some (add_index at blk_idx (header_granules at)))

  -- the part of `coalesce` that looks at the block behind
  unfoldable pub coalesce_next : ℕ → Arena → Arena
  coalesce_next blk_idx a =
      let nxt_idx : ℕ = (a.blocks blk_idx).next_offset in
      let nxt : BlockHeader = a.blocks nxt_idx in
      if not (nxt_idx == no_block at) && is_free nxt.node_type
      then count_merged_free_block at (
          set_last_if_end at nxt.next_offset blk_idx (
            coalesce_with_next at blk_idx nxt_idx nxt.next_offset blk_idx nxt.weight
              (tree_remove a nxt_idx)))
      else a

  -- the part of `coalesce` that looks at the block before, and the end
  unfoldable pub coalesce_prev : ℕ → Arena → Arena
  coalesce_prev blk_idx a =
      let me : BlockHeader = a.blocks blk_idx in
      let prv_idx : ℕ = me.prev_offset in
      if not (prv_idx == no_block at) && is_free (a.blocks prv_idx).node_type
      then tree_insert
          (modify prv_idx (finalize_coalesce at) (
            count_merged_free_block at (
              set_last_if_end at me.next_offset prv_idx (
                coalesce_with_prev at blk_idx prv_idx me.next_offset prv_idx me.weight
                  (tree_remove a prv_idx)))))
          prv_idx
      else tree_insert (modify blk_idx (finalize_coalesce at) a) blk_idx

  unfoldable pub coalesce : Arena → ℕ → Arena
  coalesce a blk_idx = coalesce_prev blk_idx (coalesce_next blk_idx a)

  unfoldable pub shrink_split : Arena → (blk_idx old_data_gran new_data_gran : ℕ) → Arena
  shrink_split a blk_idx old_data_gran new_data_gran =
      coalesce (shrink_cut at a blk_idx old_data_gran new_data_gran)
        (add_index at (add_index at blk_idx (header_granules at)) new_data_gran)

  unfoldable pub realloc_shrink : Arena → (blk_idx old_data_gran new_data_gran : ℕ) → Arena
  realloc_shrink a blk_idx old_data_gran new_data_gran =
      if leb (header_granules at + 1) (sub_index at old_data_gran new_data_gran)
      then shrink_split a blk_idx old_data_gran new_data_gran
      else with_header
          (λ h. record h {
            used_size = sub_index at h.used_size (sub_index at old_data_gran new_data_gran);
          })
          (modify blk_idx (λ h. record h { weight = new_data_gran }) a)

  -- `realloc_grow`: the free block behind is taken in
  unfoldable pub absorb_next : Arena → (blk_idx next_idx : ℕ) → Arena
  absorb_next a blk_idx next_idx =
      let a1 : Arena = tree_remove a next_idx in
      let next_next : ℕ = (a1.blocks next_idx).next_offset in
      let a2 : Arena = modify blk_idx (λ h. record h { next_offset = next_next }) a1 in
      let a3 : Arena =
        set_last_if_end at next_next blk_idx
          (modify_if_block at next_next (λ h. record h { prev_offset = blk_idx }) a2) in
      count_merged_free_block at (modify next_idx (λ h. zeroed) a3)

  -- `realloc_grow`: what is left over becomes a free block again
  unfoldable pub give_back_rest : Arena → (blk_idx new_data_gran rem : ℕ) → Arena
  give_back_rest a blk_idx new_data_gran rem =
      let rem_idx : ℕ = add_index at (add_index at blk_idx (header_granules at)) new_data_gran in
      let blk_new_next : ℕ = (a.blocks blk_idx).next_offset in
      let a1 : Arena =
        modify rem_idx (λ h. init_fields at blk_idx blk_new_next 1 rem 0 free zeroed) a in
      let a2 : Arena = modify blk_idx (λ h. record h { next_offset = rem_idx }) a1 in
      let a3 : Arena =
        set_last_if_end at blk_new_next rem_idx
          (modify_if_block at blk_new_next (λ h. record h { prev_offset = rem_idx }) a2) in
      tree_insert (count_new_free_block at a3) rem_idx

  unfoldable pub realloc_grow : Arena → (blk_idx old_data_gran new_data_gran : ℕ) → Arena × Bool
  realloc_grow a blk_idx old_data_gran new_data_gran =
      let next_idx : ℕ = (a.blocks blk_idx).next_offset in
      let available : ℕ = add_index at old_data_gran (a.blocks next_idx).weight in
      let rem : ℕ = sub_index at available new_data_gran in
      let merged : Arena = absorb_next a blk_idx next_idx in
      let cut : Arena =
        if leb (header_granules at + 1) rem
        then give_back_rest merged blk_idx new_data_gran rem
        else merged in
      let grown : Arena =
        with_header
          (λ h. record h {
            used_size = add_index at h.used_size (sub_index at new_data_gran old_data_gran);
          })
          (modify blk_idx (λ h. record h { weight = new_data_gran }) cut) in
      if (next_idx == no_block at) || not (is_free (a.blocks next_idx).node_type)
      then (a, false)
      else if ltb available new_data_gran
      then (a, false)
      else (grown, true)
