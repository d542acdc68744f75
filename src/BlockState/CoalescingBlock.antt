-- ===== src/BlockState/CoalescingBlock.antt =====
-- include/pmm/block_state.h, `CoalescingBlock`: a free block that takes in a free neighbour.
use netkeep80_persist_memory.Base.{ℕ}
use netkeep80_persist_memory.Traits.{Traits, add_index}
use netkeep80_persist_memory.Memory.{BlockHeader, zeroed, Arena, modify}
use netkeep80_persist_memory.BlockState.{modify_if_block}

module _ (at : Traits) where
  -- `coalesce_with_next`, called on the block at `self`
  unfoldable pub coalesce_with_next : ℕ → ℕ → ℕ → ℕ → ℕ → Arena → Arena
  unfolding modify_if_block
  coalesce_with_next self next_blk next_next_blk own_idx next_block_granules a =
      let nx : BlockHeader = a.blocks next_blk in
      let a1 : Arena = modify self (λ h. record h { next_offset = nx.next_offset }) a in
      let a2 : Arena =
        modify_if_block at next_next_blk (λ h. record h { prev_offset = own_idx }) a1 in
      let a3 : Arena = modify next_blk (λ h. zeroed) a2 in
      modify self (λ h. record h { weight = add_index at h.weight next_block_granules }) a3

  -- `coalesce_with_prev`: what remains is the block at `prev_blk`
  unfoldable pub coalesce_with_prev : ℕ → ℕ → ℕ → ℕ → ℕ → Arena → Arena
  unfolding modify_if_block
  coalesce_with_prev self prev_blk next_blk prev_idx self_block_granules a =
      let me : BlockHeader = a.blocks self in
      let a1 : Arena = modify prev_blk (λ h. record h { next_offset = me.next_offset }) a in
      let a2 : Arena = modify_if_block at next_blk (λ h. record h { prev_offset = prev_idx }) a1 in
      let a3 : Arena = modify self (λ h. zeroed) a2 in
      modify prev_blk (λ h. record h { weight = add_index at h.weight self_block_granules }) a3
