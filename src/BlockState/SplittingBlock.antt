-- ===== src/BlockState/SplittingBlock.antt =====
-- include/pmm/block_state.h, `SplittingBlock`: a free block out of the tree, about to give up its end.
use netkeep80_persist_memory.Base.{ℕ}
use netkeep80_persist_memory.Node.{free}
use netkeep80_persist_memory.Traits.{Traits, no_block}
use netkeep80_persist_memory.Memory.{Arena, modify}
use netkeep80_persist_memory.BlockState.{modify_if_block}

module _ (at : Traits) where
  -- `initialize_new_block`, called on the block at `self`
  unfoldable pub initialize_new_block : ℕ → ℕ → ℕ → ℕ → Arena → Arena
  initialize_new_block self new_idx own_idx new_block_total_granules a =
      let next : ℕ = (a.blocks self).next_offset in
      modify new_idx
        (λ h. record {
          weight = new_block_total_granules;
          left_offset = no_block at;
          right_offset = no_block at;
          parent_offset = no_block at;
          root_offset = 0;
          prev_offset = own_idx;
          next_offset = next;
          avl_height = 1;
          node_type = free;
        })
        a

  -- `link_new_block`
  unfoldable pub link_new_block : ℕ → ℕ → ℕ → Arena → Arena
  unfolding modify_if_block
  link_new_block self old_next new_idx a =
      modify self (λ h. record h { next_offset = new_idx })
        (modify_if_block at old_next (λ h. record h { prev_offset = new_idx }) a)
