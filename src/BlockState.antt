-- ===== src/BlockState.antt =====
-- include/pmm/block_state.h: the states of a block and the moves between them. A typed handle of
-- the source refers to the header of one block: a method that writes this header alone is a function
-- on headers, one that writes a neighbour's too is a function on the arena.
pub mod FreeBlock
pub mod AllocatedBlock
pub mod SplittingBlock
pub mod CoalescingBlock
pub mod States
use netkeep80_persist_memory.Base.{ℕ, Bool, ◌&&◌, not, ◌==◌, if◌then◌else◌}
use netkeep80_persist_memory.Traits.{Traits, no_block}
use netkeep80_persist_memory.Node.{NodeType, free, generic, is_free, is_allocated}
use netkeep80_persist_memory.Memory.{BlockHeader, Arena, modify}
use netkeep80_persist_memory.Diagnostics.{VerifyResult, add, block_state_inconsistent, no_action}

-- `BlockStateBase::is_allocated_raw`, and `AllocatedBlock::verify_invariants`
unfoldable pub is_allocated_raw : BlockHeader → ℕ → Bool
is_allocated_raw h own_idx = is_allocated h.node_type && (h.root_offset == own_idx)

-- `BlockStateBase::recover_state`
unfoldable pub recover_state : ℕ → BlockHeader → BlockHeader
recover_state own_idx h =
    let h1 : BlockHeader =
      if is_allocated h.node_type && not (h.root_offset == own_idx)
      then record h { root_offset = own_idx }
      else h in
    if is_free h1.node_type && not (h1.root_offset == 0) then record h1 { root_offset = 0 } else h1

-- `BlockStateBase::verify_state`
unfoldable pub verify_state : BlockHeader → ℕ → VerifyResult → VerifyResult
verify_state h own_idx r =
    let r1 : VerifyResult =
      if is_allocated h.node_type && not (h.root_offset == own_idx)
      then add block_state_inconsistent no_action own_idx own_idx h.root_offset r
      else r in
    if is_free h.node_type && not (h.root_offset == 0)
    then add block_state_inconsistent no_action own_idx 0 h.root_offset r1
    else r1

-- `BlockStateBase::repair_prev_offset`
unfoldable pub repair_prev_offset : ℕ → BlockHeader → BlockHeader
repair_prev_offset prev_idx h = record h { prev_offset = prev_idx }

-- The state that `detect_block_state` answers with 0, 1 or -1.
pub data DetectedState : Type 0 where
  free_state allocated_state no_state : DetectedState

unfoldable pub detect_block_state : BlockHeader → ℕ → DetectedState
unfolding is_allocated_raw
detect_block_state h own_idx =
    if is_free h.node_type
    then free_state
    else if is_allocated_raw h own_idx
    then allocated_state
    else no_state

-- `FreeBlockNotInAVL::insert_to_avl`
unfoldable pub insert_to_avl : BlockHeader → BlockHeader
insert_to_avl h = record h { avl_height = 1 }

module _ (at : Traits) where
  -- `BlockStateBase::reset_avl_fields_of`
  unfoldable pub reset_avl_fields_of : BlockHeader → BlockHeader
  reset_avl_fields_of h = record h {
    left_offset = no_block at;
    right_offset = no_block at;
    parent_offset = no_block at;
    avl_height = 0;
  }

  -- `BlockStateBase::init_fields`
  unfoldable pub init_fields : ℕ → ℕ → ℕ → ℕ → ℕ → NodeType → BlockHeader → BlockHeader
  init_fields prev_idx next_idx avl_height_val weight_val root_offset_val node_type_val h = record {
    weight = weight_val;
    left_offset = no_block at;
    right_offset = no_block at;
    parent_offset = no_block at;
    root_offset = root_offset_val;
    prev_offset = prev_idx;
    next_offset = next_idx;
    avl_height = avl_height_val;
    node_type = node_type_val;
  }

  -- `FreeBlockRemovedAVL::mark_as_allocated`
  unfoldable pub mark_as_allocated : ℕ → ℕ → BlockHeader → BlockHeader
  mark_as_allocated data_granules own_idx h = record h {
    weight = data_granules;
    root_offset = own_idx;
    left_offset = no_block at;
    right_offset = no_block at;
    parent_offset = no_block at;
    avl_height = 0;
    node_type = generic;
  }

  -- `SplittingBlock::finalize_split`
  unfoldable pub finalize_split : ℕ → ℕ → BlockHeader → BlockHeader
  finalize_split data_granules own_idx h = record h {
    weight = data_granules;
    root_offset = own_idx;
    left_offset = no_block at;
    right_offset = no_block at;
    parent_offset = no_block at;
    avl_height = 0;
    node_type = generic;
  }

  -- The neighbours of the `BlockHeader*` that may be null are at indices that may be `no_block`.
  unfoldable pub modify_if_block : ℕ → (BlockHeader → BlockHeader) → Arena → Arena
  modify_if_block i f a = if i == no_block at then a else modify i f a

  -- `CoalescingBlock::finalize_coalesce`
  unfoldable pub finalize_coalesce : BlockHeader → BlockHeader
  finalize_coalesce h = record h { avl_height = 1; node_type = free }
