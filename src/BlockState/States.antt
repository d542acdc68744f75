-- ===== src/BlockState/States.antt =====
-- include/pmm/block_state.h: the moves between the states of a block, and what the checks of a state
-- find after a recovery.
use netkeep80_persist_memory.Base.{
  ℕ, ◌≡◌, refl, Bool, true, false, ◌&&◌, ◌||◌, arith, ◌==◌, eq_refl, if◌then◌else◌,
}
use netkeep80_persist_memory.Traits.{Traits}
use netkeep80_persist_memory.Node.{
  NodeType, free, manager_header, generic, read_only_locked, pstringview, pstring, parray, pmap,
  pptr, unknown, is_free, is_allocated, is_known_node_type,
}
use netkeep80_persist_memory.Memory.{BlockHeader}
use netkeep80_persist_memory.Diagnostics.{VerifyResult, add}
use netkeep80_persist_memory.BlockState.{
  recover_state, verify_state, is_allocated_raw, detect_block_state, free_state, allocated_state,
  mark_as_allocated,
}
use netkeep80_persist_memory.BlockState.AllocatedBlock.{mark_as_free}
use netkeep80_persist_memory.BlockState.AllocatedBlock
use netkeep80_persist_memory.BlockState.FreeBlock

-- The owner that the type of a block asks for: none for a free block, itself for an allocated one.
abbrev pub owner_ok : BlockHeader → ℕ → Bool
owner_ok h own_idx =
    if is_free h.node_type
    then h.root_offset == 0
    else if is_allocated h.node_type
    then h.root_offset == own_idx
    else true

exclusive : (t : NodeType) → (is_free t && is_allocated t) ≡ false
unfolding is_free is_allocated
exclusive free = refl
exclusive manager_header = refl
exclusive generic = refl
exclusive read_only_locked = refl
exclusive pstringview = refl
exclusive pstring = refl
exclusive parray = refl
exclusive pmap = refl
exclusive pptr = refl
exclusive (unknown b) = refl

exhaustive : (t : NodeType) → is_known_node_type t ≡ true → (is_free t || is_allocated t) ≡ true
unfolding is_free is_allocated is_known_node_type
exhaustive free h = refl
exhaustive manager_header h = refl
exhaustive generic h = refl
exhaustive read_only_locked h = refl
exhaustive pstringview h = refl
exhaustive pstring h = refl
exhaustive parray h = refl
exhaustive pmap h = refl
exhaustive pptr h = refl
exhaustive (unknown b) h = cc

-- `verify_state` leaves the report as it is exactly if the owner is right: it clears `ok` for a wrong
-- owner and only for that.
pub verify_state-ok :
    (h : BlockHeader) (own_idx : ℕ) (r : VerifyResult)
    → (verify_state h own_idx r).ok ≡ (r.ok && owner_ok h own_idx)
unfolding verify_state add
verify_state-ok h own_idx r = ground (arith, exclusive h.node_type)

-- After `recover_state` the check of the state reports nothing.
pub verify_state-recover_state :
    (h : BlockHeader) (own_idx : ℕ) (r : VerifyResult)
    → verify_state (recover_state own_idx h) own_idx r ≡ r
unfolding verify_state recover_state
verify_state-recover_state h own_idx r = ground (arith, exclusive h.node_type)

-- After `recover_state` a block of a known type is in one of the two states, by its type.
pub detect_block_state-recover_state :
    (h : BlockHeader) (own_idx : ℕ)
    → is_known_node_type h.node_type ≡ true
    → detect_block_state (recover_state own_idx h) own_idx
      ≡ (if is_free h.node_type then free_state else allocated_state)
unfolding detect_block_state recover_state is_allocated_raw
detect_block_state-recover_state h own_idx known =
    ground (arith, exclusive h.node_type, exhaustive h.node_type known)

-- A block marked as allocated is cast to an allocated block and not to a free one, and a block marked
-- as free the other way round, whatever it was before.
pub detect_block_state-marked :
    (at : Traits) (h : BlockHeader) (data_granules own_idx total_granules align_of address : ℕ)
    → (detect_block_state (mark_as_allocated at data_granules own_idx h) own_idx ≡ allocated_state)
      × (FreeBlock.can_cast_from_raw align_of address (mark_as_allocated at data_granules own_idx h)
          ≡ false)
      × (detect_block_state (mark_as_free total_granules h) own_idx ≡ free_state)
      × (AllocatedBlock.can_cast_from_raw align_of address (mark_as_free total_granules h) ≡ false)
unfolding detect_block_state is_allocated_raw mark_as_allocated mark_as_free
    FreeBlock.can_cast_from_raw AllocatedBlock.can_cast_from_raw is_free is_allocated
detect_block_state-marked at h data_granules own_idx total_granules align_of address =
    (rw (eq_refl own_idx) refl, ground arith, refl, ground arith)
