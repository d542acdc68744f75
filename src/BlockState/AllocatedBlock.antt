-- ===== src/BlockState/AllocatedBlock.antt =====
-- include/pmm/block_state.h, `AllocatedBlock`: the casts from a raw pointer. A cast with an assertion
-- answers `none` where the assertion fails.
use netkeep80_persist_memory.Base.{
  ℕ, ◌%◌, ◌==◌, Bool, false, not, Option, none, some, if◌then◌else◌,
}
use netkeep80_persist_memory.Node.{free, is_allocated}
use netkeep80_persist_memory.Memory.{BlockHeader}

-- the header at an address, null being 0, where headers are aligned to `align_of`
unfoldable pub can_cast_from_raw : (align_of address : ℕ) → BlockHeader → Bool
can_cast_from_raw align_of address h =
    if address == 0
    then false
    else if not (address % align_of == 0)
    then false
    else is_allocated h.node_type

unfoldable pub try_cast_from_raw : (align_of address : ℕ) → BlockHeader → Option BlockHeader
unfolding can_cast_from_raw
try_cast_from_raw align_of address h = if can_cast_from_raw align_of address h then some h else none

unfoldable pub cast_from_raw : Option BlockHeader → Option BlockHeader
cast_from_raw none = none
cast_from_raw (some h) = if is_allocated h.node_type then some h else none

unfoldable pub mark_as_free : ℕ → BlockHeader → BlockHeader
mark_as_free total_granules h = record h {
  weight = total_granules;
  root_offset = 0;
  node_type = free;
}
