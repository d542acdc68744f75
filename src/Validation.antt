-- ===== src/Validation.antt =====
-- include/pmm/validation.h and the end of include/pmm/types.h: the checks of an index, of a user
-- pointer and of a block header before they are trusted. Pointers are addresses; null is 0.
pub mod Canonical
pub mod Pointers
pub mod Agreement
pub mod Full
use netkeep80_persist_memory.Base.{
  ℕ, ◌+◌, ◌-◌, ◌*◌, ◌/◌, ◌%◌, Bool, true, false, ◌&&◌, ◌||◌, not, ◌==◌, ltb, leb, if◌then◌else◌,
}
use netkeep80_persist_memory.Traits.{
  Traits, no_block, size_max, block_size, sub_index, to_index, header_granules,
}
use netkeep80_persist_memory.Node.{NodeType, is_free, is_allocated, is_known_node_type, to_byte}
use netkeep80_persist_memory.Memory.{BlockHeader, ManagerHeader, Arena}
use netkeep80_persist_memory.Diagnostics.{VerifyResult, add, block_state_inconsistent, no_action}
use netkeep80_persist_memory.BlockState.{verify_state}

module _ (at : Traits) where
  open at use {index_max, granule_size}

  unfoldable pub validate_block_index : ℕ → ℕ → Bool
  validate_block_index total_size idx =
      if idx == no_block at
      then false
      else if ltb (size_max / granule_size) idx
      then false
      else leb (idx * granule_size) (size_max - block_size at)
        && leb (idx * granule_size + block_size at) total_size

  unfoldable pub validate_link_index : ℕ → ℕ → Bool
  validate_link_index total_size idx =
      if idx == no_block at then true else validate_block_index total_size idx

  unfoldable pub validate_user_ptr : ℕ → ℕ → ℕ → ℕ → Bool
  validate_user_ptr base_addr total_size raw_addr min_user_offset =
      if (raw_addr == 0) || (base_addr == 0)
      then false
      else if ltb min_user_offset (block_size at)
      then false
      else if ltb total_size min_user_offset
      then false
      else if ltb raw_addr base_addr
      then false
      else if leb total_size (raw_addr - base_addr)
      then false
      else if ltb (raw_addr - base_addr) min_user_offset
      then false
      else (raw_addr - base_addr - block_size at) % granule_size == 0

  -- `detail::physical_block_total_granules`, and `AllocatorPolicy::compute_total_block_granules`
  unfoldable pub physical_block_total_granules : ManagerHeader → ℕ → BlockHeader → ℕ
  physical_block_total_granules hdr this_idx blk =
      if not (blk.next_offset == no_block at)
      then sub_index at blk.next_offset this_idx
      else sub_index at (to_index at (hdr.total_size / granule_size)) this_idx

  -- `detail::block_total_granules`
  unfoldable pub block_total_granules : ManagerHeader → ℕ → BlockHeader → ℕ
  block_total_granules hdr this_idx blk =
      if is_free blk.node_type then blk.weight else physical_block_total_granules hdr this_idx blk

  -- `is_block_header_linked_in_canonical_chain`: the neighbour before, then the one behind
  unfoldable pub prev_link_ok : Arena → ℕ → ℕ → Bool
  prev_link_ok a total_size cand_idx =
      let prev = (a.blocks cand_idx).prev_offset in
      if prev == no_block at
      then cand_idx == a.header.first_block_offset
      else validate_block_index total_size prev
        && ltb prev cand_idx
        && ((a.blocks prev).next_offset == cand_idx)

  unfoldable pub next_link_ok : Arena → ℕ → ℕ → Bool
  next_link_ok a total_size cand_idx =
      let next = (a.blocks cand_idx).next_offset in
      if next == no_block at
      then cand_idx == a.header.last_block_offset
      else validate_block_index total_size next
        && ltb cand_idx next
        && ((a.blocks next).prev_offset == cand_idx)

  unfoldable pub is_block_header_linked_in_canonical_chain : Arena → ℕ → ℕ → Bool
  is_block_header_linked_in_canonical_chain a total_size cand_idx =
      not (a.header.block_count == 0)
      && not (a.header.first_block_offset == no_block at)
      && validate_block_index total_size a.header.first_block_offset
      && validate_block_index total_size a.header.last_block_offset
      && prev_link_ok a total_size cand_idx
      && next_link_ok a total_size cand_idx

  -- `sizeof( ManagerHeader<AT> )` is a parameter: the layout of the struct is the compiler's.
  -- `is_canonical_allocated_block_header`, on the byte offset of the candidate, at or above the base
  unfoldable pub is_canonical_allocated_block_header : ℕ → Arena → ℕ → ℕ → Bool
  is_canonical_allocated_block_header manager_header_size a total_size cand_off =
      let cand_idx : ℕ = cand_off / granule_size in
      let cand : BlockHeader = a.blocks cand_idx in
      (cand_off % granule_size == 0)
      && leb cand_idx index_max
      && validate_block_index total_size cand_idx
      && is_allocated cand.node_type
      && (cand.root_offset == cand_idx)
      && not (cand.weight == 0)
      && leb (header_granules at * granule_size + manager_header_size) total_size
      && (a.header.total_size == total_size)
      && is_block_header_linked_in_canonical_chain a total_size cand_idx
      && leb cand_off (total_size - block_size at)
      && leb cand.weight (size_max / granule_size)
      && leb (cand.weight * granule_size) (total_size - (cand_off + block_size at))

  -- `is_canonical_user_ptr`
  unfoldable pub is_canonical_user_ptr : ℕ → Arena → ℕ → ℕ → ℕ → Bool
  is_canonical_user_ptr manager_header_size a base_addr total_size raw_addr =
      validate_user_ptr base_addr total_size raw_addr
        (block_size at + manager_header_size + block_size at)
      && is_canonical_allocated_block_header manager_header_size a total_size
          (raw_addr - base_addr - block_size at)

  -- `validate_block_header_full`: the end of the data of an allocated block
  unfoldable pub verify_extent : BlockHeader → ℕ → ℕ → VerifyResult → VerifyResult
  verify_extent h total_size idx r =
      let report = λ (end : ℕ). add block_state_inconsistent no_action idx total_size end r in
      let off = idx * granule_size in
      let bytes = h.weight * granule_size in
      if not (is_allocated h.node_type && ltb 0 h.weight)
      then r
      else if ltb (size_max / granule_size) idx || ltb (size_max / granule_size) h.weight
      then report size_max
      else if ltb (size_max - block_size at) off
      then report size_max
      else if ltb (size_max - bytes) (off + block_size at)
      then report size_max
      else if ltb total_size (off + block_size at + bytes)
      then report (off + block_size at + bytes)
      else r

  unfoldable pub verify_link : ℕ → ℕ → ℕ → VerifyResult → VerifyResult
  verify_link total_size idx link r =
      if not (link == no_block at) && not (validate_block_index total_size link)
      then add block_state_inconsistent no_action idx (no_block at) link r
      else r

  unfoldable pub verify_node_type : NodeType → ℕ → VerifyResult → VerifyResult
  verify_node_type nt idx r =
      if is_known_node_type nt
      then r
      else add block_state_inconsistent no_action idx 0 (to_byte nt) r

  unfoldable pub validate_block_header_full : Arena → ℕ → ℕ → VerifyResult → VerifyResult
  validate_block_header_full a total_size idx r =
      let h = a.blocks idx in
      if not (validate_block_index total_size idx)
      then add block_state_inconsistent no_action idx 0 0 r
      else verify_extent h total_size idx (
          verify_node_type h.node_type idx (
            verify_link total_size idx h.prev_offset
              (verify_link total_size idx h.next_offset (verify_state h idx r))))
