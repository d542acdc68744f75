-- ===== src/Manager.antt =====
-- include/pmm/persist_memory_manager.h and `find_block_from_user_ptr` of
-- include/pmm/forest_domain_mixin.inc: the manager's unlocked operations on the arena. A pointer is
-- an address, null is 0, and `base_addr` is the address that the backend maps the arena to.
pub mod Mark
pub mod Release
pub mod Allocate
pub mod Answer
use netkeep80_persist_memory.Base.{
  ℕ, ◌+◌, ◌-◌, ◌/◌, Bool, true, false, ◌&&◌, ◌||◌, not, Option, none, some, ◌==◌, ltb, leb,
  if◌then◌else◌,
}
use netkeep80_persist_memory.Traits.{
  Traits, no_block, block_size, header_granules, add_index, sub_index,
}
use netkeep80_persist_memory.Node.{
  NodeType, read_only_locked, is_allocated, can_be_deleted_from_pap, to_byte,
}
use netkeep80_persist_memory.Memory.{BlockHeader, ManagerHeader, Arena, modify, with_header}
use netkeep80_persist_memory.BlockState.AllocatedBlock.{mark_as_free}
use netkeep80_persist_memory.Checked.{bytes_to_granules_checked, checked_granule_offset, fits_range}
use netkeep80_persist_memory.Validation.{physical_block_total_granules, is_canonical_user_ptr}
use netkeep80_persist_memory.FreeTree.Policy.{FreeBlockTreePolicy}
use netkeep80_persist_memory.Allocator.{coalesce, allocate_from_block}

-- `enum class PmmError`
pub data PmmError : Type 0 where
  ok not_initialized invalid_size overflow out_of_memory expand_failed invalid_magic : PmmError
  crc_mismatch size_mismatch granule_mismatch backend_error invalid_pointer : PmmError
  block_locked unsupported_image_version : PmmError

-- what an allocation leaves: the arena, `_last_error`, and the granule index of the data
pub record Allocated : Type 0 where
  pub arena : Arena
  pub last_error : PmmError
  pub user_data : Option ℕ

module _ (at : Traits) where
  -- `detail::header_from_ptr_t`: the index of the block's header
  unfoldable pub header_from_ptr :
      (manager_header_size : ℕ) → Arena → (base_addr raw total : ℕ) → Option ℕ
  header_from_ptr manager_header_size a base_addr raw total =
      if is_canonical_user_ptr at manager_header_size a base_addr total raw
      then some ((raw - base_addr - block_size at) / at.granule_size)
      else none

  unfoldable pub find_block_from_user_ptr :
      (manager_header_size : ℕ) → Arena → (base_addr raw : ℕ) → Option ℕ
  find_block_from_user_ptr manager_header_size a base_addr raw =
      header_from_ptr manager_header_size a base_addr raw a.header.total_size

  -- `is_valid_user_offset_unlocked`, over a backend of `total` bytes whose base is not null
  unfoldable pub is_valid_user_offset : (total off size_bytes : ℕ) → Bool
  is_valid_user_offset total off size_bytes =
      if (off == 0) || (total == 0) then false else elim (checked_granule_offset at off) [
        | none ↦ false
        | some byte_off ↦ fits_range byte_off size_bytes total
      ]

  -- `lock_block_permanent_unlocked`
  unfoldable pub lock_block : ℕ → Arena → Arena × Bool
  lock_block i a =
      if is_allocated (a.blocks i).node_type
      then (modify i (λ h. record h { node_type = read_only_locked }) a, true)
      else (a, false)

  unfoldable pub lock_block_permanent :
      (manager_header_size : ℕ) → (initialized : Bool) → Arena → (base_addr raw : ℕ) → Arena × Bool
  lock_block_permanent manager_header_size initialized a base_addr raw =
      if not initialized || (raw == 0)
      then (a, false)
      else elim (find_block_from_user_ptr manager_header_size a base_addr raw) [
        | none ↦ (a, false)
        | some i ↦ lock_block i a
      ]

  -- `is_permanently_locked`
  unfoldable pub is_permanently_locked :
      (manager_header_size : ℕ) → (initialized : Bool) → Arena → (base_addr raw : ℕ) → Bool
  is_permanently_locked manager_header_size initialized a base_addr raw =
      if not initialized || (raw == 0)
      then false
      else elim (find_block_from_user_ptr manager_header_size a base_addr raw) [
        | none ↦ false
        | some i ↦ to_byte (a.blocks i).node_type == to_byte read_only_locked
      ]

  -- `deallocate_unlocked`: the block is free, and the counters say so
  unfoldable pub mark_released : ℕ → Arena → Arena
  mark_released i a =
      let freed : ℕ = (a.blocks i).weight in
      let total : ℕ = physical_block_total_granules at a.header i (a.blocks i) in
      with_header
        (λ h. record h {
          alloc_count = sub_index at h.alloc_count 1;
          free_count = add_index at h.free_count 1;
          used_size = if leb freed h.used_size then sub_index at h.used_size freed else h.used_size;
        })
        (modify i (mark_as_free total) a)

module _ (at : Traits) (ft : FreeBlockTreePolicy) where
  -- `deallocate_unlocked`, from the test of the node type on
  unfoldable pub release_block : ℕ → Arena → Arena
  release_block i a =
      let nt : NodeType = (a.blocks i).node_type in
      if not (is_allocated nt) || not (can_be_deleted_from_pap nt)
      then a
      else if (a.blocks i).weight == 0
      then a
      else coalesce at ft (mark_released at i a) i

  unfoldable pub deallocate :
      (manager_header_size : ℕ) → (initialized : Bool) → Arena → (base_addr raw : ℕ) → Arena
  deallocate manager_header_size initialized a base_addr raw =
      if not initialized || (raw == 0)
      then a
      else elim (find_block_from_user_ptr at manager_header_size a base_addr raw) [
        | none ↦ a
        | some i ↦ release_block i a
      ]

  -- `allocate_unlocked` from the first search on, with what `do_expand` leaves if it succeeds
  unfoldable pub allocate_granules :
      (ℕ → Arena → Option Arena) → (data_gran : ℕ) → Arena → Allocated
  allocate_granules expand data_gran a =
      let needed : ℕ = add_index at (header_granules at) data_gran in
      let give : Arena → Allocated = λ b.
        let got : Arena × Option ℕ =
          allocate_from_block at ft b (ft.find_best_fit b needed) data_gran in
        record { arena = got.0; last_error = ok; user_data = got.1 } in
      if not (ft.find_best_fit a needed == no_block at) then give a else elim (expand data_gran a) [
        | none ↦ record { arena = a; last_error = out_of_memory; user_data = none }
        | some b ↦
            if not (ft.find_best_fit b needed == no_block at)
            then give b
            else record { arena = b; last_error = out_of_memory; user_data = none }
      ]

  unfoldable pub allocate :
      (ℕ → Arena → Option Arena) → (initialized : Bool) → (user_size : ℕ) → Arena → Allocated
  allocate expand initialized user_size a =
      let failed : PmmError → Allocated =
        λ e. record { arena = a; last_error = e; user_data = none } in
      if not initialized
      then failed not_initialized
      else if user_size == 0
      then failed invalid_size
      else elim (bytes_to_granules_checked at user_size) [
        | none ↦ failed overflow
        | some data_gran ↦
            if data_gran == 0
            then failed invalid_size
            else if ltb (at.index_max - header_granules at) data_gran
            then failed overflow
            else allocate_granules expand data_gran a
      ]
