-- ===== src/Views.antt =====
-- include/pmm/persist_memory_manager.h: the statistics of a manager and the walk over views of its
-- blocks. A callback takes a view and what it has gathered.
pub mod Partition
use netkeep80_persist_memory.Base.{ℕ, ◌+◌, ◌-◌, ◌*◌, ◌%◌, Bool, false, not, ltb, if◌then◌else◌}
use netkeep80_persist_memory.Traits.{Traits, size_max, granules_to_bytes, block_size}
use netkeep80_persist_memory.Node.{is_allocated}
use netkeep80_persist_memory.Memory.{BlockHeader, ManagerHeader, Arena}
use netkeep80_persist_memory.Walker.{continue, for_each_physical_block}
use netkeep80_persist_memory.Validation.{block_total_granules}
use netkeep80_persist_memory.State.{ManagerState}

pub record BlockView : Type 0 where
  pub index : ℕ
  pub offset : ℕ
  pub total_size : ℕ
  pub header_size : ℕ
  pub user_size : ℕ
  pub alignment : ℕ
  pub used : Bool

unfoldable pub read_stat : (ManagerHeader → ℕ) → ManagerState → ℕ
read_stat fn s = if not (s.initialized) then 0 else fn s.arena.header

unfoldable pub total_size : ManagerState → ℕ
total_size s = if not (s.initialized) then 0 else s.backend_size

unfoldable pub block_count : ManagerState → ℕ
block_count = read_stat (λ h. h.block_count)

unfoldable pub free_block_count : ManagerState → ℕ
free_block_count = read_stat (λ h. h.free_count)

unfoldable pub alloc_block_count : ManagerState → ℕ
alloc_block_count = read_stat (λ h. h.alloc_count)

module _ (at : Traits) where
  unfoldable pub used_size : ManagerState → ℕ
  used_size = read_stat (λ h. granules_to_bytes at h.used_size)

  unfoldable pub free_size : ManagerState → ℕ
  free_size = read_stat (λ h.
      let used : ℕ = granules_to_bytes at h.used_size in
      if ltb used h.total_size then h.total_size - used else 0)

  -- the view that `for_each_block` makes of block `idx`
  unfoldable pub view_of : Arena → (idx : ℕ) → BlockView
  view_of a idx =
      let blk : BlockHeader = a.blocks idx in
      let total_gran : ℕ = block_total_granules at a.header idx blk in
      let is_used : Bool = is_allocated blk.node_type in
      record {
        index = idx;
        offset = idx * at.granule_size % (size_max + 1);
        total_size = total_gran * at.granule_size % (size_max + 1);
        header_size = block_size at;
        user_size = if is_used then blk.weight * at.granule_size % (size_max + 1) else 0;
        alignment = at.granule_size;
        used = is_used;
      }

  unfoldable pub for_each_block {ℓ} :
      {S : Type ℓ} → (BlockView → S → S) → ManagerState → S → Bool × S
  for_each_block callback s gathered =
      if not (s.initialized)
      then (false, gathered)
      else for_each_physical_block at (λ r. s.arena)
          (λ idx r. (continue, callback (view_of s.arena idx) r)) gathered
