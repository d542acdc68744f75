-- ===== src/ManagerLayout.antt =====
-- include/pmm/layout.h, `ManagerLayoutOps`: the layout of a new arena, and its growth. The backend's
-- `resize_to` is the parameter `resize`: for a target size, the size of the arena after it, unless it
-- fails or leaves no memory; the bytes that were there stay.
pub mod Created
pub mod Appended
pub mod Extended
pub mod Grown
use netkeep80_persist_memory.Base.{
  ℕ, ◌+◌, ◌-◌, ◌*◌, ◌/◌, ◌%◌, ◌^◌, Bool, true, false, not, ◌&&◌, Option, none, some, ◌==◌, ltb, leb,
  if◌then◌else◌,
}
use netkeep80_persist_memory.Traits.{
  Traits, no_block, block_size, header_granules, add_index, sub_index, to_index,
}
use netkeep80_persist_memory.Node.{manager_header, free, is_free}
use netkeep80_persist_memory.Memory.{BlockHeader, ManagerHeader, Arena, modify, with_header, zeroed}
use netkeep80_persist_memory.BlockState.{init_fields}
use netkeep80_persist_memory.Checked.{
  ◌>>=◌, checked_add, checked_mul, compute_growth_for_traits, byte_off_to_idx_checked,
}
use netkeep80_persist_memory.FreeTree.Policy.{FreeBlockTreePolicy}

-- `kMagic`: "PMM_V098"
abbrev pub magic_number : ℕ
magic_number = 5786366168104188216

abbrev pub current_image_version : ℕ
current_image_version = 2

module _ (at : Traits) where
  -- `kFreeBlkIdxLayout`
  unfoldable pub free_blk_idx : (mgr_hdr_granules : ℕ) → ℕ
  free_blk_idx mgr_hdr_granules = add_index at (header_granules at) mgr_hdr_granules

  unfoldable pub new_header : (mgr_hdr_granules size : ℕ) → ManagerHeader
  new_header mgr_hdr_granules size = record {
    magic = magic_number;
    total_size = size;
    used_size = add_index at (free_blk_idx mgr_hdr_granules) (header_granules at);
    block_count = 2;
    free_count = 1;
    alloc_count = 1;
    first_block_offset = 0;
    last_block_offset = free_blk_idx mgr_hdr_granules;
    free_tree_root = free_blk_idx mgr_hdr_granules;
    owns_memory = false;
    image_version = current_image_version;
    granule_size = at.granule_size % 2 ^ 16;
    prev_total_size = 0;
    crc32 = 0;
    root_offset = no_block at;
  }

  unfoldable pub init_layout : (mgr_hdr_granules size : ℕ) → Arena → Option Arena
  init_layout mgr_hdr_granules size a =
      let free_idx : ℕ = free_blk_idx mgr_hdr_granules in
      let free_gran : ℕ = sub_index at (to_index at (size / at.granule_size)) free_idx in
      let a1 : Arena =
        modify 0
          (λ h. init_fields at (no_block at) free_idx 0 mgr_hdr_granules 0 manager_header zeroed)
          a in
      let a2 : Arena =
        modify free_idx (λ h. init_fields at 0 (no_block at) 1 free_gran 0 free zeroed) a1 in
      if ltb size (free_idx * at.granule_size + block_size at + at.granule_size)
      then none
      else some (with_header (λ h. new_header mgr_hdr_granules size) a2)

-- the constants of the manager's configuration
pub record GrowthConfig : Type 0 where
  pub grow_numerator : ℕ
  pub grow_denominator : ℕ
  pub max_memory_gb : ℕ

module _ (at : Traits) where
  -- `do_expand`: what is new becomes a free block, up to its insertion in the tree
  unfoldable pub link_extra : (extra_idx new_total_gran new_size : ℕ) → Arena → Arena
  link_extra extra_idx new_total_gran new_size a =
      let last : ℕ = a.header.last_block_offset in
      let gran : ℕ = sub_index at new_total_gran extra_idx in
      let prev : ℕ = if last == no_block at then no_block at else last in
      let a1 : Arena =
        modify extra_idx (λ h. init_fields at prev (no_block at) 1 gran 0 free zeroed) a in
      let a2 : Arena =
        if last == no_block at
        then with_header (λ h. record h { first_block_offset = extra_idx }) a1
        else modify last (λ h. record h { next_offset = extra_idx }) a1 in
      with_header
        (λ h. record h {
          last_block_offset = extra_idx;
          block_count = add_index at h.block_count 1;
          free_count = add_index at h.free_count 1;
          total_size = new_size;
        })
        a2

module _ (at : Traits) (ft : FreeBlockTreePolicy) where
  open ft use {insert as tree_insert, remove as tree_remove}

  -- `do_expand`: the last block is free and takes what is new
  unfoldable pub extend_last : (last new_total_gran new_size : ℕ) → Arena → Arena
  extend_last last new_total_gran new_size a =
      let a1 : Arena = tree_remove a last in
      let a2 : Arena =
        modify last (λ h. record h { weight = sub_index at new_total_gran last }) a1 in
      tree_insert (with_header (λ h. record h { total_size = new_size }) a2) last

  -- `do_expand`: what is new becomes a free block
  unfoldable pub append_block : (extra_idx new_total_gran new_size : ℕ) → Arena → Arena
  append_block extra_idx new_total_gran new_size a =
      tree_insert (link_extra at extra_idx new_total_gran new_size a) extra_idx

  -- `do_expand`, after the backend grew from `total_size` to `new_size`
  unfoldable pub place_growth : (new_size : ℕ) → Arena → Option Arena
  place_growth new_size a = do
    extra_idx ← byte_off_to_idx_checked at a.header.total_size
    new_total_gran ← byte_off_to_idx_checked at new_size
    let last = a.header.last_block_offset
    if not (last == no_block at) && is_free (a.blocks last).node_type
        then some (extend_last last new_total_gran new_size a)
        else if ltb (new_size - a.header.total_size) (block_size at + at.granule_size)
        then none
        else some (append_block extra_idx new_total_gran new_size a)

  unfoldable pub do_expand :
      GrowthConfig
      → (resize : ℕ → Option ℕ) (initialized : Bool) (data_gran_need : ℕ) → Arena
      → Option Arena
  do_expand config resize initialized data_gran_need a =
      if not initialized then none else if data_gran_need == 0 then none else do
        need_grans ← checked_add (header_granules at) data_gran_need
        need_grans_total ← checked_add need_grans (header_granules at)
        min_need ← checked_mul need_grans_total at.granule_size
        target ←
            compute_growth_for_traits at a.header.total_size min_need config.grow_numerator
              config.grow_denominator config.max_memory_gb
        new_size ← resize target
        if leb new_size a.header.total_size then none else place_growth new_size a
