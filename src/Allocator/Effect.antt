-- ===== src/Allocator/Effect.antt =====
-- What the parts of the allocator write, seen from the bodies of the blocks and the manager's header:
-- the tree of free blocks drops out.
use netkeep80_persist_memory.Base.{ℕ, ◌≡◌, ◌≢◌, arith, ◌==◌, if◌then◌else◌}
use netkeep80_persist_memory.Traits.{Traits, no_block, header_granules, add_index, sub_index}
use netkeep80_persist_memory.Node.{generic}
use netkeep80_persist_memory.Memory.{Body, body, ManagerHeader, Arena}
use netkeep80_persist_memory.BlockState.{finalize_split, modify_if_block}
use netkeep80_persist_memory.BlockState.SplittingBlock.{initialize_new_block, link_new_block}
use netkeep80_persist_memory.FreeTree.Policy.{FreeBlockTreePolicy}
use netkeep80_persist_memory.Layout.{bodies}
use netkeep80_persist_memory.Layout.Splice.{with_new_block}
use netkeep80_persist_memory.Allocator.{set_last_if_end, count_new_free_block, split_block}

-- the allocated block that `b` becomes
abbrev pub allocated_body : (data_gran idx next : ℕ) → Body → Body
allocated_body data_gran idx next b = record b {
  weight = data_gran;
  root_offset = idx;
  next_offset = next;
  node_type = generic;
}

-- the header after one block more, free, of which the last is `idx` if nothing followed
abbrev pub one_more : Traits → (next idx : ℕ) → ManagerHeader → ManagerHeader
one_more at next idx h = record h {
  last_block_offset = if next == no_block at then idx else h.last_block_offset;
  block_count = add_index at h.block_count 1;
  free_count = add_index at h.free_count 1;
  used_size = add_index at h.used_size (header_granules at);
}

-- but for the root of the tree the headers are the same
abbrev pub SameHeader : ManagerHeader → ManagerHeader → Type 0
SameHeader h k = k ≡ record h { free_tree_root = k.free_tree_root }

module _ (at : Traits) (ft : FreeBlockTreePolicy) (a : Arena) (blk data_gran : ℕ) where
  abbrev needed : ℕ
  needed = add_index at (header_granules at) data_gran

  abbrev new_idx : ℕ
  new_idx = add_index at blk needed

  abbrev next : ℕ
  next = (a.blocks blk).next_offset

  -- the arena between `remove` and `insert`
  abbrev linked : Arena
  linked = count_new_free_block at (
      set_last_if_end at next new_idx (
        link_new_block at blk next new_idx
          (initialize_new_block at blk new_idx blk (sub_index at (a.blocks blk).weight needed) a)))

  linked-bodies :
      (j : ℕ)
      → blk ≢ new_idx
      → next ≢ blk
      → next ≢ new_idx
      → body (linked.blocks j)
        ≡ with_new_block at blk new_idx
            (sub_index at (a.blocks blk).weight needed)
            (record (body (a.blocks blk)) { next_offset = new_idx })
            (bodies a)
            j
  unfolding set_last_if_end link_new_block initialize_new_block modify_if_block count_new_free_block
  linked-bodies j h k l = ground arith

  pub split_block-bodies :
      (j : ℕ)
      → blk ≢ new_idx
      → next ≢ blk
      → next ≢ new_idx
      → body ((split_block at ft blk data_gran a).blocks j)
        ≡ with_new_block at blk new_idx
            (sub_index at (a.blocks blk).weight needed)
            (allocated_body data_gran blk new_idx (body (a.blocks blk)))
            (bodies a)
            j
  unfolding split_block finalize_split
  split_block-bodies j h k l =
      ground (arith, linked-bodies j h k l, (ft.insert-SameBodies linked new_idx).same_bodies j)

  linked-header : linked.header ≡ one_more at next new_idx a.header
  unfolding set_last_if_end link_new_block initialize_new_block modify_if_block count_new_free_block
  linked-header = ground arith

  pub split_block-header :
      SameHeader (one_more at next new_idx a.header) (split_block at ft blk data_gran a).header
  unfolding split_block
  split_block-header =
      ground (arith, linked-header, (ft.insert-SameBodies linked new_idx).same_header)
