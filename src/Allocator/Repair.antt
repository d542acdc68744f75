-- ===== src/Allocator/Repair.antt =====
-- include/pmm/allocator_policy.h: the walks that rebuild what can be recomputed from the chain of
-- blocks: `repair_linked_list`, `recompute_counters` and `rebuild_free_tree`.
use netkeep80_persist_memory.Base.{ℕ, Bool, ◌==◌, if◌then◌else◌}
use netkeep80_persist_memory.Traits.{Traits, no_block, header_granules, add_index}
use netkeep80_persist_memory.Node.{is_free, is_allocated}
use netkeep80_persist_memory.Memory.{BlockHeader, Arena, modify, with_header}
use netkeep80_persist_memory.BlockState.{repair_prev_offset, recover_state, reset_avl_fields_of}
use netkeep80_persist_memory.Validation.{physical_block_total_granules}
use netkeep80_persist_memory.Walker.{WalkControl, continue, for_each_physical_block}
use netkeep80_persist_memory.FreeTree.Policy.{FreeBlockTreePolicy}

-- an arena with the variable that a visitor captures: the index of the block visited last
pub record Visit : Type 0 where
  pub arena : Arena
  pub prev : ℕ

-- `AllocatorPolicy::Counters`, but for `walk_ok`, which is the walk's answer
pub record Counters : Type 0 where
  pub block_count : ℕ
  pub free_count : ℕ
  pub alloc_count : ℕ
  pub used_gran : ℕ

abbrev pub no_counters : Counters
no_counters = record { block_count = 0; free_count = 0; alloc_count = 0; used_gran = 0 }

unfoldable pub repair_step : ℕ → Visit → WalkControl × Visit
repair_step idx v =
    (continue, record { arena = modify idx (repair_prev_offset v.prev) v.arena; prev = idx })

module _ (at : Traits) where
  unfoldable pub repair_linked_list : Arena → Arena
  repair_linked_list a =
      (for_each_physical_block at (λ v. v.arena) repair_step
        (record { arena = a; prev = no_block at })).1.arena

  unfoldable pub count_block : BlockHeader → Counters → Counters
  count_block h c =
      let used = add_index at c.used_gran (header_granules at) in
      if is_allocated h.node_type
      then record c {
        block_count = add_index at c.block_count 1;
        alloc_count = add_index at c.alloc_count 1;
        used_gran = add_index at used h.weight;
      }
      else record c {
        block_count = add_index at c.block_count 1;
        free_count = add_index at c.free_count 1;
        used_gran = used;
      }

  -- the counters and `walk_ok`
  unfoldable pub accumulate_counters : Arena → Bool × Counters
  accumulate_counters a =
      for_each_physical_block at (λ c. a) (λ idx c. (continue, count_block (a.blocks idx) c))
        no_counters

  unfoldable pub recompute_counters : Arena → Arena
  recompute_counters a =
      let c : Counters = (accumulate_counters a).1 in
      with_header
        (λ h. record h {
          block_count = c.block_count;
          free_count = c.free_count;
          alloc_count = c.alloc_count;
          used_size = c.used_gran;
        })
        a

module _ (at : Traits) (ft : FreeBlockTreePolicy) where
  open ft use {insert as tree_insert}

  unfoldable pub rebuild_step : ℕ → Visit → WalkControl × Visit
  rebuild_step idx v =
      let a1 : Arena = modify idx (recover_state idx) v.arena in
      let total : ℕ = physical_block_total_granules at a1.header idx (a1.blocks idx) in
      let a2 : Arena = modify idx (λ h. reset_avl_fields_of at (record h { weight = total })) a1 in
      (
        continue,
        record {
          arena = if is_free (a1.blocks idx).node_type then tree_insert a2 idx else a1;
          prev = idx;
        },
      )

  unfoldable pub rebuild_free_tree : Arena → Arena
  rebuild_free_tree a =
      let a1 : Arena =
        with_header
          (λ h. record h { free_tree_root = no_block at; last_block_offset = no_block at }) a in
      let v : Visit =
        (for_each_physical_block at (λ w. w.arena) rebuild_step
          (record { arena = a1; prev = no_block at })).1 in
      if v.prev == no_block at
      then v.arena
      else with_header (λ h. record h { last_block_offset = v.prev }) v.arena
