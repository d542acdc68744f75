-- ===== src/Allocator/TreeCheck.antt =====
-- include/pmm/allocator_policy.h, `verify_free_tree`: the check that the tree of free blocks is a
-- balanced search tree with the chain's free blocks in it.
pub mod Sound
pub mod Silent
use netkeep80_persist_memory.Base.{
  ℕ, zero, suc, ◌+◌, ◌-◌, ◌%◌, ◌^◌, Bool, true, false, ◌&&◌, ◌||◌, not, Option, none, some, ◌==◌,
  ltb, leb, if◌then◌else◌,
}
use netkeep80_persist_memory.Traits.{Traits, no_block}
use netkeep80_persist_memory.Node.{is_free}
use netkeep80_persist_memory.Memory.{BlockHeader, Arena}
use netkeep80_persist_memory.Diagnostics.{
  VerifyResult, add, free_tree_stale, header_corruption, no_action,
}
use netkeep80_persist_memory.Validation.{validate_block_index}
use netkeep80_persist_memory.Walker.{continue, for_each_physical_block}

-- what `verify_free_tree_node` writes: the report and `visited_count`
pub record TreeVisit : Type 0 where
  pub result : VerifyResult
  pub visited_count : ℕ

-- A report that the tree is stale.
unfoldable pub stale : (block_index expected actual : ℕ) → VerifyResult → VerifyResult
stale block_index expected actual r = add free_tree_stale no_action block_index expected actual r

unfoldable pub report : (block_index expected actual : ℕ) → TreeVisit → TreeVisit
report block_index expected actual c = record c {
  result = stale block_index expected actual c.result;
}

-- Heights are `int16_t`, in two's complement: the value of `h` above the least one.
unfoldable pub biased : ℕ → ℕ
biased h = (h + 2 ^ 15) % 2 ^ 16

-- static_cast<uint64_t> of a height
unfoldable pub extended : ℕ → ℕ
extended h = if ltb h (2 ^ 15) then h else h + (2 ^ 64 - 2 ^ 16)

-- `free_tree_less_key`, over `free_tree_block_granules`
unfoldable pub free_tree_less_key : Arena → ℕ → ℕ → Bool
free_tree_less_key a i j =
    let i_gran : ℕ = (a.blocks i).weight in
    let j_gran : ℕ = (a.blocks j).weight in ltb i_gran j_gran || ((i_gran == j_gran) && ltb i j)

-- The three tests of a free node against its parent and the bounds of its side; `none` is a bound
-- whose `has_lower` or `has_upper` is false.
unfoldable pub check_parent : Arena → (node_idx parent : ℕ) → TreeVisit → TreeVisit
check_parent a node_idx parent c =
    if (a.blocks node_idx).parent_offset == parent
    then c
    else report node_idx parent (a.blocks node_idx).parent_offset c

unfoldable pub check_lower : Arena → ℕ → Option ℕ → TreeVisit → TreeVisit
check_lower a node_idx none c = c
check_lower a node_idx (some lower) c =
    if free_tree_less_key a lower node_idx then c else report node_idx lower node_idx c

unfoldable pub check_upper : Arena → ℕ → Option ℕ → TreeVisit → TreeVisit
check_upper a node_idx none c = c
check_upper a node_idx (some upper) c =
    if free_tree_less_key a node_idx upper then c else report node_idx node_idx upper c

-- The stored height against the heights of the two sides; the height is returned.
unfoldable pub check_height :
    BlockHeader → (node_idx left_h right_h : ℕ) → TreeVisit → ℕ × TreeVisit
check_height h node_idx left_h right_h c =
    let higher : ℕ = if ltb (biased right_h) (biased left_h) then left_h else right_h in
    let expected_h : ℕ = (1 + higher) % 2 ^ 16 in
    let unbalanced : Bool =
      ltb (biased right_h + 1) (biased left_h) || ltb (biased left_h + 1) (biased right_h) in
    (
      expected_h,
      if not (h.avl_height == expected_h) || unbalanced
          then report node_idx (extended expected_h) h.avl_height c
          else c,
    )

module _ (at : Traits) where
  -- The bound is `expected_count` and goes down with every node that is counted, so that `visited_count`
  -- has reached `expected_count` where the bound is used up.
  unfoldable pub verify_free_tree_node :
      (bound : ℕ)
      → Arena
      → (node_idx parent : ℕ) → (lower upper : Option ℕ) → (expected_count : ℕ) → TreeVisit
      → ℕ × TreeVisit
  verify_free_tree_node zero a node_idx parent lower upper expected_count c =
      if node_idx == no_block at then (0, c) else (0, report node_idx 1 2 c)
  verify_free_tree_node (suc n) a node_idx parent lower upper expected_count c =
      let h : BlockHeader = a.blocks node_idx in
      let counted : TreeVisit = record c { visited_count = c.visited_count + 1 } in
      let checked : TreeVisit =
        check_upper a node_idx upper
          (check_lower a node_idx lower (check_parent a node_idx parent counted)) in
      let left : ℕ × TreeVisit =
        verify_free_tree_node n a h.left_offset node_idx lower (some node_idx) expected_count
          checked in
      let right : ℕ × TreeVisit =
        verify_free_tree_node n a h.right_offset node_idx (some node_idx) upper expected_count
          left.1 in
      if node_idx == no_block at
      then (0, c)
      else if leb expected_count c.visited_count
      then (0, report node_idx 1 2 c)
      else if not (validate_block_index at a.header.total_size node_idx)
      then (0, report parent 0 node_idx counted)
      else if not (is_free h.node_type)
      then (0, report node_idx 0 h.weight counted)
      else check_height h node_idx left.0 right.0 right.1

  unfoldable pub free_tree_contains : (step_limit : ℕ) → Arena → (node_idx target : ℕ) → Bool
  free_tree_contains zero a node_idx target = false
  free_tree_contains (suc n) a node_idx target =
      let h : BlockHeader = a.blocks node_idx in
      let rest =
        free_tree_contains n a
          (if free_tree_less_key a target node_idx then h.left_offset else h.right_offset) target in
      if node_idx == no_block at
      then false
      else if not (validate_block_index at a.header.total_size node_idx)
      then false
      else if not (is_free h.node_type)
      then false
      else if node_idx == target
      then true
      else rest

  -- `++expected_count` for a free block: at most one for each step of the walk, so it does not wrap
  unfoldable pub count_free : Arena → ℕ → ℕ → ℕ
  count_free a idx n = if is_free (a.blocks idx).node_type then n + 1 else n

  -- the visitor of the second walk: a free block that the tree does not lead to is reported
  unfoldable pub check_contained : Arena → (expected_count idx : ℕ) → VerifyResult → VerifyResult
  check_contained a expected_count idx r =
      if is_free (a.blocks idx).node_type
        && not (free_tree_contains expected_count a a.header.free_tree_root idx)
      then stale idx 1 0 r
      else r

  -- `verify_free_tree` from the test of the root's type on
  unfoldable pub verify_rooted_tree : Arena → (expected_count : ℕ) → VerifyResult → VerifyResult
  verify_rooted_tree a expected_count r =
      let root_idx : ℕ = a.header.free_tree_root in
      let root : BlockHeader = a.blocks root_idx in
      let r1 : VerifyResult =
        if not (is_free root.node_type) || not (root.parent_offset == no_block at)
        then stale root_idx 0 root.parent_offset r
        else r in
      let c : TreeVisit =
        (verify_free_tree_node expected_count a root_idx (no_block at) none none expected_count
          (record { result = r1; visited_count = 0 })).1 in
      let r2 : VerifyResult =
        (for_each_physical_block at (λ s. a)
          (λ idx s. (continue, check_contained a expected_count idx s)) c.result).1 in
      if not (c.visited_count == expected_count)
      then stale 0 expected_count c.visited_count r2
      else r2

  unfoldable pub verify_free_tree : Arena → VerifyResult → VerifyResult
  verify_free_tree a r =
      let counted : Bool × ℕ =
        for_each_physical_block at (λ n. a) (λ idx n. (continue, count_free a idx n)) 0 in
      let root_idx : ℕ = a.header.free_tree_root in
      let root_present : Bool = not (root_idx == no_block at) in
      if not counted.0
      then add header_corruption no_action 0 0 0 r
      else if counted.1 == 0
      then (if root_present then stale 0 0 root_idx r else r)
      else if not root_present
      then stale 0 counted.1 root_idx r
      else if not (validate_block_index at a.header.total_size root_idx)
      then stale root_idx 1 0 r
      else verify_rooted_tree a counted.1 r
