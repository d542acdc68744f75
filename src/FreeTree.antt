-- ===== src/FreeTree.antt =====
-- include/pmm/free_block_tree.h and include/pmm/avl_tree_mixin.h over `BlockPPtr`: the AVL tree of the
-- free blocks, threaded through their headers and ordered by (weight, index). A null `BlockPPtr` is
-- `no_block`, and the root is `free_tree_root`. A loop along the tree takes a bound on its rounds and
-- stops where the bound is used up: FreeTree.BestFit says which bound is enough for the search.
use netkeep80_persist_memory.Base.{
  ℕ, zero, suc, ◌+◌, ◌%◌, Bool, true, false, ◌&&◌, ◌||◌, not, ◌==◌, ltb, leb, if◌then◌else◌,
}
use netkeep80_persist_memory.Traits.{Traits, no_block}
use netkeep80_persist_memory.Memory.{BlockHeader, ManagerHeader, Arena, modify, with_header}
pub mod Policy
pub mod BestFit
pub mod Frame

unfoldable pub set_left : ℕ → ℕ → Arena → Arena
set_left i v = modify i (λ h. record h { left_offset = v })

unfoldable pub set_right : ℕ → ℕ → Arena → Arena
set_right i v = modify i (λ h. record h { right_offset = v })

unfoldable pub set_parent : ℕ → ℕ → Arena → Arena
set_parent i v = modify i (λ h. record h { parent_offset = v })

unfoldable pub set_height : ℕ → ℕ → Arena → Arena
set_height i v = modify i (λ h. record h { avl_height = v })

unfoldable pub set_root : ℕ → Arena → Arena
set_root v = with_header (λ h. record h { free_tree_root = v })

module _ (at : Traits) where
  unfoldable pub set_parent_if_block : ℕ → ℕ → Arena → Arena
  set_parent_if_block i v a = if i == no_block at then a else set_parent i v a

  unfoldable pub avl_height : Arena → ℕ → ℕ
  avl_height a p = if p == no_block at then 0 else (a.blocks p).avl_height

  -- the heights whose difference is the balance factor
  unfoldable pub left_height : Arena → ℕ → ℕ
  left_height a p = if p == no_block at then 0 else avl_height a (a.blocks p).left_offset

  unfoldable pub right_height : Arena → ℕ → ℕ
  right_height a p = if p == no_block at then 0 else avl_height a (a.blocks p).right_offset

  -- The height is stored in a byte.
  unfoldable pub avl_update_height : ℕ → Arena → Arena
  avl_update_height p a =
      let lh = left_height a p in
      let rh = right_height a p in
      if p == no_block at then a else set_height p ((1 + (if ltb rh lh then lh else rh)) % 256) a

  -- `AvlFreeTree::set_child` and `avl_set_child`
  unfoldable pub set_child : (parent old_child new_child : ℕ) → Arena → Arena
  set_child parent old_child new_child a =
      if parent == no_block at
      then set_root new_child a
      else if (a.blocks parent).left_offset == old_child
      then set_left parent new_child a
      else set_right parent new_child a

  -- A rotation returns the arena; the node that it lifts is the child that was there.
  unfoldable pub avl_rotate_right : ℕ → Arena → Arena
  avl_rotate_right y a =
      let x : ℕ = (a.blocks y).left_offset in
      let b : ℕ = (a.blocks x).right_offset in
      let y_par : ℕ = (a.blocks y).parent_offset in
      avl_update_height x (
        avl_update_height y (
          set_child y_par y x (
            set_parent x y_par
              (set_parent_if_block b y (set_left y b (set_parent y x (set_right x y a)))))))

  unfoldable pub avl_rotate_left : ℕ → Arena → Arena
  avl_rotate_left x a =
      let y : ℕ = (a.blocks x).right_offset in
      let b : ℕ = (a.blocks y).left_offset in
      let x_par : ℕ = (a.blocks x).parent_offset in
      avl_update_height y (
        avl_update_height x (
          set_child x_par x y (
            set_parent y x_par
              (set_parent_if_block b x (set_right x b (set_parent x y (set_left y x a)))))))

  -- One round of the loop at `p`: the new arena, and the node that stands where `p` stood.
  unfoldable pub rebalance_node : ℕ → Arena → Arena × ℕ
  rebalance_node p a =
      let a1 : Arena = avl_update_height p a in
      let left : ℕ = (a1.blocks p).left_offset in
      let right : ℕ = (a1.blocks p).right_offset in
      if ltb (right_height a1 p + 1) (left_height a1 p)
      then (let a2 : Arena =
            if ltb (left_height a1 left) (right_height a1 left)
            then avl_rotate_left left a1
            else a1 in
          (avl_rotate_right p a2, (a2.blocks p).left_offset))
      else if ltb (left_height a1 p + 1) (right_height a1 p)
      then (let a2 : Arena =
            if ltb (right_height a1 right) (left_height a1 right)
            then avl_rotate_right right a1
            else a1 in
          (avl_rotate_left p a2, (a2.blocks p).right_offset))
      else (a1, p)

  unfoldable pub avl_rebalance_up : ℕ → ℕ → Arena → Arena
  avl_rebalance_up zero p a = a
  avl_rebalance_up (suc n) p a =
      let round : Arena × ℕ = rebalance_node p a in
      let rest : Arena = avl_rebalance_up n (round.0.blocks round.1).parent_offset round.0 in
      if p == no_block at then a else rest

  unfoldable pub avl_min_node : ℕ → Arena → ℕ → ℕ
  avl_min_node zero a p = p
  avl_min_node (suc n) a p =
      let left = (a.blocks p).left_offset in
      let rest = avl_min_node n a left in
      if (p == no_block at) || (left == no_block at) then p else rest

  -- The order of the tree: by weight, then by index.
  unfoldable pub smaller : (w i : ℕ) → (v j : ℕ) → Bool
  smaller w i v j = ltb w v || ((w == v) && ltb i j)

  -- The search for the place of block `blk_idx` of weight `w`: the parent, and the side.
  unfoldable pub descend : ℕ → Arena → (w blk_idx cur parent : ℕ) → (go_left : Bool) → ℕ × Bool
  descend zero a w blk_idx cur parent go_left = (parent, go_left)
  descend (suc n) a w blk_idx cur parent go_left =
      let h = a.blocks cur in
      let less = smaller w blk_idx h.weight cur in
      let rest = descend n a w blk_idx (if less then h.left_offset else h.right_offset) cur less in
      if cur == no_block at then (parent, go_left) else rest

  -- what both `insert` and the end of `remove` write to the block's own tree fields
  unfoldable pub unlinked : ℕ → ℕ → Arena → Arena
  unlinked i height = modify i (λ h. record h {
    left_offset = no_block at;
    right_offset = no_block at;
    parent_offset = no_block at;
    avl_height = height;
  })

  unfoldable pub insert : ℕ → Arena → ℕ → Arena
  insert bound a blk_idx =
      let a1 : Arena = unlinked blk_idx 1 a in
      let place : ℕ × Bool =
        descend bound a1 (a1.blocks blk_idx).weight blk_idx a1.header.free_tree_root (no_block at)
          false in
      let a2 : Arena = set_parent blk_idx place.0 a1 in
      if a1.header.free_tree_root == no_block at
      then set_root blk_idx a1
      else avl_rebalance_up bound place.0
          (if place.1 then set_left place.0 blk_idx a2 else set_right place.0 blk_idx a2)

  -- `remove` of a block with two children: the successor takes its place. The second part is where
  -- rebalancing starts.
  unfoldable pub remove_between : ℕ → (blk_idx parent left right : ℕ) → Arena → Arena × ℕ
  remove_between bound blk_idx parent left right a =
      let succ : ℕ = avl_min_node bound a right in
      let succ_parent : ℕ = (a.blocks succ).parent_offset in
      let succ_right : ℕ = (a.blocks succ).right_offset in
      let a1 : Arena =
        if succ_parent == blk_idx
        then a
        else set_parent right succ (
            set_right succ right (
              set_parent_if_block succ_right succ_parent
                (set_child succ_parent succ succ_right a))) in
      (
        avl_update_height succ (
            set_child parent blk_idx succ
              (set_parent succ parent (set_parent left succ (set_left succ left a1)))),
        if succ_parent == blk_idx then succ else succ_parent,
      )

  -- `remove` before rebalancing, by the number of children
  unfoldable pub detach : ℕ → ℕ → Arena → Arena × ℕ
  detach bound blk_idx a =
      let parent : ℕ = (a.blocks blk_idx).parent_offset in
      let left : ℕ = (a.blocks blk_idx).left_offset in
      let right : ℕ = (a.blocks blk_idx).right_offset in
      let child : ℕ = if not (left == no_block at) then left else right in
      if (left == no_block at) && (right == no_block at)
      then (set_child parent blk_idx (no_block at) a, parent)
      else if (left == no_block at) || (right == no_block at)
      then (set_child parent blk_idx child (set_parent child parent a), parent)
      else remove_between bound blk_idx parent left right a

  unfoldable pub remove : ℕ → Arena → ℕ → Arena
  remove bound a blk_idx =
      let detached : Arena × ℕ = detach bound blk_idx a in
      avl_rebalance_up bound detached.1 (unlinked blk_idx 0 detached.0)

  -- `find_best_fit` from node `cur`, with the best block seen so far
  unfoldable pub best_fit_from : ℕ → Arena → (needed cur result : ℕ) → ℕ
  best_fit_from zero a needed cur result = result
  best_fit_from (suc n) a needed cur result =
      let h = a.blocks cur in
      let fits = leb needed h.weight in
      let rest =
        best_fit_from n a needed (if fits then h.left_offset else h.right_offset)
          (if fits then cur else result) in
      if cur == no_block at then result else rest

  unfoldable pub find_best_fit : ℕ → Arena → ℕ → ℕ
  find_best_fit bound a needed_granules =
      best_fit_from bound a needed_granules a.header.free_tree_root (no_block at)
