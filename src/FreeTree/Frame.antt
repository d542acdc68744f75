-- ===== src/FreeTree/Frame.antt =====
-- What the AVL tree of free blocks leaves alone: weight, state and physical neighbours of every
-- block, and the manager's header but for the root. So the tree meets the allocator's policy.
use netkeep80_persist_memory.Base.{
  ℕ, zero, suc, refl, Bool, true, false, not, ◌&&◌, ◌||◌, arith, ◌==◌, if◌then◌else◌,
}
use netkeep80_persist_memory.Traits.{Traits, no_block}
use netkeep80_persist_memory.Memory.{Arena, SameBodies, SameBodies-refl, SameBodies-trans}
use netkeep80_persist_memory.FreeTree.{
  set_left, set_right, set_parent, set_height, set_root, set_parent_if_block, avl_update_height,
  set_child, avl_rotate_right, avl_rotate_left, rebalance_node, avl_rebalance_up, unlinked, insert,
  remove_between, detach, remove, find_best_fit,
}
use netkeep80_persist_memory.FreeTree.Policy.{FreeBlockTreePolicy}

-- the same of an arena with a number beside it
record SameFirst (a : Arena) (r : Arena × ℕ) : Type 0 where
  same_first : SameBodies a r.0

-- from `a`, a step that keeps the bodies goes on keeping them
module _ {a b : Arena} (p : SameBodies a b) where
  then_left : (i v : ℕ) → SameBodies a (set_left i v b)
  unfolding set_left
  then_left i v =
      SameBodies-trans p (record { same_bodies = λ j. ground arith; same_header = refl })

  then_right : (i v : ℕ) → SameBodies a (set_right i v b)
  unfolding set_right
  then_right i v =
      SameBodies-trans p (record { same_bodies = λ j. ground arith; same_header = refl })

  then_parent : (i v : ℕ) → SameBodies a (set_parent i v b)
  unfolding set_parent
  then_parent i v =
      SameBodies-trans p (record { same_bodies = λ j. ground arith; same_header = refl })

  then_height : (i v : ℕ) → SameBodies a (set_height i v b)
  unfolding set_height
  then_height i v =
      SameBodies-trans p (record { same_bodies = λ j. ground arith; same_header = refl })

  then_root : (v : ℕ) → SameBodies a (set_root v b)
  unfolding set_root
  then_root v = SameBodies-trans p (record { same_bodies = λ j. refl; same_header = refl })

  then_if :
      {c d : Arena} (t : Bool) → SameBodies a c → SameBodies a d → SameBodies a (if t then c else d)
  then_if true q r = q
  then_if false q r = r

  if_first :
      {c d : Arena × ℕ} (t : Bool)
      → SameFirst a c
      → SameFirst a d
      → SameFirst a (if t then c else d)
  if_first true q r = q
  if_first false q r = r

module _ (at : Traits) {a b : Arena} (p : SameBodies a b) where
  then_parent_if_block : (i v : ℕ) → SameBodies a (set_parent_if_block at i v b)
  unfolding set_parent_if_block
  then_parent_if_block i v = then_if p (i == no_block at) p (then_parent p i v)

  then_update_height : (i : ℕ) → SameBodies a (avl_update_height at i b)
  unfolding avl_update_height
  then_update_height i = then_if p (i == no_block at) p (then_height p i _)

  then_child : (i old new : ℕ) → SameBodies a (set_child at i old new b)
  unfolding set_child
  then_child i old new =
      then_if p (i == no_block at) (then_root p new)
        (then_if p ((b.blocks i).left_offset == old) (then_left p i new) (then_right p i new))

  then_unlinked : (i height : ℕ) → SameBodies a (unlinked at i height b)
  unfolding unlinked
  then_unlinked i height =
      SameBodies-trans p (record { same_bodies = λ j. ground arith; same_header = refl })

module _ (at : Traits) {a b : Arena} (p : SameBodies a b) where
  then_rotate_right : (y : ℕ) → SameBodies a (avl_rotate_right at y b)
  unfolding avl_rotate_right
  then_rotate_right y =
      then_update_height at
        (then_update_height at
          (then_child at
            (then_parent
              (then_parent_if_block at (then_left (then_parent (then_right p _ y) y _) y _) _ y) _
              _)
            _ y _)
          y)
        _

  then_rotate_left : (x : ℕ) → SameBodies a (avl_rotate_left at x b)
  unfolding avl_rotate_left
  then_rotate_left x =
      then_update_height at
        (then_update_height at
          (then_child at
            (then_parent
              (then_parent_if_block at (then_right (then_parent (then_left p _ x) x _) x _) _ x) _
              _)
            _ x _)
          x)
        _

module _ (at : Traits) {a b : Arena} (p : SameBodies a b) where
  then_rebalance_node : (n : ℕ) → SameFirst a (rebalance_node at n b)
  unfolding rebalance_node
  then_rebalance_node n =
      let q = then_update_height at p n in
      if_first q _
        (record { same_first = then_rotate_right at (then_if q _ (then_rotate_left at q _) q) n })
        (if_first q _
          (record { same_first = then_rotate_left at (then_if q _ (then_rotate_right at q _) q) n })
          (record { same_first = q }))

then_rebalance :
    (at : Traits) (a : Arena) (bound n : ℕ) (b : Arena)
    → SameBodies a b
    → SameBodies a (avl_rebalance_up at bound n b)
unfolding avl_rebalance_up
then_rebalance at a zero n b p = p
then_rebalance at a (suc bound) n b p =
    let round = rebalance_node at n b in
    then_if p (n == no_block at) p (
      then_rebalance at a bound (round.0.blocks round.1).parent_offset round.0
        (then_rebalance_node at p n).same_first)

module _ (at : Traits) (bound : ℕ) where
  -- `insert` writes only what the tree owns: the links and heights of blocks, and the root.
  pub insert-SameBodies : (a : Arena) (i : ℕ) → SameBodies a (insert at bound a i)
  unfolding insert
  insert-SameBodies a i =
      let p = then_unlinked at (SameBodies-refl a) i 1 in
      let q = then_parent p i _ in
      then_if p _ (then_root p i)
        (then_rebalance at a bound _ _ (then_if q _ (then_left q _ i) (then_right q _ i)))

  remove_between-SameBodies :
      (i parent left right : ℕ) (a : Arena)
      → SameFirst a (remove_between at bound i parent left right a)
  unfolding remove_between
  remove_between-SameBodies i parent left right a =
      let same = SameBodies-refl a in
      let spliced = then_if same _ same (
        then_parent (then_right (then_parent_if_block at (then_child at same _ _ _) _ _) _ right)
          right _) in
      record {
        same_first =
            then_update_height at
              (then_child at (then_parent (then_parent (then_left spliced _ left) left _) _ parent)
                parent i _)
              _;
      }

  detach-SameBodies : (a : Arena) (i : ℕ) → SameFirst a (detach at bound i a)
  unfolding detach
  detach-SameBodies a i =
      let same = SameBodies-refl a in
      let left = (a.blocks i).left_offset in
      let right = (a.blocks i).right_offset in
      let parent = (a.blocks i).parent_offset in
      let child = if not (left == no_block at) then left else right in
      if_first same ((left == no_block at) && (right == no_block at))
        (record { same_first = then_child at same parent i (no_block at) })
        (if_first same ((left == no_block at) || (right == no_block at))
          (record { same_first = then_child at (then_parent same child parent) parent i child })
          (remove_between-SameBodies i parent left right a))

  -- `remove` writes only what the tree owns: the links and heights of blocks, and the root.
  pub remove-SameBodies : (a : Arena) (i : ℕ) → SameBodies a (remove at bound a i)
  unfolding remove
  remove-SameBodies a i =
      then_rebalance at a bound _ _ (then_unlinked at (detach-SameBodies a i).same_first i 0)

  -- The tree with a bound on its loops.
  abbrev pub avl_free_tree : FreeBlockTreePolicy
  avl_free_tree = record {
    insert = insert at bound;
    remove = remove at bound;
    find_best_fit = find_best_fit at bound;
    insert-SameBodies = insert-SameBodies;
    remove-SameBodies = remove-SameBodies;
  }
