-- ===== src/Allocator/TreeCheck/Silent.antt =====
-- include/pmm/allocator_policy.h: `verify_free_tree` on a sound tree.
use netkeep80_persist_memory.Layout.{IsTraits, bodies, IsChained, sum_of, free_of}
use netkeep80_persist_memory.Layout.Settled.{AllOn}
use netkeep80_persist_memory.Layout.Walked.{fold_left, visit, for_each_physical_block-fold}
use netkeep80_persist_memory.Base.{
  ℕ, zero, suc, ◌+◌, ◌%◌, ◌^◌, ◌≤◌, ◌<◌, ◌≡◌, refl, sym, ◌∙◌, ap, true, false, Option, none, some,
  inl, inr, List, [], ◌∷◌, arith, ◌==◌, ltb, leb, eq_refl, eq_of_ne, eq_when, Bool-cases,
  if◌then◌else◌,
}
use netkeep80_persist_memory.Traits.{Traits, no_block, size_max}
use netkeep80_persist_memory.Node.{is_free}
use netkeep80_persist_memory.Memory.{BlockHeader, Arena}
use netkeep80_persist_memory.Diagnostics.{VerifyResult}
use netkeep80_persist_memory.Walker.{for_each_physical_block}
use netkeep80_persist_memory.Validation.{validate_block_index}
use netkeep80_persist_memory.FreeTree.BestFit.{Shape, leaf, node, node_count}
use netkeep80_persist_memory.Allocator.TreeCheck.Sound.{
  max_of, height, IsNode, IsFreeTree, IsIn, IsTreeOf, free_tree_contains-IsIn,
}
use netkeep80_persist_memory.Allocator.TreeCheck.{
  TreeVisit, biased, check_parent, check_lower, check_upper, check_height, verify_free_tree_node,
  count_free, check_contained, verify_rooted_tree, verify_free_tree,
}

biased-small : (h : ℕ) → h < 256 → biased h ≡ h + 2 ^ 15
unfolding biased
biased-small h small = grind arith

heights-ok :
    (x y : ℕ)
    → x < 255
    → y < 255
    → (x ≤ y + 1) × (y ≤ x + 1)
    → ((if ltb (biased y) (biased x) then x else y) ≡ max_of x y)
      × ((1 + max_of x y) % 2 ^ 16 ≡ 1 + max_of x y)
      × (ltb (biased y + 1) (biased x) ≡ false)
      × (ltb (biased x + 1) (biased y) ≡ false)
heights-ok x y u v b =
    rw (biased-small x (omega (arith, u)), biased-small y (omega (arith, v)))
      (ground arith, grind arith, ground (arith, b), ground (arith, b))

check_height-right :
    (h : BlockHeader) (i : ℕ) (l r : Shape) (c : TreeVisit)
    → h.avl_height ≡ height (node l i r)
    → height (node l i r) < 256
    → (height l ≤ height r + 1) × (height r ≤ height l + 1)
    → check_height h i (height l) (height r) c ≡ (height (node l i r), c)
unfolding check_height
check_height-right h i l r c stored small balanced =
    let ok =
      heights-ok (height l) (height r) (ground (arith, small)) (ground (arith, small)) balanced in
    rw (ok.0, ok.1, ok.2, ok.3, stored, eq_refl (height (node l i r))) refl

module _ (at : Traits) (a : Arena) where
  check_bounds :
      (i parent : ℕ) (lower upper : Option ℕ) (l r : Shape) (c : TreeVisit)
      → IsNode at a i parent lower upper l r
      → check_upper a i upper (check_lower a i lower (check_parent a i parent c)) ≡ c
  unfolding check_upper check_lower check_parent
  check_bounds i parent none none l r c h =
      rw (eq_when (a.blocks i).parent_offset parent (h.parent_link)) refl
  check_bounds i parent none (some hi) l r c h =
      rw (h.below, eq_when (a.blocks i).parent_offset parent (h.parent_link)) refl
  check_bounds i parent (some lo) none l r c h =
      rw (h.above, eq_when (a.blocks i).parent_offset parent (h.parent_link)) refl
  check_bounds i parent (some lo) (some hi) l r c h =
      rw (h.below, h.above, eq_when (a.blocks i).parent_offset parent (h.parent_link)) refl

  verify_free_tree_node-silent :
      (bound cur parent : ℕ) (lower upper : Option ℕ) (s : Shape) (expected : ℕ) (c : TreeVisit)
      → IsFreeTree at a cur parent lower upper s
      → node_count s ≤ bound
      → c.visited_count + node_count s ≤ expected
      → verify_free_tree_node at bound a cur parent lower upper expected c
        ≡ (height s, record c { visited_count = c.visited_count + node_count s })
  unfolding verify_free_tree_node
  verify_free_tree_node-silent zero cur parent lower upper leaf expected c h enough room =
      rw (h, eq_refl (no_block at)) (ground arith)
  verify_free_tree_node-silent (suc n) cur parent lower upper leaf expected c h enough room =
      rw (h, eq_refl (no_block at)) (ground arith)
  verify_free_tree_node-silent zero cur parent lower upper (node l i r) expected c h enough room =
      absurd (omega arith)
  verify_free_tree_node-silent (suc n) cur parent lower upper (node l i r) expected c h enough
        room =
      let counted : TreeVisit = record c { visited_count = c.visited_count + 1 } in
      let mid : TreeVisit = record c { visited_count = c.visited_count + 1 + node_count l } in
      let on_left =
        verify_free_tree_node-silent n (a.blocks i).left_offset i lower (some i) l expected counted
          h.2 (omega arith) (omega arith) in
      let on_right =
        verify_free_tree_node-silent n (a.blocks i).right_offset i (some i) upper r expected mid h.3
          (omega arith) (omega arith) in
      let left_room : leb expected c.visited_count ≡ false = ground arith in
      let here = h.1 in
      rw
        (
          h.0,
          check_bounds i parent lower upper l r counted here,
          on_left,
          on_right,
          eq_of_ne i (no_block at) here.some_block,
          left_room,
          here.valid,
          here.free,
          check_height-right (a.blocks i) i l r
              (record c { visited_count = c.visited_count + 1 + node_count l + node_count r })
              here.stored_height here.byte here.balanced,
        )
        (ground arith)

module _ {at : Traits} (t : IsTraits at) (a : Arena) where
  count_free-fold :
      (xs : List ℕ) (n : ℕ)
      → fold_left (count_free at a) xs n ≡ n + sum_of at (free_of at) (bodies a) xs
  unfolding count_free
  count_free-fold [] n = omega arith
  count_free-fold (i ∷ r) n = elim (Bool-cases (is_free (a.blocks i).node_type)) [
    | inl e ↦ rw e (count_free-fold r (n + 1) ∙ omega arith)
    | inr e ↦ rw e (count_free-fold r n ∙ omega arith)
  ]

  check_contained-fold :
      (s : Shape) (xs : List ℕ) (expected : ℕ) (r : VerifyResult)
      → IsFreeTree at a a.header.free_tree_root (no_block at) none none s
      → node_count s ≤ expected
      → AllOn (λ i b. is_free b.node_type ≡ true → IsIn i s) (bodies a) xs
      → fold_left (check_contained at a expected) xs r ≡ r
  unfolding check_contained
  check_contained-fold s [] expected r h enough all = refl
  check_contained-fold s (i ∷ xs) expected r h enough all =
      let rest = check_contained-fold s xs expected r h enough all.1 in
      elim (Bool-cases (is_free (a.blocks i).node_type)) [
        | inl e ↦
            rw
              (
                e,
                free_tree_contains-IsIn at a expected a.header.free_tree_root (no_block at) none
                    none s i h (all.0 e) enough,
              )
              rest
        | inr e ↦ rw e rest
      ]

  count_free-IsTreeOf :
      (xs : List ℕ) (s : Shape)
      → IsChained at a xs
      → a.header.total_size ≤ size_max
      → IsTreeOf at a xs s
      → for_each_physical_block at (λ n. a) (visit (count_free at a)) 0 ≡ (true, node_count s)
  count_free-IsTreeOf xs s h wide tree =
      for_each_physical_block-fold t a (count_free at a) xs 0 h wide
      ∙ ap (λ n. (true, n)) (count_free-fold xs 0 ∙ omega (arith, tree.count))

  verify_rooted_tree-IsTreeOf :
      (xs : List ℕ) (l : Shape) (i : ℕ) (r : Shape) (v : VerifyResult)
      → IsChained at a xs
      → a.header.total_size ≤ size_max
      → IsTreeOf at a xs (node l i r)
      → verify_rooted_tree at a (node_count (node l i r)) v ≡ v
  unfolding verify_rooted_tree
  verify_rooted_tree-IsTreeOf xs l i r v h wide tree =
      let n : ℕ = node_count (node l i r) in
      let c : TreeVisit = record { result = v; visited_count = 0 } in
      let root = tree.tree.1 in
      let visited =
        verify_free_tree_node-silent at a n a.header.free_tree_root (no_block at) none none
          (node l i r) n c tree.tree (omega arith) (omega arith) in
      let contained =
        for_each_physical_block-fold t a (check_contained at a n) xs v h wide
        ∙ ap (λ (w : VerifyResult). (true, w))
            (check_contained-fold (node l i r) xs n v tree.tree (omega arith) tree.complete) in
      rw
        (
          tree.tree.0,
          root.free,
          eq_when (a.blocks i).parent_offset (no_block at) root.parent_link,
          sym (tree.tree.0),
          visited,
          contained,
          eq_when (0 + n) n (omega arith),
        )
        refl

  -- `verify_free_tree` reports nothing of a chained arena, whose size is a `size_t`, if a tree of the
  -- chain's free blocks stands in memory that is sound: its links to parents and its heights are right,
  -- it is balanced, its keys are in order and each free block is in it.
  pub verify_free_tree-IsTreeOf :
      (xs : List ℕ) (s : Shape) (r : VerifyResult)
      → IsChained at a xs
      → a.header.total_size ≤ size_max
      → IsTreeOf at a xs s
      → verify_free_tree at a r ≡ r
  unfolding verify_free_tree
  verify_free_tree-IsTreeOf xs leaf r h wide tree =
      rw
        (
          count_free-IsTreeOf xs leaf h wide tree,
          eq_when a.header.free_tree_root (no_block at) tree.tree,
        )
        refl
  verify_free_tree-IsTreeOf xs (node lt i rt) r h wide tree =
      let some_nodes : (node_count (node lt i rt) == 0) ≡ false = ground arith in
      let root_ok : validate_block_index at a.header.total_size a.header.free_tree_root ≡ true =
        rw (tree.tree.0) (tree.tree.1.valid) in
      rw
        (
          count_free-IsTreeOf xs (node lt i rt) h wide tree,
          some_nodes,
          eq_of_ne a.header.free_tree_root (no_block at)
              (λ e. tree.tree.1.some_block (sym (tree.tree.0) ∙ e)),
          root_ok,
        )
        (verify_rooted_tree-IsTreeOf xs lt i rt r h wide tree)
