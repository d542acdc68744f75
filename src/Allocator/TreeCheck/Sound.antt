-- ===== src/Allocator/TreeCheck/Sound.antt =====
-- include/pmm/allocator_policy.h: what `verify_free_tree` checks, and the search in a sound tree.
use mathlib.Core.Path.{subst}
use netkeep80_persist_memory.Layout.{bodies, sum_of, free_of}
use netkeep80_persist_memory.Layout.Settled.{AllOn}
use netkeep80_persist_memory.Base.{
  either_true, ℕ, zero, suc, ◌+◌, ◌≤◌, ◌<◌, ◌≡◌, ◌≢◌, refl, sym, true, false, Option, none, some,
  ◌⊎◌, inl, inr, List, arith, ◌==◌, ltb, eq_of_ne, eq_when, if◌then◌else◌,
}
use netkeep80_persist_memory.Traits.{Traits, no_block}
use netkeep80_persist_memory.Node.{is_free}
use netkeep80_persist_memory.Memory.{Arena}
use netkeep80_persist_memory.Validation.{validate_block_index}
use netkeep80_persist_memory.FreeTree.BestFit.{Shape, leaf, node, node_count}
use netkeep80_persist_memory.Allocator.TreeCheck.{free_tree_less_key, free_tree_contains}

abbrev pub max_of : ℕ → ℕ → ℕ
max_of x y = if ltb y x then x else y

abbrev pub height : Shape → ℕ
height leaf = 0
height (node l i r) = 1 + max_of (height l) (height r)

abbrev IsAbove : Arena → Option ℕ → ℕ → Type 0
IsAbove a none i = Unit {0}
IsAbove a (some lower) i = free_tree_less_key a lower i ≡ true

abbrev IsBelow : Arena → Option ℕ → ℕ → Type 0
IsBelow a none i = Unit {0}
IsBelow a (some upper) i = free_tree_less_key a i upper ≡ true

-- a node of a sound tree
pub record IsNode (at : Traits) (a : Arena) (i parent : ℕ) (lower upper : Option ℕ) (l r : Shape)
    : Type 0 where
  pub some_block : i ≢ no_block at
  pub valid : validate_block_index at a.header.total_size i ≡ true
  pub free : is_free (a.blocks i).node_type ≡ true
  pub parent_link : (a.blocks i).parent_offset ≡ parent
  pub above : IsAbove a lower i
  pub below : IsBelow a upper i
  pub stored_height : (a.blocks i).avl_height ≡ height (node l i r)
  pub byte : height (node l i r) < 256
  pub balanced : (height l ≤ height r + 1) × (height r ≤ height l + 1)

-- The balanced search tree of the shape stands at `cur` under `parent`, with its keys between the bounds.
abbrev pub IsFreeTree :
    Traits → Arena → (cur parent : ℕ) → (lower upper : Option ℕ) → Shape → Type 0
IsFreeTree at a cur parent lower upper leaf = cur ≡ no_block at
IsFreeTree at a cur parent lower upper (node l i r) =
    (cur ≡ i)
    × IsNode at a i parent lower upper l r
    × IsFreeTree at a (a.blocks i).left_offset i lower (some i) l
    × IsFreeTree at a (a.blocks i).right_offset i (some i) upper r

-- the block is a node of the shape
abbrev pub IsIn : ℕ → Shape → Type 0
IsIn j leaf = ⊥
IsIn j (node l i r) = (j ≡ i) ⊎ (IsIn j l ⊎ IsIn j r)

-- What the tree must be for a chain: a sound tree of as many nodes as the chain has free blocks, in which
-- each of them is found.
pub record IsTreeOf (at : Traits) (a : Arena) (xs : List ℕ) (s : Shape) : Type 0 where
  pub tree : IsFreeTree at a a.header.free_tree_root (no_block at) none none s
  pub count : node_count s ≡ sum_of at (free_of at) (bodies a) xs
  pub complete : AllOn (λ i b. is_free b.node_type ≡ true → IsIn i s) (bodies a) xs

module _ (at : Traits) (a : Arena) where
  free_tree_less_key_trans :
      (i j k : ℕ)
      → free_tree_less_key a i j ≡ true
      → free_tree_less_key a j k ≡ true
      → free_tree_less_key a i k ≡ true
  unfolding free_tree_less_key
  free_tree_less_key_trans i j k u v = ground (arith, u, v)

  free_tree_less_key_asym :
      (i j : ℕ) → free_tree_less_key a i j ≡ true → free_tree_less_key a j i ≡ false
  unfolding free_tree_less_key
  free_tree_less_key_asym i j u = ground (arith, u)

  IsAbove-trans :
      (lower : Option ℕ) (i j : ℕ)
      → IsAbove a lower i
      → free_tree_less_key a i j ≡ true
      → IsAbove a lower j
  IsAbove-trans none i j u v = tt
  IsAbove-trans (some lo) i j u v = free_tree_less_key_trans lo i j u v

  IsBelow-trans :
      (upper : Option ℕ) (i j : ℕ)
      → free_tree_less_key a j i ≡ true
      → IsBelow a upper i
      → IsBelow a upper j
  IsBelow-trans none i j u v = tt
  IsBelow-trans (some hi) i j u v = free_tree_less_key_trans j i hi u v

  -- a node of the tree has its key between the bounds
  IsIn-between :
      (cur parent : ℕ) (lower upper : Option ℕ) (s : Shape) (j : ℕ)
      → IsFreeTree at a cur parent lower upper s
      → IsIn j s
      → IsAbove a lower j × IsBelow a upper j
  IsIn-between cur parent lower upper leaf j h k = absurd k
  IsIn-between cur parent lower upper (node l i r) j h (inl e) =
      subst (λ x. IsAbove a lower x × IsBelow a upper x) (sym e) (h.1.above, h.1.below)
  IsIn-between cur parent lower upper (node l i r) j h (inr (inl k)) =
      let left = IsIn-between (a.blocks i).left_offset i lower (some i) l j h.2 k in
      (left.0, IsBelow-trans upper i j left.1 h.1.below)
  IsIn-between cur parent lower upper (node l i r) j h (inr (inr k)) =
      let right = IsIn-between (a.blocks i).right_offset i (some i) upper r j h.3 k in
      (IsAbove-trans lower i j h.1.above right.0, right.1)

  -- the search of a node of a sound tree ends at it
  pub free_tree_contains-IsIn :
      (n cur parent : ℕ) (lower upper : Option ℕ) (s : Shape) (j : ℕ)
      → IsFreeTree at a cur parent lower upper s
      → IsIn j s
      → node_count s ≤ n
      → free_tree_contains at n a cur j ≡ true
  unfolding free_tree_contains
  free_tree_contains-IsIn n cur parent lower upper leaf j h k enough = absurd k
  free_tree_contains-IsIn zero cur parent lower upper (node l i r) j h k enough =
      absurd (omega arith)
  free_tree_contains-IsIn (suc n) cur parent lower upper (node l i r) j h (inl e) enough =
      rw (h.0, eq_of_ne i (no_block at) h.1.some_block, h.1.valid, h.1.free, eq_when i j (sym e))
        refl
  free_tree_contains-IsIn (suc n) cur parent lower upper (node l i r) j h (inr (inl k)) enough =
      let less = IsIn-between (a.blocks i).left_offset i lower (some i) l j h.2 k in
      let found =
        free_tree_contains-IsIn n (a.blocks i).left_offset i lower (some i) l j h.2 k
          (omega arith) in
      rw (h.0, eq_of_ne i (no_block at) h.1.some_block, h.1.valid, h.1.free, less.1, found)
        (either_true (i == j))
  free_tree_contains-IsIn (suc n) cur parent lower upper (node l i r) j h (inr (inr k)) enough =
      let more = IsIn-between (a.blocks i).right_offset i (some i) upper r j h.3 k in
      let found =
        free_tree_contains-IsIn n (a.blocks i).right_offset i (some i) upper r j h.3 k
          (omega arith) in
      rw
        (
          h.0,
          eq_of_ne i (no_block at) h.1.some_block,
          h.1.valid,
          h.1.free,
          free_tree_less_key_asym i j more.0,
          found,
        )
        (either_true (i == j))
