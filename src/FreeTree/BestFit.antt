-- ===== src/FreeTree/BestFit.antt =====
-- include/pmm/free_block_tree.h, `find_best_fit` over a search tree in memory.
use mathlib.Core.Path.{subst}
use netkeep80_persist_memory.Base.{
  ℕ, zero, suc, ◌+◌, ◌≤◌, ◌<◌, ◌≡◌, ◌≢◌, refl, ◌∙◌, ap, false, inl, inr, List, [], ◌∷◌, ◌++◌, arith,
  leb, leb_when, eq_refl, eq_of_ne, Bool-cases, if◌then◌else◌,
}
use netkeep80_persist_memory.Traits.{Traits, no_block}
use netkeep80_persist_memory.Memory.{Arena}
use netkeep80_persist_memory.FreeTree.{best_fit_from, find_best_fit}

-- a binary tree of block indices
pub data Shape : Type 0 where
  leaf : Shape
  node : Shape → ℕ → Shape → Shape

abbrev pub node_count : Shape → ℕ
node_count leaf = 0
node_count (node l i r) = suc (node_count l + node_count r)

abbrev pub in_order : Shape → List ℕ
in_order leaf = []
in_order (node l i r) = in_order l ++ i ∷ in_order r

-- The tree of the shape stands in memory at `cur`.
abbrev pub Stands : Traits → Arena → (cur : ℕ) → Shape → Type 0
Stands at a cur leaf = cur ≡ no_block at
Stands at a cur (node l i r) =
    (cur ≡ i)
    × (i ≢ no_block at)
    × Stands at a (a.blocks i).left_offset l
    × Stands at a (a.blocks i).right_offset r

abbrev pub weight_of : Arena → ℕ → ℕ
weight_of a i = (a.blocks i).weight

-- no block of the list is lighter than `k`, and none is heavier
abbrev pub AllAbove : Arena → ℕ → List ℕ → Type 0
AllAbove a k [] = Unit {0}
AllAbove a k (x ∷ r) = (k ≤ weight_of a x) × AllAbove a k r

abbrev pub AllBelow : Arena → ℕ → List ℕ → Type 0
AllBelow a k [] = Unit {0}
AllBelow a k (x ∷ r) = (weight_of a x ≤ k) × AllBelow a k r

-- the weights never decrease
abbrev pub IsSorted : Arena → List ℕ → Type 0
IsSorted a [] = Unit {0}
IsSorted a (x ∷ r) = AllAbove a (weight_of a x) r × IsSorted a r

-- the first block of the list with `needed` granules, or else `d`
abbrev pub first_fit : Arena → (needed d : ℕ) → List ℕ → ℕ
first_fit a needed d [] = d
first_fit a needed d (x ∷ r) = if leb needed (weight_of a x) then x else first_fit a needed d r

module _ (a : Arena) where
  first_fit-append :
      (needed d : ℕ) (xs ys : List ℕ)
      → first_fit a needed d (xs ++ ys) ≡ first_fit a needed (first_fit a needed d ys) xs
  first_fit-append needed d [] ys = refl
  first_fit-append needed d (x ∷ r) ys =
      ap (λ e. if leb needed (weight_of a x) then x else e) (first_fit-append needed d r ys)

  first_fit-none :
      (needed d k : ℕ) (xs : List ℕ) → AllBelow a k xs → k < needed → first_fit a needed d xs ≡ d
  first_fit-none needed d k [] h lt = refl
  first_fit-none needed d k (x ∷ r) h lt =
      rw (leb_not needed (weight_of a x) (omega (arith, h.0))) (first_fit-none needed d k r h.1 lt)
    where
      leb_not : (u v : ℕ) → v < u → leb u v ≡ false
      leb_not u v q = ground arith

  AllAbove-back :
      (k : ℕ) (xs : List ℕ) (i : ℕ) (ys : List ℕ) → AllAbove a k (xs ++ i ∷ ys) → k ≤ weight_of a i
  AllAbove-back k [] i ys h = h.0
  AllAbove-back k (x ∷ r) i ys h = AllAbove-back k r i ys h.1

  AllAbove-front : (k : ℕ) (xs ys : List ℕ) → AllAbove a k (xs ++ ys) → AllAbove a k xs
  AllAbove-front k [] ys h = tt
  AllAbove-front k (x ∷ r) ys h = (h.0, AllAbove-front k r ys h.1)

  IsSorted-front : (xs ys : List ℕ) → IsSorted a (xs ++ ys) → IsSorted a xs
  IsSorted-front [] ys h = tt
  IsSorted-front (x ∷ r) ys h = (AllAbove-front (weight_of a x) r ys h.0, IsSorted-front r ys h.1)

  IsSorted-back : (xs : List ℕ) (i : ℕ) (ys : List ℕ) → IsSorted a (xs ++ i ∷ ys) → IsSorted a ys
  IsSorted-back [] i ys h = h.1
  IsSorted-back (x ∷ r) i ys h = IsSorted-back r i ys h.1

  IsSorted-below :
      (xs : List ℕ) (i : ℕ) (ys : List ℕ)
      → IsSorted a (xs ++ i ∷ ys)
      → AllBelow a (weight_of a i) xs
  IsSorted-below [] i ys h = tt
  IsSorted-below (x ∷ r) i ys h =
      (AllAbove-back (weight_of a x) r i ys h.0, IsSorted-below r i ys h.1)

  -- a first block in order is a smallest one
  first_fit-least :
      (needed d : ℕ) (xs ys : List ℕ) (j : ℕ)
      → IsSorted a (xs ++ j ∷ ys)
      → needed ≤ weight_of a j
      → (needed ≤ weight_of a (first_fit a needed d (xs ++ j ∷ ys)))
        × (weight_of a (first_fit a needed d (xs ++ j ∷ ys)) ≤ weight_of a j)
  first_fit-least needed d [] ys j h big =
      rw (leb_when needed (weight_of a j) big) (big, omega arith)
  first_fit-least needed d (x ∷ r) ys j h big = elim (Bool-cases (leb needed (weight_of a x))) [
    | inl e ↦ rw e (ground (arith, e), AllAbove-back (weight_of a x) r j ys h.0)
    | inr e ↦ rw e (first_fit-least needed d r ys j h.1 big)
  ]

  -- what is found stands in the list
  first_fit-member :
      (needed d : ℕ) (xs ys : List ℕ) (j : ℕ)
      → needed ≤ weight_of a j
      → (ps : List ℕ) × (qs : List ℕ) × (xs ++ j ∷ ys
          ≡ ps ++ first_fit a needed d (xs ++ j ∷ ys) ∷ qs)
  first_fit-member needed d [] ys j big = rw (leb_when needed (weight_of a j) big) ([], ys, refl)
  first_fit-member needed d (x ∷ r) ys j big = elim (Bool-cases (leb needed (weight_of a x))) [
    | inl e ↦ rw e ([], r ++ j ∷ ys, refl)
    | inr e ↦
        let (ps, qs, same) = first_fit-member needed d r ys j big in
        rw e (x ∷ ps, qs, ap (λ zs. x ∷ zs) same)
  ]

module _ (at : Traits) (a : Arena) where
  best_fit_from-first :
      (bound : ℕ) (s : Shape) (needed cur d : ℕ)
      → Stands at a cur s
      → IsSorted a (in_order s)
      → node_count s ≤ bound
      → best_fit_from at bound a needed cur d ≡ first_fit a needed d (in_order s)
  unfolding best_fit_from
  best_fit_from-first zero leaf needed cur d h k enough = refl
  best_fit_from-first (suc n) leaf needed cur d h k enough = rw (h, eq_refl (no_block at)) refl
  best_fit_from-first zero (node l i r) needed cur d h k enough = absurd (omega arith)
  best_fit_from-first (suc n) (node l i r) needed cur d h k enough =
      elim (Bool-cases (leb needed (weight_of a i))) [
        | inl e ↦
            rw
              (
                h.0,
                eq_of_ne i (no_block at) h.1,
                e,
                first_fit-append a needed d (in_order l) (i ∷ in_order r),
                e,
              )
              (best_fit_from-first n l needed (a.blocks i).left_offset i h.2
                (IsSorted-front a (in_order l) (i ∷ in_order r) k) (omega arith))
        | inr e ↦
            rw
              (
                h.0,
                eq_of_ne i (no_block at) h.1,
                e,
                first_fit-append a needed d (in_order l) (i ∷ in_order r),
                e,
                first_fit-none a needed (first_fit a needed d (in_order r)) (weight_of a i)
                    (in_order l) (IsSorted-below a (in_order l) i (in_order r) k)
                    (ground (arith, e)),
              )
              (best_fit_from-first n r needed (a.blocks i).right_offset d h.3
                (IsSorted-back a (in_order l) i (in_order r) k) (omega arith))
      ]

  module _ (bound : ℕ) (s : Shape) (needed : ℕ) (stands : Stands at a a.header.free_tree_root s)
      (sorted : IsSorted a (in_order s)) (enough : node_count s ≤ bound) where
    pub find_best_fit-first_fit :
        find_best_fit at bound a needed ≡ first_fit a needed (no_block at) (in_order s)
    unfolding find_best_fit
    find_best_fit-first_fit =
        best_fit_from-first bound s needed a.header.free_tree_root (no_block at) stands sorted
          enough

    -- The free tree stands in memory, its weights never decrease in order, and the bound is at least the
    -- number of its blocks. Where a block `j` of the tree is large enough, `find_best_fit` returns a block
    -- of the tree that is large enough and weighs at most what `j` does.
    pub find_best_fit-least :
        (xs : List ℕ) (j : ℕ) (ys : List ℕ)
        → in_order s ≡ xs ++ j ∷ ys
        → needed ≤ weight_of a j
        → ((ps : List ℕ) × (qs : List ℕ) × (in_order s
              ≡ ps ++ find_best_fit at bound a needed ∷ qs))
          × (needed ≤ weight_of a (find_best_fit at bound a needed))
          × (weight_of a (find_best_fit at bound a needed) ≤ weight_of a j)
    find_best_fit-least xs j ys e big =
        let least =
          first_fit-least a needed (no_block at) xs ys j (subst (IsSorted a) e sorted) big in
        rw (find_best_fit-first_fit, e)
          (first_fit-member a needed (no_block at) xs ys j big, least.0, least.1)

    -- In such a tree, where every block is too small, `find_best_fit` returns no block.
    pub find_best_fit-none :
        (k : ℕ)
        → AllBelow a k (in_order s)
        → k < needed
        → find_best_fit at bound a needed ≡ no_block at
    find_best_fit-none k below small =
        find_best_fit-first_fit ∙ first_fit-none a needed (no_block at) k (in_order s) below small
