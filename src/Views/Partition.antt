-- ===== src/Views/Partition.antt =====
-- include/pmm/persist_memory_manager.h: the views of `for_each_block` make up the arena, and the
-- statistics count them.
use netkeep80_persist_memory.Base.{
  ℕ, ◌+◌, ◌*◌, ◌%◌, ◌≤◌, ◌≡◌, refl, ap, ◌∙◌, true, false, not, List, [], ◌∷◌, arith, inl, inr,
  Bool-cases, head_or, length, if◌then◌else◌,
}
use native.Mathlib.Nat.{le-div_iff_mul-le}
use netkeep80_persist_memory.Traits.{Traits, no_block, size_max}
use netkeep80_persist_memory.Node.{is_free}
use netkeep80_persist_memory.Memory.{Arena}
use netkeep80_persist_memory.Layout.{
  IsTraits, bodies, Chain, IsHeap, total_granules, sum_of, allocated_of,
}
use netkeep80_persist_memory.Layout.Walked.{fold_left, for_each_physical_block-fold}
use netkeep80_persist_memory.Layout.Chain.{Chain-length}
use netkeep80_persist_memory.Allocator.Silent.{physical_block_total_granules-Chain}
use netkeep80_persist_memory.Validation.{block_total_granules}
use netkeep80_persist_memory.State.{ManagerState}
use netkeep80_persist_memory.Views.{
  BlockView, read_stat, block_count, alloc_block_count, view_of, for_each_block,
}

-- callbacks that count the views, those in use, and the bytes
abbrev pub count_view : BlockView → ℕ → ℕ
count_view v n = n + 1

abbrev pub count_used : BlockView → ℕ → ℕ
count_used v n = if v.used then n + 1 else n

abbrev pub add_bytes : BlockView → ℕ → ℕ
add_bytes v n = n + v.total_size

module _ {at : Traits} (t : IsTraits at) (a : Arena) where
  abbrev over : (BlockView → ℕ → ℕ) → List ℕ → ℕ → ℕ
  over callback = fold_left (λ i. callback (view_of at a i))

  counts : (xs : List ℕ) (n : ℕ) → over count_view xs n ≡ n + length xs
  counts [] n = omega arith
  counts (i ∷ r) n = counts r (n + 1) ∙ omega arith

  uses :
      (p : ℕ) (xs : List ℕ) (e n : ℕ)
      → Chain at (bodies a) p xs (no_block at) e
      → over count_used xs n ≡ n + sum_of at (allocated_of at) (bodies a) xs
  unfolding view_of
  uses p [] e n h = omega arith
  uses p (i ∷ r) e n h = elim (Bool-cases (is_free (a.blocks i).node_type)) [
    | inl f ↦ rw (h.0.known, f) (uses i r e n h.1 ∙ omega arith)
    | inr f ↦ rw (h.0.known, f) (uses i r e (n + 1) h.1 ∙ omega arith)
  ]

  -- a block reaches up to the next one
  reaches :
      (p i : ℕ) (r : List ℕ)
      → Chain at (bodies a) p (i ∷ r) (no_block at) (total_granules at a)
      → total_granules at a ≤ at.index_max
      → i + block_total_granules at a.header i (a.blocks i) ≡ head_or (total_granules at a) r
  unfolding block_total_granules
  reaches p i r h small =
      let physical = physical_block_total_granules-Chain t a p i r h small in
      elim (Bool-cases (is_free (a.blocks i).node_type)) [
        | inl f ↦ ground (arith, h.0.sized, f)
        | inr f ↦ rw f physical
      ]

  sums :
      (p : ℕ) (xs : List ℕ) (n : ℕ)
      → Chain at (bodies a) p xs (no_block at) (total_granules at a)
      → total_granules at a ≤ at.index_max
      → a.header.total_size ≤ size_max
      → over add_bytes xs n + head_or (total_granules at a) xs * at.granule_size
        ≡ n + total_granules at a * at.granule_size
  unfolding view_of
  sums p [] n h small wide = refl
  sums p (i ∷ r) n h small wide =
      let g : ℕ = at.granule_size in
      let w : ℕ = block_total_granules at a.header i (a.blocks i) in
      let next = reaches p i r h small in
      let len = Chain-length t (bodies a) i r (no_block at) (total_granules at a) h.1 in
      let below : w * g ≤ a.header.total_size =
        (le-div_iff_mul-le {k = g} t.granule_pos).0 (omega (arith, next, len)) in
      let exact : w * g % (size_max + 1) ≡ w * g = omega (arith, below, wide) in
      let rest = sums i r (n + w * g) h.1 small wide in
      rw exact (omega (arith, rest, ap (λ x. x * g) next))

module _ {at : Traits} (t : IsTraits at) (s : ManagerState) where
  walks :
      (xs : List ℕ) (callback : BlockView → ℕ → ℕ)
      → IsHeap at s.arena xs
      → s.arena.header.total_size ≤ size_max
      → s.initialized ≡ true
      → for_each_block at callback s 0 ≡ (true, over t s.arena callback xs 0)
  unfolding for_each_block
  walks xs callback h wide ready = rw ready (
      for_each_physical_block-fold t s.arena (λ i. callback (view_of at s.arena i)) xs 0 h.chained
        wide)

  -- The manager is initialized, and its arena is well formed, begins with a block at granule 0, and has a
  -- size that is a `size_t`. Then `for_each_block` succeeds, and its views are as many as `block_count`
  -- says, those in use as many as `alloc_block_count` says, and their sizes add up to all granules of the
  -- arena.
  pub for_each_block-IsHeap :
      (r : List ℕ)
      → IsHeap at s.arena (0 ∷ r)
      → s.arena.header.total_size ≤ size_max
      → s.initialized ≡ true
      → (for_each_block at count_view s 0 ≡ (true, block_count s))
        × (for_each_block at count_used s 0 ≡ (true, alloc_block_count s))
        × (for_each_block at add_bytes s 0 ≡ (true, total_granules at s.arena * at.granule_size))
  unfolding block_count alloc_block_count read_stat
  for_each_block-IsHeap r h wide ready =
      let k : ℕ = total_granules at s.arena in
      let starts : not (s.initialized) ≡ false = ground (arith, ready) in
      let small = h.chained.fits in
      (
        walks (0 ∷ r) count_view h wide ready
            ∙ ap (λ n. (true, n))
                (counts t s.arena (0 ∷ r) 0 ∙ rw starts (omega (arith, h.counted.blocks))),
        walks (0 ∷ r) count_used h wide ready
            ∙ ap (λ n. (true, n))
                (uses t s.arena (no_block at) (0 ∷ r) k 0 h.chained.chain
                  ∙ rw starts (omega (arith, h.counted.allocs))),
        walks (0 ∷ r) add_bytes h wide ready
            ∙ ap (λ n. (true, n))
                (omega (arith, sums t s.arena (no_block at) (0 ∷ r) 0 h.chained.chain small wide)),
      )
