-- ===== src/Allocator/Counting.antt =====
-- include/pmm/allocator_policy.h: `accumulate_counters`, `recompute_counters` and `verify_counters` on
-- chained arenas.
use netkeep80_persist_memory.Base.{
  ℕ, ◌+◌, ◌≤◌, ◌≡◌, refl, true, inl, inr, List, [], ◌∷◌, arith, length, head_or, Bool-cases,
  eq_refl,
}
use netkeep80_persist_memory.Traits.{Traits, no_block, size_max, header_granules, add_index-eq}
use netkeep80_persist_memory.Node.{is_free}
use netkeep80_persist_memory.Memory.{ManagerHeader, Arena}
use netkeep80_persist_memory.Diagnostics.{VerifyResult}
use netkeep80_persist_memory.Layout.{
  IsTraits, bodies, BlockOk, Chain, IsChained, IsHeap, total_granules, sum_of, free_of,
  allocated_of, used_of,
}
use netkeep80_persist_memory.Layout.Chain.{Chain-length}
use netkeep80_persist_memory.Layout.Totals.{used-le}
use netkeep80_persist_memory.Layout.Walked.{fold_left, for_each_physical_block-fold}
use netkeep80_persist_memory.Allocator.Repair.{
  Counters, no_counters, count_block, accumulate_counters, recompute_counters,
}
use netkeep80_persist_memory.Allocator.Verify.{counters_match, verify_counters}

module _ (at : Traits) (a : Arena) where
  -- the counters `c` after the blocks of the list
  abbrev pub counted_on : Counters → List ℕ → Counters
  counted_on c xs = record {
    block_count = c.block_count + length xs;
    free_count = c.free_count + sum_of at (free_of at) (bodies a) xs;
    alloc_count = c.alloc_count + sum_of at (allocated_of at) (bodies a) xs;
    used_gran = c.used_gran + sum_of at (used_of at) (bodies a) xs;
  }

  -- a block whose counters do not wrap
  count_one :
      (c : Counters) (p i n e : ℕ)
      → BlockOk at (bodies a i) p i n e
      → c.block_count + 1 ≤ at.index_max
      → c.free_count + 1 ≤ at.index_max
      → c.alloc_count + 1 ≤ at.index_max
      → c.used_gran + used_of at (bodies a i) ≤ at.index_max
      → count_block at (a.blocks i) c ≡ counted_on c (i ∷ [])
  unfolding count_block
  count_one c p i n e h blocks frees allocs used =
      elim (Bool-cases (is_free (a.blocks i).node_type)) [
        | inl f ↦
            rw
              (
                h.known,
                f,
                add_index-eq at c.block_count 1 blocks,
                add_index-eq at c.free_count 1 frees,
                add_index-eq at c.used_gran (header_granules at) (ground (arith, used, f)),
              )
              (ground arith)
        | inr f ↦
            rw
              (
                h.known,
                f,
                add_index-eq at c.block_count 1 blocks,
                add_index-eq at c.alloc_count 1 allocs,
                add_index-eq at c.used_gran (header_granules at) (ground (arith, used, f)),
                add_index-eq at (c.used_gran + header_granules at) (a.blocks i).weight
                    (ground (arith, used, f)),
              )
              (ground arith)
      ]

counters_match-equal :
    (at : Traits) (h : ManagerHeader) (c : Counters)
    → h.block_count ≡ c.block_count
    → h.free_count ≡ c.free_count
    → h.alloc_count ≡ c.alloc_count
    → h.used_size ≡ c.used_gran
    → counters_match at h c ≡ true
unfolding counters_match
counters_match-equal at h c blocks frees allocs used =
    rw (blocks, frees, allocs, used, eq_refl, eq_refl, eq_refl, eq_refl) refl

module _ {at : Traits} (t : IsTraits at) (a : Arena) where
  pub count_fold :
      (c : Counters) (p : ℕ) (xs : List ℕ) (e : ℕ)
      → Chain at (bodies a) p xs (no_block at) e
      → c.block_count + length xs ≤ at.index_max
      → c.free_count + length xs ≤ at.index_max
      → c.alloc_count + length xs ≤ at.index_max
      → c.used_gran + sum_of at (used_of at) (bodies a) xs ≤ at.index_max
      → fold_left (λ i. count_block at (a.blocks i)) xs c ≡ counted_on at a c xs
  count_fold c p [] e h blocks frees allocs used = ground arith
  count_fold c p (i ∷ r) e h blocks frees allocs used =
      let one =
        count_one at a c p i (head_or (no_block at) r) (head_or e r) h.0 (omega arith) (omega arith)
          (omega arith) (omega arith) in
      let first : free_of at (bodies a i) + allocated_of at (bodies a i) ≡ 1 = ground arith in
      rw
        (
          one,
          count_fold (counted_on at a c (i ∷ [])) i r e h.1 (omega arith) (omega (arith, first))
              (omega (arith, first)) (omega arith),
        )
        (ground arith)

  -- The walk that counts succeeds on a chained arena whose size is a `size_t`, and what it counts are the
  -- blocks of the layout, the free and the allocated ones, and the granules in use.
  pub accumulate_counters-IsCounted :
      (xs : List ℕ)
      → IsChained at a xs
      → a.header.total_size ≤ size_max
      → accumulate_counters at a ≡ (true, counted_on at a no_counters xs)
  unfolding accumulate_counters
  accumulate_counters-IsCounted xs h wide =
      let len =
        Chain-length t (bodies a) (no_block at) xs (no_block at) (total_granules at a) h.chain in
      let used =
        used-le t (bodies a) (no_block at) xs (no_block at) (total_granules at a) h.chain in
      rw
        (
          for_each_physical_block-fold t a (λ i. count_block at (a.blocks i)) xs no_counters h wide,
          count_fold no_counters (no_block at) xs (total_granules at a) h.chain
              (omega (arith, len, h.fits)) (omega (arith, len, h.fits)) (omega (arith, len, h.fits))
              (omega (arith, used, h.fits)),
        )
        refl

  -- `recompute_counters` makes a chained arena, whose size is a `size_t`, well formed, whatever its
  -- counters were.
  pub recompute_counters-IsHeap :
      (xs : List ℕ)
      → IsChained at a xs
      → a.header.total_size ≤ size_max
      → IsHeap at (recompute_counters at a) xs
  unfolding recompute_counters
  recompute_counters-IsHeap xs h wide = rw (accumulate_counters-IsCounted xs h wide) (record {
    chained = record { chain = h.chain; fits = h.fits; first = h.first; last = h.last };
    counted = record {
      blocks = omega arith;
      frees = omega arith;
      allocs = omega arith;
      used = omega arith;
    };
  })

  -- `verify_counters` reports nothing of a well-formed arena whose size is a `size_t`.
  pub verify_counters-IsHeap :
      (xs : List ℕ) (r : VerifyResult)
      → IsHeap at a xs
      → a.header.total_size ≤ size_max
      → verify_counters at a r ≡ r
  unfolding verify_counters
  verify_counters-IsHeap xs r h wide =
      let n = h.counted in
      rw
        (
          accumulate_counters-IsCounted xs h.chained wide,
          counters_match-equal at a.header (counted_on at a no_counters xs)
              (omega (arith, n.blocks)) (omega (arith, n.frees)) (omega (arith, n.allocs))
              (omega (arith, n.used)),
        )
        refl
