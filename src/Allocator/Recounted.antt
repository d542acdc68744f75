-- ===== src/Allocator/Recounted.antt =====
-- include/pmm/allocator_policy.h, `accumulate_counters` on an arena whose blocks are damaged.
use netkeep80_persist_memory.Base.{
  ℕ, ◌≤◌, ◌≡◌, refl, ◌∙◌, ap, true, not, List, [], ◌∷◌, arith, head_or, inl, inr, Bool-cases,
}
use netkeep80_persist_memory.Traits.{Traits, no_block, size_max}
use netkeep80_persist_memory.Node.{is_free, is_allocated}
use netkeep80_persist_memory.Memory.{Arena}
use netkeep80_persist_memory.Layout.{IsTraits, Bodies, bodies, Chain, total_granules}
use netkeep80_persist_memory.Layout.Chain.{Chain-length}
use netkeep80_persist_memory.Layout.Totals.{used-le}
use netkeep80_persist_memory.Layout.Settled.{AllOn, AllOn-map, for_each_physical_block-follows}
use netkeep80_persist_memory.Layout.Walked.{fold_left}
use netkeep80_persist_memory.Allocator.Repair.{
  Counters, no_counters, count_block, accumulate_counters,
}
use netkeep80_persist_memory.Allocator.Counting.{counted_on, count_fold}
use netkeep80_persist_memory.Allocator.Relinked.{IsRepairable}

-- an arena with these bodies
abbrev pub arena_of : Bodies → Arena → Arena
arena_of m a = record a {
  blocks = λ j. record (a.blocks j) {
    weight = (m j).weight;
    root_offset = (m j).root_offset;
    prev_offset = (m j).prev_offset;
    next_offset = (m j).next_offset;
    node_type = (m j).node_type;
  };
}

module _ (at : Traits) (m : Bodies) (a : Arena) where
  -- a block counts the same, whatever its links, its owner and its weight when free
  count_same :
      (i : ℕ) (c : Counters)
      → is_allocated (m i).node_type ≡ not (is_free (m i).node_type)
      → IsRepairable (m i) (bodies a i)
      → count_block at (a.blocks i) c ≡ count_block at ((arena_of m a).blocks i) c
  unfolding count_block
  count_same i c known rep = elim (Bool-cases (is_free (m i).node_type)) [
    | inl e ↦ rw (rep.type, known, e) refl
    | inr e ↦ rw (rep.type, known, e, rep.weight e) refl
  ]

  count_fold-same :
      (p : ℕ) (xs : List ℕ) (n e : ℕ) (c : Counters)
      → Chain at m p xs n e
      → AllOn (λ i. IsRepairable (m i)) (bodies a) xs
      → fold_left (λ i. count_block at (a.blocks i)) xs c
        ≡ fold_left (λ i. count_block at ((arena_of m a).blocks i)) xs c
  count_fold-same p [] n e c h all = refl
  count_fold-same p (i ∷ r) n e c h all =
      rw (count_same i c h.0.known all.0)
        (count_fold-same i r n e (count_block at ((arena_of m a).blocks i) c) h.1 all.1)

module _ {at : Traits} (t : IsTraits at) (m : Bodies) (a : Arena) (xs : List ℕ)
    (chain : Chain at m (no_block at) xs (no_block at) (total_granules at a))
    (fits : total_granules at a ≤ at.index_max)
    (first : a.header.first_block_offset ≡ head_or (no_block at) xs)
    (wide : a.header.total_size ≤ size_max)
    (damage : AllOn (λ i. IsRepairable (m i)) (bodies a) xs) where
  -- The counting walk over damaged blocks counts the blocks of the chain that they can be repaired to.
  pub accumulate_counters-IsRepairable :
      accumulate_counters at a ≡ (true, counted_on at (arena_of m a) no_counters xs)
  unfolding accumulate_counters
  accumulate_counters-IsRepairable =
      let len = Chain-length t m (no_block at) xs (no_block at) (total_granules at a) chain in
      let used = used-le t m (no_block at) xs (no_block at) (total_granules at a) chain in
      for_each_physical_block-follows t (λ c. a) (λ i. count_block at (a.blocks i)) (λ i c j. refl)
        m xs no_counters
        (AllOn-map {R = λ i. IsRepairable (m i)} {Q = λ i b. b.next_offset ≡ (m i).next_offset}
          (bodies a) xs (λ i b h. h.next) damage)
        chain fits first wide
      ∙ ap (λ (c : Counters). (true, c))
          (count_fold-same at m a (no_block at) xs (no_block at) (total_granules at a) no_counters
              chain damage
            ∙ count_fold t (arena_of m a) no_counters (no_block at) xs (total_granules at a) chain
                (omega (arith, len, fits)) (omega (arith, len, fits)) (omega (arith, len, fits))
                (omega (arith, used, fits)))
