-- ===== src/Allocator/Merging.antt =====
-- The step that both halves of `coalesce` make: free block `i` takes in free block `x` behind it. The
-- arena stays well formed.
use netkeep80_persist_memory.Base.{
  ℕ, ◌+◌, ◌≤◌, ◌<◌, ◌≡◌, refl, true, List, ◌∷◌, ◌++◌, arith, ◌==◌, leb, length, length-append,
  head_or, last_or, head_or-append, last_or-append, if◌then◌else◌,
}
use netkeep80_persist_memory.Traits.{
  Traits, no_block, header_granules, add_index, sub_index, add_index-eq, sub_index-eq,
}
use netkeep80_persist_memory.Node.{is_free}
use netkeep80_persist_memory.Memory.{Body, ManagerHeader, Arena}
use netkeep80_persist_memory.Layout.{
  IsTraits, bodies, Chain, IsHeap, total_granules, sum_of, free_of, allocated_of, used_of,
}
use netkeep80_persist_memory.Layout.Chain.{Chain-back, Chain-length}
use netkeep80_persist_memory.Layout.Totals.{used-le, sum_of-free-allocated}
use netkeep80_persist_memory.Layout.Merge
use netkeep80_persist_memory.Layout.Merge.{with_merged}
use netkeep80_persist_memory.Allocator.Effect.{SameHeader}

-- the header after a free block was taken into block `idx`, of which the last is `idx` if nothing follows
abbrev pub one_less : Traits → (next idx : ℕ) → ManagerHeader → ManagerHeader
one_less at next idx h = record h {
  last_block_offset = if next == no_block at then idx else h.last_block_offset;
  block_count = sub_index at h.block_count 1;
  free_count = sub_index at h.free_count 1;
  used_size =
      if leb (header_granules at) h.used_size
      then sub_index at h.used_size (header_granules at)
      else h.used_size;
}

-- Two free blocks next to one another in a well-formed arena.
pub record IsFreePair (at : Traits) (a : Arena) (pre : List ℕ) (i x : ℕ) (post : List ℕ)
    : Type 0 where
  pub heap : IsHeap at a (pre ++ i ∷ x ∷ post)
  pub first_free : is_free (a.blocks i).node_type ≡ true
  pub second_free : is_free (a.blocks x).node_type ≡ true

module _ {at : Traits} (t : IsTraits at) (a : Arena) (pre : List ℕ) (i x : ℕ) (post : List ℕ)
    (c : IsFreePair at a pre i x post) where
  abbrev pub total : ℕ
  total = total_granules at a

  pub here : Chain at (bodies a) (last_or (no_block at) pre) (i ∷ x ∷ post) (no_block at) total
  here =
      Chain-back at (bodies a) (no_block at) pre (i ∷ x ∷ post) (no_block at) total
        c.heap.chained.chain

  pub post_in : head_or total post + length post ≤ total
  post_in = Chain-length t (bodies a) x post (no_block at) total here.1.1

  pub ends : (i + (a.blocks i).weight ≡ x) × (x + (a.blocks x).weight ≡ head_or total post)
  ends = (ground (arith, here.0.sized, c.first_free), ground (arith, here.1.0.sized, c.second_free))

  abbrev pub weight : ℕ
  weight = (a.blocks i).weight + (a.blocks x).weight

  pub weight_eq : add_index at (a.blocks i).weight (a.blocks x).weight ≡ weight
  weight_eq =
      add_index-eq at (a.blocks i).weight (a.blocks x).weight
        (omega (arith, ends, post_in, c.heap.chained.fits))

  module _ (a' : Arena)
      (changed : (j : ℕ) → j < total → bodies a' j ≡ with_merged at i x weight (bodies a) j)
      (header : SameHeader (one_less at (head_or (no_block at) post) i a.header) a'.header) where
    same_total : total_granules at a' ≡ total
    same_total = ground (arith, header)

    new_chain : Chain at (bodies a') (no_block at) (pre ++ i ∷ post) (no_block at) total
    new_chain =
        Merge.Chain-merge t (bodies a) (bodies a') pre post i x weight total c.heap.chained.fits
          c.heap.chained.chain c.first_free (omega (arith, ends)) changed

    new_sum :
        (f : Body → ℕ)
        → ((b : Body) (p : ℕ) → f (record b { prev_offset = p }) ≡ f b)
        → sum_of at f (bodies a') (pre ++ i ∷ post) + f (bodies a i) + f (bodies a x)
          ≡ sum_of at f (bodies a) (pre ++ i ∷ x ∷ post)
            + f (record (bodies a i) { weight = weight; next_offset = head_or (no_block at) post })
    new_sum =
        Merge.sum_of-merge t (bodies a) (bodies a') pre post i x weight total c.heap.chained.fits
          c.heap.chained.chain c.first_free (omega (arith, ends)) changed

    abbrev old_frees : ℕ
    old_frees = sum_of at (free_of at) (bodies a) (pre ++ i ∷ x ∷ post)

    abbrev old_used : ℕ
    old_used = sum_of at (used_of at) (bodies a) (pre ++ i ∷ x ∷ post)

    abbrev old_length : ℕ
    old_length = length (pre ++ i ∷ x ∷ post)

    new_frees : sum_of at (free_of at) (bodies a') (pre ++ i ∷ post) + 1 ≡ old_frees
    new_frees = ground (arith, c.first_free, c.second_free, new_sum (free_of at) (λ b p. refl))

    new_allocs :
        sum_of at (allocated_of at) (bodies a') (pre ++ i ∷ post)
        ≡ sum_of at (allocated_of at) (bodies a) (pre ++ i ∷ x ∷ post)
    new_allocs =
        ground (arith, c.first_free, c.second_free, new_sum (allocated_of at) (λ b p. refl))

    new_used : sum_of at (used_of at) (bodies a') (pre ++ i ∷ post) + header_granules at ≡ old_used
    new_used = ground (arith, c.first_free, c.second_free, new_sum (used_of at) (λ b p. refl))

    new-length : length (pre ++ i ∷ post) + 1 ≡ old_length
    new-length = omega (arith, length-append pre (i ∷ post), length-append pre (i ∷ x ∷ post))

    limits : (old_length ≤ at.index_max) × (old_frees ≤ old_length) × (old_used ≤ at.index_max)
    limits =
        let length_ok =
          Chain-length t (bodies a) (no_block at) (pre ++ i ∷ x ∷ post) (no_block at) total
            c.heap.chained.chain in
        let used_ok =
          used-le t (bodies a) (no_block at) (pre ++ i ∷ x ∷ post) (no_block at) total
            c.heap.chained.chain in
        let counts = sum_of-free-allocated at (bodies a) (pre ++ i ∷ x ∷ post) in
        omega (arith, c.heap.chained.fits, length_ok, used_ok, counts)

    steps :
        (sub_index at old_length 1 + 1 ≡ old_length)
        × (sub_index at old_frees 1 + 1 ≡ old_frees)
        × (sub_index at old_used (header_granules at) + header_granules at ≡ old_used)
    steps = omega (
      arith,
      limits,
      new_used,
      new-length,
      new_frees,
      sub_index-eq at old_length 1 (omega (arith, new-length)) limits.0,
      sub_index-eq at old_frees 1 (omega (arith, new_frees)) (omega (arith, limits)),
      sub_index-eq at old_used (header_granules at) (omega (arith, new_used)) limits.2,
    )

    pub merge-IsHeap : IsHeap at a' (pre ++ i ∷ post)
    merge-IsHeap = record {
      chained = record {
        chain = rw same_total new_chain;
        fits = rw same_total (c.heap.chained.fits);
        first = ground (
          arith,
          header,
          c.heap.chained.first,
          head_or-append (no_block at) pre (i ∷ post),
          head_or-append (no_block at) pre (i ∷ x ∷ post),
        );
        last = ground (
          arith,
          header,
          c.heap.chained.last,
          last_or-append (no_block at) pre (i ∷ post),
          last_or-append (no_block at) pre (i ∷ x ∷ post),
          Merge.last_or_merged post (no_block at) total i x post_in c.heap.chained.fits,
        );
      };
      counted = record {
        blocks = ground (arith, header, c.heap.counted.blocks, steps, new-length);
        frees = ground (arith, header, c.heap.counted.frees, steps, new_frees);
        allocs = ground (arith, header, c.heap.counted.allocs, new_allocs);
        used = ground (arith, header, c.heap.counted.used, steps, new_used);
      };
    }
