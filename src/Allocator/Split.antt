-- ===== src/Allocator/Split.antt =====
-- include/pmm/allocator_policy.h, the branch of `allocate_from_block` that splits: the block is handed
-- out with a new free block behind it.
use netkeep80_persist_memory.Base.{
  ℕ, ◌+◌, ◌-◌, ◌≤◌, ◌<◌, ◌≡◌, refl, ◌∙◌, List, ◌∷◌, ◌++◌, arith, length, length-append, head_or,
  head_or-append, last_or-append, head_or_mono,
}
use netkeep80_persist_memory.Traits.{
  Traits, no_block, header_granules, add_index, sub_index, add_index-eq, sub_index-eq,
}
use netkeep80_persist_memory.Node.{is_free}
use netkeep80_persist_memory.Memory.{Body, body, Arena}
use netkeep80_persist_memory.FreeTree.Policy.{FreeBlockTreePolicy}
use netkeep80_persist_memory.Layout.{
  IsTraits, bodies, Chain, IsHeap, IsChained, total_granules, sum_of, free_of, allocated_of,
  used_of,
}
use netkeep80_persist_memory.Layout.Chain.{Chain-length}
use netkeep80_persist_memory.Layout.Totals.{used-le, sum_of-free-allocated}
use netkeep80_persist_memory.Layout.Splice.{with_new_block, free_body}
use netkeep80_persist_memory.Layout.Splice
use netkeep80_persist_memory.Allocator.{split_block, count_allocated}
use netkeep80_persist_memory.Allocator.Candidate
use netkeep80_persist_memory.Allocator.Candidate.{IsCandidate}
use netkeep80_persist_memory.Allocator.Effect.{
  one_more, SameHeader, split_block-bodies, split_block-header,
}

module _ {at : Traits} (t : IsTraits at) (a : Arena) (pre : List ℕ) (i data_gran : ℕ)
    (post : List ℕ) (c : IsCandidate at a pre i data_gran post) (ft : FreeBlockTreePolicy)
    (splits : header_granules at + data_gran + (header_granules at + 1) ≤ (a.blocks i).weight) where
  abbrev total : ℕ
  total = total_granules at a

  abbrev new : ℕ
  new = i + (header_granules at + data_gran)

  abbrev given_body : ℕ → Body
  given_body n = Candidate.given_body t a pre i data_gran post c n

  in_range :
      (i + (a.blocks i).weight ≤ at.index_max)
      × (add_index at (header_granules at) data_gran ≡ header_granules at + data_gran)
      × (add_index at i (header_granules at) ≡ i + header_granules at)
  in_range = Candidate.in_range t a pre i data_gran post c

  end_of : i + (a.blocks i).weight ≡ head_or total post
  end_of = Candidate.end_of t a pre i data_gran post c

  abbrev removed : Arena
  removed = ft.remove a i

  abbrev rest : ℕ
  rest = (a.blocks i).weight - (header_granules at + data_gran)

  new_eq : add_index at i (add_index at (header_granules at) data_gran) ≡ new
  new_eq =
      rw (in_range.1)
        (add_index-eq at i (header_granules at + data_gran) (omega (arith, in_range.0, c.enough)))

  rest_eq : sub_index at (a.blocks i).weight (add_index at (header_granules at) data_gran) ≡ rest
  rest_eq = rw (in_range.1) (
      sub_index-eq at (a.blocks i).weight (header_granules at + data_gran) c.enough
        (omega (arith, in_range.0)))

  next_far : new < (removed.blocks i).next_offset
  next_far = ground (
    arith,
    (ft.remove-SameBodies a i).same_bodies i,
    (Candidate.here t a pre i data_gran post c).0.next,
    end_of,
    head_or_mono post total (no_block at) c.heap.chained.fits,
  )

  split_bodies :
      (j : ℕ)
      → j < total
      → body ((split_block at ft i data_gran removed).blocks j)
        ≡ with_new_block at i new rest (given_body new) (bodies a) j
  split_bodies j hj = ground (
    arith,
    new_eq,
    rest_eq,
    (ft.remove-SameBodies a i).same_bodies i,
    (ft.remove-SameBodies a i).same_bodies j,
    split_block-bodies at ft removed i data_gran j (omega (arith, new_eq, t.header_pos))
        (omega (arith, next_far)) (omega (arith, next_far, new_eq)),
  )

  split_header :
      SameHeader
        (one_more at (head_or (no_block at) post) new a.header)
        (split_block at ft i data_gran removed).header
  split_header = ground (
    arith,
    new_eq,
    (Candidate.here t a pre i data_gran post c).0.next,
    (ft.remove-SameBodies a i).same_bodies i,
    (ft.remove-SameBodies a i).same_header,
    split_block-header at ft removed i data_gran,
  )

  abbrev result : Arena
  result = count_allocated at data_gran (split_block at ft i data_gran removed)

  new_list_eq : total_granules at result ≡ total
  unfolding count_allocated
  new_list_eq = ground (arith, split_header)

  room_left : new + header_granules at ≤ head_or total post
  room_left = omega (arith, end_of)

  rest_end : new + rest ≡ head_or total post
  rest_end = omega (arith, end_of)

  result_bodies :
      (j : ℕ)
      → j < total
      → bodies result j ≡ with_new_block at i new rest (given_body new) (bodies a) j
  unfolding count_allocated
  result_bodies = split_bodies

  new_chain : Chain at (bodies result) (no_block at) (pre ++ i ∷ new ∷ post) (no_block at) total
  new_chain =
      Splice.Chain-insert t (bodies a) (bodies result) pre post i new rest total (given_body new)
        c.heap.chained.fits c.heap.chained.chain
        (Candidate.given_body-BlockOk t a pre i data_gran post c new new (omega arith)) room_left
        rest_end result_bodies

  split-IsChained : IsChained at result (pre ++ i ∷ new ∷ post)
  unfolding count_allocated
  split-IsChained = record {
    chain = rw new_list_eq new_chain;
    fits = rw new_list_eq (c.heap.chained.fits);
    first = ground (
      arith,
      split_header,
      c.heap.chained.first,
      head_or-append (no_block at) pre (i ∷ new ∷ post),
      head_or-append (no_block at) pre (i ∷ post),
    );
    last = ground (
      arith,
      split_header,
      c.heap.chained.last,
      last_or-append (no_block at) pre (i ∷ new ∷ post),
      last_or-append (no_block at) pre (i ∷ post),
      Splice.last_or_new post (no_block at) total i new
          (Candidate.post_in t a pre i data_gran post c) c.heap.chained.fits,
    );
  }

  new_sum :
      (f : Body → ℕ)
      → ((x : Body) (p : ℕ) → f (record x { prev_offset = p }) ≡ f x)
      → sum_of at f (bodies result) (pre ++ i ∷ new ∷ post) + f (bodies a i)
        ≡ sum_of at f (bodies a) (pre ++ i ∷ post)
          + f (given_body new)
          + f (free_body rest i (head_or (no_block at) post))
  new_sum =
      Splice.sum_of-insert t (bodies a) (bodies result) pre post i new rest total (given_body new)
        c.heap.chained.fits c.heap.chained.chain
        (Candidate.given_body-BlockOk t a pre i data_gran post c new new (omega arith)) room_left
        rest_end result_bodies

  new_frees :
      sum_of at (free_of at) (bodies result) (pre ++ i ∷ new ∷ post)
      ≡ sum_of at (free_of at) (bodies a) (pre ++ i ∷ post)
  unfolding is_free
  new_frees = ground (arith, c.is_free_block, new_sum (free_of at) (λ x p. refl))

  new_allocs :
      sum_of at (allocated_of at) (bodies result) (pre ++ i ∷ new ∷ post)
      ≡ sum_of at (allocated_of at) (bodies a) (pre ++ i ∷ post) + 1
  unfolding is_free
  new_allocs = ground (arith, c.is_free_block, new_sum (allocated_of at) (λ x p. refl))

  new_used :
      sum_of at (used_of at) (bodies result) (pre ++ i ∷ new ∷ post)
      ≡ sum_of at (used_of at) (bodies a) (pre ++ i ∷ post) + header_granules at + data_gran
  unfolding is_free
  new_used = ground (arith, c.is_free_block, new_sum (used_of at) (λ x p. refl))

  new-length : length (pre ++ i ∷ new ∷ post) ≡ length (pre ++ i ∷ post) + 1
  new-length = omega (arith, length-append pre (i ∷ new ∷ post), length-append pre (i ∷ post))

  -- what the counters are to stay below
  new_limits :
      (length (pre ++ i ∷ new ∷ post) ≤ at.index_max)
      × (sum_of at (used_of at) (bodies result) (pre ++ i ∷ new ∷ post) ≤ at.index_max)
  new_limits = omega (
    arith,
    c.heap.chained.fits,
    Chain-length t (bodies result) (no_block at) (pre ++ i ∷ new ∷ post) (no_block at) total
        new_chain,
    used-le t (bodies result) (no_block at) (pre ++ i ∷ new ∷ post) (no_block at) total new_chain,
  )

  old_counts :
      sum_of at (free_of at) (bodies a) (pre ++ i ∷ post)
        + sum_of at (allocated_of at) (bodies a) (pre ++ i ∷ post)
      ≡ length (pre ++ i ∷ post)
  old_counts = sum_of-free-allocated at (bodies a) (pre ++ i ∷ post)

  abbrev old_length : ℕ
  old_length = length (pre ++ i ∷ post)

  abbrev old_frees : ℕ
  old_frees = sum_of at (free_of at) (bodies a) (pre ++ i ∷ post)

  abbrev old_allocs : ℕ
  old_allocs = sum_of at (allocated_of at) (bodies a) (pre ++ i ∷ post)

  abbrev old_used : ℕ
  old_used = sum_of at (used_of at) (bodies a) (pre ++ i ∷ post)

  -- no counter wraps
  block_count_step : add_index at old_length 1 ≡ old_length + 1
  block_count_step = add_index-eq at old_length 1 (omega (arith, new_limits, new-length))

  free_count_step : sub_index at (add_index at old_frees 1) 1 ≡ old_frees
  free_count_step =
      let small : old_frees + 1 ≤ at.index_max =
        omega (arith, new_limits, new-length, old_counts) in
      rw (add_index-eq at old_frees 1 small)
        (sub_index-eq at (old_frees + 1) 1 (omega arith) small ∙ omega arith)

  alloc_count_step : add_index at old_allocs 1 ≡ old_allocs + 1
  alloc_count_step =
      add_index-eq at old_allocs 1 (omega (arith, new_limits, new-length, old_counts))

  used_size_step :
      add_index at (add_index at old_used (header_granules at)) data_gran
      ≡ old_used + header_granules at + data_gran
  used_size_step =
      rw (add_index-eq at old_used (header_granules at) (omega (arith, new_limits, new_used))) (
        add_index-eq at (old_used + header_granules at) data_gran
          (omega (arith, new_limits, new_used)))

  pub split-IsHeap : IsHeap at result (pre ++ i ∷ new ∷ post)
  unfolding count_allocated
  split-IsHeap = record {
    chained = split-IsChained;
    counted = record {
      blocks = ground (arith, split_header, c.heap.counted.blocks, block_count_step, new-length);
      frees = ground (arith, split_header, c.heap.counted.frees, free_count_step, new_frees);
      allocs = ground (arith, split_header, c.heap.counted.allocs, alloc_count_step, new_allocs);
      used = ground (arith, split_header, c.heap.counted.used, used_size_step, new_used);
    };
  }
