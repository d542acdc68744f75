-- ===== src/Allocator/Whole.antt =====
-- include/pmm/allocator_policy.h, the branch of `allocate_from_block` that does not split: the block is
-- handed out whole, and what is more than was asked for stays at its end.
use netkeep80_persist_memory.Base.{
  ℕ, ◌+◌, ◌-◌, ◌≤◌, ◌<◌, ◌≡◌, List, ◌∷◌, ◌++◌, arith, ◌==◌, head_or, last_or, if◌then◌else◌,
}
use netkeep80_persist_memory.Traits.{
  Traits, no_block, add_index, sub_index, add_index-eq, sub_index-eq,
}
use netkeep80_persist_memory.Node.{is_free}
use netkeep80_persist_memory.Memory.{Body, Arena, modify}
use netkeep80_persist_memory.FreeTree.Policy.{FreeBlockTreePolicy}
use netkeep80_persist_memory.Layout.{
  IsTraits, bodies, BlockOk, Chain, IsHeap, total_granules, sum_of, free_of, allocated_of, used_of,
}
use netkeep80_persist_memory.Layout.Chain.{Chain-length}
use netkeep80_persist_memory.Layout.Totals.{used-le, sum_of-free-allocated}
use netkeep80_persist_memory.Layout.Replace
use netkeep80_persist_memory.BlockState.{mark_as_allocated}
use netkeep80_persist_memory.Allocator.{count_allocated}
use netkeep80_persist_memory.Allocator.Candidate
use netkeep80_persist_memory.Allocator.Candidate.{IsCandidate}

module _ {at : Traits} (t : IsTraits at) (a : Arena) (pre : List ℕ) (i data_gran : ℕ)
    (post : List ℕ) (c : IsCandidate at a pre i data_gran post) (ft : FreeBlockTreePolicy) where
  abbrev total : ℕ
  total = total_granules at a

  abbrev given_body : ℕ → Body
  given_body n = Candidate.given_body t a pre i data_gran post c n

  abbrev result : Arena
  result =
      count_allocated at data_gran (modify i (mark_as_allocated at data_gran i) (ft.remove a i))

  abbrev layout : List ℕ
  layout = pre ++ i ∷ post

  whole_header : result.header ≡ record (a.header) {
    free_tree_root = result.header.free_tree_root;
    alloc_count = add_index at a.header.alloc_count 1;
    free_count = sub_index at a.header.free_count 1;
    used_size = add_index at a.header.used_size data_gran;
  }
  unfolding count_allocated
  whole_header = ground (arith, (ft.remove-SameBodies a i).same_header)

  result_bodies :
      (j : ℕ)
      → j < total
      → bodies result j ≡ (if j == i then given_body (head_or (no_block at) post) else bodies a j)
  unfolding count_allocated mark_as_allocated
  result_bodies j hj = ground (
    arith,
    (Candidate.here t a pre i data_gran post c).0.next,
    (ft.remove-SameBodies a i).same_bodies i,
    (ft.remove-SameBodies a i).same_bodies j,
  )

  given_ok :
      BlockOk at
        (given_body (head_or (no_block at) post))
        (last_or (no_block at) pre)
        i
        (head_or (no_block at) post)
        (head_or total post)
  given_ok =
      Candidate.given_body-BlockOk t a pre i data_gran post c (head_or (no_block at) post)
        (head_or total post) (omega (arith, c.enough, Candidate.end_of t a pre i data_gran post c))

  new_chain : Chain at (bodies result) (no_block at) layout (no_block at) total
  new_chain =
      Replace.Chain-replace t (bodies a) (bodies result) pre post i total
        (given_body (head_or (no_block at) post)) c.heap.chained.chain given_ok result_bodies

  new_sum :
      (f : Body → ℕ)
      → sum_of at f (bodies result) layout + f (bodies a i)
        ≡ sum_of at f (bodies a) layout + f (given_body (head_or (no_block at) post))
  new_sum =
      Replace.sum_of-replace t (bodies a) (bodies result) pre post i total
        (given_body (head_or (no_block at) post)) c.heap.chained.chain given_ok result_bodies

  abbrev old_frees : ℕ
  old_frees = sum_of at (free_of at) (bodies a) layout

  abbrev old_allocs : ℕ
  old_allocs = sum_of at (allocated_of at) (bodies a) layout

  abbrev old_used : ℕ
  old_used = sum_of at (used_of at) (bodies a) layout

  new_frees : sum_of at (free_of at) (bodies result) layout + 1 ≡ old_frees
  unfolding is_free
  new_frees = ground (arith, c.is_free_block, new_sum (free_of at))

  new_allocs : sum_of at (allocated_of at) (bodies result) layout ≡ old_allocs + 1
  unfolding is_free
  new_allocs = ground (arith, c.is_free_block, new_sum (allocated_of at))

  new_used : sum_of at (used_of at) (bodies result) layout ≡ old_used + data_gran
  unfolding is_free
  new_used = ground (arith, c.is_free_block, new_sum (used_of at))

  -- what the counters are to stay below
  limits :
      (old_frees + old_allocs ≤ at.index_max)
      × (sum_of at (used_of at) (bodies result) layout ≤ at.index_max)
  limits = omega (
    arith,
    c.heap.chained.fits,
    sum_of-free-allocated at (bodies a) layout,
    Chain-length t (bodies a) (no_block at) layout (no_block at) total c.heap.chained.chain,
    used-le t (bodies result) (no_block at) layout (no_block at) total new_chain,
  )

  free_count_step : sub_index at old_frees 1 ≡ old_frees - 1
  free_count_step = sub_index-eq at old_frees 1 (omega (arith, new_frees)) (omega (arith, limits))

  alloc_count_step : add_index at old_allocs 1 ≡ old_allocs + 1
  alloc_count_step = add_index-eq at old_allocs 1 (omega (arith, limits, new_frees))

  used_size_step : add_index at old_used data_gran ≡ old_used + data_gran
  used_size_step = add_index-eq at old_used data_gran (omega (arith, limits, new_used))

  same_total : total_granules at result ≡ total
  same_total = ground (arith, whole_header)

  pub whole-IsHeap : IsHeap at result layout
  whole-IsHeap = record {
    chained = record {
      chain = rw same_total new_chain;
      fits = rw same_total (c.heap.chained.fits);
      first = ground (arith, whole_header, c.heap.chained.first);
      last = ground (arith, whole_header, c.heap.chained.last);
    };
    counted = record {
      blocks = ground (arith, whole_header, c.heap.counted.blocks);
      frees = ground (arith, whole_header, c.heap.counted.frees, free_count_step, new_frees);
      allocs = ground (arith, whole_header, c.heap.counted.allocs, alloc_count_step, new_allocs);
      used = ground (arith, whole_header, c.heap.counted.used, used_size_step, new_used);
    };
  }
