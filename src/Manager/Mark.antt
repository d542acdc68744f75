-- ===== src/Manager/Mark.antt =====
-- include/pmm/persist_memory_manager.h, `deallocate_unlocked`: the arena between the marking of the
-- block and `coalesce`.
use netkeep80_persist_memory.Base.{
  ℕ, ◌+◌, ◌-◌, ◌≤◌, ◌<◌, ◌≡◌, refl, true, false, inl, inr, List, ◌∷◌, ◌++◌, arith, ◌==◌, eq_refl,
  head_or, last_or, Bool-cases, if◌then◌else◌,
}
use netkeep80_persist_memory.Traits.{Traits, no_block, header_granules, add_index-eq, sub_index-eq}
use netkeep80_persist_memory.Node.{free, is_free, is_allocated}
use netkeep80_persist_memory.Memory.{Body, Arena}
use netkeep80_persist_memory.BlockState.AllocatedBlock.{mark_as_free}
use netkeep80_persist_memory.Validation.{physical_block_total_granules}
use netkeep80_persist_memory.Layout.{
  IsTraits, bodies, BlockOk, Chain, IsHeap, total_granules, sum_of, free_of, allocated_of, used_of,
}
use netkeep80_persist_memory.Layout.Chain.{Chain-back, Chain-length}
use netkeep80_persist_memory.Layout.Totals.{used-le, sum_of-free-allocated}
use netkeep80_persist_memory.Layout.Replace
use netkeep80_persist_memory.Allocator.Silent.{physical_block_total_granules-Chain}
use netkeep80_persist_memory.Manager.{mark_released}

module _ {at : Traits} (t : IsTraits at) (a : Arena) (pre : List ℕ) (i : ℕ) (post : List ℕ)
    (h : IsHeap at a (pre ++ i ∷ post)) (busy : is_free (a.blocks i).node_type ≡ false) where
  abbrev total : ℕ
  total = total_granules at a

  abbrev size_of : ℕ
  size_of = physical_block_total_granules at a.header i (a.blocks i)

  abbrev freed_body : Body
  freed_body = record (bodies a i) { weight = size_of; root_offset = 0; node_type = free }

  here : Chain at (bodies a) (last_or (no_block at) pre) (i ∷ post) (no_block at) total
  here = Chain-back at (bodies a) (no_block at) pre (i ∷ post) (no_block at) total h.chained.chain

  freed_body-BlockOk :
      BlockOk at freed_body
        (last_or (no_block at) pre)
        i
        (head_or (no_block at) post)
        (head_or total post)
  unfolding is_free is_allocated
  freed_body-BlockOk = record {
    prev = here.0.prev;
    next = here.0.next;
    room = here.0.room;
    known = refl;
    sized = (
      physical_block_total_granules-Chain t a (last_or (no_block at) pre) i post here
          h.chained.fits,
      refl,
    );
  }

  changed :
      (j : ℕ)
      → j < total
      → bodies (mark_released at i a) j ≡ (if j == i then freed_body else bodies a j)
  unfolding mark_released mark_as_free
  changed j lt = elim (Bool-cases (j == i)) [ inl e ↦ ground arith | inr e ↦ ground arith ]

  chain_after :
      Chain at (bodies (mark_released at i a)) (no_block at) (pre ++ i ∷ post) (no_block at) total
  chain_after =
      Replace.Chain-replace t (bodies a) (bodies (mark_released at i a)) pre post i total freed_body
        h.chained.chain freed_body-BlockOk changed

  sum_after :
      (f : Body → ℕ)
      → sum_of at f (bodies (mark_released at i a)) (pre ++ i ∷ post) + f (bodies a i)
        ≡ sum_of at f (bodies a) (pre ++ i ∷ post) + f freed_body
  sum_after =
      Replace.sum_of-replace t (bodies a) (bodies (mark_released at i a)) pre post i total
        freed_body h.chained.chain freed_body-BlockOk changed

  -- no counter wraps
  in_range :
      (1 ≤ a.header.alloc_count)
      × (a.header.alloc_count ≤ at.index_max)
      × (a.header.free_count + 1 ≤ at.index_max)
      × ((a.blocks i).weight ≤ a.header.used_size)
      × (a.header.used_size ≤ at.index_max)
  unfolding is_free
  in_range =
      let len =
        Chain-length t (bodies a) (no_block at) (pre ++ i ∷ post) (no_block at) total
          h.chained.chain in
      let used =
        used-le t (bodies a) (no_block at) (pre ++ i ∷ post) (no_block at) total h.chained.chain in
      let split = sum_of-free-allocated at (bodies a) (pre ++ i ∷ post) in
      let one : allocated_of at (bodies a i) ≡ 1 = rw busy refl in
      let weighs : used_of at (bodies a i) ≡ header_granules at + (a.blocks i).weight =
        rw busy refl in
      let allocs = sum_after (allocated_of at) in
      let uses = sum_after (used_of at) in
      let n = h.counted in
      (
        omega (arith, allocs, one, n.allocs),
        omega (arith, split, len, n.allocs, h.chained.fits),
        omega (arith, split, len, n.frees, n.allocs, h.chained.fits, allocs, one),
        omega (arith, uses, weighs, n.used),
        omega (arith, used, n.used, h.chained.fits),
      )

  pub mark_released-IsHeap : IsHeap at (mark_released at i a) (pre ++ i ∷ post)
  unfolding mark_released is_free
  mark_released-IsHeap =
      let b = mark_released at i a in
      let n = h.counted in
      let was_free : free_of at (bodies a i) ≡ 0 = rw busy refl in
      let was_allocated : allocated_of at (bodies a i) ≡ 1 = rw busy refl in
      let was_used : used_of at (bodies a i) ≡ header_granules at + (a.blocks i).weight =
        rw busy refl in
      let frees : b.header.free_count ≡ a.header.free_count + 1 =
        add_index-eq at a.header.free_count 1 (omega (arith, in_range)) in
      let allocs : b.header.alloc_count ≡ a.header.alloc_count - 1 =
        sub_index-eq at a.header.alloc_count 1 (omega (arith, in_range))
          (omega (arith, in_range)) in
      let uses : b.header.used_size ≡ a.header.used_size - (a.blocks i).weight = ground (
        arith,
        sub_index-eq at a.header.used_size (a.blocks i).weight (omega (arith, in_range))
            (omega (arith, in_range)),
        in_range,
      ) in
      record {
        chained = record {
          chain = chain_after;
          fits = h.chained.fits;
          first = h.chained.first;
          last = h.chained.last;
        };
        counted = record {
          blocks = n.blocks;
          frees = omega (arith, frees, n.frees, sum_after (free_of at), was_free);
          allocs = omega (arith, allocs, n.allocs, sum_after (allocated_of at), was_allocated);
          used = omega (arith, uses, n.used, sum_after (used_of at), was_used, in_range);
        };
      }

  pub mark_released-is_free : is_free ((mark_released at i a).blocks i).node_type ≡ true
  unfolding mark_released mark_as_free is_free
  mark_released-is_free = rw (eq_refl i) refl
