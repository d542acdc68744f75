-- ===== src/Image/Repaired.antt =====
-- include/pmm/persist_memory_manager.h, `load`: what it repairs.
use netkeep80_persist_memory.Base.{
  Bool, false, ℕ, ◌≤◌, ◌≡◌, sym, ap, ◌∙◌, List, arith, head_or, last_or, length,
}
use netkeep80_persist_memory.Traits.{Traits, no_block, size_max}
use netkeep80_persist_memory.Memory.{Body, ManagerHeader, Arena, with_header}
use netkeep80_persist_memory.FreeTree.Policy.{FreeBlockTreePolicy}
use netkeep80_persist_memory.Layout.{
  IsTraits, Bodies, bodies, Chain, IsHeap, total_granules, sum_of, free_of, allocated_of, used_of,
}
use netkeep80_persist_memory.Layout.Settled.{
  AllOn, AllOn-map, AgreesOn, Chain-AgreesOn, sum_of-AgreesOn,
}
use netkeep80_persist_memory.Allocator.Repair.{
  Counters, no_counters, repair_linked_list, recompute_counters, rebuild_free_tree,
}
use netkeep80_persist_memory.Allocator.Counting.{counted_on}
use netkeep80_persist_memory.Allocator.Relinked.{
  IsRepairable, IsRelinked, repair_linked_list-IsRelinked,
}
use netkeep80_persist_memory.Allocator.Rebuilt.{rootless, rebuild_free_tree-AgreesOn}
use netkeep80_persist_memory.Allocator.Recounted.{arena_of, accumulate_counters-IsRepairable}
use netkeep80_persist_memory.Image.{repair_arena, image_version_requires_migration}

-- a header that says of the chain `m` what is so
record IsHeaderOf (at : Traits) (m : Bodies) (xs : List ℕ) (total : ℕ) (h : ManagerHeader)
    : Type 0 where
  pub size : h.total_size ≡ total
  pub first : h.first_block_offset ≡ head_or (no_block at) xs
  pub last : h.last_block_offset ≡ last_or (no_block at) xs
  pub blocks : h.block_count ≡ length xs
  pub frees : h.free_count ≡ sum_of at (free_of at) m xs
  pub allocs : h.alloc_count ≡ sum_of at (allocated_of at) m xs
  pub used : h.used_size ≡ sum_of at (used_of at) m xs

IsHeap-AgreesOn :
    (at : Traits) (b a : Arena) (xs : List ℕ)
    → IsHeap at b xs
    → AgreesOn (bodies b) (bodies a) xs
    → IsHeaderOf at (bodies b) xs b.header.total_size a.header
    → IsHeap at a xs
IsHeap-AgreesOn at b a xs h same k = record {
  chained = record {
    chain = rw (k.size) (
        Chain-AgreesOn at (bodies b) (bodies a) (no_block at) xs (no_block at) (total_granules at b)
          same h.chained.chain);
    fits = rw (k.size) (h.chained.fits);
    first = k.first;
    last = k.last;
  };
  counted = record {
    blocks = k.blocks;
    frees = k.frees ∙ sym (sum_of-AgreesOn at (bodies b) (bodies a) (free_of at) xs same);
    allocs = k.allocs ∙ sym (sum_of-AgreesOn at (bodies b) (bodies a) (allocated_of at) xs same);
    used = k.used ∙ sym (sum_of-AgreesOn at (bodies b) (bodies a) (used_of at) xs same);
  };
}

-- a field of two headers that agree
field : {h k : ManagerHeader} (f : ManagerHeader → ℕ) → h ≡ k → f h ≡ f k
field f e = ap f e

module _ {at : Traits} (t : IsTraits at) (m : Bodies) (xs : List ℕ) where
  -- an arena with the links that lead on of the chain `m`, and damaged bodies
  record IsDamaged (R : ℕ → Body → Type 0) (a : Arena) : Type 0 where
    pub chain : Chain at m (no_block at) xs (no_block at) (total_granules at a)
    pub fits : total_granules at a ≤ at.index_max
    pub first : a.header.first_block_offset ≡ head_or (no_block at) xs
    pub small : a.header.total_size ≤ size_max
    pub damage : AllOn R (bodies a) xs

  -- a change of the other fields of the header, and of the bodies
  IsDamaged-moved :
      (R Q : ℕ → Body → Type 0) (a a' : Arena)
      → a'.header.total_size ≡ a.header.total_size
      → a'.header.first_block_offset ≡ a.header.first_block_offset
      → AllOn Q (bodies a') xs
      → IsDamaged R a
      → IsDamaged Q a'
  IsDamaged-moved R Q a a' same_size same_first damage d = record {
    chain = rw same_size (d.chain);
    fits = rw same_size (d.fits);
    first = same_first ∙ d.first;
    small = rw same_size (d.small);
    damage = damage;
  }

  IsRelinked-passes :
      (a : Arena)
      → IsDamaged (λ i. IsRepairable (m i)) a
      → IsDamaged (λ i. IsRelinked (m i)) (repair_linked_list at a)
        × ((repair_linked_list at a).header ≡ a.header)
  IsRelinked-passes a d =
      let linked =
        repair_linked_list-IsRelinked t m a xs d.chain d.fits d.first d.small d.damage 0 in
      (
        IsDamaged-moved (λ i. IsRepairable (m i)) (λ i. IsRelinked (m i)) a
            (repair_linked_list at a) (ap (λ (h : ManagerHeader). h.total_size) linked.2)
            (ap (λ (h : ManagerHeader). h.first_block_offset) linked.2) linked.0 d,
        linked.2,
      )

  abbrev counters_of : Arena → Counters
  counters_of a = counted_on at (arena_of m a) no_counters xs

  -- what the counting pass writes
  abbrev recounted : Counters → ManagerHeader → ManagerHeader
  recounted c h = record h {
    block_count = c.block_count;
    free_count = c.free_count;
    alloc_count = c.alloc_count;
    used_size = c.used_gran;
  }

  counted_pass :
      (a : Arena)
      → IsDamaged (λ i. IsRelinked (m i)) a
      → IsDamaged (λ i. IsRelinked (m i)) (recompute_counters at a)
        × ((recompute_counters at a).header ≡ recounted (counters_of a) a.header)
  unfolding recompute_counters
  counted_pass a d =
      let counted = accumulate_counters-IsRepairable t m a xs d.chain d.fits d.first d.small (
        AllOn-map {R = λ i. IsRelinked (m i)} {Q = λ i. IsRepairable (m i)} (bodies a) xs
          (λ i b h. h.repairable) d.damage) in
      (
        record {
          chain = d.chain;
          fits = d.fits;
          first = d.first;
          small = d.small;
          damage = d.damage;
        },
        ap (λ (c : Bool × Counters). recounted c.1 a.header) counted,
      )

  rebuilt_pass :
      (ft : FreeBlockTreePolicy) (a : Arena)
      → IsDamaged (λ i. IsRelinked (m i)) a
      → AgreesOn m (bodies (rebuild_free_tree at ft a)) xs
        × (rootless (rebuild_free_tree at ft a).header
            ≡ rootless (record (a.header) { last_block_offset = last_or (no_block at) xs }))
  rebuilt_pass ft a d =
      rebuild_free_tree-AgreesOn t ft m a xs d.chain d.fits d.first d.small d.damage

module _ {at : Traits} (t : IsTraits at) (ft : FreeBlockTreePolicy) (b a : Arena) (xs : List ℕ)
    (h : IsHeap at b xs) (wide : b.header.total_size ≤ size_max)
    (same_size : a.header.total_size ≡ b.header.total_size)
    (same_first : a.header.first_block_offset ≡ b.header.first_block_offset)
    (damage : AllOn (λ i. IsRepairable (bodies b i)) (bodies a) xs) where
  prepared : Arena
  prepared = with_header (λ h. record h { owns_memory = false; prev_total_size = 0 }) a

  -- The arena `b` is well formed and its size is a `size_t`, and `a` is `b` after damage: its size and its
  -- first block are those of `b`, and so are, for every block of the layout, the link that leads on, the
  -- type and, in use, the size of the data. All else of it may be lost: the links back, the owners, the
  -- weights of free blocks, the tree, the counters and the last block. Then what `load` makes of `a` is
  -- well formed again, and every block has the body that it has in `b`.
  pub repair_arena-IsHeap :
      IsHeap at (repair_arena at ft a) xs × AgreesOn (bodies b) (bodies (repair_arena at ft a)) xs
  unfolding repair_arena image_version_requires_migration prepared
  repair_arena-IsHeap =
      let m : Bodies = bodies b in
      let d : IsDamaged t m xs (λ i. IsRepairable (m i)) prepared = record {
        chain = rw same_size (h.chained.chain);
        fits = rw same_size (h.chained.fits);
        first = same_first ∙ h.chained.first;
        small = rw same_size wide;
        damage = damage;
      } in
      let first = IsRelinked-passes t m xs prepared d in
      let second = counted_pass t m xs (repair_linked_list at prepared) first.0 in
      let third =
        rebuilt_pass t m xs ft (recompute_counters at (repair_linked_list at prepared)) second.0 in
      let header : IsHeaderOf at m xs b.header.total_size (repair_arena at ft a).header = record {
        size =
            field (λ h. h.total_size) third.1
            ∙ field (λ h. h.total_size) second.1
            ∙ field (λ h. h.total_size) first.1
            ∙ same_size;
        first =
            field (λ h. h.first_block_offset) third.1
            ∙ field (λ h. h.first_block_offset) second.1
            ∙ field (λ h. h.first_block_offset) first.1
            ∙ d.first;
        last = field (λ h. h.last_block_offset) third.1;
        blocks =
            field (λ h. h.block_count) third.1 ∙ field (λ h. h.block_count) second.1 ∙ omega arith;
        frees =
            field (λ h. h.free_count) third.1 ∙ field (λ h. h.free_count) second.1 ∙ omega arith;
        allocs =
            field (λ h. h.alloc_count) third.1 ∙ field (λ h. h.alloc_count) second.1 ∙ omega arith;
        used = field (λ h. h.used_size) third.1 ∙ field (λ h. h.used_size) second.1 ∙ omega arith;
      } in
      (IsHeap-AgreesOn at b (repair_arena at ft a) xs h third.0 header, third.0)
