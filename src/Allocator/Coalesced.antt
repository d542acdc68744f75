-- ===== src/Allocator/Coalesced.antt =====
-- include/pmm/allocator_policy.h, `coalesce`: the layout that it leaves of a well-formed arena.
use mathlib.Core.List.{append_assoc}
use mathlib.Core.Path.{subst}
use netkeep80_persist_memory.Base.{
  ℕ, ◌<◌, ◌≡◌, refl, sym, ap, true, inl, inr, List, [], ◌∷◌, ◌++◌, arith, last_or, Bool-cases,
  snoc_cases, if◌then◌else◌,
}
use netkeep80_persist_memory.Traits.{Traits, no_block}
use netkeep80_persist_memory.Node.{is_free, eq_free}
use netkeep80_persist_memory.Memory.{Arena, modify}
use netkeep80_persist_memory.BlockState.{finalize_coalesce}
use netkeep80_persist_memory.FreeTree.Policy.{FreeBlockTreePolicy}
use netkeep80_persist_memory.Layout.{IsTraits, Bodies, bodies, Chain, IsHeap, total_granules}
use netkeep80_persist_memory.Layout.Chain.{Chain-back, Chain-length}
use netkeep80_persist_memory.Layout.Same.{IsHeap-same}
use netkeep80_persist_memory.Allocator.{coalesce_next, coalesce_prev, coalesce}
use netkeep80_persist_memory.Allocator.Coalesce
use netkeep80_persist_memory.Allocator.Merging.{IsFreePair}

-- the blocks behind a free block, the first of which it takes in if it is free
pub back_after : Bodies → List ℕ → List ℕ
back_after m [] = []
back_after m (x ∷ r) = if is_free (m x).node_type then r else x ∷ r

-- the blocks before a free block `i` and itself, unless the last before it is free and takes it in
pub front_after : Bodies → List ℕ → ℕ → List ℕ
front_after m [] i = i ∷ []
front_after m (p ∷ []) i = if is_free (m p).node_type then p ∷ [] else p ∷ i ∷ []
front_after m (p ∷ q ∷ r) i = p ∷ front_after m (q ∷ r) i

front_after-snoc :
    (m : Bodies) (q : List ℕ) (p i : ℕ)
    → front_after m (q ++ p ∷ []) i ≡ q ++ (if is_free (m p).node_type then p ∷ [] else p ∷ i ∷ [])
unfolding front_after
front_after-snoc m [] p i = refl
front_after-snoc m (x ∷ []) p i = refl
front_after-snoc m (x ∷ y ∷ r) p i = ap (λ zs. x ∷ zs) (front_after-snoc m (y ∷ r) p i)

module _ {at : Traits} (t : IsTraits at) (ft : FreeBlockTreePolicy) where
  -- the end of `coalesce`
  finish-IsHeap :
      (a : Arena) (k : ℕ) (xs : List ℕ)
      → IsHeap at a xs
      → is_free (a.blocks k).node_type ≡ true
      → IsHeap at (ft.insert (modify k (finalize_coalesce at) a) k) xs
  unfolding finalize_coalesce
  finish-IsHeap a k xs h f =
      let before = modify k (finalize_coalesce at) a in
      IsHeap-same at a (ft.insert before k) xs
        (λ j.
          ground (
            arith,
            (ft.insert-SameBodies before k).same_bodies j,
            eq_free (a.blocks k).node_type f,
          ))
        (ground (arith, (ft.insert-SameBodies before k).same_header)) h

  module _ (a : Arena) (pre : List ℕ) (i : ℕ) (post : List ℕ)
      (h : IsHeap at a (pre ++ i ∷ post)) where
    here :
        Chain at
          (bodies a)
          (last_or (no_block at) pre)
          (i ∷ post)
          (no_block at)
          (total_granules at a)
    here =
        Chain-back at (bodies a) (no_block at) pre (i ∷ post) (no_block at) (total_granules at a)
          h.chained.chain

    below : i < at.index_max
    below = omega (
      arith,
      Chain-length t (bodies a) (last_or (no_block at) pre) (i ∷ post) (no_block at)
          (total_granules at a) here,
      h.chained.fits,
    )

  -- what the first half leaves
  record NextDone (a b : Arena) (pre : List ℕ) (i : ℕ) (post : List ℕ) : Type 0 where
    heap : IsHeap at b (pre ++ i ∷ back_after (bodies a) post)
    still_free : is_free (b.blocks i).node_type ≡ true
    front_same : (j : ℕ) → j < i → bodies b j ≡ bodies a j

  coalesce_next-NextDone :
      (a : Arena) (pre : List ℕ) (i : ℕ) (post : List ℕ)
      → IsHeap at a (pre ++ i ∷ post)
      → is_free (a.blocks i).node_type ≡ true
      → NextDone a (coalesce_next at ft i a) pre i post
  unfolding coalesce_next back_after
  coalesce_next-NextDone a pre i [] h f =
      let stays : coalesce_next at ft i a ≡ a = ground (arith, (here a pre i [] h).0.next) in
      rw stays (record { heap = h; still_free = f; front_same = λ j lt. refl })
  coalesce_next-NextDone a pre i (x ∷ r) h f =
      let next_eq : (a.blocks i).next_offset ≡ x = (here a pre i (x ∷ r) h).0.next in
      let is_block : x < at.index_max = omega (
        arith,
        Chain-length t (bodies a) i (x ∷ r) (no_block at) (total_granules at a)
            (here a pre i (x ∷ r) h).1,
        h.chained.fits,
      ) in
      elim (Bool-cases (is_free (a.blocks x).node_type)) [
        | inl free ↦
            let pair : IsFreePair at a pre i x r = record {
              heap = h;
              first_free = f;
              second_free = free;
            } in
            let merges : coalesce_next at ft i a ≡ Coalesce.merged_next t ft a pre i x r pair =
              ground (arith, next_eq, free) in
            rw merges (record {
              heap = rw free (Coalesce.merged_next-IsHeap t ft a pre i x r pair);
              still_free = Coalesce.merged_next-free t ft a pre i x r pair;
              front_same = Coalesce.merged_next-front t ft a pre i x r pair;
            })
        | inr busy ↦
            let stays : coalesce_next at ft i a ≡ a = ground (arith, next_eq, busy) in
            rw stays (record { heap = rw busy h; still_free = f; front_same = λ j lt. refl })
      ]

  -- the second half, by what stands before
  coalesce_prev-first :
      (a : Arena) (i : ℕ) (post : List ℕ)
      → IsHeap at a (i ∷ post)
      → is_free (a.blocks i).node_type ≡ true
      → IsHeap at (coalesce_prev at ft i a) (i ∷ post)
  unfolding coalesce_prev
  coalesce_prev-first a i post h f =
      let stays : coalesce_prev at ft i a ≡ ft.insert (modify i (finalize_coalesce at) a) i =
        ground (arith, (here a [] i post h).0.prev) in
      rw stays (finish-IsHeap a i (i ∷ post) h f)

  coalesce_prev-last :
      (a : Arena) (q : List ℕ) (p i : ℕ) (post : List ℕ)
      → IsHeap at a (q ++ p ∷ i ∷ post)
      → is_free (a.blocks i).node_type ≡ true
      → IsHeap at
          (coalesce_prev at ft i a)
          (q ++ ((if is_free (a.blocks p).node_type then p ∷ [] else p ∷ i ∷ []) ++ post))
  unfolding coalesce_prev
  coalesce_prev-last a q p i post h f =
      let prev_eq : (a.blocks i).prev_offset ≡ p = (here a q p (i ∷ post) h).1.0.prev in
      let is_block : p < at.index_max = below a q p (i ∷ post) h in
      elim (Bool-cases (is_free (a.blocks p).node_type)) [
        | inl free ↦
            let pair : IsFreePair at a q p i post = record {
              heap = h;
              first_free = free;
              second_free = f;
            } in
            let b = Coalesce.merged_prev t ft a q p i post pair in
            let merges : coalesce_prev at ft i a ≡ ft.insert (modify p (finalize_coalesce at) b) p =
              ground (arith, prev_eq, free) in
            rw (merges, free)
              (finish-IsHeap b p (q ++ p ∷ post)
                (Coalesce.merged_prev-IsHeap t ft a q p i post pair)
                (Coalesce.merged_prev-free t ft a q p i post pair))
        | inr busy ↦
            let stays : coalesce_prev at ft i a ≡ ft.insert (modify i (finalize_coalesce at) a) i =
              ground (arith, prev_eq, busy) in
            rw (stays, busy) (finish-IsHeap a i (q ++ p ∷ i ∷ post) h f)
      ]

  -- the result of `coalesce`, and what it rests on
  abbrev Coalesces : Arena → ℕ → List ℕ → List ℕ → Type 0
  Coalesces a i post pre =
      IsHeap at a (pre ++ i ∷ post)
      → IsHeap at (coalesce at ft a i) (front_after (bodies a) pre i ++ back_after (bodies a) post)

  coalesce-first :
      (a : Arena) (i : ℕ) (post : List ℕ)
      → is_free (a.blocks i).node_type ≡ true
      → Coalesces a i post []
  unfolding coalesce front_after
  coalesce-first a i post f h =
      let done = coalesce_next-NextDone a [] i post h f in
      coalesce_prev-first (coalesce_next at ft i a) i (back_after (bodies a) post) done.heap
        done.still_free

  coalesce-last :
      (a : Arena) (q : List ℕ) (p i : ℕ) (post : List ℕ)
      → is_free (a.blocks i).node_type ≡ true
      → Coalesces a i post (q ++ p ∷ [])
  unfolding coalesce
  coalesce-last a q p i post f h =
      let done = coalesce_next-NextDone a (q ++ p ∷ []) i post h f in
      let b = coalesce_next at ft i a in
      let rest = back_after (bodies a) post in
      let before : p < i = omega (
        arith,
        (here a q p (i ∷ post) (subst (IsHeap at a) (append_assoc q (p ∷ []) (i ∷ post)) h)).0.room,
        t.header_pos,
      ) in
      let joined =
        coalesce_prev-last b q p i rest
          (subst (IsHeap at b) (append_assoc q (p ∷ []) (i ∷ rest)) done.heap) done.still_free in
      let same_type : (b.blocks p).node_type ≡ (a.blocks p).node_type =
        ground (arith, done.front_same p before) in
      rw (front_after-snoc, append_assoc, ← same_type) joined

  -- Where block `i` is free, `coalesce` leaves a well-formed arena well formed, with the blocks that the
  -- list names: a free block at either side of `i` has become one block with it.
  pub coalesce-IsHeap :
      (a : Arena) (pre : List ℕ) (i : ℕ) (post : List ℕ)
      → is_free (a.blocks i).node_type ≡ true
      → IsHeap at a (pre ++ i ∷ post)
      → IsHeap at (coalesce at ft a i) (front_after (bodies a) pre i ++ back_after (bodies a) post)
  coalesce-IsHeap a pre i post f = elim (snoc_cases pre) [
    | inl e ↦ subst (Coalesces a i post) (sym e) (coalesce-first a i post f)
    | inr (q, p, e) ↦ subst (Coalesces a i post) (sym e) (coalesce-last a q p i post f)
  ]
