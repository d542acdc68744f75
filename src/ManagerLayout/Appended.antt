-- ===== src/ManagerLayout/Appended.antt =====
-- include/pmm/layout.h, `do_expand` where it appends a block: the chain and the counters after it.
use mathlib.Core.Path.{subst}
use netkeep80_persist_memory.Base.{
  ℕ, ◌+◌, ◌-◌, ◌/◌, ◌≤◌, ◌<◌, ◌≡◌, refl, sym, ap, ◌∙◌, inl, inr, List, [], ◌∷◌, ◌++◌, arith, ◌==◌,
  eq_refl, eq_of_ne, head_or-append, last_or, last_or-append, Bool-cases, if◌then◌else◌,
}
use netkeep80_persist_memory.Traits.{Traits, no_block, header_granules, add_index, sub_index-eq}
use netkeep80_persist_memory.Node.{is_free, is_allocated}
use netkeep80_persist_memory.Memory.{Body, Arena}
use netkeep80_persist_memory.BlockState.{init_fields}
use netkeep80_persist_memory.FreeTree.Policy.{FreeBlockTreePolicy}
use netkeep80_persist_memory.Layout.{
  IsTraits, bodies, BlockOk, Chain, IsChained, IsHeap, total_granules, sum_of, used_of,
}
use netkeep80_persist_memory.Layout.Chain.{Chain-append, Chain-front, Chain-back, Chain-frame}
use netkeep80_persist_memory.Layout.Totals.{sum_of-append, sum_of-frame}
use netkeep80_persist_memory.Layout.Splice.{free_body}
use netkeep80_persist_memory.ManagerLayout.{link_extra, append_block}

module _ {at : Traits} (t : IsTraits at) (ft : FreeBlockTreePolicy) (a : Arena) (pre : List ℕ)
    (i : ℕ) (new_total new_size : ℕ) (h : IsHeap at a (pre ++ i ∷ []))
    (room : total_granules at a + header_granules at ≤ new_total)
    (small : new_total ≤ at.index_max) where
  -- where the arena ended
  abbrev k : ℕ
  k = total_granules at a

  abbrev grown : Arena
  grown = append_block at ft k new_total new_size a

  here : Chain at (bodies a) (last_or (no_block at) pre) (i ∷ []) (no_block at) k
  here = Chain-back at (bodies a) (no_block at) pre (i ∷ []) (no_block at) k h.chained.chain

  front : Chain at (bodies a) (no_block at) pre i i
  front = Chain-front at (bodies a) (no_block at) pre (i ∷ []) (no_block at) k h.chained.chain

  before : (i < k) × (i < at.index_max) × (k < at.index_max)
  before = (
    omega (arith, here.0.room, t.header_pos),
    omega (arith, here.0.room, t.header_pos, room, small),
    omega (arith, t.header_pos, room, small),
  )

  last_is : a.header.last_block_offset ≡ i
  last_is = h.chained.last ∙ last_or-append (no_block at) pre (i ∷ [])

  abbrev linked_body : Body
  linked_body = record (bodies a i) { next_offset = k }

  linked-bodies :
      (j : ℕ)
      → bodies (link_extra at k new_total new_size a) j ≡ (
          if j == i
          then linked_body
          else if j == k
          then free_body (new_total - k) i (no_block at)
          else bodies a j)
  unfolding link_extra init_fields
  linked-bodies j =
      let is_block = eq_of_ne i (no_block at) (λ e. omega (arith, e, before)) in
      let apart = eq_of_ne i k (λ e. omega (arith, e, before)) in
      let weight = sub_index-eq at new_total k (omega (arith, room)) small in
      elim (Bool-cases (j == i)) [
        | inl e ↦ ground (arith, last_is, is_block, apart, e)
        | inr e ↦ ground (arith, last_is, is_block, apart, weight, e)
      ]

  grown-bodies :
      (j : ℕ)
      → bodies grown j ≡ (
          if j == i
          then linked_body
          else if j == k
          then free_body (new_total - k) i (no_block at)
          else bodies a j)
  unfolding append_block
  grown-bodies j =
      (ft.insert-SameBodies (link_extra at k new_total new_size a) k).same_bodies j
      ∙ linked-bodies j

  grown-header :
      (grown.header.last_block_offset ≡ k)
      × (grown.header.first_block_offset ≡ a.header.first_block_offset)
      × (grown.header.total_size ≡ new_size)
      × (grown.header.block_count ≡ add_index at a.header.block_count 1)
      × (grown.header.used_size ≡ a.header.used_size)
  unfolding append_block link_extra
  grown-header =
      let is_block = eq_of_ne i (no_block at) (λ e. omega (arith, e, before)) in
      let same = (ft.insert-SameBodies (link_extra at k new_total new_size a) k).same_header in
      ground (arith, same, last_is, is_block)

  front_same : (j : ℕ) → j < i → bodies grown j ≡ bodies a j
  front_same j lt =
      let not_i = eq_of_ne j i (λ e. omega (arith, e, lt)) in
      let not_k = eq_of_ne j k (λ e. omega (arith, e, lt, before)) in
      ground (arith, grown-bodies j, not_i, not_k)

  own_bodies :
      (bodies grown i ≡ linked_body) × (bodies grown k ≡ free_body (new_total - k) i (no_block at))
  own_bodies =
      let not_i = eq_of_ne k i (λ e. omega (arith, e, before)) in
      (ground (arith, grown-bodies i, eq_refl i), ground (arith, grown-bodies k, not_i, eq_refl k))

  abbrev layout : List ℕ
  layout = (pre ++ i ∷ []) ++ k ∷ []

  linked_body-BlockOk : BlockOk at linked_body (last_or (no_block at) pre) i k k
  linked_body-BlockOk = record {
    prev = here.0.prev;
    next = refl;
    room = here.0.room;
    known = here.0.known;
    sized = here.0.sized;
  }

  new_body-BlockOk :
      BlockOk at (free_body (new_total - k) i (no_block at)) i k (no_block at) new_total
  unfolding is_free is_allocated
  new_body-BlockOk = record {
    prev = refl;
    next = refl;
    room = room;
    known = refl;
    sized = (omega (arith, room), refl);
  }

  chain_after : Chain at (bodies grown) (no_block at) layout (no_block at) new_total
  chain_after =
      Chain-append at (bodies grown) (no_block at) (pre ++ i ∷ []) (k ∷ []) (no_block at) new_total
        (Chain-append at (bodies grown) (no_block at) pre (i ∷ []) k k
          (Chain-frame t (bodies a) (bodies grown) (no_block at) pre i i
            (λ j lo hi. front_same j hi) front)
          (
            subst (λ b. BlockOk at b (last_or (no_block at) pre) i k k) (sym own_bodies.0)
                linked_body-BlockOk,
            tt,
          ))
        (subst (λ p. Chain at (bodies grown) p (k ∷ []) (no_block at) new_total)
          (sym (last_or-append (no_block at) pre (i ∷ [])))
          (
            subst (λ b. BlockOk at b i k (no_block at) new_total) (sym own_bodies.1)
                new_body-BlockOk,
            tt,
          ))

  -- A block is appended behind the last block of a well-formed arena. Where the granules after the growth
  -- are `new_total`, have room for a header behind the old ones, and can be indexed, the chain is sound
  -- for the layout with the new block.
  pub append_block-IsChained : new_size / at.granule_size ≡ new_total → IsChained at grown layout
  append_block-IsChained exact =
      let total_eq : total_granules at grown ≡ new_total =
        ap (λ x. x / at.granule_size) grown-header.2 ∙ exact in
      record {
        chain = rw total_eq chain_after;
        fits = rw total_eq small;
        first =
            grown-header.1
            ∙ h.chained.first
            ∙ head_or-append (no_block at) pre (i ∷ [])
            ∙ sym (head_or-append k pre (i ∷ []))
            ∙ sym (head_or-append (no_block at) (pre ++ i ∷ []) (k ∷ []));
        last = grown-header.0 ∙ sym (last_or-append (no_block at) (pre ++ i ∷ []) (k ∷ []));
      }

  -- Where a block was appended behind the last block of a well-formed arena, with room for its header and
  -- within the indices, the blocks of the layout use the granules of one header more than `used_size`
  -- says.
  pub append_block-used_size :
      sum_of at (used_of at) (bodies grown) layout ≡ grown.header.used_size + header_granules at
  unfolding is_free
  append_block-used_size =
      let f = used_of at in
      let parts = sum_of-append at f (bodies grown) (pre ++ i ∷ []) (k ∷ []) in
      let old_parts = sum_of-append at f (bodies grown) pre (i ∷ []) in
      let a_parts = sum_of-append at f (bodies a) pre (i ∷ []) in
      let same =
        sum_of-frame t f (bodies a) (bodies grown) (no_block at) pre i i
          (λ j lo hi. ap f (front_same j hi)) front in
      let linked : f (bodies grown i) ≡ f (bodies a i) = rw own_bodies.0 refl in
      let new : f (bodies grown k) ≡ header_granules at = rw own_bodies.1 (omega arith) in
      omega (arith, parts, old_parts, a_parts, same, linked, new, h.counted.used, grown-header.4)
