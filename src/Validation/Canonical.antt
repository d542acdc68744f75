-- ===== src/Validation/Canonical.antt =====
-- include/pmm/validation.h and include/pmm/types.h: the checks of indices and of links, on well-formed
-- arenas.
use native.Mathlib.Nat.{le-div_iff_mul-le}
use mathlib.Core.Path.{subst}
use mathlib.Core.List.{append_assoc}
use netkeep80_persist_memory.Base.{
  ℕ, ◌+◌, ◌-◌, ◌*◌, ◌/◌, ◌≤◌, ◌<◌, ◌≡◌, refl, sym, ◌∙◌, true, false, inl, inr, List, [], ◌∷◌, ◌++◌,
  arith, ◌==◌, ltb, leb, eq_refl, eq_of_ne, eq_when, ltb_when, length-append, last_or-append,
  snoc_cases,
}
use netkeep80_persist_memory.Traits.{Traits, no_block, size_max, block_size, header_granules}
use netkeep80_persist_memory.Memory.{Arena}
use netkeep80_persist_memory.Layout.{IsTraits, bodies, IsChained, IsHeap, total_granules}
use netkeep80_persist_memory.Layout.Chain.{Chain-back, Chain-length}
use netkeep80_persist_memory.Layout.Walked.{byte_range}
use netkeep80_persist_memory.Validation.{
  validate_block_index, prev_link_ok, next_link_ok, is_block_header_linked_in_canonical_chain,
}

module _ {at : Traits} (t : IsTraits at) (a : Arena) (wide : a.header.total_size ≤ size_max) where
  valid_index :
      (i : ℕ)
      → i + header_granules at ≤ total_granules at a
      → total_granules at a ≤ at.index_max
      → validate_block_index at a.header.total_size i ≡ true
  unfolding validate_block_index
  valid_index i room small =
      let range = byte_range t a.header.total_size i room in
      let index_ok : i ≤ size_max / at.granule_size =
        (le-div_iff_mul-le t.granule_pos).1 (omega (arith, range, wide)) in
      let is_block : (i == at.index_max) ≡ false =
        eq_of_ne i at.index_max (λ e. omega (arith, e, room, small, t.header_pos)) in
      let low : leb (i * at.granule_size) (size_max - block_size at) ≡ true =
        ground (arith, range, wide) in
      let high : leb (i * at.granule_size + block_size at) a.header.total_size ≡ true =
        ground (arith, range) in
      let index_test : ltb (size_max / at.granule_size) i ≡ false = ground (arith, index_ok) in
      rw (is_block, index_test, low, high) refl

  -- a block of the layout
  pub valid_block_of :
      (pre : List ℕ) (i : ℕ) (post : List ℕ)
      → IsChained at a (pre ++ i ∷ post)
      → (i + header_granules at ≤ total_granules at a)
        × (i < at.index_max)
        × (validate_block_index at a.header.total_size i ≡ true)
  valid_block_of pre i post h =
      let here =
        Chain-back at (bodies a) (no_block at) pre (i ∷ post) (no_block at) (total_granules at a)
          h.chain in
      let len = Chain-length t (bodies a) i post (no_block at) (total_granules at a) here.1 in
      let room : i + header_granules at ≤ total_granules at a = omega (arith, len, here.0.room) in
      (room, omega (arith, room, h.fits, t.header_pos), valid_index i room h.fits)

  next_link_ok-IsChained :
      (pre : List ℕ) (i : ℕ) (post : List ℕ)
      → IsChained at a (pre ++ i ∷ post)
      → next_link_ok at a a.header.total_size i ≡ true
  unfolding next_link_ok
  next_link_ok-IsChained pre i [] h =
      let here =
        Chain-back at (bodies a) (no_block at) pre (i ∷ []) (no_block at) (total_granules at a)
          h.chain in
      let last : a.header.last_block_offset ≡ i =
        h.last ∙ last_or-append (no_block at) pre (i ∷ []) in
      rw (here.0.next, eq_refl (no_block at), last, eq_refl i) refl
  next_link_ok-IsChained pre i (x ∷ r) h =
      let here =
        Chain-back at (bodies a) (no_block at) pre (i ∷ x ∷ r) (no_block at) (total_granules at a)
          h.chain in
      let further : IsChained at a ((pre ++ i ∷ []) ++ x ∷ r) =
        subst (IsChained at a) (sym (append_assoc pre (i ∷ []) (x ∷ r))) h in
      let valid = valid_block_of (pre ++ i ∷ []) x r further in
      let is_block : (x == no_block at) ≡ false =
        eq_of_ne x (no_block at) (λ e. omega (arith, e, valid)) in
      let behind = ltb_when i x (omega (arith, here.0.room, t.header_pos)) in
      let back = eq_when (a.blocks x).prev_offset i here.1.0.prev in
      rw (here.0.next, is_block, valid.2, behind, back) refl

  prev_link_ok-first :
      (i : ℕ) (post : List ℕ)
      → IsChained at a (i ∷ post)
      → prev_link_ok at a a.header.total_size i ≡ true
  unfolding prev_link_ok
  prev_link_ok-first i post h = rw (h.chain.0.prev, eq_refl (no_block at), h.first, eq_refl i) refl

  prev_link_ok-further :
      (q : List ℕ) (p i : ℕ) (post : List ℕ)
      → IsChained at a (q ++ p ∷ i ∷ post)
      → prev_link_ok at a a.header.total_size i ≡ true
  unfolding prev_link_ok
  prev_link_ok-further q p i post h =
      let here =
        Chain-back at (bodies a) (no_block at) q (p ∷ i ∷ post) (no_block at) (total_granules at a)
          h.chain in
      let valid = valid_block_of q p (i ∷ post) h in
      let is_block : (p == no_block at) ≡ false =
        eq_of_ne p (no_block at) (λ e. omega (arith, e, valid)) in
      let before = ltb_when p i (omega (arith, here.0.room, t.header_pos)) in
      let forth = eq_when (a.blocks p).next_offset i here.0.next in
      rw (here.1.0.prev, is_block, valid.2, before, forth) refl

  prev_link_ok-IsChained :
      (pre : List ℕ) (i : ℕ) (post : List ℕ)
      → IsChained at a (pre ++ i ∷ post)
      → prev_link_ok at a a.header.total_size i ≡ true
  prev_link_ok-IsChained pre i post h = elim (snoc_cases pre) [
    | inl e ↦ prev_link_ok-first i post (subst (λ xs. IsChained at a (xs ++ i ∷ post)) e h)
    | inr (q, p, e) ↦ prev_link_ok-further q p i post (
        subst (IsChained at a) (append_assoc q (p ∷ []) (i ∷ post))
          (subst (λ xs. IsChained at a (xs ++ i ∷ post)) e h))
  ]

  first_ok :
      (pre : List ℕ) (i : ℕ) (post : List ℕ)
      → IsChained at a (pre ++ i ∷ post)
      → (a.header.first_block_offset < at.index_max)
        × (validate_block_index at a.header.total_size a.header.first_block_offset ≡ true)
  first_ok [] i post h = let v = valid_block_of [] i post h in rw h.first (v.1, v.2)
  first_ok (x ∷ r) i post h = let v = valid_block_of [] x (r ++ i ∷ post) h in rw h.first (v.1, v.2)

  last_ok :
      (xs : List ℕ) (i : ℕ)
      → IsChained at a (xs ++ i ∷ [])
      → validate_block_index at a.header.total_size a.header.last_block_offset ≡ true
  last_ok xs i h =
      let last : a.header.last_block_offset ≡ i =
        h.last ∙ last_or-append (no_block at) xs (i ∷ []) in
      rw last (valid_block_of xs i [] h).2

  last_ok-any :
      (pre : List ℕ) (i : ℕ) (post : List ℕ)
      → IsChained at a (pre ++ i ∷ post)
      → validate_block_index at a.header.total_size a.header.last_block_offset ≡ true
  last_ok-any pre i post h = elim (snoc_cases post) [
    | inl e ↦ last_ok pre i (subst (λ xs. IsChained at a (pre ++ i ∷ xs)) e h)
    | inr (q, p, e) ↦ last_ok (pre ++ i ∷ q) p (
        subst (IsChained at a) (sym (append_assoc pre (i ∷ q) (p ∷ [])))
          (subst (λ xs. IsChained at a (pre ++ i ∷ xs)) e h))
  ]

  -- Every block of a well-formed arena, whose size is a `size_t`, is found to be linked in the chain.
  pub is_block_header_linked-IsHeap :
      (pre : List ℕ) (i : ℕ) (post : List ℕ)
      → IsHeap at a (pre ++ i ∷ post)
      → is_block_header_linked_in_canonical_chain at a a.header.total_size i ≡ true
  unfolding is_block_header_linked_in_canonical_chain
  is_block_header_linked-IsHeap pre i post h =
      let c = h.chained in
      let first = first_ok pre i post c in
      let some_blocks : (a.header.block_count == 0) ≡ false =
        eq_of_ne a.header.block_count 0
          (λ e. omega (arith, e, h.counted.blocks, length-append pre (i ∷ post))) in
      let is_block : (a.header.first_block_offset == no_block at) ≡ false =
        eq_of_ne a.header.first_block_offset (no_block at) (λ e. omega (arith, e, first)) in
      rw
        (
          some_blocks,
          is_block,
          first.1,
          last_ok-any pre i post c,
          prev_link_ok-IsChained pre i post c,
          next_link_ok-IsChained pre i post c,
        )
        refl
