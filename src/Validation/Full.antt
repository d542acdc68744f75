-- ===== src/Validation/Full.antt =====
-- include/pmm/validation.h, `validate_block_header_full` on the blocks of a chained arena.
use native.Mathlib.Nat.{le-div_iff_mul-le}
use mathlib.Core.List.{append_assoc}
use mathlib.Core.Path.{subst}
use netkeep80_persist_memory.Base.{
  ℕ, ◌+◌, ◌-◌, ◌*◌, ◌/◌, ◌≤◌, ◌≡◌, refl, sym, ap, Bool, if◌then◌else◌, ◌∙◌, true, false, ◌&&◌, not,
  ◌⊎◌, inl, inr, List, [], ◌∷◌, ◌++◌, arith, ◌==◌, ltb, eq_refl, Bool-cases, snoc_cases, last_or,
  last_or-append, head_or,
}
use netkeep80_persist_memory.Traits.{Traits, no_block, size_max, block_size, header_granules}
use netkeep80_persist_memory.Node.{
  NodeType, free, manager_header, generic, read_only_locked, pstringview, pstring, parray, pmap,
  pptr, unknown, is_free, is_allocated, is_known_node_type,
}
use netkeep80_persist_memory.Memory.{BlockHeader, Arena}
use netkeep80_persist_memory.Diagnostics.{VerifyResult}
use netkeep80_persist_memory.BlockState.{verify_state}
use netkeep80_persist_memory.Validation.{
  validate_block_index, verify_extent, verify_link, verify_node_type, validate_block_header_full,
}
use netkeep80_persist_memory.Validation.Canonical.{valid_block_of}
use netkeep80_persist_memory.Layout.{IsTraits, bodies, BlockOk, IsChained, total_granules}
use netkeep80_persist_memory.Layout.Chain.{Chain-back, Chain-length}
use netkeep80_persist_memory.Layout.Walked.{fold_left}

either_way : (b : Bool) (r : VerifyResult) → (if b then r else r) ≡ r
either_way true r = refl
either_way false r = refl

ltb_not : (x y : ℕ) → y ≤ x → ltb x y ≡ false
ltb_not x y h = ground arith

pub has_known : (k : NodeType) → is_allocated k ≡ not (is_free k) → is_known_node_type k ≡ true
unfolding is_allocated is_free is_known_node_type
has_known free h = refl
has_known manager_header h = refl
has_known generic h = refl
has_known read_only_locked h = refl
has_known pstringview h = refl
has_known pstring h = refl
has_known parray h = refl
has_known pmap h = refl
has_known pptr h = refl
has_known (unknown b) h = cc

module _ {at : Traits} (t : IsTraits at) (a : Arena) (wide : a.header.total_size ≤ size_max) where
  verify_link-valid :
      (i link : ℕ) (r : VerifyResult)
      → (link ≡ no_block at) ⊎ (validate_block_index at a.header.total_size link ≡ true)
      → verify_link at a.header.total_size i link r ≡ r
  unfolding verify_link
  verify_link-valid i link r (inl e) = rw (e, eq_refl (no_block at)) refl
  verify_link-valid i link r (inr e) = elim (Bool-cases (link == no_block at)) [
    | inl f ↦ rw f refl
    | inr f ↦ rw (f, e) refl
  ]

  verify_state-BlockOk :
      (p i n e : ℕ) (r : VerifyResult)
      → BlockOk at (bodies a i) p i n e
      → verify_state (a.blocks i) i r ≡ r
  unfolding verify_state
  verify_state-BlockOk p i n e r h = elim (Bool-cases (is_free (a.blocks i).node_type)) [
    | inl f ↦
        let owner : ((a.blocks i).root_offset == 0) ≡ true = ground (arith, h.sized, f) in
        rw (h.known, f, owner) refl
    | inr f ↦
        let owner : ((a.blocks i).root_offset == i) ≡ true = ground (arith, h.sized, f) in
        rw (h.known, f, owner) refl
  ]

  -- the bytes of a block in use end within the arena
  pub in_use-range :
      (i w : ℕ)
      → i + header_granules at + w ≤ total_granules at a
      → i * at.granule_size + block_size at + w * at.granule_size ≤ a.header.total_size
  in_use-range i w h = omega (arith, (le-div_iff_mul-le t.granule_pos).0 h, t.block_fits_header)

  extent_ok :
      (i : ℕ) (b : BlockHeader) (r : VerifyResult)
      → i * at.granule_size + block_size at + b.weight * at.granule_size ≤ a.header.total_size
      → verify_extent at b a.header.total_size i r ≡ r
  unfolding verify_extent
  extent_ok i b r range =
      let index_ok : i ≤ size_max / at.granule_size =
        (le-div_iff_mul-le t.granule_pos).1 (omega (arith, range, wide)) in
      let weight_ok : b.weight ≤ size_max / at.granule_size =
        (le-div_iff_mul-le t.granule_pos).1 (omega (arith, range, wide)) in
      rw
        (
          ltb_not (size_max / at.granule_size) i index_ok,
          ltb_not (size_max / at.granule_size) b.weight weight_ok,
          ltb_not (size_max - block_size at) (i * at.granule_size) (omega (arith, range, wide)),
          ltb_not (size_max - b.weight * at.granule_size) (i * at.granule_size + block_size at)
              (omega (arith, range, wide)),
          ltb_not a.header.total_size
              (i * at.granule_size + block_size at + b.weight * at.granule_size) range,
        )
        (either_way (not (is_allocated b.node_type && ltb 0 b.weight)) r)

  next-valid :
      (pre : List ℕ) (i : ℕ) (post : List ℕ)
      → IsChained at a (pre ++ i ∷ post)
      → ((a.blocks i).next_offset ≡ no_block at)
        ⊎ (validate_block_index at a.header.total_size (a.blocks i).next_offset ≡ true)
  next-valid pre i [] h =
      inl
        (Chain-back at (bodies a) (no_block at) pre (i ∷ []) (no_block at) (total_granules at a)
          h.chain).0.next
  next-valid pre i (x ∷ r) h =
      let here =
        Chain-back at (bodies a) (no_block at) pre (i ∷ x ∷ r) (no_block at) (total_granules at a)
          h.chain in
      inr (
        rw (here.0.next)
          (valid_block_of t a wide (pre ++ i ∷ []) x r
            (subst (IsChained at a) (sym (append_assoc pre (i ∷ []) (x ∷ r))) h)).2)

  prev-valid :
      (pre : List ℕ) (i : ℕ) (post : List ℕ)
      → IsChained at a (pre ++ i ∷ post)
      → ((a.blocks i).prev_offset ≡ no_block at)
        ⊎ (validate_block_index at a.header.total_size (a.blocks i).prev_offset ≡ true)
  prev-valid pre i post h =
      let here =
        Chain-back at (bodies a) (no_block at) pre (i ∷ post) (no_block at) (total_granules at a)
          h.chain in
      elim (snoc_cases pre) [
        | inl e ↦ inl (here.0.prev ∙ ap (last_or (no_block at)) e)
        | inr (q, p, e) ↦
            let prev : (a.blocks i).prev_offset ≡ p =
              here.0.prev
              ∙ ap (last_or (no_block at)) e
              ∙ last_or-append (no_block at) q (p ∷ []) in
            inr (
              rw prev
                (valid_block_of t a wide q p (i ∷ post) (
                  subst (IsChained at a) (append_assoc q (p ∷ []) (i ∷ post))
                    (subst (λ ys. IsChained at a (ys ++ i ∷ post)) e h))).2)
      ]

  verify_extent-BlockOk :
      (p i n e : ℕ) (r : VerifyResult)
      → BlockOk at (bodies a i) p i n e
      → e ≤ total_granules at a
      → verify_extent at (a.blocks i) a.header.total_size i r ≡ r
  unfolding verify_extent
  verify_extent-BlockOk p i n e r h ends = elim (Bool-cases (is_free (a.blocks i).node_type)) [
    | inl f ↦ rw (h.known, f) refl
    | inr f ↦
        extent_ok i (a.blocks i) r
          (in_use-range i (a.blocks i).weight (ground (arith, h.sized, f, ends)))
  ]

  known-BlockOk :
      (p i n e : ℕ)
      → BlockOk at (bodies a i) p i n e
      → is_known_node_type (a.blocks i).node_type ≡ true
  known-BlockOk p i n e h = has_known (a.blocks i).node_type (h.known)

  validate_block_header_full-IsChained :
      (pre : List ℕ) (i : ℕ) (post : List ℕ) (r : VerifyResult)
      → IsChained at a (pre ++ i ∷ post)
      → validate_block_header_full at a a.header.total_size i r ≡ r
  unfolding validate_block_header_full verify_node_type
  validate_block_header_full-IsChained pre i post r h =
      let here =
        Chain-back at (bodies a) (no_block at) pre (i ∷ post) (no_block at) (total_granules at a)
          h.chain in
      let p : ℕ = last_or (no_block at) pre in
      let n : ℕ = head_or (no_block at) post in
      let e : ℕ = head_or (total_granules at a) post in
      let ends : e ≤ total_granules at a =
        omega
          (arith, Chain-length t (bodies a) i post (no_block at) (total_granules at a) here.1) in
      rw
        (
          (valid_block_of t a wide pre i post h).2,
          verify_state-BlockOk p i n e r here.0,
          verify_link-valid i (a.blocks i).next_offset r (next-valid pre i post h),
          verify_link-valid i (a.blocks i).prev_offset r (prev-valid pre i post h),
          known-BlockOk p i n e here.0,
        )
        (verify_extent-BlockOk p i n e r here.0 ends)

  -- `validate_block_header_full` reports nothing of the blocks of a chained arena, in turn.
  pub validate_block_header_full-fold :
      (pre xs : List ℕ) (r : VerifyResult)
      → IsChained at a (pre ++ xs)
      → fold_left (validate_block_header_full at a a.header.total_size) xs r ≡ r
  validate_block_header_full-fold pre [] r h = refl
  validate_block_header_full-fold pre (i ∷ xs) r h =
      rw (validate_block_header_full-IsChained pre i xs r h) (
        validate_block_header_full-fold (pre ++ i ∷ []) xs r
          (subst (IsChained at a) (sym (append_assoc pre (i ∷ []) xs)) h))
