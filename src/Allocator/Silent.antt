-- ===== src/Allocator/Silent.antt =====
-- include/pmm/allocator_policy.h: the checks of the chain of blocks, on chained arenas.
use netkeep80_persist_memory.Base.{
  ℕ, ◌+◌, ◌/◌, ◌≤◌, ◌≡◌, refl, ap, ◌∙◌, true, inl, inr, List, [], ◌∷◌, arith, head_or, Bool-cases,
  ◌==◌, eq_refl, eq_of_ne,
}
use netkeep80_persist_memory.Traits.{Traits, no_block, size_max, sub_index-eq, to_index-eq}
use netkeep80_persist_memory.Node.{is_free}
use netkeep80_persist_memory.Memory.{BlockHeader, ManagerHeader, Arena}
use netkeep80_persist_memory.Diagnostics.{VerifyResult}
use netkeep80_persist_memory.BlockState.{verify_state}
use netkeep80_persist_memory.Validation.{physical_block_total_granules}
use netkeep80_persist_memory.Layout.{IsTraits, Bodies, bodies, Chain, IsChained, total_granules}
use netkeep80_persist_memory.Layout.Chain.{Chain-length}
use netkeep80_persist_memory.Layout.Walked.{fold_left, for_each_physical_block-fold}
use netkeep80_persist_memory.Allocator.Verify.{
  LinkCheck, check_prev, report_broken_walk, verify_linked_list, check_state, verify_block_states,
}

check_prev-right :
    (b : BlockHeader) (p i : ℕ) (r : VerifyResult)
    → b.prev_offset ≡ p
    → check_prev b i (record { result = r; expected_prev = p })
      ≡ record { result = r; expected_prev = i }
unfolding check_prev
check_prev-right b p i r h = rw (h, eq_refl p) refl

-- the size of a block whose link leads on as the chain's block at its place does
pub physical_block_total_granules-next :
    {at : Traits}
    → IsTraits at
    → (hdr : ManagerHeader) (m : Bodies) (b : BlockHeader) (p i : ℕ) (r : List ℕ)
    → Chain at m p (i ∷ r) (no_block at) (hdr.total_size / at.granule_size)
    → hdr.total_size / at.granule_size ≤ at.index_max
    → b.next_offset ≡ (m i).next_offset
    → i + physical_block_total_granules at hdr i b ≡ head_or (hdr.total_size / at.granule_size) r
unfolding physical_block_total_granules
physical_block_total_granules-next {at} t hdr m b p i [] h small same =
    let total : ℕ = hdr.total_size / at.granule_size in
    rw
      (
        same,
        h.0.next,
        eq_refl (no_block at),
        to_index-eq at total small,
        sub_index-eq at total i (omega (arith, h.0.room)) small,
      )
      (omega (arith, h.0.room))
physical_block_total_granules-next {at} t hdr m b p i (x ∷ r) h small same =
    let total : ℕ = hdr.total_size / at.granule_size in
    let len = Chain-length t m i (x ∷ r) (no_block at) total h.1 in
    let below : x + 1 ≤ at.index_max = omega (arith, len, small) in
    rw
      (
        same,
        h.0.next,
        eq_of_ne x (no_block at) (λ e. omega (arith, e, below)),
        sub_index-eq at x i (omega (arith, h.0.room)) (omega (arith, below)),
      )
      (omega (arith, h.0.room))

module _ {at : Traits} (t : IsTraits at) (a : Arena) where
  check_fold :
      (p : ℕ) (xs : List ℕ) (e : ℕ) (r : VerifyResult)
      → Chain at (bodies a) p xs (no_block at) e
      → (fold_left
          (λ i. check_prev (a.blocks i) i)
          xs
          (record { result = r; expected_prev = p })).result
        ≡ r
  check_fold p [] e r h = refl
  check_fold p (i ∷ xs) e r h =
      let next : LinkCheck → VerifyResult =
        λ c. (fold_left (λ j. check_prev (a.blocks j) j) xs c).result in
      ap next (check_prev-right (a.blocks i) p i r h.0.prev) ∙ check_fold i xs e r h.1

  -- `verify_linked_list` reports nothing of a chained arena whose size is a `size_t`.
  pub verify_linked_list-IsChained :
      (xs : List ℕ) (r : VerifyResult)
      → IsChained at a xs
      → a.header.total_size ≤ size_max
      → verify_linked_list at a r ≡ r
  unfolding verify_linked_list report_broken_walk
  verify_linked_list-IsChained xs r h wide =
      rw
        (for_each_physical_block-fold t a (λ i. check_prev (a.blocks i) i) xs
          (record { result = r; expected_prev = no_block at }) h wide)
        (check_fold (no_block at) xs (total_granules at a) r h.chain)

  -- A block of the chain ends where the next one begins, or where the arena's granules end.
  pub physical_block_total_granules-Chain :
      (p i : ℕ) (r : List ℕ)
      → Chain at (bodies a) p (i ∷ r) (no_block at) (total_granules at a)
      → total_granules at a ≤ at.index_max
      → i + physical_block_total_granules at a.header i (a.blocks i)
        ≡ head_or (total_granules at a) r
  physical_block_total_granules-Chain p i r h small =
      physical_block_total_granules-next t a.header (bodies a) (a.blocks i) p i r h small refl

  check_one :
      (p i : ℕ) (xs : List ℕ) (r : VerifyResult)
      → Chain at (bodies a) p (i ∷ xs) (no_block at) (total_granules at a)
      → total_granules at a ≤ at.index_max
      → check_state at a i r ≡ r
  unfolding check_state verify_state
  check_one p i xs r h small =
      let physical = physical_block_total_granules-Chain p i xs h small in
      elim (Bool-cases (is_free (a.blocks i).node_type)) [
        | inl f ↦
            let weighs : ((a.blocks i).weight
                  == physical_block_total_granules at a.header i (a.blocks i))
                ≡ true =
              ground (arith, h.0.sized, f, physical) in
            let owner : ((a.blocks i).root_offset == 0) ≡ true = ground (arith, h.0.sized, f) in
            rw (h.0.known, f, owner, weighs) refl
        | inr f ↦
            let owner : ((a.blocks i).root_offset == i) ≡ true = ground (arith, h.0.sized, f) in
            rw (h.0.known, f, owner) refl
      ]

  check_state-fold :
      (p : ℕ) (xs : List ℕ) (r : VerifyResult)
      → Chain at (bodies a) p xs (no_block at) (total_granules at a)
      → total_granules at a ≤ at.index_max
      → fold_left (check_state at a) xs r ≡ r
  check_state-fold p [] r h small = refl
  check_state-fold p (i ∷ xs) r h small =
      rw (check_one p i xs r h small) (check_state-fold i xs r h.1 small)

  -- `verify_block_states` reports nothing of a chained arena whose size is a `size_t`.
  pub verify_block_states-IsChained :
      (xs : List ℕ) (r : VerifyResult)
      → IsChained at a xs
      → a.header.total_size ≤ size_max
      → verify_block_states at a r ≡ r
  unfolding verify_block_states report_broken_walk
  verify_block_states-IsChained xs r h wide =
      rw (for_each_physical_block-fold t a (check_state at a) xs r h wide)
        (check_state-fold (no_block at) xs r h.chain h.fits)
