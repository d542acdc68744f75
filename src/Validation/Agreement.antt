-- ===== src/Validation/Agreement.antt =====
-- include/pmm/arena_internals.h and include/pmm/validation.h: the arena view's test of a block index and
-- that of the validation, which compute the same range in two ways.
use native.Mathlib.Nat.{le-div_iff_mul-le, lt_of_not-le}
use netkeep80_persist_memory.Base.{
  ℕ, ◌+◌, ◌-◌, ◌*◌, ◌/◌, ◌≤◌, ◌<◌, ◌≡◌, refl, false, not, ◌&&◌, inl, inr, none, some, arith, ◌==◌,
  ltb, leb, Bool-cases,
}
use netkeep80_persist_memory.Traits.{Traits, no_block, size_max, block_size}
use netkeep80_persist_memory.Checked.{
  valid_block, fits, checked_granule_offset, checked_mul, fits_range,
}
use netkeep80_persist_memory.Checked.Bounds.{checked_mul-exact, fits_range-exact}
use netkeep80_persist_memory.Validation.{validate_block_index}

module _ (at : Traits) (total : ℕ) (wide : total ≤ size_max) (pos : 0 < at.granule_size)
    (small : block_size at ≤ size_max) where
  -- the product overflows exactly if the index exceeds the quotient
  index_test :
      (i : ℕ) → ltb (size_max / at.granule_size) i ≡ not (leb (i * at.granule_size) size_max)
  index_test i = elim (Bool-cases (leb (i * at.granule_size) size_max)) [
    | inl e ↦
        let low : i ≤ size_max / at.granule_size =
          (le-div_iff_mul-le {k = at.granule_size} pos).1 (ground (arith, e)) in
        rw e (ground (arith, low))
    | inr e ↦
        let high : size_max / at.granule_size < i =
          lt_of_not-le
            (λ l. ground (arith, e, (le-div_iff_mul-le {k = at.granule_size} pos).0 l)) in
        rw e (ground (arith, high))
  ]

  range_test :
      (off : ℕ)
      → leb (off + block_size at) total
        ≡ (leb off (size_max - block_size at) && leb (off + block_size at) total)
  range_test off = ground (arith, wide, small)

  fits_some :
      (i off : ℕ)
      → checked_mul i at.granule_size ≡ some off
      → fits at total i (block_size at) ≡ fits_range off (block_size at) total
  unfolding fits checked_granule_offset
  fits_some i off h = ground (arith, h)

  fits_none :
      (i : ℕ) → checked_mul i at.granule_size ≡ none → fits at total i (block_size at) ≡ false
  unfolding fits checked_granule_offset
  fits_none i h = ground (arith, h)

  -- Where the total and a header's size are `size_t` and a granule is not empty, `valid_block` and
  -- `validate_block_index` accept the same indices.
  pub valid_block-validate_block_index :
      (i : ℕ) → valid_block at total i ≡ validate_block_index at total i
  unfolding valid_block validate_block_index
  valid_block-validate_block_index i = elim (Bool-cases (i == no_block at)) [
    | inl e ↦ rw e refl
    | inr e ↦ elim (Bool-cases (leb (i * at.granule_size) size_max)) [
      | inl f ↦
          let product : checked_mul i at.granule_size ≡ some (i * at.granule_size) =
            rw (checked_mul-exact i at.granule_size, f) refl in
          rw
            (
              e,
              fits_some i (i * at.granule_size) product,
              index_test i,
              f,
              fits_range-exact (i * at.granule_size) (block_size at) total small wide,
            )
            (range_test (i * at.granule_size))
      | inr f ↦
          let overflows : checked_mul i at.granule_size ≡ none =
            rw (checked_mul-exact i at.granule_size, f) refl in
          rw (e, fits_none i overflows, index_test i, f) refl
    ]
  ]
