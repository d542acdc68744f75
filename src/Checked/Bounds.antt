-- ===== src/Checked/Bounds.antt =====
-- include/pmm/arena_internals.h: when the checked arithmetic succeeds, and what it then returns.
use native.Mathlib.Nat.{le-div_iff_mul-le, lt_of_not-le, div-add-mod', mod-lt, mul-mod_left}
use netkeep80_persist_memory.Base.{
  ℕ, zero, suc, ◌+◌, ◌-◌, ◌*◌, ◌/◌, ◌%◌, ◌≤◌, ◌<◌, ◌≡◌, sym, ap, true, inl, inr, ◌⊎◌, none, some,
  arith, leb, Bool-cases, Option-cases, if◌then◌else◌,
}
use netkeep80_persist_memory.Traits.{Traits, no_block, size_max, block_size, header_granules}
use netkeep80_persist_memory.Checked.{
  checked_add, checked_mul, fits_range, round_up_checked, compute_growth, growth_target,
  accept_growth, bytes_to_granules_checked, bytes_to_idx, valid_block, fits,
  try_block_idx_from_user_idx, try_user_idx_from_block_idx,
}

-- `checked_add` of two numbers, the second a `size_t`, returns the sum where it is a `size_t`, and nothing
-- otherwise.
pub checked_add-exact :
    (a b : ℕ)
    → b ≤ size_max
    → checked_add a b ≡ (if leb (a + b) size_max then some (a + b) else none)
unfolding checked_add
checked_add-exact a b h = ground arith

-- `checked_mul` returns the product of two numbers where it is a `size_t`, and nothing otherwise.
pub checked_mul-exact :
    (a b : ℕ) → checked_mul a b ≡ (if leb (a * b) size_max then some (a * b) else none)
unfolding checked_mul
checked_mul-exact zero b = ground arith
checked_mul-exact (suc a) zero = ground arith
checked_mul-exact (suc a) (suc b) = elim (Bool-cases (leb (suc a * suc b) size_max)) [
  | inl e ↦
      let low : suc a ≤ size_max / suc b =
        (le-div_iff_mul-le {k = suc b} (omega arith)).1 (ground (arith, e)) in
      ground arith
  | inr e ↦
      let high : size_max / suc b < suc a =
        lt_of_not-le (λ l. ground (arith, e, (le-div_iff_mul-le {k = suc b} (omega arith)).0 l)) in
      ground arith
]

-- Where the length and the total are `size_t`, the range of `len` bytes at `off` is accepted exactly if it
-- ends within `total` bytes.
pub fits_range-exact :
    (off len total : ℕ)
    → len ≤ size_max
    → total ≤ size_max
    → fits_range off len total ≡ leb (off + len) total
unfolding fits_range checked_add
fits_range-exact off len total h k = ground arith

-- a quotient, multiplied again
quotient_range : (p a : ℕ) → 0 < a → ((p / a) * a ≤ p) × (p < (p / a) * a + a)
quotient_range p a pos = omega (arith, div-add-mod' p a, mod-lt p pos)

some_inj : {x y : ℕ} → some x ≡ some y → x ≡ y
some_inj h = cc

-- What `round_up_checked` returns is the least multiple of the alignment that is not below the value.
pub round_up_checked-least :
    (v a r : ℕ) → round_up_checked v a ≡ some r → (v ≤ r) × (r < v + a) × (r % a ≡ 0)
unfolding round_up_checked checked_add
round_up_checked-least v zero r h = absurd (ground arith)
round_up_checked-least v (suc b) r h =
    let range = quotient_range (v + b) (suc b) (omega arith) in
    let value : (v + b) / suc b * suc b ≡ r = ground arith in
    (
      omega (arith, range, value),
      omega (arith, range, value),
      rw (sym value) (mul-mod_left ((v + b) / suc b) (suc b)),
    )

module _ (at : Traits) where
  -- Where a granule is not empty, what `bytes_to_granules_checked` returns is the least number of granules
  -- that hold the bytes, and an index.
  pub bytes_to_granules_checked-least :
      (bytes g : ℕ)
      → 0 < at.granule_size
      → bytes_to_granules_checked at bytes ≡ some g
      → (bytes ≤ g * at.granule_size)
        × (g * at.granule_size < bytes + at.granule_size)
        × (g ≤ at.index_max)
  unfolding bytes_to_granules_checked checked_add
  bytes_to_granules_checked-least zero g pos h =
      let value : g ≡ 0 = ground arith in rw value (ground (arith, pos))
  bytes_to_granules_checked-least (suc b) g pos h =
      let range = quotient_range (suc b + (at.granule_size - 1)) at.granule_size pos in
      let value : ((suc b + (at.granule_size - 1)) / at.granule_size ≡ g) × (g ≤ at.index_max) =
        ground arith in
      let product = ap (λ x. x * at.granule_size) value.0 in
      (omega (arith, range, product, pos), omega (arith, range, product, pos), value.1)

  -- Where a granule is not empty, `bytes_to_idx_t` and `bytes_to_granules_checked` agree, `no_block` standing
  -- for a failure.
  pub bytes_to_idx-agrees :
      (bytes : ℕ)
      → 0 < at.granule_size
      → bytes_to_idx at bytes
        ≡ elim (bytes_to_granules_checked at bytes) [ none ↦ no_block at | some g ↦ g ]
  unfolding bytes_to_idx bytes_to_granules_checked checked_add
  bytes_to_idx-agrees bytes pos =
      let same : bytes + at.granule_size - 1 ≡ bytes + (at.granule_size - 1) = omega arith in
      rw same (ground arith)

  -- Where the header has a granule, a block index that has a user index is got back from it.
  pub try_block_idx_from_user_idx-roundtrip :
      (total i u : ℕ)
      → 0 < header_granules at
      → try_user_idx_from_block_idx at total i ≡ some u
      → try_block_idx_from_user_idx at total u ≡ some i
  unfolding try_block_idx_from_user_idx try_user_idx_from_block_idx valid_block
  try_block_idx_from_user_idx-roundtrip total i u pos h =
      let value : (u ≡ i + header_granules at) × (fits at total i (block_size at) ≡ true) =
        ground arith in
      let back : i + header_granules at - header_granules at ≡ i = omega arith in
      rw (value.0, back, value.1) (ground arith)

  -- Where the header has a granule, a user index, at most the largest index, that has a block index is got
  -- back from it.
  pub try_user_idx_from_block_idx-roundtrip :
      (total u i : ℕ)
      → u ≤ at.index_max
      → 0 < header_granules at
      → try_block_idx_from_user_idx at total u ≡ some i
      → try_user_idx_from_block_idx at total i ≡ some u
  unfolding try_block_idx_from_user_idx try_user_idx_from_block_idx valid_block
  try_user_idx_from_block_idx-roundtrip total u i small pos h =
      let value : (u ≡ i + header_granules at) × (fits at total i (block_size at) ≡ true) =
        ground arith in
      rw (value.0, value.1) (ground (arith, value))

accepted :
    (current max_gb max_arena rounded r : ℕ)
    → accept_growth current max_gb max_arena rounded ≡ some r
    → (rounded ≡ r) × (current < r) × ((max_arena ≡ 0) ⊎ (r ≤ max_arena))
unfolding accept_growth
accepted current max_gb max_arena rounded r h = ground arith

needs : (a b c : ℕ) → checked_add a b ≡ some c → c ≡ a + b
unfolding checked_add
needs a b c e = ground arith

target_le : (current tn den need : ℕ) → need ≤ growth_target current tn den need
unfolding growth_target
target_le current tn den need = ground arith

-- Where `compute_growth` grants a size, it is larger than the current one, has room for what is
-- required, is a multiple of the granule, and does not exceed the largest arena, if one is set.
pub compute_growth-IsEnough :
    (current min_required gran num den max_gb max_arena r : ℕ)
    → compute_growth current min_required gran num den max_gb max_arena ≡ some r
    → (current < r)
      × (current + min_required ≤ r)
      × (r % gran ≡ 0)
      × ((max_arena ≡ 0) ⊎ (r ≤ max_arena))
unfolding compute_growth
compute_growth-IsEnough current min_required gran num den max_gb max_arena r h =
    elim (Option-cases (checked_mul current num)) [
      | inl e ↦ absurd (ground (arith, e))
      | inr (tn, e) ↦ elim (Option-cases (checked_add current min_required)) [
        | inl e2 ↦ absurd (ground (arith, e, e2))
        | inr (need, e2) ↦
            let target = growth_target current tn den need in
            elim (Option-cases (round_up_checked target gran)) [
              | inl e3 ↦ absurd (ground (arith, e, e2, e3))
              | inr (rounded, e3) ↦
                  let done : accept_growth current max_gb max_arena rounded ≡ some r =
                    ground (arith, e, e2, e3) in
                  let got = accepted current max_gb max_arena rounded r done in
                  let up = round_up_checked-least target gran rounded e3 in
                  let sum : need ≡ current + min_required = needs current min_required need e2 in
                  let above : need ≤ target = target_le current tn den need in
                  (got.1, omega (arith, got.0, up.0, sum, above), rw (sym got.0) up.2, got.2)
            ]
      ]
    ]
