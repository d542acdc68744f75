-- ===== src/Checked.antt =====
-- include/pmm/arena_internals.h and include/pmm/types.h: arithmetic on `size_t` that reports
-- overflow, conversions between bytes and granules, and the growth policy. A `nullopt` is `none`.
pub mod Bounds
use Prim.Native.Nat.{bit_and}
use netkeep80_persist_memory.Base.{
  ℕ, ◌+◌, ◌-◌, ◌*◌, ◌/◌, ◌%◌, Bool, true, false, ◌||◌, ◌&&◌, not, Option, none, some, ◌==◌, ltb,
  leb, if◌then◌else◌,
}
use netkeep80_persist_memory.Traits.{Traits, no_block, size_max, block_size, header_granules}

abbrev pub ◌>>=◌ : {A B : Type 0} → Option A → (A → Option B) → Option B
none >>= f = none
some a >>= f = f a

infixl 5 ◌>>=◌
unfoldable pub checked_add : ℕ → ℕ → Option ℕ
checked_add a b = if ltb (size_max - b) a then none else some (a + b)

unfoldable pub checked_mul : ℕ → ℕ → Option ℕ
checked_mul a b =
    if (a == 0) || (b == 0) then some 0 else if ltb (size_max / b) a then none else some (a * b)

unfoldable pub fits_range : ℕ → ℕ → ℕ → Bool
unfolding checked_add
fits_range off len total = elim (checked_add off len) [ none ↦ false | some end ↦ leb end total ]

-- `a & ( a - 1 )` in `size_t`
abbrev pub is_power_of_two : ℕ → Bool
is_power_of_two a = not (a == 0) && (bit_and a (a - 1) == 0)

unfoldable pub round_up_checked : ℕ → ℕ → Option ℕ
unfolding checked_add
round_up_checked v a =
    if not (is_power_of_two a) then none else (checked_add v (a - 1) >>= λ p. some ((p / a) * a))

-- `compute_growth`: the larger of what the ratio gives and what is needed, before rounding
unfoldable pub growth_target : (current tn den need : ℕ) → ℕ
growth_target current tn den need =
    let grown : ℕ = if ltb current (tn / den) then tn / den else current in
    if ltb grown need then need else grown

-- whether a size is above the configured number of gigabytes; a number that is no `size_t` stops too
unfoldable pub above_cap : ℕ → ℕ → Bool
above_cap max_gb new_size =
    not (max_gb == 0)
    && elim (checked_mul max_gb (1024 * 1024 * 1024)) [ none ↦ true | some cap ↦ ltb cap new_size ]

-- `compute_growth`: the tests of the rounded size
unfoldable pub accept_growth : (current max_gb max_arena rounded : ℕ) → Option ℕ
accept_growth current max_gb max_arena rounded =
    if leb rounded current
    then none
    else if above_cap max_gb rounded
    then none
    else if not (max_arena == 0) && ltb max_arena rounded
    then none
    else some rounded

-- `growth_numerator`, `growth_denominator` and `max_memory_gb` are `num`, `den` and `max_gb`.
unfoldable pub compute_growth : (current min_required gran num den max_gb max_arena : ℕ) → Option ℕ
compute_growth current min_required gran num den max_gb max_arena =
    if not (is_power_of_two gran) || (den == 0) then none else do
      tn ← checked_mul current num
      need ← checked_add current min_required
      rounded ← round_up_checked (growth_target current tn den need) gran
      accept_growth current max_gb max_arena rounded

module _ (at : Traits) where
  open at use {index_max, granule_size}

  unfoldable pub checked_granule_offset : ℕ → Option ℕ
  unfolding checked_mul
  checked_granule_offset idx = checked_mul idx granule_size

  unfoldable pub byte_off_to_idx_checked : ℕ → Option ℕ
  byte_off_to_idx_checked byte_off =
      if not (byte_off % granule_size == 0)
      then none
      else (let idx : ℕ = byte_off / granule_size in
          if ltb index_max idx || (idx == no_block at) then none else some idx)

  unfoldable pub max_arena_size : ℕ
  max_arena_size =
      if ltb (size_max / granule_size) index_max then size_max else index_max * granule_size

  unfoldable pub bytes_to_granules_checked : ℕ → Option ℕ
  unfolding checked_add
  bytes_to_granules_checked bytes =
      if bytes == 0
      then some 0
      else (checked_add bytes (granule_size - 1) >>= λ plus.
          let g : ℕ = plus / granule_size in if ltb index_max g then none else some g)

  -- `bytes_to_idx_t`: `no_block` stands for failure
  unfoldable pub bytes_to_idx : ℕ → ℕ
  bytes_to_idx bytes =
      if bytes == 0
      then 0
      else if ltb (size_max - (granule_size - 1)) bytes
      then no_block at
      else (let granules : ℕ = (bytes + granule_size - 1) / granule_size in
          if ltb index_max granules then no_block at else granules)

  unfoldable pub compute_growth_for_traits : ℕ → ℕ → ℕ → ℕ → ℕ → Option ℕ
  unfolding compute_growth max_arena_size byte_off_to_idx_checked
  compute_growth_for_traits current min_required num den max_gb =
      compute_growth current min_required granule_size num den max_gb max_arena_size >>= λ target.
      elim (byte_off_to_idx_checked target) [ none ↦ none | some i ↦ some target ]

  -- `BasicArenaView::fits`, over an arena of `total` bytes
  unfoldable pub fits : ℕ → ℕ → ℕ → Bool
  unfolding checked_granule_offset fits_range
  fits total idx len = elim (checked_granule_offset idx) [
    | none ↦ false
    | some off ↦ fits_range off len total
  ]

  -- `BasicArenaView::granule_offset`
  unfoldable pub granule_offset : ℕ → ℕ → Option ℕ
  unfolding checked_granule_offset
  granule_offset total idx =
      checked_granule_offset idx >>= λ off. if ltb total off then none else some off

  -- `BasicArenaView::valid_block`, over a base that is not null
  unfoldable pub valid_block : ℕ → ℕ → Bool
  unfolding fits
  valid_block total idx = not (idx == no_block at) && fits total idx (block_size at)

  -- `BasicArenaView::try_user_ptr`: the byte offset of the pointer, over a base that is not null
  unfoldable pub try_user_ptr : ℕ → ℕ → ℕ → Option ℕ
  unfolding checked_granule_offset fits_range
  try_user_ptr total user_idx required_bytes =
      if (user_idx == 0) || (user_idx == no_block at)
      then none
      else (checked_granule_offset user_idx >>= λ off.
          if leb total off
          then none
          else if not (required_bytes == 0) && not (fits_range off required_bytes total)
          then none
          else some off)

  -- `BasicArenaView::try_user_idx_from_raw`, with addresses for the base and the pointer
  unfoldable pub try_user_idx_from_raw : ℕ → ℕ → ℕ → Option ℕ
  unfolding byte_off_to_idx_checked
  try_user_idx_from_raw total base_addr raw_addr =
      if (base_addr == 0) || (raw_addr == 0)
      then none
      else if ltb raw_addr base_addr
      then none
      else if leb total (raw_addr - base_addr)
      then none
      else byte_off_to_idx_checked (raw_addr - base_addr)

  -- `BasicArenaView::try_block_idx_from_user_idx`
  unfoldable pub try_block_idx_from_user_idx : ℕ → ℕ → Option ℕ
  unfolding fits
  try_block_idx_from_user_idx total user_idx =
      if (user_idx == 0) || ltb user_idx (header_granules at)
      then none
      else if not (fits total (user_idx - header_granules at) (block_size at))
      then none
      else some (user_idx - header_granules at)

  -- `BasicArenaView::try_user_idx_from_block_idx`
  unfoldable pub try_user_idx_from_block_idx : ℕ → ℕ → Option ℕ
  unfolding valid_block
  try_user_idx_from_block_idx total blk_idx =
      if not (valid_block total blk_idx)
      then none
      else if ltb (index_max - header_granules at) blk_idx
      then none
      else some (blk_idx + header_granules at)
