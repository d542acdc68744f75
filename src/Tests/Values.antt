-- ===== src/Tests/Values.antt =====
-- The theorems on the arithmetic, on the states of a block and on the report, applied to values.
use netkeep80_persist_memory.Base.{
  ℕ, List, ◌+◌, ◌*◌, ◌%◌, ◌≡◌, ◌≤◌, ◌<◌, ◌⊎◌, refl, false, some, [], ◌∷◌, ◌++◌, arith, ltb, length,
  if◌then◌else◌,
}
use netkeep80_persist_memory.Traits.{
  default_traits, header_granules, block_size, block_header_min_size, block_header_core_size,
}
use netkeep80_persist_memory.Node.{generic}
use netkeep80_persist_memory.Memory.{BlockHeader}
use netkeep80_persist_memory.Diagnostics.{
  fresh, add, IsBounded, add-IsBounded, counter_mismatch, no_action, max_diagnostic_entries,
}
use netkeep80_persist_memory.Checked.{
  checked_add, checked_mul, fits_range, round_up_checked, compute_growth, growth_target,
  accept_growth, above_cap, bytes_to_granules_checked, try_block_idx_from_user_idx,
  try_user_idx_from_block_idx, valid_block, fits, checked_granule_offset,
}
use netkeep80_persist_memory.Checked.Bounds.{
  bytes_to_granules_checked-least, try_block_idx_from_user_idx-roundtrip, compute_growth-IsEnough,
}
use netkeep80_persist_memory.BlockState.{recover_state, verify_state}
use netkeep80_persist_memory.BlockState.States.{verify_state-recover_state}
use netkeep80_persist_memory.Crc.{
  compute_crc32, compute_image_crc32, accumulate, crc32_accumulate_byte, repeat_round, crc32_round,
  compute_image_crc32-zeroed,
}
use netkeep80_persist_memory.Tests.{test_block}

-- a block in use that names another owner
abbrev foreign_block : BlockHeader
foreign_block = test_block 5 99 0 20 0 generic

granules_100 : bytes_to_granules_checked default_traits 100 ≡ some 7
unfolding bytes_to_granules_checked checked_add
granules_100 = refl

bytes_to_granules_checked-least_example :
    (100 ≤ 7 * 16) × (7 * 16 < 100 + 16) × (7 ≤ default_traits.index_max)
bytes_to_granules_checked-least_example =
    bytes_to_granules_checked-least default_traits 100 7 (omega arith) granules_100

header_pos : 0 < header_granules default_traits
unfolding header_granules block_size block_header_min_size block_header_core_size
header_pos = omega arith

to_user : try_user_idx_from_block_idx default_traits 1024 20 ≡ some 22
unfolding try_user_idx_from_block_idx valid_block fits checked_granule_offset checked_mul fits_range
    checked_add header_granules block_size block_header_min_size block_header_core_size
to_user = refl

try_block_idx_from_user_idx-roundtrip_example :
    try_block_idx_from_user_idx default_traits 1024 22 ≡ some 20
try_block_idx_from_user_idx-roundtrip_example =
    try_block_idx_from_user_idx-roundtrip default_traits 1024 20 22 header_pos to_user

abbrev unlimited : ℕ
unlimited = 0

growth_run : compute_growth 1024 4096 16 5 4 64 unlimited ≡ some 5120
unfolding compute_growth growth_target accept_growth above_cap checked_add checked_mul
    round_up_checked
growth_run = refl

compute_growth-IsEnough_example :
    (1024 < 5120) × (1024 + 4096 ≤ 5120) × (5120 % 16 ≡ 0) × ((unlimited ≡ 0) ⊎ (5120 ≤ unlimited))
compute_growth-IsEnough_example =
    compute_growth-IsEnough 1024 4096 16 5 4 64 unlimited 5120 growth_run

verify_state-recover_state_example : verify_state (recover_state 10 foreign_block) 10 fresh ≡ fresh
verify_state-recover_state_example = verify_state-recover_state foreign_block 10 fresh

add-IsBounded_example :
    IsBounded (add counter_mismatch no_action 0 4 5 fresh)
    × ((add counter_mismatch no_action 0 4 5 fresh).ok ≡ false)
    × ((add counter_mismatch no_action 0 4 5 fresh).entries
        ≡ []
          ++ (if ltb 0 max_diagnostic_entries
              then record {
                type = counter_mismatch;
                action = no_action;
                block_index = 0;
                expected = 4;
                actual = 5;
              }
                ∷ []
              else []))
add-IsBounded_example =
    add-IsBounded counter_mismatch no_action 0 4 5 fresh
      (record { filled = refl; fits = omega arith })

abbrev image_start : List ℕ
image_start = 49 ∷ 50 ∷ []

abbrev image_end : List ℕ
image_end = 51 ∷ []

compute_image_crc32-zeroed_example :
    compute_image_crc32 (length image_start) (image_start ++ 1 ∷ 2 ∷ 3 ∷ 4 ∷ image_end)
    ≡ compute_crc32 (image_start ++ 0 ∷ 0 ∷ 0 ∷ 0 ∷ image_end)
compute_image_crc32-zeroed_example = compute_image_crc32-zeroed image_start image_end 1 2 3 4

-- The CRC-32 of the bytes of "123456789".
crc_of_digits : compute_crc32 (49 ∷ 50 ∷ 51 ∷ 52 ∷ 53 ∷ 54 ∷ 55 ∷ 56 ∷ 57 ∷ []) ≡ 3421780262
unfolding compute_crc32 accumulate crc32_accumulate_byte repeat_round crc32_round
crc_of_digits = refl
