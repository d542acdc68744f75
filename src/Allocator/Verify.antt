-- ===== src/Allocator/Verify.antt =====
-- include/pmm/allocator_policy.h: the walks that check the chain of blocks and report what is wrong.
use netkeep80_persist_memory.Base.{ℕ, Bool, ◌&&◌, not, ◌==◌, if◌then◌else◌}
use netkeep80_persist_memory.Traits.{Traits, no_block}
use netkeep80_persist_memory.Node.{is_free}
use netkeep80_persist_memory.Memory.{BlockHeader, ManagerHeader, Arena}
use netkeep80_persist_memory.Diagnostics.{
  VerifyResult, add, prev_offset_mismatch, header_corruption, counter_mismatch,
  block_state_inconsistent, no_action,
}
use netkeep80_persist_memory.BlockState.{verify_state}
use netkeep80_persist_memory.Validation.{physical_block_total_granules}
use netkeep80_persist_memory.Walker.{continue, for_each_physical_block}
use netkeep80_persist_memory.Allocator.Repair.{Counters, accumulate_counters}

-- the report so far, and the block that the next one should name as its predecessor
pub record LinkCheck : Type 0 where
  pub result : VerifyResult
  pub expected_prev : ℕ

-- what is reported of a walk that did not reach the end
unfoldable pub report_broken_walk : Bool → VerifyResult → VerifyResult
report_broken_walk ok r = if ok then r else add header_corruption no_action 0 0 0 r

unfoldable pub check_prev : BlockHeader → ℕ → LinkCheck → LinkCheck
check_prev h idx c = record {
  result =
      if h.prev_offset == c.expected_prev
      then c.result
      else add prev_offset_mismatch no_action idx c.expected_prev h.prev_offset c.result;
  expected_prev = idx;
}

module _ (at : Traits) where
  unfoldable pub verify_linked_list : Arena → VerifyResult → VerifyResult
  verify_linked_list a r =
      let walked : Bool × LinkCheck =
        for_each_physical_block at (λ c. a) (λ idx c. (continue, check_prev (a.blocks idx) idx c))
          (record { result = r; expected_prev = no_block at }) in
      report_broken_walk walked.0 walked.1.result

  unfoldable pub counters_match : ManagerHeader → Counters → Bool
  counters_match h c =
      (h.block_count == c.block_count)
      && (h.free_count == c.free_count)
      && (h.alloc_count == c.alloc_count)
      && (h.used_size == c.used_gran)

  unfoldable pub verify_counters : Arena → VerifyResult → VerifyResult
  verify_counters a r =
      let counted : Bool × Counters = accumulate_counters at a in
      if not counted.0
      then add header_corruption no_action 0 0 0 r
      else if counters_match a.header counted.1
      then r
      else add counter_mismatch no_action 0 counted.1.block_count a.header.block_count r

  unfoldable pub check_state : Arena → ℕ → VerifyResult → VerifyResult
  check_state a idx r =
      let h : BlockHeader = a.blocks idx in
      let physical : ℕ = physical_block_total_granules at a.header idx h in
      let r1 : VerifyResult = verify_state h idx r in
      if is_free h.node_type && not (h.weight == physical)
      then add block_state_inconsistent no_action idx physical h.weight r1
      else r1

  unfoldable pub verify_block_states : Arena → VerifyResult → VerifyResult
  verify_block_states a r =
      let walked : Bool × VerifyResult =
        for_each_physical_block at (λ c. a) (λ idx c. (continue, check_state a idx c)) r in
      report_broken_walk walked.0 walked.1
