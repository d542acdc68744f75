-- ===== src/Walker.antt =====
-- include/pmm/arena_internals.h, `for_each_physical_block`: the walk along `next_offset` through the
-- blocks of an arena. The visitor's captured variables and the arena that it may change are the
-- state `S`. The source counts its steps against `total_size / granule_size + 1`: that count is
-- what the recursion goes down on, so no fuel is added.
use netkeep80_persist_memory.Base.{
  ℕ, zero, suc, ◌+◌, ◌/◌, Bool, true, false, ◌&&◌, not, ◌==◌, leb, if◌then◌else◌,
}
use netkeep80_persist_memory.Traits.{Traits, no_block, block_size}
use netkeep80_persist_memory.Memory.{Arena}
use netkeep80_persist_memory.Checked.{fits}

-- `enum class WalkControl`; a visitor that returns a `bool` says `continue` or `fail`.
pub data WalkControl : Type 0 where
  continue stop_ok fail : WalkControl

module _ (at : Traits) where
  -- what the loop does after the visit of block `idx`: go on to `next`, or return
  unfoldable pub follow {ℓ} :
      {S : Type ℓ} → (ℕ → S → Bool × S) → WalkControl → (idx next : ℕ) → S → Bool × S
  follow go stop_ok idx next s = (true, s)
  follow go fail idx next s = (false, s)
  follow go continue idx next s =
      if not (next == no_block at) && leb next idx then (false, s) else go next s

  unfoldable pub walk {ℓ} :
      {S : Type ℓ}
      → (S → Arena)
      → (ℕ → S → WalkControl × S)
      → (total : ℕ) → (steps_left : ℕ) → (idx : ℕ) → S
      → Bool × S
  walk arena_of fn total zero idx s = (idx == no_block at, s)
  walk arena_of fn total (suc n) idx s =
      let go = walk arena_of fn total n in
      let visited = fn idx s in
      if idx == no_block at
      then (true, s)
      else if not (fits at total idx (block_size at))
      then (false, s)
      else follow go visited.0 idx ((arena_of visited.1).blocks idx).next_offset visited.1

  unfoldable pub for_each_physical_block {ℓ} :
      {S : Type ℓ} → (S → Arena) → (ℕ → S → WalkControl × S) → S → Bool × S
  for_each_physical_block arena_of fn s =
      let hdr = (arena_of s).header in
      walk arena_of fn hdr.total_size (hdr.total_size / at.granule_size + 1) hdr.first_block_offset
        s
