-- ===== src/Allocator/Allocate.antt =====
-- include/pmm/allocator_policy.h, `allocate_from_block` on a well-formed arena.
use netkeep80_persist_memory.Base.{
  ℕ, ◌+◌, ◌≤◌, ◌≡◌, refl, true, inl, inr, some, List, [], ◌∷◌, ◌++◌, arith, Bool-cases,
  if◌then◌else◌,
}
use netkeep80_persist_memory.Traits.{Traits, header_granules}
use netkeep80_persist_memory.Memory.{Arena, modify}
use netkeep80_persist_memory.BlockState.{mark_as_allocated}
use netkeep80_persist_memory.FreeTree.Policy.{FreeBlockTreePolicy}
use netkeep80_persist_memory.Layout.{IsTraits, IsHeap}
use netkeep80_persist_memory.Allocator.{
  split_block, allocate_from_block, can_split, count_allocated,
}
use netkeep80_persist_memory.Allocator.Candidate
use netkeep80_persist_memory.Allocator.Candidate.{IsCandidate}
use netkeep80_persist_memory.Allocator.Split
use netkeep80_persist_memory.Allocator.Whole

-- the free block that is cut off a block of `weight` granules at `i`, if one is
abbrev pub cut_off : Traits → (i data_gran weight : ℕ) → List ℕ
cut_off at i data_gran weight =
    if can_split at weight (header_granules at + data_gran)
    then (i + (header_granules at + data_gran)) ∷ []
    else []

module _ {at : Traits} (t : IsTraits at) (ft : FreeBlockTreePolicy) (a : Arena) (pre : List ℕ)
    (i data_gran : ℕ) (post : List ℕ) (c : IsCandidate at a pre i data_gran post) where
  abbrev needed : ℕ
  needed = header_granules at + data_gran

  -- The call hands the block out: it does not fail, and it returns the arena after the branch that
  -- the weight decides.
  unfolded : allocate_from_block at ft a i data_gran ≡ (
    count_allocated at data_gran (
        if can_split at (a.blocks i).weight needed
        then split_block at ft i data_gran (ft.remove a i)
        else modify i (mark_as_allocated at data_gran i) (ft.remove a i)),
    some (i + header_granules at),
  )
  unfolding allocate_from_block
  unfolded = ground (
    arith,
    Candidate.in_range t a pre i data_gran post c,
    (ft.remove-SameBodies a i).same_bodies i,
    c.some_data,
    c.enough,
  )

  splits :
      can_split at (a.blocks i).weight needed ≡ true
      → needed + (header_granules at + 1) ≤ (a.blocks i).weight
  unfolding can_split
  splits h = ground arith

  -- Where block `i` of a well-formed arena is free, and its weight has room for its header and the
  -- positive number of data granules, the call returns the index of the data. The arena stays well
  -- formed: the layout has a new free block behind `i` if the rest is large enough for one.
  pub allocate_from_block-IsHeap :
      IsHeap at
        (allocate_from_block at ft a i data_gran).0
        (pre ++ i ∷ (cut_off at i data_gran (a.blocks i).weight ++ post))
      × ((allocate_from_block at ft a i data_gran).1 ≡ some (i + header_granules at))
  allocate_from_block-IsHeap = elim (Bool-cases (can_split at (a.blocks i).weight needed)) [
    | inl cut ↦
        rw (unfolded, cut) (Split.split-IsHeap t a pre i data_gran post c ft (splits cut), refl)
    | inr whole ↦ rw (unfolded, whole) (Whole.whole-IsHeap t a pre i data_gran post c ft, refl)
  ]
