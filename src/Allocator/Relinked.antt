-- ===== src/Allocator/Relinked.antt =====
-- include/pmm/allocator_policy.h, `repair_linked_list`: the links back are written anew.
use netkeep80_persist_memory.Base.{
  ℕ, ◌≤◌, ◌≡◌, refl, false, List, sym, ◌∙◌, head_or, ◌==◌, eq_refl, eq_of_ne, inl, inr, Bool-cases,
  Bool, ap,
}
use netkeep80_persist_memory.Traits.{Traits, no_block, size_max}
use netkeep80_persist_memory.Node.{is_free}
use netkeep80_persist_memory.Memory.{BlockHeader, Body, Arena, modify}
use netkeep80_persist_memory.BlockState.{repair_prev_offset}
use netkeep80_persist_memory.Layout.{IsTraits, Bodies, bodies, Chain, total_granules}
use netkeep80_persist_memory.Layout.Walked.{fold_left}
use netkeep80_persist_memory.Layout.Settled.{
  AllOn, AllOn-map, Settles, fold-settles, fold_left-keeps, for_each_physical_block-follows,
}
use netkeep80_persist_memory.Allocator.Repair.{Visit, repair_step, repair_linked_list}

-- What a damaged block must still have of the block that it was: the link that leads on, the type
-- and, in use, the size of its data. The link back, the owner and the weight of a free block may be lost.
pub record IsRepairable (b x : Body) : Type 0 where
  pub next : x.next_offset ≡ b.next_offset
  pub type : x.node_type ≡ b.node_type
  pub weight : is_free b.node_type ≡ false → x.weight ≡ b.weight

-- a repairable block whose link back is right
pub record IsRelinked (b x : Body) : Type 0 where
  pub repairable : IsRepairable b x
  pub prev : x.prev_offset ≡ b.prev_offset

unfoldable pub relink : ℕ → Visit → Visit
relink idx v = record { arena = modify idx (repair_prev_offset v.prev) v.arena; prev = idx }

relink-next :
    (i : ℕ) (v : Visit) (j : ℕ)
    → ((relink i v).arena.blocks j).next_offset ≡ (v.arena.blocks j).next_offset
unfolding relink repair_prev_offset
relink-next i v j = elim (Bool-cases (j == i)) [ inl e ↦ rw e refl | inr e ↦ rw e refl ]

relink-header : (i : ℕ) (v : Visit) → (relink i v).arena.header ≡ v.arena.header
unfolding relink
relink-header i v = refl

-- a header without its link back
abbrev unlinked : BlockHeader → BlockHeader
unlinked h = record h { prev_offset = 0 }

relink-unlinked :
    (j i : ℕ) (v : Visit) → unlinked ((relink i v).arena.blocks j) ≡ unlinked (v.arena.blocks j)
unfolding relink repair_prev_offset
relink-unlinked j i v = elim (Bool-cases (j == i)) [ inl e ↦ rw e refl | inr e ↦ rw e refl ]

-- headers that differ in the link back at most
same_but_prev :
    (x y : BlockHeader) → unlinked x ≡ unlinked y → x ≡ record y { prev_offset = x.prev_offset }
same_but_prev x y e = ap (λ (h : BlockHeader). record h { prev_offset = x.prev_offset }) e

module _ (at : Traits) (m : Bodies) (total : ℕ) where
  relink-Settles : Settles at m total relink (λ i. IsRepairable (m i)) (λ i. IsRelinked (m i))
  unfolding relink repair_prev_offset
  relink-Settles = record {
    settles = λ p i r v h before same rep. rw (eq_refl i) (record {
      repairable = record { next = rep.next; type = rep.type; weight = rep.weight };
      prev = before ∙ sym (h.0.prev);
    });
    leaves = λ i j v other. rw (eq_of_ne j i other) refl;
    remembers = λ i v. refl;
    keeps_total = λ i v. refl;
  }

module _ {at : Traits} (t : IsTraits at) (m : Bodies) (a : Arena) (xs : List ℕ)
    (chain : Chain at m (no_block at) xs (no_block at) (total_granules at a))
    (fits : total_granules at a ≤ at.index_max)
    (first : a.header.first_block_offset ≡ head_or (no_block at) xs)
    (wide : a.header.total_size ≤ size_max)
    (damage : AllOn (λ i. IsRepairable (m i)) (bodies a) xs) where
  start : Visit
  start = record { arena = a; prev = no_block at }

  relinked : repair_linked_list at a ≡ (fold_left relink xs start).arena
  unfolding repair_linked_list repair_step relink start
  relinked =
      ap (λ (r : Bool × Visit). r.1.arena)
        (for_each_physical_block-follows t (λ (v : Visit). v.arena) relink relink-next m xs start
          (AllOn-map {R = λ i. IsRepairable (m i)} {Q = λ i b. b.next_offset ≡ (m i).next_offset}
            (bodies a) xs (λ i b h. h.next) damage)
          chain fits first wide)

  -- Where the links that lead on, the types and the sizes in use are those of a chain, which starts at
  -- the first block and ends with the arena, the arena's size is a `size_t` and its granules have an
  -- index, `repair_linked_list` writes the chain's links back at every block of it. Of every block header
  -- all but the link back stays, and so does the manager's header.
  pub repair_linked_list-IsRelinked :
      (j : ℕ)
      → AllOn (λ i. IsRelinked (m i)) (bodies (repair_linked_list at a)) xs
        × ((repair_linked_list at a).blocks j ≡ record (a.blocks j) {
          prev_offset = ((repair_linked_list at a).blocks j).prev_offset;
        })
        × ((repair_linked_list at a).header ≡ a.header)
  unfolding start
  repair_linked_list-IsRelinked j = rw relinked (
    fold-settles t m a.header.total_size relink (λ i. IsRepairable (m i)) (λ i. IsRelinked (m i))
        (relink-Settles at m a.header.total_size) (no_block at) xs start chain refl refl damage,
    (same_but_prev ((fold_left relink xs start).arena.blocks j) (a.blocks j) (
        fold_left-keeps (λ (v : Visit). unlinked (v.arena.blocks j)) relink (relink-unlinked j) xs
          start)),
    fold_left-keeps (λ (v : Visit). v.arena.header) relink relink-header xs start,
  )
