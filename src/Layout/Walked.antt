-- ===== src/Layout/Walked.antt =====
-- The walk of include/pmm/arena_internals.h over a chained arena.
use native.Mathlib.Nat.{le-div_iff_mul-le}
use mathlib.Core.Path.{subst}
use netkeep80_persist_memory.Base.{
  sym, ◌∙◌, ℕ, zero, suc, ◌+◌, ◌*◌, ◌/◌, ◌≤◌, ◌<◌, ◌≡◌, refl, Bool, true, false, List, [], ◌∷◌,
  arith, length, head_or, ◌==◌, eq_refl, eq_of_ne, not, ◌&&◌, leb,
}
use netkeep80_persist_memory.Traits.{Traits, no_block, size_max, block_size, header_granules}
use netkeep80_persist_memory.Memory.{Arena}
use netkeep80_persist_memory.Checked.{
  checked_add, checked_mul, checked_granule_offset, fits_range, fits,
}
use netkeep80_persist_memory.Walker.{WalkControl, continue, follow, walk, for_each_physical_block}
use netkeep80_persist_memory.Layout.{IsTraits, Bodies, bodies, Chain, IsChained, total_granules}
use netkeep80_persist_memory.Layout.Chain.{Chain-length}

-- `fn` at each index of the list in turn
abbrev pub fold_left {ℓ} : {S : Type ℓ} → (ℕ → S → S) → List ℕ → S → S
fold_left fn [] s = s
fold_left fn (i ∷ r) s = fold_left fn r (fn i s)

-- a visitor that always goes on
abbrev pub visit {ℓ} : {S : Type ℓ} → (ℕ → S → S) → ℕ → S → WalkControl × S
visit fn i s = (continue, fn i s)

module _ {at : Traits} (t : IsTraits at) where
  -- the byte arithmetic of a block whose header ends within the whole granules of the arena
  pub byte_range :
      (total i : ℕ)
      → i + header_granules at ≤ total / at.granule_size
      → i * at.granule_size + block_size at ≤ total
  byte_range total i h = omega (arith, (le-div_iff_mul-le t.granule_pos).0 h, t.block_fits_header)

  pub fits_block :
      (total i : ℕ)
      → total ≤ size_max
      → i + header_granules at ≤ total / at.granule_size
      → fits at total i (block_size at) ≡ true
  unfolding fits checked_granule_offset checked_mul fits_range checked_add
  fits_block total i small h =
      let range = byte_range total i h in
      let index_ok : i ≤ size_max / at.granule_size =
        (le-div_iff_mul-le t.granule_pos).1 (omega (arith, range)) in
      ground (arith, range, index_ok, t.granule_pos)

  no_step_back : (i x : ℕ) → i < x → leb x i ≡ false
  no_step_back i x h = ground arith

  and_false : (b : Bool) → (b && false) ≡ false
  and_false true = refl
  and_false false = refl

  -- behind a block stands none, or one further on
  goes_on :
      (m : Bodies) (p i : ℕ) (r : List ℕ) (e : ℕ)
      → Chain at m p (i ∷ r) (no_block at) e
      → (not ((m i).next_offset == no_block at) && leb (m i).next_offset i) ≡ false
  goes_on m p i [] e h = ground (arith, h.0.next, eq_refl (no_block at))
  goes_on m p i (x ∷ r) e h =
      rw (h.0.next, no_step_back i x (omega (arith, h.0.room, t.header_pos)), and_false)

  -- the walk with a visitor that may change the arena, but keeps the links that lead on
  walk-fold {ℓ} :
      {S : Type ℓ} (arena_of : S → Arena) (fn : ℕ → S → S)
      → ((i : ℕ) (s : S) (j : ℕ)
          → ((arena_of (fn i s)).blocks j).next_offset ≡ ((arena_of s).blocks j).next_offset)
      → (m : Bodies) (total fuel p : ℕ) (xs : List ℕ) (s : S)
      → ((j : ℕ) → ((arena_of s).blocks j).next_offset ≡ (m j).next_offset)
      → Chain at m p xs (no_block at) (total / at.granule_size)
      → total / at.granule_size ≤ at.index_max
      → total ≤ size_max
      → length xs ≤ fuel
      → walk at arena_of (visit fn) total fuel (head_or (no_block at) xs) s
        ≡ (true, fold_left fn xs s)
  unfolding walk follow
  walk-fold arena_of fn keeps m total zero p [] s same h small wide enough =
      ground (arith, eq_refl (no_block at))
  walk-fold arena_of fn keeps m total (suc fuel) p [] s same h small wide enough =
      ground (arith, eq_refl (no_block at))
  walk-fold arena_of fn keeps m total zero p (i ∷ r) s same h small wide enough =
      absurd (omega arith)
  walk-fold arena_of fn keeps m total (suc fuel) p (i ∷ r) s same h small wide enough =
      let len = Chain-length t m i r (no_block at) (total / at.granule_size) h.1 in
      let room : i + header_granules at ≤ total / at.granule_size = omega (arith, len, h.0.room) in
      let is_block : (i == no_block at) ≡ false =
        eq_of_ne i (no_block at) (λ e. omega (arith, e, room, small, t.header_pos)) in
      let goes : (not ((m i).next_offset == no_block at) && leb (m i).next_offset i) ≡ false =
        goes_on m p i r (total / at.granule_size) h in
      let kept : (j : ℕ) → ((arena_of (fn i s)).blocks j).next_offset ≡ (m j).next_offset =
        λ j. keeps i s j ∙ same j in
      let rest =
        walk-fold arena_of fn keeps m total fuel i r (fn i s) kept h.1 small wide
          (omega (arith, enough)) in
      rw (is_block, fits_block total i wide room, kept i, goes, h.0.next) rest

  -- The walk over an arena of which `m` has the links that lead on, and is a chain.
  pub for_each_physical_block-visits {ℓ} :
      {S : Type ℓ} (arena_of : S → Arena) (fn : ℕ → S → S)
      → ((i : ℕ) (s : S) (j : ℕ)
          → ((arena_of (fn i s)).blocks j).next_offset ≡ ((arena_of s).blocks j).next_offset)
      → (m : Bodies) (xs : List ℕ) (s : S)
      → ((j : ℕ) → ((arena_of s).blocks j).next_offset ≡ (m j).next_offset)
      → Chain at m (no_block at) xs (no_block at) (total_granules at (arena_of s))
      → total_granules at (arena_of s) ≤ at.index_max
      → (arena_of s).header.first_block_offset ≡ head_or (no_block at) xs
      → (arena_of s).header.total_size ≤ size_max
      → for_each_physical_block at arena_of (visit fn) s ≡ (true, fold_left fn xs s)
  unfolding for_each_physical_block
  for_each_physical_block-visits arena_of fn keeps m xs s same chain small first wide =
      let total : ℕ = (arena_of s).header.total_size in
      let len =
        Chain-length t m (no_block at) xs (no_block at) (total_granules at (arena_of s)) chain in
      subst
        (λ k.
          walk at arena_of (visit fn) total (total / at.granule_size + 1) k s
          ≡ (true, fold_left fn xs s))
        (sym first)
        (walk-fold arena_of fn keeps m total (total / at.granule_size + 1) (no_block at) xs s same
          chain small wide (omega (arith, len)))

  -- The walk over a chained arena, whose size is a `size_t`, with a visitor that always goes on and leaves
  -- the arena, succeeds and visits the blocks of the layout in their order, each once.
  pub for_each_physical_block-fold {ℓ} :
      {S : Type ℓ} (a : Arena) (fn : ℕ → S → S) (xs : List ℕ) (s : S)
      → IsChained at a xs
      → a.header.total_size ≤ size_max
      → for_each_physical_block at (λ r. a) (visit fn) s ≡ (true, fold_left fn xs s)
  for_each_physical_block-fold a fn xs s h wide =
      for_each_physical_block-visits (λ r. a) fn (λ i r j. refl) (bodies a) xs s (λ j. refl) h.chain
        h.fits h.first wide
