-- ===== src/Layout/Settled.antt =====
-- A walk that puts the blocks of an arena in order one after another: `repair_linked_list` and
-- `rebuild_free_tree` of include/pmm/allocator_policy.h are such walks. A step writes the block that it
-- visits, and the tree's fields of others, and remembers the block visited last.
use mathlib.Core.Path.{subst}
use netkeep80_persist_memory.Base.{
  true, ℕ, ◌/◌, ◌≤◌, ◌<◌, ◌≡◌, ◌≢◌, refl, sym, ◌∙◌, List, [], ◌∷◌, arith, head_or, last_or,
}
use netkeep80_persist_memory.Traits.{Traits, no_block, size_max}
use netkeep80_persist_memory.Memory.{Body, Arena}
use netkeep80_persist_memory.Allocator.Repair.{Visit}
use netkeep80_persist_memory.Layout.{
  IsTraits, Bodies, bodies, BlockOk, Chain, sum_of, total_granules,
}
use netkeep80_persist_memory.Layout.Walked.{fold_left, visit, for_each_physical_block-visits}
use netkeep80_persist_memory.Walker.{for_each_physical_block}

-- a condition on the bodies at the indices of the list
abbrev pub AllOn : (ℕ → Body → Type 0) → Bodies → List ℕ → Type 0
AllOn R m [] = Unit {0}
AllOn R m (i ∷ r) = R i (m i) × AllOn R m r

-- the bodies of `m'` at the indices of the list are those of `m`
abbrev pub AgreesOn : Bodies → Bodies → List ℕ → Type 0
AgreesOn m m' xs = AllOn (λ i b. b ≡ m i) m' xs

module _ (at : Traits) (m m' : Bodies) where
  pub Chain-AgreesOn :
      (p : ℕ) (xs : List ℕ) (n e : ℕ)
      → AgreesOn m m' xs
      → Chain at m p xs n e
      → Chain at m' p xs n e
  Chain-AgreesOn p [] n e same h = tt
  Chain-AgreesOn p (i ∷ r) n e same h = (
    subst (λ b. BlockOk at b p i (head_or n r) (head_or e r)) (sym (same.0)) h.0,
    Chain-AgreesOn i r n e same.1 h.1,
  )

  pub sum_of-AgreesOn :
      (f : Body → ℕ) (xs : List ℕ) → AgreesOn m m' xs → sum_of at f m' xs ≡ sum_of at f m xs
  sum_of-AgreesOn f [] same = refl
  sum_of-AgreesOn f (i ∷ r) same = rw (same.0, sum_of-AgreesOn f r same.1) refl

-- the links that lead on are those of `m` at the indices of the list
abbrev pub NextOn : Bodies → Bodies → List ℕ → Type 0
NextOn m m' xs = AllOn (λ i b. b.next_offset ≡ (m i).next_offset) m' xs

abbrev with_next : Bodies → Bodies → Bodies
with_next m m' j = record (m j) { next_offset = (m' j).next_offset }

with_next-AgreesOn : (m m' : Bodies) (xs : List ℕ) → NextOn m m' xs → AgreesOn m (with_next m m') xs
with_next-AgreesOn m m' [] h = tt
with_next-AgreesOn m m' (i ∷ r) h = (rw (h.0) refl, with_next-AgreesOn m m' r h.1)

pub AllOn-map :
    {R Q : ℕ → Body → Type 0} (m : Bodies) (xs : List ℕ)
    → ((i : ℕ) (b : Body) → R i b → Q i b)
    → AllOn R m xs
    → AllOn Q m xs
AllOn-map m [] f h = tt
AllOn-map m (i ∷ r) f h = (f i (m i) h.0, AllOn-map m r f h.1)

pub fold_left-keeps {ℓ} :
    {S : Type ℓ} {A : Type 0} (f : S → A) (fn : ℕ → S → S)
    → ((i : ℕ) (s : S) → f (fn i s) ≡ f s)
    → (xs : List ℕ) (s : S) → f (fold_left fn xs s) ≡ f s
fold_left-keeps f fn keeps [] s = refl
fold_left-keeps f fn keeps (i ∷ r) s = fold_left-keeps f fn keeps r (fn i s) ∙ keeps i s

module _ {at : Traits} (t : IsTraits at) where
  -- The walk over an arena whose links that lead on are those of a chain.
  pub for_each_physical_block-follows {ℓ} :
      {S : Type ℓ} (arena_of : S → Arena) (fn : ℕ → S → S)
      → ((i : ℕ) (s : S) (j : ℕ)
          → ((arena_of (fn i s)).blocks j).next_offset ≡ ((arena_of s).blocks j).next_offset)
      → (m : Bodies) (xs : List ℕ) (s : S) → NextOn m (bodies (arena_of s)) xs
      → Chain at m (no_block at) xs (no_block at) (total_granules at (arena_of s))
      → total_granules at (arena_of s) ≤ at.index_max
      → (arena_of s).header.first_block_offset ≡ head_or (no_block at) xs
      → (arena_of s).header.total_size ≤ size_max
      → for_each_physical_block at arena_of (visit fn) s ≡ (true, fold_left fn xs s)
  for_each_physical_block-follows arena_of fn keeps m xs s same chain small first wide =
      let m' : Bodies = with_next m (bodies (arena_of s)) in
      for_each_physical_block-visits t arena_of fn keeps m' xs s (λ j. refl)
        (Chain-AgreesOn at m m' (no_block at) xs (no_block at) (total_granules at (arena_of s))
          (with_next-AgreesOn m (bodies (arena_of s)) xs same) chain)
        small first wide

-- What a step does: it visits a block of the chain `m` for which `R` holds, and then `Q` holds.
pub record Settles (at : Traits) (m : Bodies) (total : ℕ) (step : ℕ → Visit → Visit)
    (R Q : ℕ → Body → Type 0) : Type 0 where
  pub settles :
      (p i : ℕ) (r : List ℕ) (v : Visit)
      → Chain at m p (i ∷ r) (no_block at) (total / at.granule_size)
      → v.prev ≡ p
      → v.arena.header.total_size ≡ total
      → R i (bodies v.arena i)
      → Q i (bodies (step i v).arena i)
  pub leaves : (i j : ℕ) (v : Visit) → j ≢ i → bodies (step i v).arena j ≡ bodies v.arena j
  pub remembers : (i : ℕ) (v : Visit) → (step i v).prev ≡ i
  pub keeps_total :
      (i : ℕ) (v : Visit) → (step i v).arena.header.total_size ≡ v.arena.header.total_size

module _ {at : Traits} (t : IsTraits at) (m : Bodies) (total : ℕ) where
  abbrev end_of_arena : ℕ
  end_of_arena = total / at.granule_size

  AllOn-frame :
      (R : ℕ → Body → Type 0) (c c' : Bodies) (p : ℕ) (xs : List ℕ) (j : ℕ)
      → Chain at m p xs (no_block at) end_of_arena
      → j < head_or end_of_arena xs
      → ((k : ℕ) → k ≢ j → c' k ≡ c k)
      → AllOn R c xs
      → AllOn R c' xs
  AllOn-frame R c c' p [] j h below same all = tt
  AllOn-frame R c c' p (i ∷ r) j h below same all = (
    subst (R i) (sym (same i (λ e. omega (arith, e, below)))) all.0,
    AllOn-frame R c c' i r j h.1 (omega (arith, below, h.0.room)) same all.1,
  )

  module _ (step : ℕ → Visit → Visit) (R Q : ℕ → Body → Type 0)
      (s : Settles at m total step R Q) where
    -- the walk does not write a block that stands before those it visits
    fold-leaves :
        (p : ℕ) (xs : List ℕ) (j : ℕ) (v : Visit)
        → Chain at m p xs (no_block at) end_of_arena
        → j < head_or end_of_arena xs
        → bodies (fold_left step xs v).arena j ≡ bodies v.arena j
    fold-leaves p [] j v h below = refl
    fold-leaves p (i ∷ r) j v h below =
        fold-leaves i r j (step i v) h.1 (omega (arith, below, h.0.room))
        ∙ s.leaves i j v (λ e. omega (arith, e, below))

    pub fold-settles :
        (p : ℕ) (xs : List ℕ) (v : Visit)
        → Chain at m p xs (no_block at) end_of_arena
        → v.prev ≡ p
        → v.arena.header.total_size ≡ total
        → AllOn R (bodies v.arena) xs
        → AllOn Q (bodies (fold_left step xs v).arena) xs
    fold-settles p [] v h before same all = tt
    fold-settles p (i ∷ r) v h before same all =
        let beyond : i < head_or end_of_arena r = omega (arith, h.0.room, t.header_pos) in
        (
          subst (Q i) (sym (fold-leaves i r i (step i v) h.1 beyond))
              (s.settles p i r v h before same all.0),
          fold-settles i r (step i v) h.1 (s.remembers i v) (s.keeps_total i v ∙ same) (
              AllOn-frame R (bodies v.arena) (bodies (step i v).arena) i r i h.1 beyond
                (λ k other. s.leaves i k v other) all.1),
        )

    pub fold-prev :
        (p : ℕ) (xs : List ℕ) (v : Visit) → v.prev ≡ p → (fold_left step xs v).prev ≡ last_or p xs
    fold-prev p [] v h = h
    fold-prev p (i ∷ r) v h = fold-prev i r (step i v) (s.remembers i v)
