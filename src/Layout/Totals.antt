-- ===== src/Layout/Totals.antt =====
-- Sums over the blocks of a layout: of parts, after a change of memory, and within the arena.
use netkeep80_persist_memory.Base.{
  ℕ, ◌+◌, ◌≤◌, ◌<◌, ◌≡◌, refl, List, [], ◌∷◌, ◌++◌, arith, head_or, length,
}
use netkeep80_persist_memory.Traits.{Traits}
use netkeep80_persist_memory.Memory.{Body}
use netkeep80_persist_memory.Layout.{
  IsTraits, Bodies, BlockOk, Chain, sum_of, free_of, allocated_of, used_of,
}
use netkeep80_persist_memory.Layout.Chain.{Chain-length}

pub sum_of-append :
    (at : Traits) (f : Body → ℕ) (m : Bodies) (xs ys : List ℕ)
    → sum_of at f m (xs ++ ys) ≡ sum_of at f m xs + sum_of at f m ys
sum_of-append at f m [] ys = omega arith
sum_of-append at f m (x ∷ xs) ys = omega (arith, sum_of-append at f m xs ys)

-- a free and an allocated block are counted once each
pub sum_of-free-allocated :
    (at : Traits) (m : Bodies) (xs : List ℕ)
    → sum_of at (free_of at) m xs + sum_of at (allocated_of at) m xs ≡ length xs
sum_of-free-allocated at m [] = refl
sum_of-free-allocated at m (x ∷ xs) = ground (arith, sum_of-free-allocated at m xs)

module _ {at : Traits} (t : IsTraits at) where
  -- a change of memory that keeps what the blocks of the chain add keeps the sum
  pub sum_of-frame :
      (f : Body → ℕ) (m m' : Bodies) (p : ℕ) (xs : List ℕ) (n e : ℕ)
      → ((j : ℕ) → head_or e xs ≤ j → j < e → f (m' j) ≡ f (m j))
      → Chain at m p xs n e
      → sum_of at f m' xs ≡ sum_of at f m xs
  sum_of-frame f m m' p [] n e same h = refl
  sum_of-frame f m m' p (x ∷ r) n e same h =
      let inside : x < e = omega (arith, Chain-length t m x r n e h.1, h.0.room, t.header_pos) in
      omega (
        arith,
        same x (omega arith) inside,
        sum_of-frame f m m' x r n e (λ j lo hi. same j (omega (arith, h.0.room)) hi) h.1,
      )

  used-block : (b : Body) (p i n e : ℕ) → BlockOk at b p i n e → i + used_of at b ≤ e
  used-block b p i n e h = ground (arith, h.sized, h.room)

  -- what is in use fits the granules of the chain
  pub used-le :
      (m : Bodies) (p : ℕ) (xs : List ℕ) (n e : ℕ)
      → Chain at m p xs n e
      → head_or e xs + sum_of at (used_of at) m xs ≤ e
  used-le m p [] n e h = omega arith
  used-le m p (x ∷ r) n e h =
      omega (arith, used-le m x r n e h.1, used-block (m x) p x (head_or n r) (head_or e r) h.0)
