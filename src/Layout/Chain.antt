-- ===== src/Layout/Chain.antt =====
-- Taking a chain apart and putting it together, and what a change of memory leaves of it.
use mathlib.Core.Path.{subst}
use netkeep80_persist_memory.Base.{
  ℕ, ◌+◌, ◌≤◌, ◌<◌, ◌≡◌, refl, sym, List, [], ◌∷◌, ◌++◌, arith, ◌==◌, eq_refl, head_or, last_or,
  length, if◌then◌else◌,
}
use netkeep80_persist_memory.Traits.{Traits}
use netkeep80_persist_memory.Layout.{IsTraits, Bodies, BlockOk, Chain}

module _ (at : Traits) where
  -- two chains in a row
  pub Chain-append :
      (m : Bodies) (p : ℕ) (xs ys : List ℕ) (n e : ℕ)
      → Chain at m p xs (head_or n ys) (head_or e ys)
      → Chain at m (last_or p xs) ys n e
      → Chain at m p (xs ++ ys) n e
  Chain-append m p [] ys n e h k = k
  Chain-append m p (x ∷ []) ys n e h k = (h.0, k)
  Chain-append m p (x ∷ y ∷ r) ys n e h k = (h.0, Chain-append m x (y ∷ r) ys n e h.1 k)

  pub Chain-front :
      (m : Bodies) (p : ℕ) (xs ys : List ℕ) (n e : ℕ)
      → Chain at m p (xs ++ ys) n e
      → Chain at m p xs (head_or n ys) (head_or e ys)
  Chain-front m p [] ys n e h = tt
  Chain-front m p (x ∷ []) ys n e h = (h.0, tt)
  Chain-front m p (x ∷ y ∷ r) ys n e h = (h.0, Chain-front m x (y ∷ r) ys n e h.1)

  pub Chain-back :
      (m : Bodies) (p : ℕ) (xs ys : List ℕ) (n e : ℕ)
      → Chain at m p (xs ++ ys) n e
      → Chain at m (last_or p xs) ys n e
  Chain-back m p [] ys n e h = h
  Chain-back m p (x ∷ r) ys n e h = Chain-back m x r ys n e h.1

  -- a block with another predecessor
  BlockOk-relink :
      (m m' : Bodies) (p q x n e : ℕ)
      → m' x ≡ (if x == x then record (m x) { prev_offset = q } else m x)
      → BlockOk at (m x) p x n e
      → BlockOk at (m' x) q x n e
  BlockOk-relink m m' p q x n e same h =
      let moved : m' x ≡ record (m x) { prev_offset = q } = rw (eq_refl x) at same in
      subst (λ b. BlockOk at b q x n e) (sym moved)
        (record { prev = refl; next = h.next; room = h.room; known = h.known; sized = h.sized })

module _ {at : Traits} (t : IsTraits at) where
  -- a chain begins where its first block does, and has a granule for each block at least
  pub Chain-length :
      (m : Bodies) (p : ℕ) (xs : List ℕ) (n e : ℕ)
      → Chain at m p xs n e
      → head_or e xs + length xs ≤ e
  Chain-length m p [] n e h = omega arith
  Chain-length m p (x ∷ r) n e h = omega (arith, Chain-length m x r n e h.1, h.0.room, t.header_pos)

  -- a change of memory outside the chain's granules leaves the chain
  pub Chain-frame :
      (m m' : Bodies) (p : ℕ) (xs : List ℕ) (n e : ℕ)
      → ((j : ℕ) → head_or e xs ≤ j → j < e → m' j ≡ m j)
      → Chain at m p xs n e
      → Chain at m' p xs n e
  Chain-frame m m' p [] n e same h = tt
  Chain-frame m m' p (x ∷ r) n e same h =
      let inside : x < e = omega (arith, Chain-length m x r n e h.1, h.0.room, t.header_pos) in
      (
        subst (λ b. BlockOk at b p x (head_or n r) (head_or e r))
            (sym (same x (omega arith) inside)) h.0,
        Chain-frame m m' x r n e (λ j lo hi. same j (omega (arith, h.0.room)) hi) h.1,
      )

  -- a chain is put behind another block: its first block names that block as its predecessor
  pub Chain-relink :
      (m m' : Bodies) (p q : ℕ) (xs : List ℕ) (n e : ℕ)
      → ((j : ℕ)
          → head_or e xs ≤ j
          → j < e
          → m' j ≡ (if j == head_or e xs then record (m j) { prev_offset = q } else m j))
      → Chain at m p xs n e
      → Chain at m' q xs n e
  Chain-relink m m' p q [] n e same h = tt
  Chain-relink m m' p q (x ∷ r) n e same h =
      let inside : x < e = omega (arith, Chain-length m x r n e h.1, h.0.room, t.header_pos) in
      (
        BlockOk-relink at m m' p q x (head_or n r) (head_or e r) (same x (omega arith) inside) h.0,
        Chain-frame m m' x r n e
            (λ j lo hi. ground (arith, same j (omega (arith, h.0.room)) hi, h.0.room, t.header_pos))
            h.1,
      )
