-- ===== src/Layout/Replace.antt =====
-- A change of one block's own fields, its links and its end kept, and what it does to a sum.
use mathlib.Core.Path.{subst}
use netkeep80_persist_memory.Base.{
  ℕ, ◌+◌, ◌≤◌, ◌<◌, ◌≡◌, sym, ap, List, ◌∷◌, ◌++◌, arith, ◌==◌, head_or, last_or, length,
  if◌then◌else◌,
}
use netkeep80_persist_memory.Traits.{Traits, no_block}
use netkeep80_persist_memory.Memory.{Body}
use netkeep80_persist_memory.Layout.{IsTraits, Bodies, BlockOk, Chain, sum_of}
use netkeep80_persist_memory.Layout.Chain.{
  Chain-append, Chain-front, Chain-back, Chain-frame, Chain-length,
}
use netkeep80_persist_memory.Layout.Totals.{sum_of-append, sum_of-frame}

module _ {at : Traits} (t : IsTraits at) (m m' : Bodies) (pre post : List ℕ) (i e : ℕ) (b : Body)
    (h : Chain at m (no_block at) (pre ++ i ∷ post) (no_block at) e)
    (new_ok : BlockOk at b
      (last_or (no_block at) pre)
      i
      (head_or (no_block at) post)
      (head_or e post))
    (changed : (j : ℕ) → j < e → m' j ≡ (if j == i then b else m j)) where
  front : Chain at m (no_block at) pre i i
  front = Chain-front at m (no_block at) pre (i ∷ post) (no_block at) e h

  back : Chain at m (last_or (no_block at) pre) (i ∷ post) (no_block at) e
  back = Chain-back at m (no_block at) pre (i ∷ post) (no_block at) e h

  inside : (i < head_or e post) × (head_or e post + length post ≤ e)
  inside =
      (omega (arith, new_ok.room, t.header_pos), Chain-length t m i post (no_block at) e back.1)

  own_body : m' i ≡ b
  own_body = ground (arith, changed i (omega (arith, inside)))

  pub Chain-replace : Chain at m' (no_block at) (pre ++ i ∷ post) (no_block at) e
  Chain-replace =
      Chain-append at m' (no_block at) pre (i ∷ post) (no_block at) e
        (Chain-frame t m m' (no_block at) pre i i
          (λ j lo hi. ground (arith, changed j (omega (arith, inside)))) front)
        (
          subst
              (λ x.
                BlockOk at x (last_or (no_block at) pre) i (head_or (no_block at) post)
                  (head_or e post))
              (sym own_body) new_ok,
          Chain-frame t m m' i post (no_block at) e
              (λ j lo hi. ground (arith, changed j hi, inside)) back.1,
        )

  pub sum_of-replace :
      (f : Body → ℕ)
      → sum_of at f m' (pre ++ i ∷ post) + f (m i) ≡ sum_of at f m (pre ++ i ∷ post) + f b
  sum_of-replace f = omega (
    arith,
    sum_of-append at f m' pre (i ∷ post),
    sum_of-append at f m pre (i ∷ post),
    ap f own_body,
    sum_of-frame t f m m' (no_block at) pre i i
        (λ j lo hi. ground (arith, changed j (omega (arith, inside)))) front,
    sum_of-frame t f m m' i post (no_block at) e (λ j lo hi. ground (arith, changed j hi, inside))
        back.1,
  )
