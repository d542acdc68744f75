-- ===== src/Layout/Merge.antt =====
-- A block is taken into the free block before it, and what that does to a sum over the blocks.
use mathlib.Core.Path.{subst}
use netkeep80_persist_memory.Base.{
  ℕ, ◌+◌, ◌≤◌, ◌<◌, ◌≡◌, refl, sym, ap, not, ◌&&◌, List, [], ◌∷◌, ◌++◌, true, arith, ◌==◌, eq_refl,
  eq_of_ne, head_or, last_or, length, if◌then◌else◌,
}
use netkeep80_persist_memory.Traits.{Traits, no_block}
use netkeep80_persist_memory.Node.{is_free}
use netkeep80_persist_memory.Memory.{Body, body, zeroed}
use netkeep80_persist_memory.Layout.{IsTraits, Bodies, BlockOk, Chain, sum_of}
use netkeep80_persist_memory.Layout.Chain.{
  Chain-append, Chain-front, Chain-back, Chain-frame, Chain-relink, Chain-length,
}
use netkeep80_persist_memory.Layout.Totals.{sum_of-append, sum_of-frame}
use netkeep80_persist_memory.Layout.Splice.{next_test}

-- `m` with block `i` grown to weight `w` over the block `x` behind it
abbrev pub with_merged : Traits → (i x w : ℕ) → Bodies → Bodies
with_merged at i x w m j =
    let next = (m x).next_offset in
    if j == i
    then record (m i) { weight = w; next_offset = next }
    else if j == x
    then body zeroed
    else if (j == next) && not (next == no_block at)
    then record (m j) { prev_offset = i }
    else m j

module _ {at : Traits} (t : IsTraits at) (m m' : Bodies) (pre post : List ℕ) (i x w e : ℕ)
    (small : e ≤ at.index_max) (h : Chain at m (no_block at) (pre ++ i ∷ x ∷ post) (no_block at) e)
    (first_free : is_free (m i).node_type ≡ true) (new_end : i + w ≡ head_or e post)
    (changed : (j : ℕ) → j < e → m' j ≡ with_merged at i x w m j) where
  front : Chain at m (no_block at) pre i i
  front = Chain-front at m (no_block at) pre (i ∷ x ∷ post) (no_block at) e h

  back : Chain at m (last_or (no_block at) pre) (i ∷ x ∷ post) (no_block at) e
  back = Chain-back at m (no_block at) pre (i ∷ x ∷ post) (no_block at) e h

  inside : (i < x) × (x < head_or e post) × (head_or e post + length post ≤ e)
  inside = (
    omega (arith, back.0.room, t.header_pos),
    omega (arith, back.1.0.room, t.header_pos),
    Chain-length t m x post (no_block at) e back.1.1,
  )

  changed_at :
      (j : ℕ)
      → j < e
      → m' j ≡ (
          if j == i
          then record (m i) { weight = w; next_offset = head_or (no_block at) post }
          else if j == x
          then body zeroed
          else if j == head_or e post
          then record (m j) { prev_offset = i }
          else m j)
  changed_at j hj =
      ground
        (arith, changed j hj, back.1.0.next, next_test post (no_block at) e j inside.2 small hj)

  own_body : m' i ≡ record (m i) { weight = w; next_offset = head_or (no_block at) post }
  own_body = ground (arith, changed_at i (omega (arith, inside)))

  root_of_first : (m i).root_offset ≡ 0
  root_of_first = ground (arith, back.0.sized, first_free)

  merged_ok :
      BlockOk at
        (record (m i) { weight = w; next_offset = head_or (no_block at) post })
        (last_or (no_block at) pre)
        i
        (head_or (no_block at) post)
        (head_or e post)
  merged_ok = record {
    prev = back.0.prev;
    next = refl;
    room = omega (arith, back.0.room, inside);
    known = back.0.known;
    sized = rw first_free (new_end, root_of_first);
  }

  pub Chain-merge : Chain at m' (no_block at) (pre ++ i ∷ post) (no_block at) e
  Chain-merge =
      Chain-append at m' (no_block at) pre (i ∷ post) (no_block at) e
        (Chain-frame t m m' (no_block at) pre i i
          (λ j lo hi. ground (arith, changed_at j (omega (arith, inside)), inside)) front)
        (
          subst
              (λ b.
                BlockOk at b (last_or (no_block at) pre) i (head_or (no_block at) post)
                  (head_or e post))
              (sym own_body) merged_ok,
          Chain-relink t m m' x i post (no_block at) e
              (λ j lo hi. ground (arith, changed_at j hi, inside)) back.1.1,
        )

  pub sum_of-merge :
      (f : Body → ℕ)
      → ((b : Body) (p : ℕ) → f (record b { prev_offset = p }) ≡ f b)
      → sum_of at f m' (pre ++ i ∷ post) + f (m i) + f (m x)
        ≡ sum_of at f m (pre ++ i ∷ x ∷ post)
          + f (record (m i) { weight = w; next_offset = head_or (no_block at) post })
  sum_of-merge f blind = omega (
    arith,
    sum_of-append at f m' pre (i ∷ post),
    sum_of-append at f m pre (i ∷ x ∷ post),
    ap f own_body,
    sum_of-frame t f m m' (no_block at) pre i i
        (λ j lo hi. ground (arith, changed_at j (omega (arith, inside)), inside)) front,
    sum_of-frame t f m m' x post (no_block at) e
        (λ j lo hi. ground (arith, changed_at j hi, inside, blind (m j) i)) back.1.1,
  )

-- the index of the last block, after the block `x` before the blocks `post` was taken into `i`
pub last_or_merged :
    (post : List ℕ) (nb e i x : ℕ)
    → head_or e post + length post ≤ e
    → e ≤ nb
    → (if head_or nb post == nb then i else last_or x post) ≡ last_or i post
last_or_merged [] nb e i x h k = rw (eq_refl nb)
last_or_merged (y ∷ r) nb e i x h k = rw (eq_of_ne y nb (omega arith))
