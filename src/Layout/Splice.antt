-- ===== src/Layout/Splice.antt =====
-- Two changes of a chain: a new block is cut off the end of a block, and a block is taken into the
-- one before it. Each comes with what it does to a sum over the blocks.
use mathlib.Core.Path.{subst}
use netkeep80_persist_memory.Base.{
  ℕ, ◌+◌, ◌≤◌, ◌<◌, ◌≡◌, refl, sym, ap, not, ◌&&◌, List, [], ◌∷◌, ◌++◌, arith, ◌==◌, eq_refl,
  eq_of_ne, head_or, last_or, length, if◌then◌else◌,
}
use netkeep80_persist_memory.Traits.{Traits, no_block, header_granules}
use netkeep80_persist_memory.Node.{free, is_free, is_allocated}
use netkeep80_persist_memory.Memory.{Body}
use netkeep80_persist_memory.Layout.{IsTraits, Bodies, BlockOk, Chain, sum_of}
use netkeep80_persist_memory.Layout.Chain.{
  Chain-append, Chain-front, Chain-back, Chain-frame, Chain-relink, Chain-length,
}
use netkeep80_persist_memory.Layout.Totals.{sum_of-append, sum_of-frame}

-- a free block between two others
abbrev pub free_body : (weight prev next : ℕ) → Body
free_body weight prev next = record {
  weight = weight;
  root_offset = 0;
  prev_offset = prev;
  next_offset = next;
  node_type = free;
}

-- `m` with block `i` changed to `b`, and block `new` of `w` granules between it and what followed
abbrev pub with_new_block : Traits → (i new w : ℕ) → Body → Bodies → Bodies
with_new_block at i new w b m j =
    let next = (m i).next_offset in
    if j == i
    then b
    else if j == new
    then free_body w i next
    else if (j == next) && not (next == no_block at)
    then record (m j) { prev_offset = new }
    else m j

-- among the indices of an arena that ends at `e`, the guarded test for the block behind
pub next_test :
    (post : List ℕ) (nb e j : ℕ)
    → head_or e post + length post ≤ e
    → e ≤ nb
    → j < e
    → ((j == head_or nb post) && not (head_or nb post == nb)) ≡ (j == head_or e post)
next_test [] nb e j h k l = ground arith
next_test (x ∷ r) nb e j h k l = ground arith

module _ {at : Traits} (t : IsTraits at) (m m' : Bodies) (pre post : List ℕ) (i new w e : ℕ)
    (b : Body) (small : e ≤ at.index_max)
    (h : Chain at m (no_block at) (pre ++ i ∷ post) (no_block at) e)
    (new_ok : BlockOk at b (last_or (no_block at) pre) i new new)
    (new_room : new + header_granules at ≤ head_or e post) (new_end : new + w ≡ head_or e post)
    (changed : (j : ℕ) → j < e → m' j ≡ with_new_block at i new w b m j) where
  front : Chain at m (no_block at) pre i i
  front = Chain-front at m (no_block at) pre (i ∷ post) (no_block at) e h

  back : Chain at m (last_or (no_block at) pre) (i ∷ post) (no_block at) e
  back = Chain-back at m (no_block at) pre (i ∷ post) (no_block at) e h

  post_in : head_or e post + length post ≤ e
  post_in = Chain-length t m i post (no_block at) e back.1

  inside : (i < new) × (new < head_or e post) × (head_or e post ≤ e)
  inside = omega (arith, new_ok.room, new_room, post_in, t.header_pos)

  changed_at :
      (j : ℕ)
      → j < e
      → m' j ≡ (
          if j == i
          then b
          else if j == new
          then free_body w i (head_or (no_block at) post)
          else if j == head_or e post
          then record (m j) { prev_offset = new }
          else m j)
  changed_at j hj =
      ground (arith, changed j hj, back.0.next, next_test post (no_block at) e j post_in small hj)

  new_body : m' new ≡ free_body w i (head_or (no_block at) post)
  new_body = ground (arith, changed_at new (omega (arith, inside)), inside)

  own_body : m' i ≡ b
  own_body = ground (arith, changed_at i (omega (arith, inside)))

  pub Chain-insert : Chain at m' (no_block at) (pre ++ i ∷ new ∷ post) (no_block at) e
  unfolding is_free is_allocated
  Chain-insert =
      Chain-append at m' (no_block at) pre (i ∷ new ∷ post) (no_block at) e
        (Chain-frame t m m' (no_block at) pre i i
          (λ j lo hi. ground (arith, changed_at j (omega (arith, inside)), inside)) front)
        (
          subst (λ x. BlockOk at x (last_or (no_block at) pre) i new new) (sym own_body) new_ok,
          (
            subst (λ x. BlockOk at x i new (head_or (no_block at) post) (head_or e post))
                (sym new_body)
                (record {
                  prev = refl;
                  next = refl;
                  room = new_room;
                  known = refl;
                  sized = (new_end, refl);
                }),
            Chain-relink t m m' i new post (no_block at) e
                (λ j lo hi. ground (arith, changed_at j hi, inside)) back.1,
          ),
        )

  -- a sum over the blocks, of a value that looks neither at the links
  pub sum_of-insert :
      (f : Body → ℕ)
      → ((x : Body) (p : ℕ) → f (record x { prev_offset = p }) ≡ f x)
      → sum_of at f m' (pre ++ i ∷ new ∷ post) + f (m i)
        ≡ sum_of at f m (pre ++ i ∷ post) + f b + f (free_body w i (head_or (no_block at) post))
  sum_of-insert f blind = omega (
    arith,
    sum_of-append at f m' pre (i ∷ new ∷ post),
    sum_of-append at f m pre (i ∷ post),
    ap f own_body,
    ap f new_body,
    sum_of-frame t f m m' (no_block at) pre i i
        (λ j lo hi. ground (arith, changed_at j (omega (arith, inside)), inside)) front,
    sum_of-frame t f m m' i post (no_block at) e
        (λ j lo hi. ground (arith, changed_at j hi, inside, blind (m j) new)) back.1,
  )

-- the index of the last block, after a block `new` was put before the blocks `post`
pub last_or_new :
    (post : List ℕ) (nb e i new : ℕ)
    → head_or e post + length post ≤ e
    → e ≤ nb
    → (if head_or nb post == nb then new else last_or i post) ≡ last_or new post
last_or_new [] nb e i new h k = rw (eq_refl nb)
last_or_new (x ∷ r) nb e i new h k = rw (eq_of_ne x nb (omega arith))
