-- ===== src/Allocator/Candidate.antt =====
-- A free block of a well-formed arena that is about to be handed out: where it ends, and that no
-- index computed from it wraps.
use netkeep80_persist_memory.Base.{
  ℕ, ◌+◌, ◌≤◌, ◌<◌, ◌≡◌, refl, true, List, ◌∷◌, ◌++◌, arith, length, head_or, last_or,
}
use netkeep80_persist_memory.Traits.{Traits, no_block, header_granules, add_index, add_index-eq}
use netkeep80_persist_memory.Node.{is_free, is_allocated}
use netkeep80_persist_memory.Memory.{Body, body, Arena}
use netkeep80_persist_memory.Layout.{IsTraits, bodies, BlockOk, Chain, IsHeap, total_granules}
use netkeep80_persist_memory.Layout.Chain.{Chain-back, Chain-length}
use netkeep80_persist_memory.Allocator.Effect.{allocated_body}

-- Block `i` of a well-formed arena is free, and has room for `data_gran` granules of data.
pub record IsCandidate (at : Traits) (a : Arena) (pre : List ℕ) (i data_gran : ℕ) (post : List ℕ)
    : Type 0 where
  pub heap : IsHeap at a (pre ++ i ∷ post)
  pub is_free_block : is_free (a.blocks i).node_type ≡ true
  pub some_data : 0 < data_gran
  pub enough : header_granules at + data_gran ≤ (a.blocks i).weight

module _ {at : Traits} (t : IsTraits at) (a : Arena) (pre : List ℕ) (i data_gran : ℕ)
    (post : List ℕ) (c : IsCandidate at a pre i data_gran post) where
  abbrev pub total : ℕ
  total = total_granules at a

  pub here : Chain at (bodies a) (last_or (no_block at) pre) (i ∷ post) (no_block at) total
  here =
      Chain-back at (bodies a) (no_block at) pre (i ∷ post) (no_block at) total c.heap.chained.chain

  -- where the block ends
  pub end_of : i + (a.blocks i).weight ≡ head_or total post
  end_of = ground (arith, here.0.sized, c.is_free_block)

  pub post_in : head_or total post + length post ≤ total
  post_in = Chain-length t (bodies a) i post (no_block at) total here.1

  -- no index wraps
  pub in_range :
      (i + (a.blocks i).weight ≤ at.index_max)
      × (add_index at (header_granules at) data_gran ≡ header_granules at + data_gran)
      × (add_index at i (header_granules at) ≡ i + header_granules at)
  in_range =
      let low : i + (a.blocks i).weight ≤ at.index_max =
        omega (arith, end_of, post_in, c.heap.chained.fits) in
      (
        low,
        add_index-eq at (header_granules at) data_gran (omega (arith, c.enough)),
        add_index-eq at i (header_granules at) (omega (arith, c.enough)),
      )

  abbrev pub new : ℕ
  new = i + (header_granules at + data_gran)

  -- the block that is handed out, in a chain where `e` is its end and the block behind `n`
  abbrev pub given_body : (n : ℕ) → Body
  given_body n = allocated_body data_gran i n (body (a.blocks i))

  pub given_body-BlockOk :
      (n e : ℕ)
      → i + header_granules at + data_gran ≤ e
      → BlockOk at (given_body n) (last_or (no_block at) pre) i n e
  unfolding is_free is_allocated
  given_body-BlockOk n e h = record {
    prev = here.0.prev;
    next = refl;
    room = omega arith;
    known = refl;
    sized = (h, refl);
  }
