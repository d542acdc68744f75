-- ===== src/Layout.antt =====
-- When an arena is well formed: the blocks stand one behind another in the order of `next_offset`,
-- each with its links, its state and its size, and the manager's counters agree with them. The
-- fields of the free tree play no part. A layout is the list of the blocks' indices.
pub mod Chain
pub mod Totals
pub mod Splice
pub mod Replace
pub mod Merge
pub mod Same
pub mod Walked
pub mod Settled
use netkeep80_persist_memory.Base.{
  ℕ, ◌+◌, ◌*◌, ◌/◌, ◌≤◌, ◌<◌, ◌≡◌, Bool, true, false, not, List, [], ◌∷◌, length, head_or, last_or,
  if◌then◌else◌,
}
use netkeep80_persist_memory.Traits.{Traits, no_block, block_size, header_granules}
use netkeep80_persist_memory.Node.{is_free, is_allocated}
use netkeep80_persist_memory.Memory.{Body, body, Arena}

-- what every instance of `AddressTraits` satisfies
pub record IsTraits (at : Traits) : Type 0 where
  pub header_pos : 0 < header_granules at
  pub block_fits_header : block_size at ≡ header_granules at * at.granule_size
  pub granule_pos : 0 < at.granule_size
  pub header_small : header_granules at + header_granules at + 1 ≤ at.index_max

abbrev pub Bodies : Type 0
Bodies = ℕ → Body

abbrev pub bodies : Arena → Bodies
bodies a j = body (a.blocks j)

module _ (at : Traits) where
  -- The size and owner of block `i`, which ends at `e`: a free block's weight counts all its
  -- granules, an allocated block's the data, which may leave granules over at its end.
  abbrev pub Sized : Bool → (weight root i e : ℕ) → Type 0
  Sized true weight root i e = (i + weight ≡ e) × (root ≡ 0)
  Sized false weight root i e = (i + header_granules at + weight ≤ e) × (root ≡ i)

  -- Block `i` behind block `p` and before block `n`, with `e` the granule where it ends.
  pub record BlockOk (b : Body) (p i n e : ℕ) : Type 0 where
    pub prev : b.prev_offset ≡ p
    pub next : b.next_offset ≡ n
    pub room : i + header_granules at ≤ e
    pub known : is_allocated b.node_type ≡ not (is_free b.node_type)
    pub sized : Sized (is_free b.node_type) b.weight b.root_offset i e

  -- The blocks of the list stand behind block `p`, before block `n`, and end at granule `e`.
  abbrev pub Chain : Bodies → (p : ℕ) → List ℕ → (n e : ℕ) → Type 0
  Chain m p [] n e = Unit {0}
  Chain m p (i ∷ r) n e = BlockOk (m i) p i (head_or n r) (head_or e r) × Chain m i r n e

  abbrev pub free_of : Body → ℕ
  free_of b = if is_free b.node_type then 1 else 0

  abbrev pub allocated_of : Body → ℕ
  allocated_of b = if is_free b.node_type then 0 else 1

  -- what a block adds to `used_size`
  abbrev pub used_of : Body → ℕ
  used_of b = header_granules at + (if is_free b.node_type then 0 else b.weight)

  abbrev pub sum_of : (Body → ℕ) → Bodies → List ℕ → ℕ
  sum_of f m [] = 0
  sum_of f m (i ∷ r) = f (m i) + sum_of f m r

  abbrev pub total_granules : Arena → ℕ
  total_granules a = a.header.total_size / at.granule_size

  -- The chain of the whole arena.
  pub record IsChained (a : Arena) (xs : List ℕ) : Type 0 where
    pub chain : Chain (bodies a) (no_block at) xs (no_block at) (total_granules a)
    pub fits : total_granules a ≤ at.index_max
    pub first : a.header.first_block_offset ≡ head_or (no_block at) xs
    pub last : a.header.last_block_offset ≡ last_or (no_block at) xs

  -- The counters of the manager's header.
  pub record IsCounted (a : Arena) (xs : List ℕ) : Type 0 where
    pub blocks : a.header.block_count ≡ length xs
    pub frees : a.header.free_count ≡ sum_of free_of (bodies a) xs
    pub allocs : a.header.alloc_count ≡ sum_of allocated_of (bodies a) xs
    pub used : a.header.used_size ≡ sum_of used_of (bodies a) xs

  pub record IsHeap (a : Arena) (xs : List ℕ) : Type 0 where
    pub chained : IsChained a xs
    pub counted : IsCounted a xs
