-- ===== src/Validation/Pointers.antt =====
-- include/pmm/types.h, `is_canonical_user_ptr`: the checks of a pointer, on the blocks in use of a
-- well-formed arena.
use native.Mathlib.Nat.{le-div_iff_mul-le, mul-mod_left, mul-div_cancel}
use netkeep80_persist_memory.Base.{
  ℕ, zero, suc, ◌+◌, ◌-◌, ◌*◌, ◌/◌, ◌%◌, ◌≤◌, ◌<◌, ◌≡◌, ◌≢◌, refl, ap, ◌∙◌, true, false, not, List,
  ◌∷◌, ◌++◌, arith, ltb, leb, eq_refl, eq_of_ne, leb_when, head_or, last_or, some,
}
use netkeep80_persist_memory.Traits.{Traits, no_block, size_max, block_size, header_granules}
use netkeep80_persist_memory.Node.{is_free, is_allocated}
use netkeep80_persist_memory.Memory.{Arena}
use netkeep80_persist_memory.Layout.{IsTraits, bodies, Chain, IsHeap, total_granules}
use netkeep80_persist_memory.Layout.Chain.{Chain-back, Chain-length}
use netkeep80_persist_memory.Validation.{
  validate_user_ptr, is_canonical_allocated_block_header, is_canonical_user_ptr,
}
use netkeep80_persist_memory.Validation.Canonical.{valid_block_of, is_block_header_linked-IsHeap}
use netkeep80_persist_memory.Manager.{header_from_ptr, find_block_from_user_ptr}

ltb_not : (a b : ℕ) → b ≤ a → ltb a b ≡ false
ltb_not a b h = ground arith

leb_not : (a b : ℕ) → b < a → leb a b ≡ false
leb_not a b h = ground arith

product_pos : (a b : ℕ) → a ≢ 0 → 0 < b → 0 < a * b
product_pos zero b h k = absurd (h refl)
product_pos (suc a) b h k = omega arith

-- Block `i` of a well-formed arena is in use and stands behind the manager's header.
pub record IsUserBlock (at : Traits) (manager_header_size : ℕ) (a : Arena) (pre : List ℕ) (i : ℕ)
    (post : List ℕ) : Type 0 where
  pub heap : IsHeap at a (pre ++ i ∷ post)
  pub in_use : is_free (a.blocks i).node_type ≡ false
  pub some_data : (a.blocks i).weight ≢ 0
  pub behind_header : block_size at + manager_header_size ≤ i * at.granule_size
  pub header_inside :
      header_granules at * at.granule_size + manager_header_size ≤ a.header.total_size
  pub wide : a.header.total_size ≤ size_max

module _ {at : Traits} (t : IsTraits at) (manager_header_size : ℕ) (a : Arena) (pre : List ℕ)
    (i : ℕ) (post : List ℕ) (u : IsUserBlock at manager_header_size a pre i post) where
  abbrev total : ℕ
  total = a.header.total_size

  here :
      Chain at (bodies a) (last_or (no_block at) pre) (i ∷ post) (no_block at) (total_granules at a)
  here =
      Chain-back at (bodies a) (no_block at) pre (i ∷ post) (no_block at) (total_granules at a)
        u.heap.chained.chain

  -- the data end within the arena
  data_range :
      ((a.blocks i).root_offset ≡ i)
      × (i * at.granule_size + block_size at + (a.blocks i).weight * at.granule_size ≤ total)
  data_range =
      let len = Chain-length t (bodies a) i post (no_block at) (total_granules at a) here.1 in
      let sized : (i + header_granules at + (a.blocks i).weight
            ≤ head_or (total_granules at a) post)
          × ((a.blocks i).root_offset ≡ i) =
        ground (arith, here.0.sized, u.in_use) in
      let room : i + header_granules at + (a.blocks i).weight ≤ total / at.granule_size =
        omega (arith, len, sized) in
      (sized.1, omega (arith, (le-div_iff_mul-le t.granule_pos).0 room, t.block_fits_header))

  index_back :
      (i * at.granule_size / at.granule_size ≡ i) × (i * at.granule_size % at.granule_size ≡ 0)
  index_back = (mul-div_cancel i t.granule_pos, mul-mod_left i at.granule_size)

  -- The header of the block is accepted as that of an allocated block.
  pub is_canonical_allocated-IsUserBlock :
      is_canonical_allocated_block_header at manager_header_size a total (i * at.granule_size)
      ≡ true
  unfolding is_canonical_allocated_block_header
  is_canonical_allocated-IsUserBlock =
      let valid = valid_block_of t a u.wide pre i post u.heap.chained in
      let range = data_range in
      let allocated : is_allocated (a.blocks i).node_type ≡ true = here.0.known ∙ ap not u.in_use in
      let weight_bound : (a.blocks i).weight ≤ size_max / at.granule_size =
        (le-div_iff_mul-le t.granule_pos).1 (omega (arith, range, u.wide)) in
      rw
        (
          index_back.0,
          index_back.1,
          leb_when i at.index_max (omega (arith, valid)),
          valid.2,
          allocated,
          range.0,
          eq_refl i,
          eq_of_ne (a.blocks i).weight 0 u.some_data,
          leb_when (header_granules at * at.granule_size + manager_header_size) total
              u.header_inside,
          eq_refl total,
          is_block_header_linked-IsHeap t a u.wide pre i post u.heap,
          leb_when (i * at.granule_size) (total - block_size at) (omega (arith, range)),
          leb_when (a.blocks i).weight (size_max / at.granule_size) weight_bound,
          leb_when ((a.blocks i).weight * at.granule_size)
              (total - (i * at.granule_size + block_size at)) (omega (arith, range)),
        )
        refl

  module _ (base_addr : ℕ) (mapped : 0 < base_addr) where
    -- the address of the block's data
    abbrev pub user_ptr : ℕ
    user_ptr = base_addr + (i * at.granule_size + block_size at)

    user_ptr-offset :
        (user_ptr - base_addr ≡ i * at.granule_size + block_size at)
        × (user_ptr - base_addr - block_size at ≡ i * at.granule_size)
    user_ptr-offset = (omega arith, omega arith)

    some_bytes : 0 < (a.blocks i).weight * at.granule_size
    some_bytes = product_pos (a.blocks i).weight at.granule_size u.some_data t.granule_pos

    validate_user_ptr-IsUserBlock :
        validate_user_ptr at base_addr total user_ptr
          (block_size at + manager_header_size + block_size at)
        ≡ true
    unfolding validate_user_ptr
    validate_user_ptr-IsUserBlock =
        let min_offset = block_size at + manager_header_size + block_size at in
        let range = data_range in
        rw
          (
            user_ptr-offset.1,
            user_ptr-offset.0,
            index_back.1,
            eq_of_ne user_ptr 0 (λ e. omega (arith, e, mapped)),
            eq_of_ne base_addr 0 (λ e. omega (arith, e, mapped)),
            ltb_not min_offset (block_size at) (omega arith),
            ltb_not total min_offset (omega (arith, range, u.behind_header)),
            ltb_not user_ptr base_addr (omega arith),
            leb_not total (i * at.granule_size + block_size at) (omega (arith, range, some_bytes)),
            ltb_not (i * at.granule_size + block_size at) min_offset
                (omega (arith, u.behind_header)),
          )
          refl

    -- Where the base is not null, the pointer to the data of a user block is accepted, and leads back to
    -- the block.
    pub find_block_from_user_ptr-IsUserBlock :
        find_block_from_user_ptr at manager_header_size a base_addr user_ptr ≡ some i
    unfolding find_block_from_user_ptr header_from_ptr is_canonical_user_ptr
    find_block_from_user_ptr-IsUserBlock =
        rw
          (
            validate_user_ptr-IsUserBlock, user_ptr-offset.1, is_canonical_allocated-IsUserBlock,
            index_back.0,
          )
          refl
