-- ===== src/Typed.antt =====
-- include/pmm/typed_manager_api.h, with the conversions of pointers that it uses from
-- include/pmm/forest_domain_mixin.inc, and the tree fields of a `pptr` from
-- include/pmm/persist_memory_manager.h. A `pptr` is its granule index, null is 0, and a raw pointer
-- is its byte offset from the base. `sizeof( T )` and `node_type_for_v<T>` stand for the type `T`.
pub mod Resolve
pub mod TreeField
pub mod Allocate
pub mod Answer
pub mod Destroy
use netkeep80_persist_memory.Base.{
  ℕ, ◌+◌, ◌-◌, ◌*◌, ◌/◌, ◌%◌, Bool, true, false, ◌&&◌, ◌||◌, not, Option, none, some, ◌==◌, ltb,
  if◌then◌else◌,
}
use netkeep80_persist_memory.Traits.{
  Traits, no_block, size_max, block_size, header_granules, to_index, sub_index,
}
use netkeep80_persist_memory.Node.{NodeType, is_allocated, is_known_node_type}
use netkeep80_persist_memory.Memory.{BlockHeader, Arena, modify}
use netkeep80_persist_memory.Checked.{try_user_ptr, try_block_idx_from_user_idx, valid_block}
use netkeep80_persist_memory.Manager.{PmmError, ok, invalid_pointer, overflow}
use netkeep80_persist_memory.State.{ManagerState}

-- what a call leaves and returns
pub record Returned {ℓ} (A : Type ℓ) : Type ℓ where
  pub state : ManagerState
  pub value : A

unfoldable pub returns {ℓ} : {A : Type ℓ} → A → ManagerState → Returned A
returns v s = record { state = s; value = v }

-- returns with `_last_error` set
unfoldable pub returns_error {ℓ} : {A : Type ℓ} → PmmError → A → ManagerState → Returned A
returns_error e v s = record { state = record s { last_error = e }; value = v }

-- a field of the block that was found, or else `ValueT{}`
unfoldable pub read_field : (BlockHeader → ℕ) → Arena → Option ℕ → ℕ
read_field getter a none = 0
read_field getter a (some i) = getter (a.blocks i)

unfoldable pub write_field : (BlockHeader → BlockHeader) → Option ℕ → ManagerState → ManagerState
write_field f none s = s
write_field f (some i) s = record s { arena = modify i f s.arena }

module _ (at : Traits) where
  -- `block_raw_ptr_from_pptr` and `block_raw_mut_ptr_from_pptr`, over a base that is not null
  unfoldable pub block_raw_ptr_from_pptr : ManagerState → ℕ → Option ℕ
  block_raw_ptr_from_pptr s p = elim (try_block_idx_from_user_idx at s.backend_size p) [
    | none ↦ none
    | some i ↦ if valid_block at s.backend_size i then some i else none
  ]

  unfoldable pub block_idx_from_pptr : ℕ → ℕ
  block_idx_from_pptr p = sub_index at p (header_granules at)

  unfoldable pub raw_user_ptr_from_pptr : (size_of : ℕ) → ManagerState → ℕ → Option ℕ
  raw_user_ptr_from_pptr size_of s p =
      if (p == 0) || not (s.initialized) then none else try_user_ptr at s.backend_size p size_of

  -- the test of a block that a `pptr` leads to, as `resolve_checked`, `make_pptr_from_raw` and
  -- `try_checked_block_from_pptr` have it
  unfoldable pub is_owned_block : BlockHeader → ℕ → Bool
  is_owned_block h blk_idx =
      is_allocated h.node_type && (h.root_offset == blk_idx) && is_known_node_type h.node_type

  unfoldable pub resolve_unchecked : (size_of : ℕ) → ManagerState → ℕ → Returned (Option ℕ)
  resolve_unchecked size_of s p =
      if (p == 0) || not (s.initialized)
      then returns none s
      else elim (raw_user_ptr_from_pptr size_of s p) [
        | none ↦ returns_error invalid_pointer none s
        | some raw ↦ returns_error ok (some raw) s
      ]

  unfoldable pub resolve_checked : (size_of : ℕ) → ManagerState → ℕ → Returned (Option ℕ)
  resolve_checked size_of s p =
      if (p == 0) || not (s.initialized)
      then returns none s
      else elim (block_raw_ptr_from_pptr s p) [
        | none ↦ returns_error invalid_pointer none s
        | some i ↦
            if not (is_owned_block (s.arena.blocks i) (block_idx_from_pptr p))
            then returns_error invalid_pointer none s
            else resolve_unchecked size_of s p
      ]

  unfoldable pub is_valid_ptr : (size_of : ℕ) → ManagerState → ℕ → Bool
  is_valid_ptr size_of s p = elim (resolve_checked size_of s p).value [
    | none ↦ false
    | some raw ↦ true
  ]

  unfoldable pub pptr_from_byte_offset : ManagerState → ℕ → Returned ℕ
  pptr_from_byte_offset s byte_off =
      if byte_off == 0
      then returns 0 s
      else if not (byte_off % at.granule_size == 0)
      then returns_error invalid_pointer 0 s
      else if ltb at.index_max (byte_off / at.granule_size)
      then returns_error overflow 0 s
      else returns (byte_off / at.granule_size) s

  -- `try_checked_block_from_pptr`
  unfoldable pub try_checked_block_from_pptr : ManagerState → ℕ → Returned (Option ℕ)
  try_checked_block_from_pptr s p =
      if (p == 0) || not (s.initialized)
      then returns none s
      else elim (block_raw_ptr_from_pptr s p) [
        | none ↦ returns_error invalid_pointer none s
        | some i ↦
            if not (is_owned_block (s.arena.blocks i) (block_idx_from_pptr p))
            then returns_error invalid_pointer none s
            else returns (some i) s
      ]

  unfoldable pub get_tree_field : (BlockHeader → ℕ) → ManagerState → ℕ → Returned ℕ
  get_tree_field getter s p =
      let checked : Returned (Option ℕ) = try_checked_block_from_pptr s p in
      returns (read_field getter s.arena checked.value) checked.state

  unfoldable pub set_tree_field :
      (ℕ → BlockHeader → BlockHeader) → ManagerState → ℕ → ℕ → ManagerState
  set_tree_field setter s p value =
      let checked : Returned (Option ℕ) = try_checked_block_from_pptr s p in
      write_field (setter value) checked.value checked.state

  -- `no_block` in the field is 0 outside
  unfoldable pub get_tree_idx_field : (BlockHeader → ℕ) → ManagerState → ℕ → Returned ℕ
  get_tree_idx_field getter s p =
      let v : Returned ℕ = get_tree_field getter s p in
      record v { value = if v.value == no_block at then 0 else v.value }

  unfoldable pub set_tree_idx_field :
      (ℕ → BlockHeader → BlockHeader) → ManagerState → ℕ → ℕ → ManagerState
  set_tree_idx_field setter s p val =
      set_tree_field setter s p (if val == 0 then no_block at else val)

  unfoldable pub get_tree_left_offset : ManagerState → ℕ → Returned ℕ
  get_tree_left_offset = get_tree_idx_field (λ h. h.left_offset)

  unfoldable pub set_tree_left_offset : ManagerState → ℕ → ℕ → ManagerState
  set_tree_left_offset = set_tree_idx_field (λ v h. record h { left_offset = v })

  unfoldable pub get_tree_right_offset : ManagerState → ℕ → Returned ℕ
  get_tree_right_offset = get_tree_idx_field (λ h. h.right_offset)

  unfoldable pub set_tree_right_offset : ManagerState → ℕ → ℕ → ManagerState
  set_tree_right_offset = set_tree_idx_field (λ v h. record h { right_offset = v })

  unfoldable pub get_tree_parent_offset : ManagerState → ℕ → Returned ℕ
  get_tree_parent_offset = get_tree_idx_field (λ h. h.parent_offset)

  unfoldable pub set_tree_parent_offset : ManagerState → ℕ → ℕ → ManagerState
  set_tree_parent_offset = set_tree_idx_field (λ v h. record h { parent_offset = v })

  unfoldable pub get_tree_weight : ManagerState → ℕ → Returned ℕ
  get_tree_weight = get_tree_field (λ h. h.weight)

  unfoldable pub set_tree_weight : ManagerState → ℕ → ℕ → ManagerState
  set_tree_weight = set_tree_field (λ v h. record h { weight = v })

  unfoldable pub get_tree_height : ManagerState → ℕ → Returned ℕ
  get_tree_height = get_tree_field (λ h. h.avl_height)

  unfoldable pub set_tree_height : ManagerState → ℕ → ℕ → ManagerState
  set_tree_height = set_tree_field (λ v h. record h { avl_height = v })
