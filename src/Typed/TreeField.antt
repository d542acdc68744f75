-- ===== src/Typed/TreeField.antt =====
-- include/pmm/persist_memory_manager.h: the tree fields of the block that a `pptr` leads to.
use netkeep80_persist_memory.Base.{
  ℕ, ◌≡◌, refl, ap, ◌∙◌, true, false, not, ◌||◌, Option, some, arith, ◌==◌, eq_refl, if◌then◌else◌,
}
use netkeep80_persist_memory.Traits.{Traits, no_block}
use netkeep80_persist_memory.Memory.{BlockHeader, modify}
use netkeep80_persist_memory.State.{ManagerState}
use netkeep80_persist_memory.Typed.{
  read_field, write_field, Returned, returns, returns_error, block_raw_ptr_from_pptr,
  block_idx_from_pptr, is_owned_block, try_checked_block_from_pptr, get_tree_field, set_tree_field,
  get_tree_idx_field, set_tree_idx_field, get_tree_left_offset, set_tree_left_offset,
  get_tree_right_offset, get_tree_parent_offset,
}

-- what a write of an index to a field and a read of it give
abbrev pub outside : Traits → ℕ → ℕ
outside at v = if v == no_block at then 0 else v

module _ (at : Traits) (s : ManagerState) (p i : ℕ)
    (leads : (try_checked_block_from_pptr at s p).value ≡ some i) where
  checked :
      (((p == 0) || not (s.initialized)) ≡ false)
      × (block_raw_ptr_from_pptr at s p ≡ some i)
      × (is_owned_block at (s.arena.blocks i) (block_idx_from_pptr at p) ≡ true)
  unfolding try_checked_block_from_pptr returns returns_error
  checked = (ground arith, ground arith, ground arith)

  abbrev written : (BlockHeader → BlockHeader) → ManagerState
  written f = record s { arena = modify i f s.arena }

  checked-now : try_checked_block_from_pptr at s p ≡ returns (some i) s
  unfolding try_checked_block_from_pptr
  checked-now = rw (checked.0, checked.1, checked.2) refl

  -- a write that leaves the type and the owner does not change where the `pptr` leads
  checked-written :
      (f : BlockHeader → BlockHeader)
      → is_owned_block at (f (s.arena.blocks i)) (block_idx_from_pptr at p)
        ≡ is_owned_block at (s.arena.blocks i) (block_idx_from_pptr at p)
      → try_checked_block_from_pptr at (written f) p ≡ returns (some i) (written f)
  unfolding try_checked_block_from_pptr block_raw_ptr_from_pptr
  checked-written f keeps = rw (checked.0, checked.1, eq_refl i, keeps, checked.2) refl

  set_tree_field-written :
      (setter : ℕ → BlockHeader → BlockHeader) (v : ℕ)
      → set_tree_field at setter s p v ≡ written (setter v)
  unfolding set_tree_field returns write_field
  set_tree_field-written setter v =
      ap (λ (c : Returned (Option ℕ)). write_field (setter v) c.value c.state) checked-now

  get_tree_field-now :
      (getter : BlockHeader → ℕ) → (get_tree_field at getter s p).value ≡ getter (s.arena.blocks i)
  unfolding get_tree_field returns read_field
  get_tree_field-now getter =
      ap (λ (c : Returned (Option ℕ)). read_field getter s.arena c.value) checked-now

  get_tree_field-written :
      (getter : BlockHeader → ℕ) (f : BlockHeader → BlockHeader)
      → is_owned_block at (f (s.arena.blocks i)) (block_idx_from_pptr at p)
        ≡ is_owned_block at (s.arena.blocks i) (block_idx_from_pptr at p)
      → (get_tree_field at getter (written f) p).value ≡ getter (f (s.arena.blocks i))
  unfolding get_tree_field returns read_field
  get_tree_field-written getter f keeps =
      ap (λ (c : Returned (Option ℕ)). read_field getter (written f).arena c.value)
        (checked-written f keeps)
      ∙ ap (λ b. getter (if b then f (s.arena.blocks i) else s.arena.blocks i)) (eq_refl i)

  -- a read of a field after a write
  get-set :
      (getter : BlockHeader → ℕ) (setter : ℕ → BlockHeader → BlockHeader) (v : ℕ)
      → is_owned_block at (setter v (s.arena.blocks i)) (block_idx_from_pptr at p)
        ≡ is_owned_block at (s.arena.blocks i) (block_idx_from_pptr at p)
      → (get_tree_field at getter (set_tree_field at setter s p v) p).value
        ≡ getter (setter v (s.arena.blocks i))
  get-set getter setter v keeps =
      rw (set_tree_field-written setter v) (get_tree_field-written getter (setter v) keeps)

  translated : (v : ℕ) → outside at (if v == 0 then no_block at else v) ≡ outside at v
  translated v = ground (arith, eq_refl (no_block at))

  -- Where a `pptr` leads to a block in use of a known type that owns itself, the index written to its left
  -- link is read back, with `no_block` read as 0, and the right link and the link to the parent stay.
  pub get_tree_left_offset-set_tree_left_offset :
      (v : ℕ)
      → ((get_tree_left_offset at (set_tree_left_offset at s p v) p).value ≡ outside at v)
        × ((get_tree_right_offset at (set_tree_left_offset at s p v) p).value
            ≡ (get_tree_right_offset at s p).value)
        × ((get_tree_parent_offset at (set_tree_left_offset at s p v) p).value
            ≡ (get_tree_parent_offset at s p).value)
  unfolding get_tree_left_offset set_tree_left_offset get_tree_right_offset get_tree_parent_offset
      get_tree_idx_field set_tree_idx_field is_owned_block
  get_tree_left_offset-set_tree_left_offset v =
      let w : ℕ = if v == 0 then no_block at else v in
      let set_left : ℕ → BlockHeader → BlockHeader = λ x h. record h { left_offset = x } in
      (
        rw (get-set (λ h. h.left_offset) set_left w refl) (translated v),
        rw (get-set (λ h. h.right_offset) set_left w refl, get_tree_field-now (λ h. h.right_offset))
            refl,
        rw
            (
              get-set (λ h. h.parent_offset) set_left w refl,
              get_tree_field-now (λ h. h.parent_offset),
            )
            refl,
      )
