-- ===== src/Typed/Allocate.antt =====
-- include/pmm/typed_manager_api.h: allocation, deallocation and reallocation through a `pptr`, and
-- `make_pptr_from_raw` of include/pmm/forest_domain_mixin.inc. A type `T` is given by its size and its
-- node type; `base_addr` is the address of the base.
use netkeep80_persist_memory.Base.{
  ℕ, ◌+◌, ◌-◌, ◌*◌, ◌/◌, ◌%◌, Bool, ◌&&◌, ◌||◌, not, Option, none, some, ◌==◌, ltb, if◌then◌else◌,
}
use netkeep80_persist_memory.Traits.{
  Traits, no_block, size_max, block_size, header_granules, add_index,
}
use netkeep80_persist_memory.Node.{NodeType, is_allocated, can_be_deleted_from_pap}
use netkeep80_persist_memory.Memory.{Arena, modify}
use netkeep80_persist_memory.Checked.{
  bytes_to_granules_checked, try_user_idx_from_raw, try_block_idx_from_user_idx,
}
use netkeep80_persist_memory.FreeTree.Policy.{FreeBlockTreePolicy}
use netkeep80_persist_memory.Allocator.{allocate_from_block, coalesce, realloc_grow, realloc_shrink}
use netkeep80_persist_memory.Manager.{
  PmmError, ok, not_initialized, invalid_size, overflow, out_of_memory, invalid_pointer, Allocated,
  allocate, mark_released,
}
use netkeep80_persist_memory.State.{ManagerState}
use netkeep80_persist_memory.Typed.{
  Returned, returns, block_idx_from_pptr, is_owned_block, raw_user_ptr_from_pptr,
  try_checked_block_from_pptr,
}

-- `sizeof( T )` and `node_type_for_v<T>`
pub record ObjectType : Type 0 where
  pub size_of : ℕ
  pub node_type : NodeType

-- a call of `memmove`
pub record Move : Type 0 where
  pub dst : Option ℕ
  pub src : Option ℕ
  pub bytes : ℕ

-- what `reallocate_typed` leaves and returns, and what it copied
pub record Reallocated : Type 0 where
  pub state : ManagerState
  pub pptr : ℕ
  pub moved : Option Move

unfoldable pub fails : PmmError → ManagerState → Reallocated
fails e s = record { state = record s { last_error = e }; pptr = 0; moved = none }

unfoldable pub stays : ℕ → ManagerState → Reallocated
stays p s = record { state = record s { last_error = ok }; pptr = p; moved = none }

-- Growth makes `total_size` the size of the backend.
unfoldable pub with_arena : Arena → ManagerState → ManagerState
with_arena b s = record s {
  arena = b;
  backend_size =
      if b.header.total_size == s.arena.header.total_size
      then s.backend_size
      else b.header.total_size;
}

module _ (at : Traits) (type : ObjectType) where
  -- `assign_node_type_for`, of the data at granule `u`
  unfoldable pub assign_node_type : ℕ → Arena → Arena
  assign_node_type u a =
      if ltb u (header_granules at)
      then a
      else modify (u - header_granules at) (λ h. record h { node_type = type.node_type }) a

  unfoldable pub make_pptr_from_raw : (base_addr : ℕ) → ManagerState → (raw : ℕ) → ℕ
  make_pptr_from_raw base_addr s raw =
      if (raw == 0) || not (s.initialized)
      then 0
      else elim (try_user_idx_from_raw at s.backend_size base_addr raw) [
        | none ↦ 0
        | some user_idx ↦ elim (try_block_idx_from_user_idx at s.backend_size user_idx) [
          | none ↦ 0
          | some i ↦ if is_owned_block at (s.arena.blocks i) i then user_idx else 0
        ]
      ]

  -- `allocate_typed`, with what `allocate_unlocked` returned
  unfoldable pub place_typed : (base_addr : ℕ) → Option ℕ → ManagerState → Returned ℕ
  place_typed base_addr none s = returns 0 s
  place_typed base_addr (some u) s =
      let s1 : ManagerState = record s { arena = assign_node_type u s.arena } in
      returns (make_pptr_from_raw base_addr s1 (base_addr + u * at.granule_size)) s1

  module _ (ft : FreeBlockTreePolicy) (expand : ℕ → Arena → Option Arena) (base_addr : ℕ) where
    -- `allocate_typed`, from the call of `allocate_unlocked` on
    unfoldable pub allocate_bytes : (bytes : ℕ) → ManagerState → Returned ℕ
    allocate_bytes bytes s =
        let got : Allocated = allocate at ft expand s.initialized bytes s.arena in
        place_typed base_addr got.user_data
          (record (with_arena got.arena s) { last_error = got.last_error })

    -- `allocate_typed( count )`
    unfoldable pub allocate_typed : (count : ℕ) → ManagerState → Returned ℕ
    allocate_typed count s =
        if count == 0
        then returns 0 s
        else if ltb 0 type.size_of && ltb (size_max / type.size_of) count
        then returns 0 s
        else allocate_bytes (type.size_of * count) s

    -- the end of `reallocate_typed`: the old block becomes free
    unfoldable pub release_old : ℕ → Arena → Arena
    release_old blk_idx a =
        let nt_old : NodeType = (a.blocks blk_idx).node_type in
        if is_allocated nt_old && can_be_deleted_from_pap nt_old
        then coalesce at ft (mark_released at blk_idx a) blk_idx
        else a

    -- `reallocate_typed`, from the new pointer on
    unfoldable pub finish_move : (new_p copy_sz p : ℕ) → ManagerState → Reallocated
    finish_move new_p copy_sz p s = if new_p == 0 then fails invalid_pointer s else record {
      state = record s { arena = release_old (block_idx_from_pptr at p) s.arena; last_error = ok };
      pptr = new_p;
      moved = some (record {
        dst = raw_user_ptr_from_pptr at type.size_of s new_p;
        src = raw_user_ptr_from_pptr at type.size_of s p;
        bytes = copy_sz;
      });
    }

    -- `reallocate_typed`, from the test of the new block on
    unfoldable pub move_into : Option ℕ → (copy_sz p : ℕ) → ManagerState → Reallocated
    move_into none copy_sz p s = fails out_of_memory s
    move_into (some u) copy_sz p s =
        let s1 : ManagerState = record s { arena = assign_node_type u s.arena } in
        finish_move (make_pptr_from_raw base_addr s1 (base_addr + u * at.granule_size)) copy_sz p s1

    -- `reallocate_typed`, from the call of `allocate_from_block` on
    unfoldable pub move_block : (new_idx new_data_gran copy_sz p : ℕ) → ManagerState → Reallocated
    move_block new_idx new_data_gran copy_sz p s =
        let got : Arena × Option ℕ = allocate_from_block at ft s.arena new_idx new_data_gran in
        move_into got.1 copy_sz p (record s { arena = got.0 })

    -- the search for a new block, with growth if there is none
    unfoldable pub realloc_elsewhere : (new_data_gran copy_sz p : ℕ) → ManagerState → Reallocated
    realloc_elsewhere new_data_gran copy_sz p s =
        let needed : ℕ = add_index at (header_granules at) new_data_gran in
        if not (ft.find_best_fit s.arena needed == no_block at)
        then move_block (ft.find_best_fit s.arena needed) new_data_gran copy_sz p s
        else elim (expand new_data_gran s.arena) [
          | none ↦ fails out_of_memory s
          | some b ↦
              if ft.find_best_fit b needed == no_block at
              then fails out_of_memory (with_arena b s)
              else move_block (ft.find_best_fit b needed) new_data_gran copy_sz p (with_arena b s)
        ]

    -- the block where it stands, and else elsewhere
    unfoldable pub realloc_block :
        (old_data_gran new_data_gran copy_sz p : ℕ) → ManagerState → Reallocated
    realloc_block old_data_gran new_data_gran copy_sz p s =
        let blk_idx : ℕ = block_idx_from_pptr at p in
        let grown : Arena × Bool = realloc_grow at ft s.arena blk_idx old_data_gran new_data_gran in
        let aligned : Bool = block_size at % at.granule_size == 0 in
        if new_data_gran == old_data_gran
        then stays p s
        else if aligned && ltb new_data_gran old_data_gran
        then stays p
            (record s { arena = realloc_shrink at ft s.arena blk_idx old_data_gran new_data_gran })
        else if aligned && ltb old_data_gran new_data_gran && grown.1
        then stays p (record s { arena = grown.0 })
        else realloc_elsewhere new_data_gran copy_sz p s

    -- `reallocate_typed`, with what `try_checked_block_from_pptr` returned
    unfoldable pub realloc_checked :
        Option ℕ → (new_data_gran copy_sz p : ℕ) → ManagerState → Reallocated
    realloc_checked none new_data_gran copy_sz p s = record { state = s; pptr = 0; moved = none }
    realloc_checked (some i) new_data_gran copy_sz p s =
        realloc_block (s.arena.blocks i).weight new_data_gran copy_sz p s

    -- `reallocate_typed` once the number of granules is known
    unfoldable pub realloc_granules : (new_data_gran copy_sz p : ℕ) → ManagerState → Reallocated
    realloc_granules new_data_gran copy_sz p s =
        let checked : Returned (Option ℕ) = try_checked_block_from_pptr at s p in
        if new_data_gran == 0
        then fails invalid_size s
        else if ltb (at.index_max - header_granules at) new_data_gran
        then fails overflow s
        else realloc_checked checked.value new_data_gran copy_sz p checked.state

    unfoldable pub reallocate_typed : (p old_count new_count : ℕ) → ManagerState → Reallocated
    reallocate_typed p old_count new_count s =
        let copy_sz : ℕ =
          (if ltb new_count old_count then new_count else old_count)
          * type.size_of
          % (size_max + 1) in
        if new_count == 0
        then fails invalid_size s
        else if p == 0
        then (let fresh : Returned ℕ = allocate_typed new_count s in
            record { state = fresh.state; pptr = fresh.value; moved = none })
        else if ltb 0 type.size_of && ltb (size_max / type.size_of) new_count
        then fails overflow s
        else if not (s.initialized)
        then fails not_initialized s
        else elim (bytes_to_granules_checked at (type.size_of * new_count)) [
          | none ↦ fails overflow s
          | some new_data_gran ↦ realloc_granules new_data_gran copy_sz p s
        ]
