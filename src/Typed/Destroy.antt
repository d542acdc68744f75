-- ===== src/Typed/Destroy.antt =====
-- include/pmm/typed_manager_api.h: `deallocate_typed` and `destroy_typed`, and of
-- include/pmm/forest_domain_mixin.inc `raw_block_user_ptr_from_pptr`. `size_of` is the size of `T`. The
-- destructor runs on user data, so that only the object it is called on is a result.
use netkeep80_persist_memory.Base.{
  ℕ, ◌+◌, ◌*◌, ◌%◌, ◌<◌, ◌≤◌, ◌≡◌, refl, sym, ap, ◌∙◌, true, false, not, ◌||◌, Option, none, some,
  List, ◌++◌, arith, ◌==◌, inl, inr, Bool-cases, if◌then◌else◌,
}
use netkeep80_persist_memory.Traits.{Traits, size_max, block_size, header_granules}
use netkeep80_persist_memory.Node.{can_be_deleted_from_pap}
use netkeep80_persist_memory.FreeTree.Policy.{FreeBlockTreePolicy}
use netkeep80_persist_memory.Layout.{IsTraits, IsHeap, bodies}
use netkeep80_persist_memory.Allocator.Coalesced.{front_after, back_after}
use netkeep80_persist_memory.Validation.Pointers.{IsUserBlock}
use netkeep80_persist_memory.Manager.{ok, mark_released, deallocate}
use netkeep80_persist_memory.Manager.Release.{deallocate-IsHeap}
use netkeep80_persist_memory.State.{ManagerState}
use netkeep80_persist_memory.Typed.{
  Returned, returns, returns_error, block_raw_ptr_from_pptr, raw_user_ptr_from_pptr,
  resolve_unchecked, resolve_checked,
}
use netkeep80_persist_memory.Typed.Resolve.{
  block_raw_ptr_from_pptr-index, resolve_unchecked-raw, resolve_checked-cases,
  resolve_checked-IsChained,
}

module _ (at : Traits) (size_of : ℕ) where
  -- the offset of the data behind the header of the block
  unfoldable pub raw_block_user_ptr_from_pptr : ManagerState → ℕ → Option ℕ
  raw_block_user_ptr_from_pptr s p =
      if (p == 0) || not (s.initialized)
      then none
      else if block_size at % at.granule_size == 0
      then raw_user_ptr_from_pptr at size_of s p
      else elim (block_raw_ptr_from_pptr at s p) [
        | none ↦ none
        | some i ↦ some (i * at.granule_size + block_size at)
      ]

  module _ (ft : FreeBlockTreePolicy) (manager_header_size base_addr : ℕ) where
    -- `deallocate` of a pointer to the offset, which may be null
    unfoldable pub release_raw : Option ℕ → ManagerState → ManagerState
    release_raw none s = s
    release_raw (some off) s = record s {
      arena =
          deallocate at ft manager_header_size s.initialized s.arena base_addr (base_addr + off);
    }

    unfoldable pub deallocate_typed : ℕ → ManagerState → ManagerState
    deallocate_typed p s =
        if (p == 0) || not (s.initialized)
        then s
        else release_raw (raw_block_user_ptr_from_pptr s p) s

    -- `destroy_typed`, with the object and the data that were found
    unfoldable pub destroy_object : (obj raw : Option ℕ) → ManagerState → Returned (Option ℕ)
    destroy_object none raw s = returns none s
    destroy_object (some obj) none s = returns none s
    destroy_object (some obj) (some raw) s = returns (some obj) (release_raw (some raw) s)

    -- the state, and the object that the destructor was called on
    unfoldable pub destroy_typed : ℕ → ManagerState → Returned (Option ℕ)
    destroy_typed p s =
        let obj : Returned (Option ℕ) = resolve_unchecked at size_of s p in
        if (p == 0) || not (s.initialized)
        then returns none s
        else destroy_object obj.value (raw_block_user_ptr_from_pptr obj.state p) obj.state

module _ {at : Traits} (t : IsTraits at) (size_of : ℕ) (s : ManagerState) (manager_header_size : ℕ)
    (pre : List ℕ) (i : ℕ) (post : List ℕ)
    (u : IsUserBlock at manager_header_size s.arena pre i post)
    (same : s.arena.header.total_size ≡ s.backend_size) (ready : s.initialized ≡ true)
    (sized : 0 < size_of) (holds : size_of ≤ (s.arena.blocks i).weight * at.granule_size) where
  abbrev offset : ℕ
  offset = i * at.granule_size + block_size at

  address : (i + header_granules at) * at.granule_size ≡ offset
  address = omega (arith, t.block_fits_header)

  enters : ((i + header_granules at == 0) || not (s.initialized)) ≡ false
  enters = ground (arith, ready, t.header_pos)

  wide : s.backend_size ≤ size_max
  wide = omega (arith, sym same, u.wide)

  resolves :
      resolve_checked at size_of s (i + header_granules at) ≡ returns_error ok (some offset) s
  resolves =
      resolve_checked-IsChained t size_of s wide pre i post u.heap.chained same ready u.in_use sized
        holds
      ∙ rw address refl

  same_block :
      (p : ℕ)
      → block_raw_ptr_from_pptr at (record s { last_error = ok }) p ≡ block_raw_ptr_from_pptr at s p
  unfolding block_raw_ptr_from_pptr
  same_block p = refl

  found :
      (raw_block_user_ptr_from_pptr at size_of s (i + header_granules at) ≡ some offset)
      × (resolve_unchecked at size_of s (i + header_granules at) ≡ returns_error ok (some offset) s)
      × (raw_block_user_ptr_from_pptr at size_of
            (record s { last_error = ok })
            (i + header_granules at)
          ≡ some offset)
  unfolding raw_block_user_ptr_from_pptr resolve_unchecked raw_user_ptr_from_pptr returns_error
  found =
      let p : ℕ = i + header_granules at in
      let (j, block, owned, unchecked) =
        resolve_checked-cases t size_of s wide p offset (ap (λ r. r.value) resolves) in
      let raw = resolve_unchecked-raw t size_of s wide p offset unchecked in
      let j_is : j ≡ i = block_raw_ptr_from_pptr-index t size_of s wide p j block ∙ omega arith in
      (
        elim (Bool-cases (block_size at % at.granule_size == 0)) [
          | inl e ↦ rw (enters, e, raw) refl
          | inr e ↦ rw (enters, e, block, j_is) refl
        ],
        rw (enters, raw) refl,
        elim (Bool-cases (block_size at % at.granule_size == 0)) [
          | inl e ↦ rw (enters, e, raw) refl
          | inr e ↦ rw (enters, e, same_block p, block, j_is) refl
        ],
      )

  -- The manager is initialized, its arena has the size of the backend, and block `i` is a user block of a
  -- type that may be deleted, with room for an object of `size_of` bytes, at least one. Then
  -- `destroy_typed` of the block's `pptr` calls the destructor on the block's data and leaves the arena
  -- well formed, with block `i` merged with the free blocks at its sides, and `deallocate_typed` leaves
  -- the same arena.
  pub destroy_typed-IsHeap :
      (ft : FreeBlockTreePolicy) (base_addr : ℕ)
      → can_be_deleted_from_pap (s.arena.blocks i).node_type ≡ true
      → 0 < base_addr
      → ((destroy_typed at size_of ft manager_header_size base_addr
            (i + header_granules at)
            s).value
          ≡ some (i * at.granule_size + block_size at))
        × IsHeap at
            (destroy_typed at size_of ft manager_header_size base_addr
              (i + header_granules at)
              s).state.arena
            (front_after (bodies (mark_released at i s.arena)) pre i
              ++ back_after (bodies (mark_released at i s.arena)) post)
        × ((deallocate_typed at size_of ft manager_header_size base_addr
              (i + header_granules at)
              s).arena
            ≡ (destroy_typed at size_of ft manager_header_size base_addr
                (i + header_granules at)
                s).state.arena)
  unfolding destroy_typed deallocate_typed destroy_object release_raw returns returns_error
  destroy_typed-IsHeap ft base_addr deletable mapped =
      let heap =
        deallocate-IsHeap t ft s.arena manager_header_size pre i post base_addr u deletable
          mapped in
      rw (enters, found.1, found.2, found.0, ready) (refl, heap, refl)
