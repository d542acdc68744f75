-- ===== src/Typed/Answer.antt =====
-- include/pmm/typed_manager_api.h, `reallocate_typed`: what it answers.
use netkeep80_persist_memory.Base.{
  ℕ, ◌+◌, ◌-◌, ◌*◌, ◌/◌, ◌≡◌, ◌≢◌, refl, ◌⊎◌, inl, inr, Bool, true, false, not, ◌&&◌, Option, none,
  some, arith, ◌==◌, ltb, eq_of_ne, Bool-cases, Option-cases, if◌then◌else◌, ◌%◌,
}
use netkeep80_persist_memory.Traits.{
  Traits, no_block, size_max, block_size, header_granules, add_index,
}
use netkeep80_persist_memory.Memory.{Arena}
use netkeep80_persist_memory.Checked.{bytes_to_granules_checked}
use netkeep80_persist_memory.FreeTree.Policy.{FreeBlockTreePolicy}
use netkeep80_persist_memory.Allocator.{allocate_from_block, realloc_grow, realloc_shrink}
use netkeep80_persist_memory.Manager.{
  PmmError, ok, not_initialized, invalid_size, overflow, out_of_memory, invalid_pointer, Allocated,
  allocate,
}
use netkeep80_persist_memory.Manager.Answer.{allocate-IsAllocation}
use netkeep80_persist_memory.State.{ManagerState}
use netkeep80_persist_memory.Typed.{
  Returned, returns, returns_error, block_idx_from_pptr, try_checked_block_from_pptr,
}
use netkeep80_persist_memory.Typed.Allocate.{
  ObjectType, Reallocated, fails, stays, with_arena, assign_node_type, make_pptr_from_raw,
  finish_move, move_into, move_block, realloc_elsewhere, realloc_block, realloc_checked,
  realloc_granules, reallocate_typed, place_typed, allocate_bytes, allocate_typed,
}

-- A `pptr` and no error, or null with an error, and then nothing was copied.
abbrev pub IsAnswered : Reallocated → Type 0
IsAnswered r =
    ((r.pptr ≢ 0) × (r.state.last_error ≡ ok))
    ⊎ ((r.pptr ≡ 0) × (r.state.last_error ≢ ok) × (r.moved ≡ none))

fails-IsAnswered : (e : PmmError) (s : ManagerState) → e ≢ ok → IsAnswered (fails e s)
unfolding fails
fails-IsAnswered e s differs = inr (refl, differs, refl)

stays-IsAnswered : (p : ℕ) (s : ManagerState) → p ≢ 0 → IsAnswered (stays p s)
unfolding stays
stays-IsAnswered p s some_pptr = inl (some_pptr, refl)

zero_or : (x : ℕ) → (x == 0) ≡ false → x ≢ 0
zero_or x e p = ground (arith, e, p)

is_zero : (x : ℕ) → (x == 0) ≡ true → x ≡ 0
is_zero x e = ground (arith, e)

module _ (at : Traits) (type : ObjectType) (ft : FreeBlockTreePolicy)
    (expand : ℕ → Arena → Option Arena) (base_addr : ℕ) where
  finish_move-IsAnswered :
      (new_p copy p : ℕ) (s : ManagerState)
      → IsAnswered (finish_move at type ft expand base_addr new_p copy p s)
  unfolding finish_move
  finish_move-IsAnswered new_p copy p s = elim (Bool-cases (new_p == 0)) [
    | inl e ↦ rw e (fails-IsAnswered invalid_pointer s (λ q. cc))
    | inr e ↦ rw e (inl (zero_or new_p e, refl))
  ]

  move_into-IsAnswered :
      (o : Option ℕ) (copy p : ℕ) (s : ManagerState)
      → IsAnswered (move_into at type ft expand base_addr o copy p s)
  unfolding move_into
  move_into-IsAnswered none copy p s = fails-IsAnswered out_of_memory s (λ q. cc)
  move_into-IsAnswered (some u) copy p s =
      let s1 : ManagerState = record s { arena = assign_node_type at type u s.arena } in
      finish_move-IsAnswered
        (make_pptr_from_raw at type base_addr s1 (base_addr + u * at.granule_size)) copy p s1

  move_block-IsAnswered :
      (new_idx gran copy p : ℕ) (s : ManagerState)
      → IsAnswered (move_block at type ft expand base_addr new_idx gran copy p s)
  unfolding move_block
  move_block-IsAnswered new_idx gran copy p s =
      let got : Arena × Option ℕ = allocate_from_block at ft s.arena new_idx gran in
      move_into-IsAnswered got.1 copy p (record s { arena = got.0 })

  realloc_elsewhere-IsAnswered :
      (gran copy p : ℕ) (s : ManagerState)
      → IsAnswered (realloc_elsewhere at type ft expand base_addr gran copy p s)
  unfolding realloc_elsewhere
  realloc_elsewhere-IsAnswered gran copy p s =
      let needed : ℕ = add_index at (header_granules at) gran in
      elim (Bool-cases (ft.find_best_fit s.arena needed == no_block at)) [
        | inr e ↦ rw e (move_block-IsAnswered (ft.find_best_fit s.arena needed) gran copy p s)
        | inl e ↦ elim (Option-cases (expand gran s.arena)) [
          | inl f ↦ rw (e, f) (fails-IsAnswered out_of_memory s (λ q. cc))
          | inr (b, f) ↦ elim (Bool-cases (ft.find_best_fit b needed == no_block at)) [
            | inl g ↦ rw (e, f, g) (fails-IsAnswered out_of_memory (with_arena b s) (λ q. cc))
            | inr g ↦
                rw (e, f, g)
                  (move_block-IsAnswered (ft.find_best_fit b needed) gran copy p (with_arena b s))
          ]
        ]
      ]

  realloc_block-IsAnswered :
      (old gran copy p : ℕ) (s : ManagerState)
      → p ≢ 0
      → IsAnswered (realloc_block at type ft expand base_addr old gran copy p s)
  unfolding realloc_block
  realloc_block-IsAnswered old gran copy p s some_pptr =
      let i : ℕ = block_idx_from_pptr at p in
      let grown : Arena × Bool = realloc_grow at ft s.arena i old gran in
      let aligned : Bool = block_size at % at.granule_size == 0 in
      elim (Bool-cases (gran == old)) [
        | inl e ↦ rw e (stays-IsAnswered p s some_pptr)
        | inr e ↦ elim (Bool-cases (aligned && ltb gran old)) [
          | inl f ↦
              rw (e, f)
                (stays-IsAnswered p (record s { arena = realloc_shrink at ft s.arena i old gran })
                  some_pptr)
          | inr f ↦ elim (Bool-cases (aligned && ltb old gran && grown.1)) [
            | inl g ↦ rw (e, f, g) (stays-IsAnswered p (record s { arena = grown.0 }) some_pptr)
            | inr g ↦ rw (e, f, g) (realloc_elsewhere-IsAnswered gran copy p s)
          ]
        ]
      ]

  -- In an initialized manager a refused pointer that is not null has an error.
  refused-error :
      (s : ManagerState) (p : ℕ)
      → p ≢ 0
      → s.initialized ≡ true
      → (try_checked_block_from_pptr at s p).value ≡ none
      → (try_checked_block_from_pptr at s p).state.last_error ≡ invalid_pointer
  unfolding try_checked_block_from_pptr returns returns_error
  refused-error s p some_pptr ready h = ground arith

  of_value :
      (o : Option ℕ) (gran copy p : ℕ) (s : ManagerState)
      → p ≢ 0
      → (o ≡ none → s.last_error ≡ invalid_pointer)
      → IsAnswered (realloc_checked at type ft expand base_addr o gran copy p s)
  unfolding realloc_checked
  of_value none gran copy p s some_pptr says = let e = says refl in inr (refl, (λ q. cc), refl)
  of_value (some i) gran copy p s some_pptr says =
      realloc_block-IsAnswered (s.arena.blocks i).weight gran copy p s some_pptr

  realloc_checked-IsAnswered :
      (c : Returned (Option ℕ)) (gran copy p : ℕ)
      → p ≢ 0
      → (c.value ≡ none → c.state.last_error ≡ invalid_pointer)
      → IsAnswered (realloc_checked at type ft expand base_addr c.value gran copy p c.state)
  realloc_checked-IsAnswered c gran copy p some_pptr says =
      of_value c.value gran copy p c.state some_pptr says

  realloc_granules-IsAnswered :
      (gran copy p : ℕ) (s : ManagerState)
      → p ≢ 0
      → s.initialized ≡ true
      → IsAnswered (realloc_granules at type ft expand base_addr gran copy p s)
  unfolding realloc_granules
  realloc_granules-IsAnswered gran copy p s some_pptr ready = elim (Bool-cases (gran == 0)) [
    | inl e ↦ rw e (fails-IsAnswered invalid_size s (λ q. cc))
    | inr e ↦ elim (Bool-cases (ltb (at.index_max - header_granules at) gran)) [
      | inl f ↦ rw (e, f) (fails-IsAnswered overflow s (λ q. cc))
      | inr f ↦
          rw (e, f)
            (realloc_checked-IsAnswered (try_checked_block_from_pptr at s p) gran copy p some_pptr
              (refused-error s p some_pptr ready))
    ]
  ]

  -- What the call answers for a null pointer, which is an allocation of `count` objects: as for other
  -- pointers, or null with the state as it was, where the bytes of the objects overflow, or null without
  -- an error, where the data of the new block has no `pptr`.
  abbrev pub IsFresh : (count : ℕ) → ManagerState → Reallocated → Type 0
  IsFresh count s r =
      IsAnswered r
      ⊎ (((ltb 0 type.size_of && ltb (size_max / type.size_of) count) ≡ true)
          × (r ≡ record { state = s; pptr = 0; moved = none }))
      ⊎ ((((u : ℕ) × ((allocate at ft expand s.initialized (type.size_of * count) s.arena).user_data
              ≡ some u)))
          × (r.pptr ≡ 0)
          × (r.state.last_error ≡ ok)
          × (r.moved ≡ none))

  -- what `place_typed` leaves of the error, and what it returns
  place_typed-answer :
      (o : Option ℕ) (s : ManagerState)
      → ((s.last_error ≡ ok) × ((u : ℕ) × (o ≡ some u))) ⊎ ((s.last_error ≢ ok) × (o ≡ none))
      → IsAnswered (record {
        state = (place_typed at type base_addr o s).state;
        pptr = (place_typed at type base_addr o s).value;
        moved = none;
      })
        ⊎ (((u : ℕ) × (o ≡ some u))
            × ((place_typed at type base_addr o s).value ≡ 0)
            × ((place_typed at type base_addr o s).state.last_error ≡ ok))
  unfolding place_typed returns
  place_typed-answer none s (inl h) = absurd cc
  place_typed-answer none s (inr h) = inl (inr (refl, h.0, refl))
  place_typed-answer (some u) s (inr h) = absurd cc
  place_typed-answer (some u) s (inl h) =
      elim (Bool-cases ((place_typed at type base_addr (some u) s).value == 0)) [
        | inl e ↦ inr ((u, refl), is_zero (place_typed at type base_addr (some u) s).value e, h.0)
        | inr e ↦ inl (inl (zero_or (place_typed at type base_addr (some u) s).value e, h.0))
      ]

  null-IsFresh :
      (count : ℕ) (s : ManagerState)
      → (count == 0) ≡ false
      → IsFresh count s (record {
        state = (allocate_typed at type ft expand base_addr count s).state;
        pptr = (allocate_typed at type ft expand base_addr count s).value;
        moved = none;
      })
  unfolding allocate_typed allocate_bytes returns with_arena
  null-IsFresh count s some_objects =
      elim (Bool-cases (ltb 0 type.size_of && ltb (size_max / type.size_of) count)) [
        | inl e ↦ rw (some_objects, e) (inr (inl (refl, refl)))
        | inr e ↦
            let bytes : ℕ = type.size_of * count in
            let got : Allocated = allocate at ft expand s.initialized bytes s.arena in
            let placed =
              place_typed-answer got.user_data
                (record (with_arena got.arena s) { last_error = got.last_error })
                (allocate-IsAllocation at ft expand s.initialized bytes s.arena) in
            rw (some_objects, e)
              (elim placed [
                | inl answered ↦ inl answered
                | inr (some_data, null, fine) ↦ inr (inr (some_data, null, fine, refl))
              ])
      ]

  some_pptr-IsAnswered :
      (p old_count new_count : ℕ) (s : ManagerState)
      → p ≢ 0
      → IsAnswered (reallocate_typed at type ft expand base_addr p old_count new_count s)
  unfolding reallocate_typed
  some_pptr-IsAnswered p old_count new_count s some_pptr =
      let copy : ℕ =
        (if ltb new_count old_count then new_count else old_count)
        * type.size_of
        % (size_max + 1) in
      elim (Bool-cases (new_count == 0)) [
        | inl e ↦ rw e (fails-IsAnswered invalid_size s (λ q. cc))
        | inr e ↦
            elim (Bool-cases (ltb 0 type.size_of && ltb (size_max / type.size_of) new_count)) [
              | inl f ↦ rw (e, eq_of_ne p 0 some_pptr, f) (fails-IsAnswered overflow s (λ q. cc))
              | inr f ↦ elim (Bool-cases (not (s.initialized))) [
                | inl starts ↦
                    rw (e, eq_of_ne p 0 some_pptr, f, starts)
                      (fails-IsAnswered not_initialized s (λ q. cc))
                | inr starts ↦
                    let ready : s.initialized ≡ true = ground (arith, starts) in
                    elim (Option-cases (bytes_to_granules_checked at (type.size_of * new_count))) [
                      | inl g ↦
                          rw (e, eq_of_ne p 0 some_pptr, f, starts, g)
                            (fails-IsAnswered overflow s (λ q. cc))
                      | inr (gran, g) ↦
                          rw (e, eq_of_ne p 0 some_pptr, f, starts, g)
                            (realloc_granules-IsAnswered gran copy p s some_pptr ready)
                    ]
              ]
            ]
      ]

  null_pptr-IsFresh :
      (p old_count new_count : ℕ) (s : ManagerState)
      → (p == 0) ≡ true
      → IsFresh new_count s (reallocate_typed at type ft expand base_addr p old_count new_count s)
  unfolding reallocate_typed
  null_pptr-IsFresh p old_count new_count s null = elim (Bool-cases (new_count == 0)) [
    | inl e ↦ rw e (inl (fails-IsAnswered invalid_size s (λ q. cc)))
    | inr e ↦ rw (e, null) (null-IsFresh new_count s e)
  ]

  -- `reallocate_typed` of a `pptr` that is not null returns a `pptr` and clears the error, or returns null
  -- and sets an error, and then nothing was copied. Of a null pointer it is an allocation: it answers in
  -- the same way, but that it returns null with no error set where the bytes of the objects overflow, and
  -- then leaves the state, and null with the error cleared where the data that was handed out has no
  -- `pptr`.
  pub reallocate_typed-IsAnswered :
      (p old_count new_count : ℕ) (s : ManagerState)
      → ((p ≢ 0)
          × IsAnswered (reallocate_typed at type ft expand base_addr p old_count new_count s))
        ⊎ ((p ≡ 0)
            × IsFresh new_count s
                (reallocate_typed at type ft expand base_addr p old_count new_count s))
  reallocate_typed-IsAnswered p old_count new_count s = elim (Bool-cases (p == 0)) [
    | inr e ↦ inl (zero_or p e, some_pptr-IsAnswered p old_count new_count s (zero_or p e))
    | inl e ↦ inr (is_zero p e, null_pptr-IsFresh p old_count new_count s e)
  ]
