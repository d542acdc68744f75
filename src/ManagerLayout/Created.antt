-- ===== src/ManagerLayout/Created.antt =====
-- include/pmm/layout.h: what `init_layout` leaves.
use native.Mathlib.Nat.{le-div_iff_mul-le}
use netkeep80_persist_memory.Base.{
  ℕ, ◌+◌, ◌-◌, ◌*◌, ◌/◌, ◌≤◌, ◌≡◌, refl, false, some, [], ◌∷◌, arith, ltb, eq_refl, eq_of_ne,
}
use netkeep80_persist_memory.Traits.{
  Traits, block_size, header_granules, add_index, sub_index, to_index, add_index-eq, sub_index-eq,
  to_index-eq,
}
use netkeep80_persist_memory.Node.{is_free, is_allocated}
use netkeep80_persist_memory.Memory.{Arena}
use netkeep80_persist_memory.BlockState.{init_fields}
use netkeep80_persist_memory.Layout.{IsTraits, IsHeap}
use netkeep80_persist_memory.ManagerLayout.{free_blk_idx, new_header, init_layout}

module _ {at : Traits} (t : IsTraits at) (mgr size : ℕ) (a : Arena)
    (enough : (header_granules at + mgr) * at.granule_size + block_size at + at.granule_size ≤ size)
    (small : size / at.granule_size ≤ at.index_max) where
  abbrev second : ℕ
  second = header_granules at + mgr

  room : second + header_granules at + 1 ≤ size / at.granule_size
  room = (le-div_iff_mul-le t.granule_pos).1 (omega (arith, enough, t.block_fits_header))

  -- no index wraps
  in_range :
      (add_index at (header_granules at) mgr ≡ second)
      × (add_index at second (header_granules at) ≡ second + header_granules at)
      × (to_index at (size / at.granule_size) ≡ size / at.granule_size)
      × (sub_index at (size / at.granule_size) second ≡ size / at.granule_size - second)
  in_range = (
    add_index-eq at (header_granules at) mgr (omega (arith, room, small)),
    add_index-eq at second (header_granules at) (omega (arith, room, small)),
    to_index-eq at (size / at.granule_size) small,
    sub_index-eq at (size / at.granule_size) second (omega (arith, room)) small,
  )

  ltb_not : (x y : ℕ) → y ≤ x → ltb x y ≡ false
  ltb_not x y h = ground arith

  -- Where the arena has room for the two headers and a granule, and its granules can be indexed,
  -- `init_layout` succeeds, and leaves a well-formed arena of two blocks: the manager's and a free one.
  pub init_layout-IsHeap :
      (b : Arena) × (init_layout at mgr size a ≡ some b)
      × IsHeap at b (0 ∷ (header_granules at + mgr) ∷ [])
  unfolding init_layout free_blk_idx new_header init_fields is_free is_allocated
  init_layout-IsHeap =
      let big : ltb size (second * at.granule_size + block_size at + at.granule_size) ≡ false =
        ltb_not size (second * at.granule_size + block_size at + at.granule_size) enough in
      let apart = eq_of_ne 0 second (λ e. omega (arith, e, t.header_pos)) in
      let bottom = eq_of_ne second 0 (λ e. omega (arith, e, t.header_pos)) in
      rw (in_range.0, in_range.1, in_range.2, in_range.3, big)
        (
          _,
          refl,
          record {
            chained = record {
              chain = (
                rw apart (record {
                  prev = refl;
                  next = refl;
                  room = omega arith;
                  known = refl;
                  sized = (omega arith, refl);
                }),
                (
                  rw (eq_refl second) (record {
                    prev = refl;
                    next = refl;
                    room = omega (arith, room);
                    known = refl;
                    sized = (omega (arith, room), refl);
                  }),
                  tt,
                ),
              );
              fits = small;
              first = refl;
              last = refl;
            };
            counted = record {
              blocks = refl;
              frees = rw (apart, eq_refl second) refl;
              allocs = rw (apart, eq_refl second) refl;
              used = rw (apart, eq_refl second) (omega arith);
            };
          },
        )
