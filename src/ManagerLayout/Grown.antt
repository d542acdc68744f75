-- ===== src/ManagerLayout/Grown.antt =====
-- include/pmm/layout.h: all of `do_expand`, where the last block is free.
use native.Mathlib.Nat.{le-div_iff_mul-le}
use mathlib.Core.Path.{subst}
use netkeep80_persist_memory.Base.{
  last_or-append, eq_refl, ◌-◌, ◌≢◌, ℕ, ◌+◌, ◌*◌, ◌/◌, ◌≤◌, ◌<◌, ◌≡◌, refl, sym, ap, ◌∙◌, Bool,
  true, false, Option, some, inl, inr, List, [], ◌∷◌, ◌++◌, arith, ◌==◌, leb, Option-cases,
  eq_of_ne,
}
use netkeep80_persist_memory.Traits.{Traits, no_block, header_granules}
use netkeep80_persist_memory.Node.{is_free}
use netkeep80_persist_memory.Memory.{Arena}
use netkeep80_persist_memory.FreeTree.Policy.{FreeBlockTreePolicy}
use netkeep80_persist_memory.Checked.{
  checked_add, checked_mul, byte_off_to_idx_checked, compute_growth, compute_growth_for_traits,
  max_arena_size,
}
use netkeep80_persist_memory.Checked.Bounds.{checked_mul-exact, compute_growth-IsEnough}
use netkeep80_persist_memory.Layout.{Sized, IsTraits, bodies, IsHeap, total_granules}
use netkeep80_persist_memory.Layout.Chain.{Chain-back}
use netkeep80_persist_memory.ManagerLayout.{GrowthConfig, extend_last, place_growth, do_expand}
use netkeep80_persist_memory.ManagerLayout.Extended.{extend_last-IsHeap, grown-bodies, grown-header}

checked_add-sum : (a b r : ℕ) → checked_add a b ≡ some r → r ≡ a + b
unfolding checked_add
checked_add-sum a b r h = ground arith

checked_mul-product : (a b r : ℕ) → checked_mul a b ≡ some r → r ≡ a * b
checked_mul-product a b r h = let exact = checked_mul-exact a b in ground (arith, sym exact ∙ h)

module _ (at : Traits) where
  byte_off_to_idx_checked-quotient :
      (off i : ℕ)
      → byte_off_to_idx_checked at off ≡ some i
      → (off / at.granule_size ≡ i) × (i ≤ at.index_max)
  unfolding byte_off_to_idx_checked
  byte_off_to_idx_checked-quotient off i h = ground arith

  compute_growth_for_traits-enough :
      (current need num den max_gb target : ℕ)
      → compute_growth_for_traits at current need num den max_gb ≡ some target
      → current + need ≤ target
  unfolding compute_growth_for_traits
  compute_growth_for_traits-enough current need num den max_gb target h =
      elim (Option-cases
        (compute_growth current need at.granule_size num den max_gb (max_arena_size at))) [
          | inl e ↦ absurd (ground (arith, e))
          | inr (r, e) ↦
              let got =
                compute_growth-IsEnough current need at.granule_size num den max_gb
                  (max_arena_size at) r e in
              ground (arith, e, got.1)
        ]

module _ {at : Traits} (t : IsTraits at) (ft : FreeBlockTreePolicy) (a : Arena) (pre : List ℕ)
    (i : ℕ) (h : IsHeap at a (pre ++ i ∷ []))
    (was_free : is_free (a.blocks i).node_type ≡ true) where
  last_block :
      (a.header.last_block_offset ≡ i)
      × (i ≢ no_block at)
      × (i + (a.blocks i).weight ≡ total_granules at a)
  last_block =
      let k : ℕ = total_granules at a in
      let here =
        Chain-back at (bodies a) (no_block at) pre (i ∷ []) (no_block at) k h.chained.chain in
      let sized =
        subst (λ f. Sized at f (a.blocks i).weight (a.blocks i).root_offset i k) was_free
          (here.0.sized) in
      (
        h.chained.last ∙ last_or-append (no_block at) pre (i ∷ []),
        (λ e. omega (arith, e, here.0.room, h.chained.fits, t.header_pos)),
        sized.0,
      )

  pub place_growth-last :
      (new_size : ℕ) (b : Arena)
      → place_growth at ft new_size a ≡ some b
      → (b ≡ extend_last at ft i (new_size / at.granule_size) new_size a)
        × (new_size / at.granule_size ≤ at.index_max)
  unfolding place_growth
  place_growth-last new_size b p =
      elim (Option-cases (byte_off_to_idx_checked at a.header.total_size)) [
        | inl e ↦ absurd (ground (arith, e, p))
        | inr (extra, e) ↦ elim (Option-cases (byte_off_to_idx_checked at new_size)) [
          | inl f ↦ absurd (ground (arith, e, f, p))
          | inr (total, f) ↦
              let quotient = byte_off_to_idx_checked-quotient at new_size total f in
              let some_last = eq_of_ne i (no_block at) last_block.1 in
              let grown : some (extend_last at ft i total new_size a) ≡ some b =
                rw (sym last_block.0)
                  (ground (arith, e, f, last_block.0, some_last, was_free, p)) in
              rw (quotient.0) (cc, quotient.1)
        ]
      ]

  granules_grow :
      (m new_size : ℕ)
      → a.header.total_size + m * at.granule_size ≤ new_size
      → total_granules at a + m ≤ new_size / at.granule_size
  granules_grow m new_size room =
      let low : total_granules at a * at.granule_size ≤ a.header.total_size =
        (le-div_iff_mul-le {k = at.granule_size} t.granule_pos).0 (omega arith) in
      (le-div_iff_mul-le {k = at.granule_size} t.granule_pos).1 (omega (arith, low, room))

  -- what `do_expand` has found out where it succeeds
  pub do_expand-cases :
      (config : GrowthConfig) (resize : ℕ → Option ℕ) (initialized : Bool) (data_gran_need : ℕ)
      (b : Arena)
      → ((asked got : ℕ) → resize asked ≡ some got → asked ≤ got)
      → do_expand at ft config resize initialized data_gran_need a ≡ some b
      → (new_size : ℕ) × (a.header.total_size < new_size)
        × (a.header.total_size
              + (header_granules at + data_gran_need + header_granules at) * at.granule_size
            ≤ new_size)
        × (place_growth at ft new_size a ≡ some b)
  unfolding do_expand
  do_expand-cases config resize false need b grants p = absurd (ground (arith, p))
  do_expand-cases config resize true need b grants p =
      let hdr : ℕ = header_granules at in
      let positive : (need == 0) ≡ false = ground (arith, p) in
      elim (Option-cases (checked_add hdr need)) [
        | inl e ↦ absurd (ground (arith, positive, e, p))
        | inr (grans, e) ↦ elim (Option-cases (checked_add grans hdr)) [
          | inl e1 ↦ absurd (ground (arith, positive, e, e1, p))
          | inr (sum, e1) ↦ elim (Option-cases (checked_mul sum at.granule_size)) [
            | inl e2 ↦ absurd (ground (arith, positive, e, e1, e2, p))
            | inr (bytes, e2) ↦
                let growth : ℕ → Option ℕ = λ x.
                  compute_growth_for_traits at a.header.total_size x config.grow_numerator
                    config.grow_denominator config.max_memory_gb in
                elim (Option-cases (growth bytes)) [
                  | inl e3 ↦ absurd (ground (arith, positive, e, e1, e2, e3, p))
                  | inr (target, e3) ↦ elim (Option-cases (resize target)) [
                    | inl e4 ↦ absurd (ground (arith, positive, e, e1, e2, e3, e4, p))
                    | inr (new_size, e4) ↦
                        let larger : leb new_size a.header.total_size ≡ false =
                          ground (arith, positive, e, e1, e2, e3, e4, p) in
                        let room =
                          compute_growth_for_traits-enough at a.header.total_size bytes
                            config.grow_numerator config.grow_denominator config.max_memory_gb
                            target e3 in
                        let size : bytes ≡ (hdr + need + hdr) * at.granule_size =
                          checked_mul-product sum at.granule_size bytes e2
                          ∙ ap (λ x. x * at.granule_size)
                              (checked_add-sum grans hdr sum e1
                                ∙ ap (λ x. x + hdr) (checked_add-sum hdr need grans e)) in
                        (
                          new_size,
                          ground (arith, larger),
                          omega (arith, sym size, room, grants target new_size e4),
                          ground (arith, positive, e, e1, e2, e3, e4, larger, p),
                        )
                  ]
                ]
          ]
        ]
      ]

  -- A well-formed arena ends with a free block, and the backend grants no less than it is asked for. If
  -- `do_expand` for a block of `data_gran_need` granules succeeds, the arena has become larger and is well
  -- formed, with the same layout, and its last block is free and has gained the room for that block with
  -- its header and one header more.
  pub do_expand-IsHeap :
      (config : GrowthConfig) (resize : ℕ → Option ℕ) (initialized : Bool) (data_gran_need : ℕ)
      (b : Arena)
      → ((asked got : ℕ) → resize asked ≡ some got → asked ≤ got)
      → do_expand at ft config resize initialized data_gran_need a ≡ some b
      → IsHeap at b (pre ++ i ∷ [])
        × (a.header.total_size < b.header.total_size)
        × (is_free (b.blocks i).node_type ≡ true)
        × ((a.blocks i).weight + (header_granules at + data_gran_need + header_granules at)
            ≤ (b.blocks i).weight)
  do_expand-IsHeap config resize initialized need b grants p =
      let (new_size, larger, room, placed) =
        do_expand-cases config resize initialized need b grants p in
      let g : ℕ = new_size / at.granule_size in
      let (same, small) = place_growth-last new_size b placed in
      let more = granules_grow (header_granules at + need + header_granules at) new_size room in
      let grows : total_granules at a ≤ g = omega (arith, more) in
      let heap = extend_last-IsHeap t ft a pre i g new_size h was_free refl grows small in
      let header = grown-header t ft a pre i g new_size h was_free refl grows small in
      let block : bodies (extend_last at ft i g new_size a) i
          ≡ record (bodies a i) { weight = g - i } =
        grown-bodies t ft a pre i g new_size h was_free refl grows small i ∙ rw (eq_refl i) refl in
      subst
        (λ x.
          IsHeap at x (pre ++ i ∷ [])
          × (a.header.total_size < x.header.total_size)
          × (is_free (x.blocks i).node_type ≡ true)
          × ((a.blocks i).weight + (header_granules at + need + header_granules at)
              ≤ (x.blocks i).weight))
        (sym same)
        (
          heap,
          omega (arith, ap (λ x. x.total_size) header, larger),
          ap (λ x. is_free x.node_type) block ∙ was_free,
          omega (arith, ap (λ x. x.weight) block, more, last_block.2),
        )
