-- ===== src/Manager/Allocate.antt =====
-- include/pmm/persist_memory_manager.h, `allocate_unlocked`: all its outcomes, growth and errors
-- included.
use mathlib.Core.Path.{subst}
use netkeep80_persist_memory.Base.{
  eq_of_ne, eq_refl, ℕ, ◌+◌, ◌-◌, ◌*◌, ◌≤◌, ◌<◌, ◌≡◌, ◌≢◌, refl, ◌⊎◌, ◌&&◌, inl, inr, Bool, true,
  false, Option, none, some, List, [], ◌∷◌, ◌++◌, arith, ◌==◌, ltb, leb, Bool-cases, Option-cases,
}
use netkeep80_persist_memory.Traits.{Traits, no_block, header_granules, add_index, add_index-eq}
use netkeep80_persist_memory.Node.{is_free}
use netkeep80_persist_memory.Memory.{Body, Arena}
use netkeep80_persist_memory.Checked.{bytes_to_granules_checked}
use netkeep80_persist_memory.Checked.Bounds.{bytes_to_granules_checked-least}
use netkeep80_persist_memory.FreeTree.Policy.{FreeBlockTreePolicy}
use netkeep80_persist_memory.Layout.{IsTraits, Bodies, bodies, IsHeap, total_granules}
use netkeep80_persist_memory.Layout.Chain.{Chain-back, Chain-length}
use netkeep80_persist_memory.Layout.Settled.{AllOn}
use netkeep80_persist_memory.Allocator.{allocate_from_block}
use netkeep80_persist_memory.Allocator.Candidate.{IsCandidate}
use netkeep80_persist_memory.Allocator.Allocate.{cut_off, allocate_from_block-IsHeap}
use netkeep80_persist_memory.ManagerLayout.{GrowthConfig, do_expand}
use netkeep80_persist_memory.ManagerLayout.Grown.{do_expand-IsHeap}
use netkeep80_persist_memory.Manager.{
  PmmError, ok, not_initialized, invalid_size, overflow, out_of_memory, Allocated,
  allocate_granules, allocate,
}

-- a block that is in use or too small
abbrev pub IsUnfit : (needed : ℕ) → ℕ → Body → Type 0
IsUnfit needed i b = (is_free b.node_type && leb needed b.weight) ≡ false

-- What the tree of free blocks answers: a free block of the layout that is large enough, or no block, and
-- then no block fits.
abbrev pub IsAnswer : (at : Traits) → FreeBlockTreePolicy → Arena → List ℕ → (needed : ℕ) → Type 0
IsAnswer at ft a xs needed =
    ((ft.find_best_fit a needed ≡ no_block at) × AllOn (IsUnfit needed) (bodies a) xs)
    ⊎ ((pre : List ℕ) × (post : List ℕ) × (xs ≡ pre ++ ft.find_best_fit a needed ∷ post)
        × (is_free (a.blocks (ft.find_best_fit a needed)).node_type ≡ true)
        × (needed ≤ (a.blocks (ft.find_best_fit a needed)).weight))

-- Why a call returns no data, by the error that it sets.
pub data IsFailure (at : Traits) (grow : ℕ → Arena → Option Arena) (initialized : Bool)
    (user_size : ℕ) (a : Arena) (xs : List ℕ) : PmmError → Type 0 where
  uninitialized : initialized ≡ false → IsFailure at grow initialized user_size a xs not_initialized
  empty :
      initialized ≡ true → user_size ≡ 0 → IsFailure at grow initialized user_size a xs invalid_size
  no_granules :
      initialized ≡ true
      → user_size ≢ 0
      → bytes_to_granules_checked at user_size ≡ none
      → IsFailure at grow initialized user_size a xs overflow
  too_many :
      (g : ℕ)
      → initialized ≡ true
      → bytes_to_granules_checked at user_size ≡ some g
      → at.index_max - header_granules at < g
      → IsFailure at grow initialized user_size a xs overflow
  exhausted :
      (g : ℕ)
      → initialized ≡ true
      → bytes_to_granules_checked at user_size ≡ some g
      → AllOn (IsUnfit (header_granules at + g)) (bodies a) xs
      → grow g a ≡ none
      → IsFailure at grow initialized user_size a xs out_of_memory

-- An outcome of `allocate` on the layout `xs`: the arena is well formed. Either the error is `ok`, and the
-- data of a block of the new layout is returned, or there is a reason for the error, no data is returned,
-- and the arena is what it was.
pub record IsOutcome (at : Traits) (grow : ℕ → Arena → Option Arena) (initialized : Bool)
    (user_size : ℕ) (a : Arena) (xs : List ℕ) (r : Allocated) : Type 0 where
  pub layout : List ℕ
  pub heap : IsHeap at r.arena layout
  pub answer :
      ((r.last_error ≡ ok)
        × ((pre : List ℕ) × (i : ℕ) × (post : List ℕ) × (layout ≡ pre ++ i ∷ post)
            × (r.user_data ≡ some (i + header_granules at))))
      ⊎ (IsFailure at grow initialized user_size a xs r.last_error
          × (r.user_data ≡ none)
          × (r.arena ≡ a))

ne_of_eq : {x y : ℕ} → (x == y) ≡ false → x ≢ y
ne_of_eq {x} {y} e p = ground (arith, e, p)

eq_of_eq : {x y : ℕ} → (x == y) ≡ true → x ≡ y
eq_of_eq {x} {y} e = ground (arith, e)

AllOn-last :
    (R : ℕ → Body → Type 0) (m : Bodies) (pre : List ℕ) (i : ℕ)
    → AllOn R m (pre ++ i ∷ [])
    → R i (m i)
AllOn-last R m [] i h = h.0
AllOn-last R m (j ∷ pre) i h = AllOn-last R m pre i h.1

module _ {at : Traits} (t : IsTraits at) (ft : FreeBlockTreePolicy) (config : GrowthConfig)
    (resize : ℕ → Option ℕ) (a : Arena) (pre : List ℕ) (last : ℕ)
    (heap : IsHeap at a (pre ++ last ∷ [])) (last_free : is_free (a.blocks last).node_type ≡ true)
    (grants : (asked got : ℕ) → resize asked ≡ some got → asked ≤ got)
    (answers : (needed : ℕ) → IsAnswer at ft a (pre ++ last ∷ []) needed)
    (answers_grown : (need : ℕ) (b : Arena)
      → do_expand at ft config resize true need a ≡ some b
      → (needed : ℕ) → IsAnswer at ft b (pre ++ last ∷ []) needed) where
  abbrev grow : ℕ → Arena → Option Arena
  grow = do_expand at ft config resize true

  abbrev IsResult : Bool → ℕ → Allocated → Type 0
  IsResult initialized user_size = IsOutcome at grow initialized user_size a (pre ++ last ∷ [])

  failed-IsOutcome :
      (initialized : Bool) (user_size : ℕ) (e : PmmError)
      → IsFailure at grow initialized user_size a (pre ++ last ∷ []) e
      → IsResult initialized user_size (record { arena = a; last_error = e; user_data = none })
  failed-IsOutcome initialized user_size e why = record {
    layout = pre ++ last ∷ [];
    heap = heap;
    answer = inr (why, refl, refl);
  }

  -- the block that the tree finds is handed out
  given-IsOutcome :
      (b : Arena) (g : ℕ) (initialized : Bool) (user_size : ℕ) (front : List ℕ) (back : List ℕ)
      → IsHeap at b (front ++ ft.find_best_fit b (add_index at (header_granules at) g) ∷ back)
      → is_free (b.blocks (ft.find_best_fit b (add_index at (header_granules at) g))).node_type
        ≡ true
      → add_index at (header_granules at) g
        ≤ (b.blocks (ft.find_best_fit b (add_index at (header_granules at) g))).weight
      → 0 < g
      → header_granules at + g ≤ at.index_max
      → IsResult initialized user_size (
          let got : Arena × Option ℕ =
            allocate_from_block at ft b
              (ft.find_best_fit b (add_index at (header_granules at) g))
              g in
          record { arena = got.0; last_error = ok; user_data = got.1 })
  given-IsOutcome b g initialized user_size front back h free enough positive small =
      let i : ℕ = ft.find_best_fit b (add_index at (header_granules at) g) in
      let c : IsCandidate at b front i g back = record {
        heap = h;
        is_free_block = free;
        some_data = positive;
        enough = omega (arith, enough, add_index-eq at (header_granules at) g small);
      } in
      let got = allocate_from_block-IsHeap t ft b front i g back c in
      let rest : List ℕ = cut_off at i g (b.blocks i).weight ++ back in
      record {
        layout = front ++ i ∷ rest;
        heap = got.0;
        answer = inl (refl, (front, i, rest, refl, got.1));
      }

  -- a block of a layout is no `no_block`
  some_block :
      (b : Arena) (front : List ℕ) (i : ℕ) (back : List ℕ)
      → IsHeap at b (front ++ i ∷ back)
      → (i == no_block at) ≡ false
  some_block b front i back h =
      let k : ℕ = total_granules at b in
      let here =
        Chain-back at (bodies b) (no_block at) front (i ∷ back) (no_block at) k h.chained.chain in
      let len = Chain-length t (bodies b) i back (no_block at) k here.1 in
      eq_of_ne i (no_block at)
        (λ e. omega (arith, e, here.0.room, len, h.chained.fits, t.header_pos))

  -- the last block has room after growth
  fits_grown :
      (g : ℕ) (b : Arena)
      → do_expand at ft config resize true g a ≡ some b
      → header_granules at + g ≤ at.index_max
      → IsHeap at b (pre ++ last ∷ [])
        × ((¬ AllOn (IsUnfit (add_index at (header_granules at) g)) (bodies b) (pre ++ last ∷ [])))
  fits_grown g b f small =
      let grown = do_expand-IsHeap t ft a pre last heap last_free config resize true g b grants f in
      (
        grown.0,
        (λ u.
            let unfit =
              AllOn-last (IsUnfit (add_index at (header_granules at) g)) (bodies b) pre last u in
            let wide : add_index at (header_granules at) g ≤ (b.blocks last).weight =
              omega (arith, grown.3, add_index-eq at (header_granules at) g small) in
            ground (arith, unfit, grown.2, wide)),
      )

  allocate_granules-IsOutcome :
      (g user_size : ℕ)
      → bytes_to_granules_checked at user_size ≡ some g
      → 0 < g
      → header_granules at + g ≤ at.index_max
      → IsResult true user_size (allocate_granules at ft grow g a)
  unfolding allocate_granules
  allocate_granules-IsOutcome g user_size bytes positive small =
      let needed : ℕ = add_index at (header_granules at) g in
      elim (answers needed) [
        | inr (front, back, split, free, enough) ↦
            let h = subst (IsHeap at a) split heap in
            rw (some_block a front (ft.find_best_fit a needed) back h)
              (given-IsOutcome a g true user_size front back h free enough positive small)
        | inl (e, unfit) ↦ elim (Option-cases (do_expand at ft config resize true g a)) [
          | inl f ↦
              rw (e, eq_refl (no_block at), f)
                (failed-IsOutcome true user_size out_of_memory (
                  exhausted g refl bytes
                    (subst (λ n. AllOn (IsUnfit n) (bodies a) (pre ++ last ∷ []))
                      (add_index-eq at (header_granules at) g small) unfit)
                    f))
          | inr (b, f) ↦ elim (answers_grown g b f needed) [
            | inl (e1, unfit1) ↦ absurd ((fits_grown g b f small).1 unfit1)
            | inr (front, back, split, free, enough) ↦
                let h = subst (IsHeap at b) split (fits_grown g b f small).0 in
                rw
                  (
                    e,
                    eq_refl (no_block at),
                    f,
                    some_block b front (ft.find_best_fit b needed) back h,
                  )
                  (given-IsOutcome b g true user_size front back h free enough positive small)
          ]
        ]
      ]

  -- The arena is well formed and its last block is free, the backend grants no less than it is asked for,
  -- and the tree answers each search in the arena, and in what `do_expand` makes of it, with a free block
  -- that is large enough, or with no block where no block fits. Then `allocate` of any size, with growth
  -- by `do_expand`, leaves a well-formed arena. Either it sets `ok` and returns the data of a block of the
  -- layout, or it returns no data, leaves the arena as it was and sets the error that tells why: the
  -- manager is not initialized, the size is 0, the granules cannot be indexed, or no block fits and growth
  -- fails.
  pub allocate-IsOutcome :
      (initialized : Bool) (user_size : ℕ)
      → IsOutcome at grow initialized user_size a
          (pre ++ last ∷ [])
          (allocate at ft grow initialized user_size a)
  unfolding allocate
  allocate-IsOutcome false user_size =
      failed-IsOutcome false user_size not_initialized (uninitialized refl)
  allocate-IsOutcome true user_size = elim (Bool-cases (user_size == 0)) [
    | inl e ↦ rw e (failed-IsOutcome true user_size invalid_size (empty refl (eq_of_eq e)))
    | inr e ↦ elim (Option-cases (bytes_to_granules_checked at user_size)) [
      | inl f ↦
          rw (e, f) (failed-IsOutcome true user_size overflow (no_granules refl (ne_of_eq e) f))
      | inr (g, f) ↦
          let least = bytes_to_granules_checked-least at user_size g t.granule_pos f in
          let some_granule : g ≢ 0 = λ z.
            omega (arith, subst (λ x. user_size ≤ x * at.granule_size) z least.0, ne_of_eq e) in
          elim (Bool-cases (ltb (at.index_max - header_granules at) g)) [
            | inl k ↦
                rw (e, f, eq_of_ne g 0 some_granule, k)
                  (failed-IsOutcome true user_size overflow (too_many g refl f (ground (arith, k))))
            | inr k ↦
                rw (e, f, eq_of_ne g 0 some_granule, k)
                  (allocate_granules-IsOutcome g user_size f (omega (arith, some_granule))
                    (ground (arith, k, t.header_small)))
          ]
    ]
  ]
