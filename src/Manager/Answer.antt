-- ===== src/Manager/Answer.antt =====
-- include/pmm/persist_memory_manager.h, `allocate_unlocked` of any arena, well formed or not: it returns
-- data, or sets an error.
use netkeep80_persist_memory.Base.{
  ℕ, ◌-◌, ◌≡◌, ◌≢◌, refl, ◌⊎◌, inl, inr, Bool, true, false, Option, none, some, ◌==◌, ltb,
  Bool-cases, Option-cases,
}
use netkeep80_persist_memory.Traits.{Traits, no_block, header_granules, add_index}
use netkeep80_persist_memory.Memory.{Arena}
use netkeep80_persist_memory.Checked.{bytes_to_granules_checked}
use netkeep80_persist_memory.FreeTree.Policy.{FreeBlockTreePolicy}
use netkeep80_persist_memory.Allocator.{allocate_from_block}
use netkeep80_persist_memory.Manager.{ok, Allocated, allocate_granules, allocate}

-- data and no error, or an error and no data
abbrev pub IsAllocation : Allocated → Type 0
IsAllocation r =
    ((r.last_error ≡ ok) × ((u : ℕ) × (r.user_data ≡ some u)))
    ⊎ ((r.last_error ≢ ok) × (r.user_data ≡ none))

module _ (at : Traits) (ft : FreeBlockTreePolicy) where
  given-IsAllocation :
      (b : Arena) (i g : ℕ)
      → (g == 0) ≡ false
      → ltb (at.index_max - header_granules at) g ≡ false
      → IsAllocation (record {
        arena = (allocate_from_block at ft b i g).0;
        last_error = ok;
        user_data = (allocate_from_block at ft b i g).1;
      })
  unfolding allocate_from_block
  given-IsAllocation b i g some_granule small =
      rw (some_granule, small) (inl (refl, (add_index at i (header_granules at), refl)))

  allocate_granules-IsAllocation :
      (expand : ℕ → Arena → Option Arena) (g : ℕ) (a : Arena)
      → (g == 0) ≡ false
      → ltb (at.index_max - header_granules at) g ≡ false
      → IsAllocation (allocate_granules at ft expand g a)
  unfolding allocate_granules
  allocate_granules-IsAllocation expand g a some_granule small =
      let needed : ℕ = add_index at (header_granules at) g in
      elim (Bool-cases (ft.find_best_fit a needed == no_block at)) [
        | inr e ↦ rw e (given-IsAllocation a (ft.find_best_fit a needed) g some_granule small)
        | inl e ↦ elim (Option-cases (expand g a)) [
          | inl f ↦ rw (e, f) (inr ((λ q. cc), refl))
          | inr (b, f) ↦ elim (Bool-cases (ft.find_best_fit b needed == no_block at)) [
            | inl k ↦ rw (e, f, k) (inr ((λ q. cc), refl))
            | inr k ↦
                rw (e, f, k) (given-IsAllocation b (ft.find_best_fit b needed) g some_granule small)
          ]
        ]
      ]

  -- `allocate` of any arena, with any growth
  pub allocate-IsAllocation :
      (expand : ℕ → Arena → Option Arena) (initialized : Bool) (bytes : ℕ) (a : Arena)
      → IsAllocation (allocate at ft expand initialized bytes a)
  unfolding allocate
  allocate-IsAllocation expand false bytes a = inr ((λ q. cc), refl)
  allocate-IsAllocation expand true bytes a = elim (Bool-cases (bytes == 0)) [
    | inl e ↦ rw e (inr ((λ q. cc), refl))
    | inr e ↦ elim (Option-cases (bytes_to_granules_checked at bytes)) [
      | inl f ↦ rw (e, f) (inr ((λ q. cc), refl))
      | inr (g, f) ↦ elim (Bool-cases (g == 0)) [
        | inl k ↦ rw (e, f, k) (inr ((λ q. cc), refl))
        | inr k ↦ elim (Bool-cases (ltb (at.index_max - header_granules at) g)) [
          | inl l ↦ rw (e, f, k, l) (inr ((λ q. cc), refl))
          | inr l ↦ rw (e, f, k, l) (allocate_granules-IsAllocation expand g a k l)
        ]
      ]
    ]
  ]
