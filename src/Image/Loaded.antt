-- ===== src/Image/Loaded.antt =====
-- include/pmm/persist_memory_manager.h, `load` of a damaged image and of a sound one.
use netkeep80_persist_memory.Base.{
  Bool, ◌&&◌, ◌⊎◌, inl, inr, Bool-cases, ◌++◌, ◌+◌, ◌∙◌, ℕ, zero, suc, ◌≤◌, ◌≡◌, refl, ap, true,
  false, List, [], ◌∷◌, arith, length, ltb, if◌then◌else◌,
}
use netkeep80_persist_memory.Traits.{Traits, size_max}
use netkeep80_persist_memory.Memory.{Arena}
use netkeep80_persist_memory.Diagnostics.{
  ViolationType, counter_mismatch, no_action, add, add-IsBounded, max_diagnostic_entries,
  DiagnosticAction, DiagnosticEntry, VerifyResult, IsBounded, fresh, repair, repaired, rebuilt,
}
use netkeep80_persist_memory.FreeTree.Policy.{FreeBlockTreePolicy}
use netkeep80_persist_memory.FreeTree.BestFit.{Shape}
use netkeep80_persist_memory.Layout.{IsTraits, bodies, IsHeap, IsChained}
use netkeep80_persist_memory.Layout.Settled.{AllOn, AgreesOn}
use netkeep80_persist_memory.Allocator.Relinked.{IsRepairable}
use netkeep80_persist_memory.Allocator.Verify.{
  verify_linked_list, counters_match, verify_counters, verify_block_states,
}
use netkeep80_persist_memory.Allocator.TreeCheck.{verify_free_tree}
use netkeep80_persist_memory.Allocator.Counting.{counted_on, accumulate_counters-IsCounted}
use netkeep80_persist_memory.Allocator.Silent.{
  verify_linked_list-IsChained, verify_block_states-IsChained,
}
use netkeep80_persist_memory.Allocator.TreeCheck.Sound.{IsTreeOf}
use netkeep80_persist_memory.Allocator.TreeCheck.Silent.{verify_free_tree-IsTreeOf}
use netkeep80_persist_memory.Manager.{ok}
use netkeep80_persist_memory.Forest.Agreement.{verify_forest_registry-validate_bootstrap_invariants}
use netkeep80_persist_memory.Allocator.Repair.{no_counters}
use netkeep80_persist_memory.Forest.{validate_bootstrap_invariants}
use netkeep80_persist_memory.State.{ManagerState}
use netkeep80_persist_memory.Image.{
  min_memory_size, mark_from, marked, inspect, repaired_state, finish_load, load_accepted,
  load_guarded, load, Loading,
}
use netkeep80_persist_memory.Image.Refused.{IsLoadable, none-IsImage}
use netkeep80_persist_memory.Image.Repaired.{repair_arena-IsHeap}

-- no entry stands behind the last
mark_from-length :
    (act : DiagnosticAction) (n : ℕ) (xs : List DiagnosticEntry)
    → length xs ≤ n
    → mark_from n act xs ≡ xs
mark_from-length act zero [] h = refl
mark_from-length act (suc n) [] h = refl
mark_from-length act zero (x ∷ xs) h = absurd (omega arith)
mark_from-length act (suc n) (x ∷ xs) h =
    ap (λ ys. x ∷ ys) (mark_from-length act n xs (omega arith))

-- a check that reports nothing marks nothing
marked-silent :
    (act : DiagnosticAction) (check : VerifyResult → VerifyResult) (r : VerifyResult)
    → IsBounded r
    → check r ≡ r
    → marked act check r ≡ r
unfolding marked
marked-silent act check r h e =
    rw (e, mark_from-length act r.entry_count r.entries (omega (arith, h.filled))) refl

-- a new entry is marked, and those before it stay
mark_from-append :
    (act : DiagnosticAction) (es : List DiagnosticEntry) (e : DiagnosticEntry)
    → mark_from (length es) act (es ++ e ∷ []) ≡ es ++ record e { action = act } ∷ []
mark_from-append act [] e = refl
mark_from-append act (x ∷ es) e = ap (λ ys. x ∷ ys) (mark_from-append act es e)

-- a check that reports one entry has it marked
marked-add :
    (what : ViolationType) (act old : DiagnosticAction) (i e x : ℕ) (r : VerifyResult)
    → IsBounded r
    → marked act (add what old i e x) r ≡ add what act i e x r
unfolding marked add
marked-add what act old i e x r h = elim (Bool-cases (ltb r.entry_count max_diagnostic_entries)) [
  | inl room ↦
      rw
        (
          room,
          h.filled,
          mark_from-append act r.entries
              (record { type = what; action = old; block_index = i; expected = e; actual = x }),
        )
        refl
  | inr full ↦
      rw (full, mark_from-length act r.entry_count r.entries (omega (arith, h.filled))) refl
]

marked-same :
    (act : DiagnosticAction) (check other : VerifyResult → VerifyResult) (r : VerifyResult)
    → check r ≡ other r
    → marked act check r ≡ marked act other r
unfolding marked
marked-same act check other r e = rw e refl

-- What `load` makes of the state and the outcome of the bootstrap: it returns true, with no error, if the
-- bootstrap succeeds and leaves what the invariants of the bootstrap demand, and otherwise returns false
-- and leaves the manager uninitialized.
abbrev pub IsFinished : Traits → (registry_size : ℕ) → ManagerState × Bool → Loading → Type 0
IsFinished at registry_size (s, done) l =
    ((done ≡ true)
      × (validate_bootstrap_invariants at registry_size s ≡ true)
      × (l.refused ≡ false)
      × (l.state ≡ record s { last_error = ok }))
    ⊎ (((done && validate_bootstrap_invariants at registry_size s) ≡ false)
        × (l.refused ≡ true)
        × (l.state ≡ record s { initialized = false }))

finish_load-IsFinished :
    (at : Traits) (ft : FreeBlockTreePolicy) (registry_size : ℕ)
    (validate_or_bootstrap : ManagerState → ManagerState × Bool) (out : ManagerState × Bool)
    (r : VerifyResult)
    → IsFinished at registry_size out (finish_load at ft registry_size validate_or_bootstrap out r)
unfolding finish_load
finish_load-IsFinished at ft registry_size validate_or_bootstrap (s, false) r =
    inr (refl, refl, refl)
finish_load-IsFinished at ft registry_size validate_or_bootstrap (s, true) r =
    elim (Bool-cases (validate_bootstrap_invariants at registry_size s)) [
      | inl e ↦ rw e (inl (refl, refl, refl, refl))
      | inr e ↦ rw e (inr (refl, refl, refl))
    ]

finish_load-report :
    (at : Traits) (ft : FreeBlockTreePolicy) (registry_size : ℕ)
    (validate_or_bootstrap : ManagerState → ManagerState × Bool) (out : ManagerState × Bool)
    (r : VerifyResult)
    → out.1 ≡ true
    → (finish_load at ft registry_size validate_or_bootstrap out r).report ≡ r
unfolding finish_load
finish_load-report at ft registry_size validate_or_bootstrap (s, false) r h = absurd cc
finish_load-report at ft registry_size validate_or_bootstrap (s, true) r h =
    elim (Bool-cases (validate_bootstrap_invariants at registry_size s)) [
      | inl e ↦ rw e refl
      | inr e ↦ rw e refl
    ]

module _ {at : Traits} (t : IsTraits at) (a : Arena) (xs : List ℕ) (tree : Shape) (r : VerifyResult)
    (h : IsChained at a xs) (wide : a.header.total_size ≤ size_max) (sound : IsTreeOf at a xs tree)
    (bounds : IsBounded r) where
  verify_counters-counted : verify_counters at a r ≡ (
      if counters_match at a.header (counted_on at a no_counters xs)
      then r
      else add counter_mismatch no_action 0 (length xs) a.header.block_count r)
  unfolding verify_counters
  verify_counters-counted =
      let same : 0 + length xs ≡ length xs = omega arith in
      let wrong : ℕ → VerifyResult = λ n.
        if counters_match at a.header (counted_on at a no_counters xs)
        then r
        else add counter_mismatch no_action 0 n a.header.block_count r in
      rw (accumulate_counters-IsCounted t a xs h wide) (ap wrong same)

  -- The marked checks of an image that is sound but for its counters.
  inspect-counters : inspect at a r ≡ (
      if counters_match at a.header (counted_on at a no_counters xs)
      then r
      else add counter_mismatch rebuilt 0 (length xs) a.header.block_count r)
  unfolding inspect
  inspect-counters =
      let mismatch : VerifyResult =
        add counter_mismatch rebuilt 0 (length xs) a.header.block_count r in
      let states =
        marked-silent repaired (verify_block_states at a) r bounds
          (verify_block_states-IsChained t a xs r h wide) in
      let links =
        marked-silent repaired (verify_linked_list at a) r bounds
          (verify_linked_list-IsChained t a xs r h wide) in
      elim (Bool-cases (counters_match at a.header (counted_on at a no_counters xs))) [
        | inl e ↦
            let counted : verify_counters at a r ≡ r = verify_counters-counted ∙ rw e refl in
            rw (states, links, e, marked-silent rebuilt (verify_counters at a) r bounds counted)
              (marked-silent rebuilt (verify_free_tree at a) r bounds
                (verify_free_tree-IsTreeOf t a xs tree r h wide sound))
        | inr e ↦
            let wrong : VerifyResult → VerifyResult =
              add counter_mismatch no_action 0 (length xs) a.header.block_count in
            let counted : marked rebuilt (verify_counters at a) r ≡ mismatch =
              marked-same rebuilt (verify_counters at a) wrong r
                (verify_counters-counted ∙ rw e refl)
              ∙ marked-add counter_mismatch rebuilt no_action 0 (length xs) a.header.block_count r
                  bounds in
            let still =
              (add-IsBounded counter_mismatch rebuilt 0 (length xs) a.header.block_count r
                bounds).0 in
            rw (states, links, e, counted)
              (marked-silent rebuilt (verify_free_tree at a) mismatch still
                (verify_free_tree-IsTreeOf t a xs tree mismatch h wide sound))
      ]

module _ {at : Traits} (t : IsTraits at) (ft : FreeBlockTreePolicy) (registry_size : ℕ)
    (validate_or_bootstrap : ManagerState → ManagerState × Bool) (xs : List ℕ) (r : VerifyResult)
    (s : ManagerState) (loadable : IsLoadable at s) where
  abbrev loaded : Loading
  loaded = load at ft registry_size validate_or_bootstrap r s

  load_guards :
      loaded
      ≡ load_accepted at ft registry_size validate_or_bootstrap
          (record r { mode = repair; ok = true })
          s
  unfolding load load_guarded
  load_guards =
      let large : ltb s.backend_size min_memory_size ≡ false = ground (arith, loadable.large) in
      rw (loadable.mapped, large, none-IsImage at s.backend_size s.arena.header loadable.image) refl

  -- An image that the guards of `load` accept is an arena `b` after damage, where `b` is well formed, its
  -- size is a `size_t`, and the image still has of `b` the size, the first block and, for every block of
  -- the layout, the link that leads on, the type and, in use, the size of the data; the links back, the
  -- owners, the weights of free blocks, the tree, the counters and the last block may be lost. Then the
  -- bootstrap of the forest registry finds an initialized manager, whose arena is well formed with the
  -- bodies of `b`, and the registry of the image. If the bootstrap succeeds and leaves its invariants,
  -- `load` returns true with no error and the state that the bootstrap leaves; otherwise it returns false,
  -- and the manager is not initialized.
  pub load-IsHeap :
      (b : Arena)
      → IsHeap at b xs
      → b.header.total_size ≤ size_max
      → s.arena.header.total_size ≡ b.header.total_size
      → s.arena.header.first_block_offset ≡ b.header.first_block_offset
      → AllOn (λ i. IsRepairable (bodies b i)) (bodies s.arena) xs
      → ((repaired_state at ft s).initialized ≡ true)
        × ((repaired_state at ft s).registry_at ≡ s.registry_at)
        × IsHeap at (repaired_state at ft s).arena xs
        × AgreesOn (bodies b) (bodies (repaired_state at ft s).arena) xs
        × IsFinished at registry_size (validate_or_bootstrap (repaired_state at ft s)) loaded
  unfolding load_accepted repaired_state
  load-IsHeap b h wide same_size same_first damage =
      let fixed = repair_arena-IsHeap t ft b s.arena xs h wide same_size same_first damage in
      rw load_guards (
        refl,
        refl,
        fixed.0,
        fixed.1,
        finish_load-IsFinished at ft registry_size validate_or_bootstrap
            (validate_or_bootstrap (repaired_state at ft s)) _,
      )

  -- Of an image that the guards of `load` accept the blocks are chained, the size is a `size_t`, the tree of
  -- free blocks is sound, and the report so far is within bounds; only the counters may be wrong. After
  -- the repair the registry is what the invariants of the bootstrap demand, and the bootstrap succeeds.
  -- Then `load` reports nothing but that it ran in repair mode, if the counters of the header are those of
  -- the blocks, and else one mismatch of counters with the number of blocks that it counted and the one
  -- in the header, marked as rebuilt.
  pub load-report :
      (tree : Shape)
      → IsChained at s.arena xs
      → s.arena.header.total_size ≤ size_max
      → IsTreeOf at s.arena xs tree
      → IsBounded r
      → validate_bootstrap_invariants at registry_size (repaired_state at ft s) ≡ true
      → (validate_or_bootstrap (repaired_state at ft s)).1 ≡ true
      → loaded.report ≡ (
          if counters_match at s.arena.header (counted_on at s.arena no_counters xs)
          then record r { mode = repair; ok = true }
          else add counter_mismatch rebuilt 0
              (length xs)
              s.arena.header.block_count
              (record r { mode = repair; ok = true }))
  unfolding load_accepted
  load-report tree h wide sound bounded registry done =
      let r0 : VerifyResult = record r { mode = repair; ok = true } in
      let bounds : IsBounded r0 = record { filled = bounded.filled; fits = bounded.fits } in
      rw
        (
          load_guards,
          verify_forest_registry-validate_bootstrap_invariants at registry_size
              (repaired_state at ft s) fresh registry,
        )
        (finish_load-report at ft registry_size validate_or_bootstrap
            (validate_or_bootstrap (repaired_state at ft s)) (inspect at s.arena r0) done
          ∙ inspect-counters t s.arena xs tree r0 h wide sound bounds)
