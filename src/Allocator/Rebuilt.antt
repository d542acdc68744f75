-- ===== src/Allocator/Rebuilt.antt =====
-- include/pmm/allocator_policy.h, `rebuild_free_tree`: the owner of every block and the weight of
-- every free block are written anew, and each free block is inserted in an empty tree.
use netkeep80_persist_memory.Base.{
  ℕ, ◌+◌, ◌/◌, ◌≤◌, ◌≡◌, ◌≢◌, refl, sym, ◌∙◌, ap, List, ◌∷◌, arith, head_or, last_or, ◌==◌, eq_refl,
  eq_of_ne, eq→≡, inl, inr, Bool, true, false, Bool-cases, not, if◌then◌else◌,
}
use netkeep80_persist_memory.Traits.{Traits, no_block, size_max}
use netkeep80_persist_memory.Node.{is_free, is_allocated}
use netkeep80_persist_memory.Memory.{
  Body, body, BlockHeader, ManagerHeader, Arena, modify, with_header,
}
use netkeep80_persist_memory.BlockState.{recover_state, reset_avl_fields_of}
use netkeep80_persist_memory.Validation.{physical_block_total_granules}
use netkeep80_persist_memory.FreeTree.Policy.{FreeBlockTreePolicy}
use netkeep80_persist_memory.Layout.{IsTraits, Bodies, bodies, Chain, total_granules}
use netkeep80_persist_memory.Layout.Settled.{
  AllOn, AgreesOn, AllOn-map, Settles, fold-settles, fold-prev, fold_left-keeps,
  for_each_physical_block-follows,
}
use netkeep80_persist_memory.Layout.Walked.{fold_left}
use netkeep80_persist_memory.Allocator.Silent.{physical_block_total_granules-next}
use netkeep80_persist_memory.Allocator.Repair.{Visit, rebuild_step, rebuild_free_tree}
use netkeep80_persist_memory.Allocator.Relinked.{IsRelinked}

-- but for the root of the tree
abbrev pub rootless : ManagerHeader → ManagerHeader
rootless h = record h { free_tree_root = 0 }

body-eq :
    (x y : Body)
    → x.weight ≡ y.weight
    → x.root_offset ≡ y.root_offset
    → x.prev_offset ≡ y.prev_offset
    → x.next_offset ≡ y.next_offset
    → x.node_type ≡ y.node_type
    → x ≡ y
body-eq x y w r p n k = ground arith

recover_state-body :
    (i : ℕ) (h : BlockHeader)
    → is_allocated h.node_type ≡ not (is_free h.node_type)
    → body (recover_state i h)
      ≡ record (body h) { root_offset = if is_free h.node_type then 0 else i }
unfolding recover_state
recover_state-body i h known = elim (Bool-cases (is_free h.node_type)) [
  | inl e ↦ ground (arith, e, known)
  | inr e ↦ ground (arith, e, known)
]

recover_state-node_type : (i : ℕ) (h : BlockHeader) → (recover_state i h).node_type ≡ h.node_type
unfolding recover_state
recover_state-node_type i h = ground arith

recover_state-next : (i : ℕ) (h : BlockHeader) → (recover_state i h).next_offset ≡ h.next_offset
unfolding recover_state
recover_state-next i h = ground arith

module _ (at : Traits) (ft : FreeBlockTreePolicy) where
  abbrev rebuild : ℕ → Visit → Visit
  rebuild i v = (rebuild_step at ft i v).1

  -- the arena that the tree is given
  abbrev weighed : ℕ → Visit → Arena
  weighed i v =
      let a1 : Arena = modify i (recover_state i) v.arena in
      modify i
        (λ h.
          reset_avl_fields_of at
            (record h { weight = physical_block_total_granules at v.arena.header i (a1.blocks i) }))
        a1

  abbrev type_at : ℕ → Visit → Bool
  type_at i v = is_free (v.arena.blocks i).node_type

  rebuild-free :
      (i : ℕ) (v : Visit) → type_at i v ≡ true → (rebuild i v).arena ≡ ft.insert (weighed i v) i
  unfolding rebuild_step
  rebuild-free i v e = rw (eq_refl i, recover_state-node_type i (v.arena.blocks i), e) refl

  rebuild-allocated :
      (i : ℕ) (v : Visit)
      → type_at i v ≡ false
      → (rebuild i v).arena ≡ modify i (recover_state i) v.arena
  unfolding rebuild_step
  rebuild-allocated i v e = rw (eq_refl i, recover_state-node_type i (v.arena.blocks i), e) refl

  rebuild-remembers : (i : ℕ) (v : Visit) → (rebuild i v).prev ≡ i
  unfolding rebuild_step
  rebuild-remembers i v = refl

  rebuild-header :
      (i : ℕ) (v : Visit) → rootless (rebuild i v).arena.header ≡ rootless v.arena.header
  rebuild-header i v = elim (Bool-cases (type_at i v)) [
    | inl e ↦
        rw (rebuild-free i v e) (ap rootless (ft.insert-SameBodies (weighed i v) i).same_header)
    | inr e ↦ rw (rebuild-allocated i v e) refl
  ]

  rebuild-leaves : (i j : ℕ) (v : Visit) → j ≢ i → bodies (rebuild i v).arena j ≡ bodies v.arena j
  rebuild-leaves i j v other = elim (Bool-cases (type_at i v)) [
    | inl e ↦
        rw (rebuild-free i v e)
          ((ft.insert-SameBodies (weighed i v) i).same_bodies j ∙ rw (eq_of_ne j i other) refl)
    | inr e ↦ rw (rebuild-allocated i v e, eq_of_ne j i other) refl
  ]

  -- what becomes of a free block that is visited
  rebuild-body_free :
      (i : ℕ) (v : Visit)
      → is_allocated (v.arena.blocks i).node_type ≡ not (type_at i v)
      → type_at i v ≡ true
      → bodies (rebuild i v).arena i ≡ record (bodies v.arena i) {
        root_offset = 0;
        weight =
            physical_block_total_granules at v.arena.header i (recover_state i (v.arena.blocks i));
      }
  unfolding reset_avl_fields_of
  rebuild-body_free i v known e =
      let w : ℕ =
        physical_block_total_granules at v.arena.header i (recover_state i (v.arena.blocks i)) in
      let recovered : body (recover_state i (v.arena.blocks i))
          ≡ record (bodies v.arena i) { root_offset = 0 } =
        rw (recover_state-body i (v.arena.blocks i) known, e) refl in
      rw (rebuild-free i v e) (
        (ft.insert-SameBodies (weighed i v) i).same_bodies i
        ∙ rw (eq_refl i) (ap (λ (b : Body). record b { weight = w }) recovered))

  rebuild-body_allocated :
      (i : ℕ) (v : Visit)
      → is_allocated (v.arena.blocks i).node_type ≡ not (type_at i v)
      → type_at i v ≡ false
      → bodies (rebuild i v).arena i ≡ record (bodies v.arena i) { root_offset = i }
  rebuild-body_allocated i v known e =
      rw (rebuild-allocated i v e, eq_refl i, recover_state-body i (v.arena.blocks i) known, e) refl

  recovered-next :
      (i : ℕ) (v : Visit) (j : ℕ)
      → ((modify i (recover_state i) v.arena).blocks j).next_offset ≡ (v.arena.blocks j).next_offset
  recovered-next i v j = elim (Bool-cases (j == i)) [
    | inl e ↦ rw e (recover_state-next i (v.arena.blocks j))
    | inr e ↦ rw e refl
  ]

  weighed-next :
      (i : ℕ) (v : Visit) (j : ℕ)
      → ((weighed i v).blocks j).next_offset ≡ (v.arena.blocks j).next_offset
  unfolding reset_avl_fields_of
  weighed-next i v j = elim (Bool-cases (j == i)) [
    | inl e ↦ rw e (recover_state-next i (v.arena.blocks j))
    | inr e ↦ rw e refl
  ]

  rebuild-next :
      (i : ℕ) (v : Visit) (j : ℕ)
      → ((rebuild i v).arena.blocks j).next_offset ≡ (v.arena.blocks j).next_offset
  rebuild-next i v j = elim (Bool-cases (type_at i v)) [
    | inl e ↦ rw (rebuild-free i v e) (
        ap (λ (b : Body). b.next_offset) ((ft.insert-SameBodies (weighed i v) i).same_bodies j)
        ∙ weighed-next i v j)
    | inr e ↦ rw (rebuild-allocated i v e) (recovered-next i v j)
  ]

  module _ (t : IsTraits at) (m : Bodies) (total : ℕ)
      (fits : total / at.granule_size ≤ at.index_max) where
    rebuild-settles :
        (p i : ℕ) (r : List ℕ) (v : Visit)
        → Chain at m p (i ∷ r) (no_block at) (total / at.granule_size)
        → v.arena.header.total_size ≡ total
        → IsRelinked (m i) (bodies v.arena i)
        → bodies (rebuild i v).arena i ≡ m i
    rebuild-settles p i r v h same links =
        let rep = links.repairable in
        let known : is_allocated (v.arena.blocks i).node_type ≡ not (type_at i v) =
          rw (rep.type) (h.0.known) in
        elim (Bool-cases (is_free (m i).node_type)) [
          | inl e ↦
              let ends : i
                    + physical_block_total_granules at v.arena.header i
                        (recover_state i (v.arena.blocks i))
                  ≡ head_or (total / at.granule_size) r =
                rw (sym same) (
                  physical_block_total_granules-next t v.arena.header m
                    (recover_state i (v.arena.blocks i)) p i r (rw same h) (rw same fits)
                    (recover_state-next i (v.arena.blocks i) ∙ rep.next)) in
              let sized : ((m i).root_offset ≡ 0)
                  × (i + (m i).weight ≡ head_or (total / at.granule_size) r) =
                ground (arith, h.0.sized, e) in
              rebuild-body_free i v known (rw (rep.type) e)
              ∙ body-eq
                  (record (bodies v.arena i) {
                    root_offset = 0;
                    weight =
                        physical_block_total_granules at v.arena.header i
                          (recover_state i (v.arena.blocks i));
                  })
                  (m i) (omega (arith, ends, sized.1)) (sym sized.0) links.prev rep.next rep.type
          | inr e ↦
              let owner : (m i).root_offset ≡ i = ground (arith, h.0.sized, e) in
              rebuild-body_allocated i v known (rw (rep.type) e)
              ∙ body-eq (record (bodies v.arena i) { root_offset = i }) (m i) (rep.weight e)
                  (sym owner) links.prev rep.next rep.type
        ]

    rebuild-Settles : Settles at m total rebuild (λ i. IsRelinked (m i)) (λ i b. b ≡ m i)
    rebuild-Settles = record {
      settles = λ p i r v h before same links. rebuild-settles p i r v h same links;
      leaves = rebuild-leaves;
      remembers = rebuild-remembers;
      keeps_total = λ i v. ap (λ (h : ManagerHeader). h.total_size) (rebuild-header i v);
    }

module _ {at : Traits} (t : IsTraits at) (ft : FreeBlockTreePolicy) (m : Bodies) (a : Arena)
    (xs : List ℕ) (chain : Chain at m (no_block at) xs (no_block at) (total_granules at a))
    (fits : total_granules at a ≤ at.index_max)
    (first : a.header.first_block_offset ≡ head_or (no_block at) xs)
    (wide : a.header.total_size ≤ size_max)
    (damage : AllOn (λ i. IsRelinked (m i)) (bodies a) xs) where
  -- the arena whose tree and whose last block are forgotten
  abbrev emptied : Visit
  emptied = record {
    arena =
        with_header
          (λ h. record h { free_tree_root = no_block at; last_block_offset = no_block at }) a;
    prev = no_block at;
  }

  abbrev visited : Visit
  visited = fold_left (rebuild at ft) xs emptied

  rebuild_free_tree-visited : rebuild_free_tree at ft a ≡ (
      if visited.prev == no_block at
      then visited.arena
      else with_header (λ h. record h { last_block_offset = visited.prev }) visited.arena)
  unfolding rebuild_free_tree rebuild_step
  rebuild_free_tree-visited =
      ap
        (λ (r : Bool × Visit).
          if r.1.prev == no_block at
          then r.1.arena
          else with_header (λ h. record h { last_block_offset = r.1.prev }) r.1.arena)
        (for_each_physical_block-follows t (λ (v : Visit). v.arena) (rebuild at ft)
          (rebuild-next at ft) m xs emptied
          (AllOn-map {R = λ i. IsRelinked (m i)} {Q = λ i b. b.next_offset ≡ (m i).next_offset}
            (bodies a) xs (λ i b h. h.repairable.next) damage)
          chain fits first wide)

  visited-header : rootless visited.arena.header ≡ rootless emptied.arena.header
  visited-header =
      fold_left-keeps (λ (v : Visit). rootless v.arena.header) (rebuild at ft)
        (rebuild-header at ft) xs emptied

  visited-prev : visited.prev ≡ last_or (no_block at) xs
  visited-prev =
      fold-prev t m a.header.total_size (rebuild at ft) (λ i. IsRelinked (m i)) (λ i b. b ≡ m i)
        (rebuild-Settles at ft t m a.header.total_size fits) (no_block at) xs emptied refl

  -- On such an arena `rebuild_free_tree` makes every block that of the chain, and of the header it sets
  -- only the root of the tree and the last block, which is the last of the chain.
  pub rebuild_free_tree-AgreesOn :
      AgreesOn m (bodies (rebuild_free_tree at ft a)) xs
      × (rootless (rebuild_free_tree at ft a).header
          ≡ rootless (record (a.header) { last_block_offset = last_or (no_block at) xs }))
  rebuild_free_tree-AgreesOn =
      let settled : AgreesOn m (bodies visited.arena) xs =
        fold-settles t m a.header.total_size (rebuild at ft) (λ i. IsRelinked (m i))
          (λ i b. b ≡ m i) (rebuild-Settles at ft t m a.header.total_size fits) (no_block at) xs
          emptied chain refl refl damage in
      elim (Bool-cases (visited.prev == no_block at)) [
        | inl e ↦
            let none : last_or (no_block at) xs ≡ no_block at =
              sym visited-prev ∙ eq→≡ visited.prev (no_block at) e in
            rw (rebuild_free_tree-visited, e, none) (settled, visited-header)
        | inr e ↦
            rw (rebuild_free_tree-visited, e, sym visited-prev)
              (
                settled,
                ap (λ (h : ManagerHeader). record h { last_block_offset = visited.prev })
                    visited-header,
              )
      ]
