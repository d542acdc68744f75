-- ===== src/Forest/Root.antt =====
-- include/pmm/forest_domain_mixin.inc: the root of a domain is read back after it is set.
use netkeep80_persist_memory.Base.{
  ℕ, zero, suc, ◌+◌, ◌≡◌, ◌≢◌, refl, sym, ap, ◌∙◌, Bool, true, false, not, ◌||◌, some, inl, inr,
  List, arith, ◌==◌, Bool-cases, eq_refl, eq_when, eq_of_ne, if◌then◌else◌,
}
use netkeep80_persist_memory.Traits.{Traits, no_block}
use netkeep80_persist_memory.Manager.{is_valid_user_offset}
use netkeep80_persist_memory.State.{ForestDomainRecord, ForestDomainRegistry, ManagerState}
use netkeep80_persist_memory.Forest.{
  forest_binding_direct_root, forest_binding_free_tree, forest_domain_name_equals,
  forest_registry_root, is_registry, find_slot, slot_in, registry_of, record_at, write_root,
  set_forest_domain_root_index, find_domain_slot, find_domain_by_name, forest_domain_root_index,
  get_domain_root_offset, set_domain_root, forest_domain_name_fits,
}

-- a search that does not look at what differs
find_slot-same :
    (wanted : ForestDomainRecord → Bool) (reg reg' : ForestDomainRegistry) (left i : ℕ)
    → ((k : ℕ) → wanted (reg'.domains k) ≡ wanted (reg.domains k))
    → find_slot wanted reg' left i ≡ find_slot wanted reg left i
unfolding find_slot
find_slot-same wanted reg reg' zero i same = refl
find_slot-same wanted reg reg' (suc left) i same =
    rw (same i, find_slot-same wanted reg reg' left (i + 1) same) refl

written-domains :
    (i root : ℕ) (s : ManagerState) (k : ℕ)
    → (registry_of (write_root i root s)).domains k ≡ (
        if k == i
        then record ((registry_of s).domains k) { root_offset = root }
        else (registry_of s).domains k)
unfolding write_root
written-domains i root s k = rw (eq_refl s.arena.header.root_offset) refl

-- the registry with the root written
abbrev with_root : ℕ → ℕ → ForestDomainRegistry → ForestDomainRegistry
with_root i root reg = record reg {
  domains = λ k. if k == i then record (reg.domains k) { root_offset = root } else reg.domains k;
}

write_root-registry :
    (i root : ℕ) (s : ManagerState)
    → registry_of (write_root i root s) ≡ with_root i root (registry_of s)
unfolding write_root
write_root-registry i root s = rw (eq_refl s.arena.header.root_offset) refl

module _ (at : Traits) (registry_size : ℕ) (s : ManagerState) (i root : ℕ) where
  abbrev written : ManagerState
  written = write_root i root s

  slot_in-written :
      (wanted : ForestDomainRecord → Bool)
      → ((k : ℕ)
          → wanted ((with_root i root (registry_of s)).domains k)
            ≡ wanted ((registry_of s).domains k))
      → slot_in wanted (forest_registry_root at registry_size written)
        ≡ slot_in wanted (forest_registry_root at registry_size s)
  unfolding forest_registry_root write_root is_registry slot_in
  slot_in-written wanted same =
      let header : ℕ = s.arena.header.root_offset in
      let reg : ForestDomainRegistry = registry_of s in
      let found = find_slot-same wanted reg (with_root i root reg) reg.domain_count 0 same in
      elim (Bool-cases (not (s.initialized) || not (s.mapped))) [
        | inl e ↦ rw e refl
        | inr e ↦
            elim (Bool-cases (
              (header == no_block at)
              || not (is_valid_user_offset at s.backend_size header registry_size))) [
                | inl f ↦ rw (e, f) refl
                | inr f ↦ elim (Bool-cases (is_registry reg)) [
                  | inl g ↦ rw (e, f, eq_refl header, g) found
                  | inr g ↦ rw (e, f, eq_refl header, g) refl
                ]
              ]
      ]

  -- the names are not written
  find_domain_slot-written :
      (name : List ℕ)
      → find_domain_slot at registry_size written name ≡ find_domain_slot at registry_size s name
  unfolding find_domain_slot forest_domain_name_equals
  find_domain_slot-written name = elim (Bool-cases (forest_domain_name_fits name)) [
    | inl e ↦ rw e (
        slot_in-written (λ rec. forest_domain_name_equals rec name)
          (λ k. elim (Bool-cases (k == i)) [ inl f ↦ rw f refl | inr f ↦ rw f refl ]))
    | inr e ↦ rw e refl
  ]

module _ (at : Traits) (registry_size : ℕ) (s : ManagerState) where
  slot-mapped :
      (name : List ℕ) (i : ℕ) → find_domain_slot at registry_size s name ≡ some i → s.mapped ≡ true
  unfolding find_domain_slot forest_registry_root slot_in
  slot-mapped name i h = ground arith

  -- what `forest_domain_root_index_unlocked` reads of a record
  abbrev root_of : ForestDomainRecord → ℕ
  root_of rec =
      if rec.binding_kind == forest_binding_free_tree
      then (if s.arena.header.free_tree_root == no_block at
          then 0
          else s.arena.header.free_tree_root)
      else rec.root_offset

  get_domain_root_offset-slot :
      (r : ℕ → ForestDomainRegistry) (name : List ℕ) (k : ℕ)
      → s.initialized ≡ true
      → s.mapped ≡ true
      → find_domain_slot at registry_size (record s { registry_at = r }) name ≡ some k
      → get_domain_root_offset at registry_size (record s { registry_at = r }) name
        ≡ root_of ((r s.arena.header.root_offset).domains k)
  unfolding get_domain_root_offset find_domain_by_name record_at forest_domain_root_index
  get_domain_root_offset-slot r name k ready mapped e =
      let starts : not (s.initialized) ≡ false = ground (arith, ready) in
      let reads : not (s.mapped) ≡ false = ground (arith, mapped) in rw (starts, e, reads) refl

  module _ (name other : List ℕ) (root i j : ℕ) (ready : s.initialized ≡ true)
      (slot : find_domain_slot at registry_size s name ≡ some i)
      (direct : ((registry_of s).domains i).binding_kind ≡ forest_binding_direct_root)
      (other_slot : find_domain_slot at registry_size s other ≡ some j) (differs : j ≢ i) where
    -- In an initialized manager a name has the record of slot `i`, with a root of its own, and another
    -- name the record of slot `j`. Setting the root of the first succeeds, it is read back, and the root
    -- of the other stays as it is.
    pub get_domain_root_offset-set_domain_root :
        ((set_domain_root at registry_size s name root).1 ≡ true)
        × (get_domain_root_offset at registry_size
              (set_domain_root at registry_size s name root).0
              name
            ≡ root)
        × (get_domain_root_offset at registry_size
              (set_domain_root at registry_size s name root).0
              other
            ≡ get_domain_root_offset at registry_size s other)
    unfolding set_domain_root set_forest_domain_root_index write_root
    get_domain_root_offset-set_domain_root =
        let starts : not (s.initialized) ≡ false = ground (arith, ready) in
        let kind : (((registry_of s).domains i).binding_kind == forest_binding_direct_root) ≡ true =
          eq_when ((registry_of s).domains i).binding_kind forest_binding_direct_root direct in
        let mapped = slot-mapped name i slot in
        let after : ℕ → ForestDomainRegistry = (write_root i root s).registry_at in
        let here =
          get_domain_root_offset-slot after name i ready mapped
            (find_domain_slot-written at registry_size s i root name ∙ slot)
          ∙ ap root_of (written-domains i root s i) in
        let there =
          get_domain_root_offset-slot after other j ready mapped
            (find_domain_slot-written at registry_size s i root other ∙ other_slot)
          ∙ ap root_of (written-domains i root s j) in
        let before = get_domain_root_offset-slot s.registry_at other j ready mapped other_slot in
        rw (starts, slot, kind)
          (refl, here ∙ rw (eq_refl i, direct) refl, there ∙ rw (eq_of_ne j i differs) (sym before))
