-- ===== src/Forest.antt =====
-- include/pmm/forest_registry.h and include/pmm/forest_domain_mixin.inc: the registry of domains, the
-- lookups in it, and the checks of it, also those of include/pmm/verify_repair_mixin.inc. A pointer to
-- a record is its slot in the array.
pub mod Agreement
pub mod Root
use netkeep80_persist_memory.Base.{
  ℕ, zero, suc, ◌+◌, ◌%◌, ◌/◌, Bool, true, false, ◌&&◌, ◌||◌, not, Option, none, some, List, [],
  ◌∷◌, ◌==◌, ltb, if◌then◌else◌, length,
}
use netkeep80_persist_memory.Traits.{Traits, no_block}
use netkeep80_persist_memory.Memory.{ManagerHeader}
use netkeep80_persist_memory.Diagnostics.{
  VerifyResult, add, no_action, forest_registry_missing, forest_domain_missing,
  forest_domain_flags_missing,
}
use netkeep80_persist_memory.Manager.{is_valid_user_offset}
use netkeep80_persist_memory.ManagerLayout.{magic_number, current_image_version}
use netkeep80_persist_memory.State.{ForestDomainRecord, ForestDomainRegistry, ManagerState}

abbrev pub forest_domain_name_capacity : ℕ
forest_domain_name_capacity = 48

abbrev pub max_forest_domains : ℕ
max_forest_domains = 32

abbrev pub forest_registry_magic : ℕ
forest_registry_magic = 1346785863

abbrev pub forest_registry_version : ℕ
forest_registry_version = 1

abbrev pub forest_binding_direct_root : ℕ
forest_binding_direct_root = 0

abbrev pub forest_binding_free_tree : ℕ
forest_binding_free_tree = 1

-- "system/free_tree"
abbrev pub system_domain_free_tree : List ℕ
system_domain_free_tree =
    115 ∷ 121 ∷ 115 ∷ 116 ∷ 101 ∷ 109 ∷ 47 ∷ 102 ∷ 114 ∷ 101 ∷ 101 ∷ 95 ∷ 116 ∷ 114 ∷ 101 ∷ 101 ∷ []

-- "system/symbols"
abbrev pub system_domain_symbols : List ℕ
system_domain_symbols =
    115 ∷ 121 ∷ 115 ∷ 116 ∷ 101 ∷ 109 ∷ 47 ∷ 115 ∷ 121 ∷ 109 ∷ 98 ∷ 111 ∷ 108 ∷ 115 ∷ []

-- "system/domain_registry"
abbrev pub system_domain_registry : List ℕ
system_domain_registry =
    115 ∷ 121 ∷ 115 ∷ 116 ∷ 101 ∷ 109 ∷ 47 ∷ 100 ∷ 111 ∷ 109 ∷ 97 ∷ 105 ∷ 110 ∷ 95 ∷ 114 ∷ 101 ∷ 103
    ∷ 105 ∷ 115 ∷ 116 ∷ 114 ∷ 121 ∷ []

-- "service/domain_root"
abbrev pub service_name_domain_root : List ℕ
service_name_domain_root =
    115 ∷ 101 ∷ 114 ∷ 118 ∷ 105 ∷ 99 ∷ 101 ∷ 47 ∷ 100 ∷ 111 ∷ 109 ∷ 97 ∷ 105 ∷ 110 ∷ 95 ∷ 114 ∷ 111
    ∷ 111 ∷ 116 ∷ []

-- strncmp( s, t, n ) == 0
abbrev pub strncmp_equal : ℕ → List ℕ → List ℕ → Bool
strncmp_equal zero s t = true
strncmp_equal (suc n) [] [] = true
strncmp_equal (suc n) [] (y ∷ t) = false
strncmp_equal (suc n) (x ∷ s) [] = false
strncmp_equal (suc n) (x ∷ s) (y ∷ t) = (x == y) && strncmp_equal n s t

unfoldable pub forest_domain_name_equals : ForestDomainRecord → List ℕ → Bool
forest_domain_name_equals rec name = strncmp_equal forest_domain_name_capacity rec.name name

-- of a name that is not null
unfoldable pub forest_domain_name_fits : List ℕ → Bool
forest_domain_name_fits [] = false
forest_domain_name_fits (x ∷ s) = ltb (length (x ∷ s)) forest_domain_name_capacity

-- the loop over the slots from `i` on, with `left` slots to go: the first that is wanted
unfoldable pub find_slot :
    (ForestDomainRecord → Bool) → ForestDomainRegistry → (left i : ℕ) → Option ℕ
find_slot wanted reg zero i = none
find_slot wanted reg (suc left) i =
    let rest = find_slot wanted reg left (i + 1) in if wanted (reg.domains i) then some i else rest

unfoldable pub slot_in : (ForestDomainRecord → Bool) → Option ForestDomainRegistry → Option ℕ
slot_in wanted none = none
slot_in wanted (some reg) = find_slot wanted reg reg.domain_count 0

-- the registry that the header points at, and the record in a slot of it
abbrev pub registry_of : ManagerState → ForestDomainRegistry
registry_of s = s.registry_at s.arena.header.root_offset

-- the tests of `forest_registry_root_unlocked` on what the header points at
unfoldable pub is_registry : ForestDomainRegistry → Bool
is_registry reg =
    (reg.magic == forest_registry_magic)
    && (reg.version == forest_registry_version)
    && not (ltb max_forest_domains reg.domain_count)

unfoldable pub record_at : ManagerState → Option ℕ → Option ForestDomainRecord
record_at s none = none
record_at s (some i) = some ((registry_of s).domains i)

-- a write to the root of the record in slot `i`
unfoldable pub write_root : ℕ → ℕ → ManagerState → ManagerState
write_root i root s =
    let at_slot : ℕ → ForestDomainRecord → ForestDomainRecord =
      λ k rec. if k == i then record rec { root_offset = root } else rec in
    record s {
      registry_at = λ j.
          if j == s.arena.header.root_offset
          then record (s.registry_at j) { domains = λ k. at_slot k ((s.registry_at j).domains k) }
          else s.registry_at j;
    }

-- `set_forest_domain_root_index_unlocked`, over `forest_domain_root_index_ptr_unlocked`
unfoldable pub set_forest_domain_root_index : Option ℕ → ℕ → ManagerState → ManagerState × Bool
set_forest_domain_root_index none root s = (s, false)
set_forest_domain_root_index (some i) root s =
    if not (((registry_of s).domains i).binding_kind == forest_binding_direct_root)
    then (s, false)
    else (write_root i root s, true)

-- `flags & kForestDomainFlagSystem`, the lowest bit
unfoldable pub is_system : ForestDomainRecord → Bool
is_system rec = not (rec.flags % 2 == 0)

-- what is reported of the record of a required name
unfoldable pub verify_record : Option ForestDomainRecord → VerifyResult → VerifyResult
verify_record none r = add forest_domain_missing no_action 0 0 0 r
verify_record (some rec) r =
    if is_system rec then r else add forest_domain_flags_missing no_action 0 0 0 r

-- what is demanded of it
unfoldable pub record_ok : Option ForestDomainRecord → Bool
record_ok none = false
record_ok (some rec) = is_system rec && not (rec.symbol_offset == 0)

-- A test of the record of a name that was found.
unfoldable pub record_is : (ForestDomainRecord → Bool) → Option ForestDomainRecord → Bool
record_is test none = false
record_is test (some rec) = test rec

-- `sizeof( forest_registry )` is a parameter: the layout of the struct is the compiler's.
module _ (at : Traits) (registry_size : ℕ) where
  unfoldable pub forest_registry_root : ManagerState → Option ForestDomainRegistry
  forest_registry_root s =
      let root : ℕ = s.arena.header.root_offset in
      if not (s.initialized) || not (s.mapped)
      then none
      else if (root == no_block at)
          || not (is_valid_user_offset at s.backend_size root registry_size)
      then none
      else if not (is_registry (registry_of s))
      then none
      else some (registry_of s)

  -- `find_domain_by_name_unlocked` and `find_domain_by_binding_unlocked`: the slot of the record
  unfoldable pub find_domain_slot : ManagerState → List ℕ → Option ℕ
  find_domain_slot s name =
      if not (forest_domain_name_fits name)
      then none
      else slot_in (λ rec. forest_domain_name_equals rec name) (forest_registry_root s)

  unfoldable pub find_binding_slot : ManagerState → ℕ → Option ℕ
  find_binding_slot s binding_id =
      if binding_id == 0
      then none
      else slot_in (λ rec. rec.binding_id == binding_id) (forest_registry_root s)

  unfoldable pub find_domain_by_name : ManagerState → List ℕ → Option ForestDomainRecord
  find_domain_by_name s name = record_at s (find_domain_slot s name)

  unfoldable pub find_domain_by_binding : ManagerState → ℕ → Option ForestDomainRecord
  find_domain_by_binding s binding_id = record_at s (find_binding_slot s binding_id)

  unfoldable pub forest_domain_root_index : ManagerState → Option ForestDomainRecord → ℕ
  forest_domain_root_index s none = 0
  forest_domain_root_index s (some rec) =
      let root : ℕ = s.arena.header.free_tree_root in
      if not (s.mapped)
      then 0
      else if rec.binding_kind == forest_binding_free_tree
      then (if root == no_block at then 0 else root)
      else rec.root_offset

  -- the loop of `verify_forest_registry_unlocked` over the required names, for one of them
  unfoldable pub verify_domain : ManagerState → List ℕ → VerifyResult → VerifyResult
  verify_domain s name r = verify_record (find_domain_by_name s name) r

  unfoldable pub verify_registry :
      ManagerState → Option ForestDomainRegistry → VerifyResult → VerifyResult
  verify_registry s none r = add forest_registry_missing no_action 0 0 0 r
  verify_registry s (some reg) r =
      if not (reg.magic == forest_registry_magic) || not (reg.version == forest_registry_version)
      then add forest_registry_missing no_action 0 forest_registry_magic reg.magic r
      else verify_domain s service_name_domain_root (
          verify_domain s system_domain_registry
            (verify_domain s system_domain_symbols (verify_domain s system_domain_free_tree r)))

  -- `verify_forest_registry_unlocked`
  unfoldable pub verify_forest_registry : ManagerState → VerifyResult → VerifyResult
  verify_forest_registry s r = verify_registry s (forest_registry_root s) r

  -- the loop of `validate_bootstrap_invariants_unlocked` over the required names, for one of them
  unfoldable pub domain_ok : ManagerState → List ℕ → Bool
  domain_ok s name = record_ok (find_domain_by_name s name)

  unfoldable pub header_ok : ManagerState → Bool
  header_ok s =
      let hdr : ManagerHeader = s.arena.header in
      (hdr.magic == magic_number)
      && (hdr.image_version == current_image_version)
      && (hdr.total_size == s.backend_size)
      && (hdr.granule_size == at.granule_size % 65536)

  -- `validate_bootstrap_invariants_unlocked` from the test of the registry on
  unfoldable pub registry_ok : ManagerState → Option ForestDomainRegistry → Bool
  registry_ok s none = false
  registry_ok s (some reg) =
      if not (reg.magic == forest_registry_magic) || not (reg.version == forest_registry_version)
      then false
      else if ltb reg.domain_count 4
      then false
      else if not (domain_ok s system_domain_free_tree)
      then false
      else if not (domain_ok s system_domain_symbols)
      then false
      else if not (domain_ok s system_domain_registry)
      then false
      else if not (domain_ok s service_name_domain_root)
      then false
      else record_is (λ rec. rec.binding_kind == forest_binding_free_tree)
          (find_domain_by_name s system_domain_free_tree)
        && not (forest_domain_root_index s (find_domain_by_name s system_domain_symbols) == 0)
        && record_is (λ rec. rec.root_offset == s.arena.header.root_offset)
            (find_domain_by_name s system_domain_registry)
        && record_is (λ rec. rec.binding_kind == forest_binding_direct_root)
            (find_domain_by_name s service_name_domain_root)

  unfoldable pub validate_bootstrap_invariants : ManagerState → Bool
  validate_bootstrap_invariants s =
      if not (s.initialized) || not (s.mapped)
      then false
      else if not (header_ok s)
      then false
      else registry_ok s (forest_registry_root s)

  -- The public calls of include/pmm/persist_memory_manager.h.
  unfoldable pub domain_binding : ManagerState → List ℕ → ℕ
  domain_binding s name =
      if not (s.initialized)
      then 0
      else elim (find_domain_by_name s name) [ none ↦ 0 | some rec ↦ rec.binding_id ]

  unfoldable pub has_domain : ManagerState → List ℕ → Bool
  has_domain s name = not (domain_binding s name == 0)

  unfoldable pub get_domain_root_offset : ManagerState → List ℕ → ℕ
  get_domain_root_offset s name =
      if not (s.initialized) then 0 else forest_domain_root_index s (find_domain_by_name s name)

  unfoldable pub get_binding_root_offset : ManagerState → ℕ → ℕ
  get_binding_root_offset s binding_id =
      if not (s.initialized)
      then 0
      else forest_domain_root_index s (find_domain_by_binding s binding_id)

  unfoldable pub set_domain_root : ManagerState → List ℕ → ℕ → ManagerState × Bool
  set_domain_root s name root =
      if not (s.initialized)
      then (s, false)
      else set_forest_domain_root_index (find_domain_slot s name) root s

  unfoldable pub set_root : ManagerState → ℕ → ManagerState
  set_root s p = (set_domain_root s service_name_domain_root p).0

  unfoldable pub get_root : ManagerState → ℕ
  get_root s = get_domain_root_offset s service_name_domain_root
