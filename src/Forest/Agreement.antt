-- ===== src/Forest/Agreement.antt =====
-- include/pmm/forest_domain_mixin.inc and include/pmm/verify_repair_mixin.inc: the two checks of the
-- forest registry against each other.
use netkeep80_persist_memory.Base.{
  ltb, ℕ, ◌≡◌, refl, Bool, true, false, ◌||◌, not, Option, none, some, List, ◌==◌, inl, inr,
  Bool-cases, if◌then◌else◌,
}
use netkeep80_persist_memory.Traits.{Traits}
use netkeep80_persist_memory.Diagnostics.{VerifyResult}
use netkeep80_persist_memory.State.{ForestDomainRecord, ForestDomainRegistry, ManagerState}
use netkeep80_persist_memory.Forest.{
  forest_registry_magic, forest_registry_version, forest_registry_root, find_domain_by_name,
  is_system, record_ok, verify_record, verify_domain, verify_registry, verify_forest_registry,
  domain_ok, header_ok, registry_ok, validate_bootstrap_invariants, system_domain_free_tree,
  system_domain_symbols, system_domain_registry, service_name_domain_root,
}

verify_record-ok :
    (o : Option ForestDomainRecord) (r : VerifyResult) → record_ok o ≡ true → verify_record o r ≡ r
unfolding record_ok verify_record
verify_record-ok none r h = cc
verify_record-ok (some rec) r h = elim (Bool-cases (is_system rec)) [
  | inl e ↦ rw e refl
  | inr e ↦ let no : false ≡ true = rw e at h in cc
]

-- a test that is passed before the rest
passed : (b c : Bool) → (if not b then false else c) ≡ true → (b ≡ true) × (c ≡ true)
passed true c h = (refl, h)
passed false c h = cc

refused : (b c : Bool) → (if b then false else c) ≡ true → (b ≡ false) × (c ≡ true)
refused false c h = (refl, h)
refused true c h = cc

module _ (at : Traits) (registry_size : ℕ) (s : ManagerState) where
  verify_domain-ok :
      (name : List ℕ) (r : VerifyResult)
      → domain_ok at registry_size s name ≡ true
      → verify_domain at registry_size s name r ≡ r
  unfolding domain_ok verify_domain
  verify_domain-ok name r h = verify_record-ok (find_domain_by_name at registry_size s name) r h

  verify_registry-ok :
      (o : Option ForestDomainRegistry) (r : VerifyResult)
      → registry_ok at registry_size s o ≡ true
      → verify_registry at registry_size s o r ≡ r
  unfolding verify_registry registry_ok
  verify_registry-ok none r h = cc
  verify_registry-ok (some reg) r h =
      let h1 =
        refused
          (not (reg.magic == forest_registry_magic) || not (reg.version == forest_registry_version))
          _ h in
      let h2 = refused (ltb reg.domain_count 4) _ h1.1 in
      let h3 = passed (domain_ok at registry_size s system_domain_free_tree) _ h2.1 in
      let h4 = passed (domain_ok at registry_size s system_domain_symbols) _ h3.1 in
      let h5 = passed (domain_ok at registry_size s system_domain_registry) _ h4.1 in
      let h6 = passed (domain_ok at registry_size s service_name_domain_root) _ h5.1 in
      rw
        (
          h1.0,
          verify_domain-ok system_domain_free_tree r h3.0,
          verify_domain-ok system_domain_symbols r h4.0,
          verify_domain-ok system_domain_registry r h5.0,
          verify_domain-ok service_name_domain_root r h6.0,
        )
        refl

  pub validate_bootstrap_invariants-header_ok :
      validate_bootstrap_invariants at registry_size s ≡ true
      → ((not (s.initialized) || not (s.mapped)) ≡ false) × (header_ok at registry_size s ≡ true)
  unfolding validate_bootstrap_invariants
  validate_bootstrap_invariants-header_ok h =
      let h1 = refused (not (s.initialized) || not (s.mapped)) _ h in
      (h1.0, (passed (header_ok at registry_size s) _ h1.1).0)

  -- Where what `create` and `load` demand of the registry holds, `verify` reports nothing of it.
  pub verify_forest_registry-validate_bootstrap_invariants :
      (r : VerifyResult)
      → validate_bootstrap_invariants at registry_size s ≡ true
      → verify_forest_registry at registry_size s r ≡ r
  unfolding verify_forest_registry validate_bootstrap_invariants
  verify_forest_registry-validate_bootstrap_invariants r h =
      let h1 = refused (not (s.initialized) || not (s.mapped)) _ h in
      let h2 = passed (header_ok at registry_size s) _ h1.1 in
      verify_registry-ok (forest_registry_root at registry_size s) r h2.1
