-- ===== src/State.antt =====
-- include/pmm/persist_memory_manager.h: the static state of `PersistMemoryManager`, with the forest
-- registry that lies in the user data of the image.
use netkeep80_persist_memory.Base.{ℕ, Bool, List}
use netkeep80_persist_memory.Memory.{Arena}
use netkeep80_persist_memory.Manager.{PmmError}

-- `detail::ForestDomainRecord<AT>`, with the bytes of `name` before its first zero
pub record ForestDomainRecord : Type 0 where
  pub binding_id : ℕ
  pub root_offset : ℕ
  pub symbol_offset : ℕ
  pub binding_kind : ℕ
  pub flags : ℕ
  pub name : List ℕ

-- `detail::ForestDomainRegistry<AT>`: the array `domains` by slot
pub record ForestDomainRegistry : Type 0 where
  pub magic : ℕ
  pub version : ℕ
  pub domain_count : ℕ
  pub next_binding_id : ℕ
  pub domains : ℕ → ForestDomainRecord

-- `mapped` says that `base_ptr()` is not null, and `registry_at` reads the bytes at a granule index as a
-- registry.
pub record ManagerState : Type 0 where
  pub initialized : Bool
  pub mapped : Bool
  pub backend_size : ℕ
  pub last_error : PmmError
  pub arena : Arena
  pub registry_at : ℕ → ForestDomainRegistry
