-- ===== src/Lib.antt =====
-- Persist Memory Manager: an allocator in one relocatable arena, whose blocks and counters are
-- addressed by granule indices, so that an image of the arena can be saved and loaded anywhere.
--
-- The parts, in the repository's include/pmm:
--   Traits         address_traits.h: the index type and the granule, the sizes of the headers
--   Node           block_header.h: the types of blocks and what may be done with each
--   Memory         block_header.h, types.h: the block header, the manager's header, the arena
--   BlockState     block_state.h: the moves between the states of a block
--   Diagnostics    diagnostics.h: the report of violations
--   Checked        arena_internals.h: checked arithmetic, conversions, the growth policy
--   Walker         arena_internals.h: the walk over the chain of blocks
--   Validation     validation.h, types.h: the checks of indices, pointers and headers
--   Crc            types.h: the CRC of an image
--   FreeTree       free_block_tree.h, avl_tree_mixin.h: the AVL tree of free blocks
--   Allocator      allocator_policy.h: allocation, coalescing, reallocation in place, and in
--                  Allocator.Repair, Allocator.Verify and Allocator.TreeCheck the repairs and the
--                  checks of the chain and of the tree
--   ManagerLayout  layout.h: the layout of a new arena, and growth
--   Manager        persist_memory_manager.h: allocate, deallocate and permanent locks
--   State          persist_memory_manager.h, forest_registry.h: the static state of the manager, and
--                  the records of the forest registry
--   Forest         forest_domain_mixin.inc, forest_registry.h, verify_repair_mixin.inc: lookup of
--                  domains, their roots, the invariants of the bootstrap and the check of the registry
--   Image          persist_memory_manager.h, verify_repair_mixin.inc: `load`, `verify`, `destroy` and
--                  `destroy_image`
--   Typed          typed_manager_api.h, forest_domain_mixin.inc, persist_memory_manager.h: a `pptr`
--                  and the block behind it, its resolution, its tree fields, and in Typed.Allocate
--                  and Typed.Destroy typed allocation, reallocation and deallocation
--   Views          persist_memory_manager.h, types.h: statistics, and views of the blocks
--   Layout         what a well-formed arena is (no code): a list of block indices, the chain of
--                  blocks along it, and the counters; with the lemmas that splice and merge it
--   Tests          an arena, and the theorems applied to it
--
-- The arena is a function from granule indices to block headers, with the manager's header beside
-- it. The bytes of user data are left out. An operation that writes through a pointer is a function
-- from arenas to arenas. The manager calls the tree of free blocks through FreeTree.Policy, whose
-- laws say that a tree writes its own fields only: the allocator is modelled over any such tree.
-- Arithmetic in the index type wraps, which is written out (`add_index`, `sub_index`).
--
-- The manager's state adds the size and the presence of the backend's memory, whether the manager is
-- initialized and the last error. The forest registry lies in user data: `registry_at` reads the bytes at a
-- granule index as a registry. A pointer into it is a slot of it.
--
-- Bounds: the walk over the chain counts its steps as the source does. The loops of the tree take
-- a bound on their rounds; for the search FreeTree.BestFit takes the number of the tree's blocks. The
-- recursion of `verify_free_tree_node` ends at the count of free blocks, as the source's counter does.
--
-- Parameters: the base address, the sizes of the manager's header and of the forest registry (the
-- compiler lays the structs out), the backend's `resize_to`, for `allocate` and
-- `reallocate_typed` the arena that `do_expand` leaves (Manager.Allocate puts `do_expand` for it), and for
-- `load` the state and the outcome of `validate_or_bootstrap_forest_registry_unlocked`. Pointers are
-- addresses. The copy of the data in a reallocation is a result: its source, its destination and its
-- size.
--
-- Not modelled: threads and locks (each operation runs under the manager's mutex), logging hooks,
-- storage backends and file I/O, the bootstrap and the registration of forest domains and symbols,
-- `create`, views of free blocks, `create_typed`, and the containers. It is not shown that insertion and
-- removal keep the tree ordered and balanced, nor that the reallocations in place keep an
-- arena well formed. Where `do_expand` fails after the backend has grown, the arena is left as it was and
-- the size of the backend is not tracked. After growth by a new block `used_size` is short, so that an
-- allocation with growth is followed where the last block is free.
pub mod Base
pub mod Traits
pub mod Node
pub mod Memory
pub mod Diagnostics
pub mod BlockState
pub mod Checked
pub mod Validation
pub mod Walker
pub mod FreeTree
pub mod Allocator
pub mod Layout
pub mod ManagerLayout
pub mod Crc
pub mod Manager
pub mod State
pub mod Forest
pub mod Image
pub mod Typed
pub mod Views
pub mod Tests
