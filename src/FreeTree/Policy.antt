-- ===== src/FreeTree/Policy.antt =====
-- include/pmm/free_block_tree.h, `FreeBlockTreePolicyForTraitsConcept`: what the allocator asks of a
-- tree of free blocks. The laws say that a tree writes only its own fields of the blocks.
use netkeep80_persist_memory.Base.{ℕ}
use netkeep80_persist_memory.Memory.{Arena, SameBodies}

pub record FreeBlockTreePolicy : Type 0 where
  pub insert : Arena → ℕ → Arena
  pub remove : Arena → ℕ → Arena
  pub find_best_fit : Arena → ℕ → ℕ
  pub insert-SameBodies : (a : Arena) (i : ℕ) → SameBodies a (insert a i)
  pub remove-SameBodies : (a : Arena) (i : ℕ) → SameBodies a (remove a i)
