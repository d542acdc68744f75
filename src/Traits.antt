-- ===== src/Traits.antt =====
-- include/pmm/address_traits.h, the sizes of include/pmm/block_header.h and include/pmm/types.h:
-- the address traits `AT`, the geometry they fix, and arithmetic on `index_type`.
use netkeep80_persist_memory.Base.{ℕ, ◌+◌, ◌-◌, ◌*◌, ◌/◌, ◌%◌, ◌^◌, ◌≤◌, ◌≡◌, arith}

-- `AddressTraits<IndexT, GranuleSz>`: `index_max` is `numeric_limits<IndexT>::max()`.
pub record Traits : Type 0 where
  pub index_size : ℕ
  pub index_max : ℕ
  pub granule_size : ℕ

abbrev pub small_traits : Traits
small_traits = record { index_size = 2; index_max = 2 ^ 16 - 1; granule_size = 16 }

abbrev pub default_traits : Traits
default_traits = record { index_size = 4; index_max = 2 ^ 32 - 1; granule_size = 16 }

abbrev pub large_traits : Traits
large_traits = record { index_size = 8; index_max = 2 ^ 64 - 1; granule_size = 64 }

-- `numeric_limits<size_t>::max()`
abbrev pub size_max : ℕ
size_max = 2 ^ 64 - 1

module _ (at : Traits) where
  abbrev pub no_block : ℕ
  no_block = at.index_max

  unfoldable pub granules_to_bytes : ℕ → ℕ
  granules_to_bytes granules = (granules * at.granule_size) % (size_max + 1)

  -- sizeof( BlockHeaderCoreFields<AT> ): seven index fields
  unfoldable pub block_header_core_size : ℕ
  block_header_core_size = 7 * at.index_size

  unfoldable pub block_header_min_size : ℕ
  block_header_min_size = block_header_core_size + 2

  -- sizeof( Block<AT> )
  unfoldable pub block_size : ℕ
  unfolding block_header_min_size block_header_core_size
  block_size = ((block_header_min_size + at.granule_size - 1) / at.granule_size) * at.granule_size

  -- `kBlockHeaderGranules_t<AT>`
  unfoldable pub header_granules : ℕ
  unfolding block_size
  header_granules = (block_size + at.granule_size - 1) / at.granule_size

  -- `index_type` addition and subtraction wrap
  unfoldable pub add_index : ℕ → ℕ → ℕ
  add_index a b = (a + b) % (at.index_max + 1)

  unfoldable pub sub_index : ℕ → ℕ → ℕ
  sub_index a b = (a + (at.index_max + 1) - b) % (at.index_max + 1)

  -- static_cast<index_type>
  unfoldable pub to_index : ℕ → ℕ
  to_index n = n % (at.index_max + 1)

  pub add_index-eq : (a b : ℕ) → a + b ≤ at.index_max → add_index a b ≡ a + b
  unfolding add_index
  add_index-eq a b h = grind arith

  pub sub_index-eq : (a b : ℕ) → b ≤ a → a ≤ at.index_max → sub_index a b ≡ a - b
  unfolding sub_index
  sub_index-eq a b h k = grind arith

  pub to_index-eq : (n : ℕ) → n ≤ at.index_max → to_index n ≡ n
  unfolding to_index
  to_index-eq n h = grind arith
