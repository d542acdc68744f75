-- ===== src/Memory.antt =====
-- include/pmm/block_header.h and include/pmm/types.h: the header of a block, the manager's header,
-- and the arena. The arena's bytes are read and written as block headers at granule indices only,
-- so the memory is a function from granule indices to headers; the bytes of user data are left
-- out. Headers at two indices of the layout do not overlap: see Layout.Chain.
use netkeep80_persist_memory.Base.{ℕ, ◌≡◌, refl, Bool, ◌==◌, if◌then◌else◌, arith}
use netkeep80_persist_memory.Node.{NodeType, free}

-- `BlockHeader<AT>`
pub record BlockHeader : Type 0 where
  pub weight : ℕ
  pub left_offset : ℕ
  pub right_offset : ℕ
  pub parent_offset : ℕ
  pub root_offset : ℕ
  pub prev_offset : ℕ
  pub next_offset : ℕ
  pub avl_height : ℕ
  pub node_type : NodeType

-- what memset( blk, 0, sizeof( BlockHeader<AT> ) ) leaves
abbrev pub zeroed : BlockHeader
zeroed = record {
  weight = 0;
  left_offset = 0;
  right_offset = 0;
  parent_offset = 0;
  root_offset = 0;
  prev_offset = 0;
  next_offset = 0;
  avl_height = 0;
  node_type = free;
}

-- `detail::ManagerHeader<AT>`
pub record ManagerHeader : Type 0 where
  pub magic : ℕ
  pub total_size : ℕ
  pub used_size : ℕ
  pub block_count : ℕ
  pub free_count : ℕ
  pub alloc_count : ℕ
  pub first_block_offset : ℕ
  pub last_block_offset : ℕ
  pub free_tree_root : ℕ
  pub owns_memory : Bool
  pub image_version : ℕ
  pub granule_size : ℕ
  pub prev_total_size : ℕ
  pub crc32 : ℕ
  pub root_offset : ℕ

-- `ArenaView<AT>` with a base and a header: what it points at.
pub record Arena : Type 0 where
  pub blocks : ℕ → BlockHeader
  pub header : ManagerHeader

-- Changes the header of block `i`.
abbrev pub modify : ℕ → (BlockHeader → BlockHeader) → Arena → Arena
modify i f a = record a { blocks = λ j. if j == i then f (a.blocks j) else a.blocks j }

-- Changes the manager's header.
abbrev pub with_header : (ManagerHeader → ManagerHeader) → Arena → Arena
with_header f a = record a { header = f a.header }

-- The fields of a block that the free tree does not own.
pub record Body : Type 0 where
  pub weight : ℕ
  pub root_offset : ℕ
  pub prev_offset : ℕ
  pub next_offset : ℕ
  pub node_type : NodeType

abbrev pub body : BlockHeader → Body
body h = record {
  weight = h.weight;
  root_offset = h.root_offset;
  prev_offset = h.prev_offset;
  next_offset = h.next_offset;
  node_type = h.node_type;
}

-- The two arenas differ at most in what the free tree owns: the tree links and heights of the
-- blocks, and the root of the tree.
pub record SameBodies (a b : Arena) : Type 0 where
  pub same_bodies : (j : ℕ) → body (b.blocks j) ≡ body (a.blocks j)
  pub same_header : b.header ≡ record (a.header) { free_tree_root = b.header.free_tree_root }

pub SameBodies-refl : (a : Arena) → SameBodies a a
SameBodies-refl a = record { same_bodies = λ j. refl; same_header = refl }

pub SameBodies-trans : {a b c : Arena} → SameBodies a b → SameBodies b c → SameBodies a c
SameBodies-trans p q = record {
  same_bodies = λ j. ground (arith, p.same_bodies j, q.same_bodies j);
  same_header = ground arith;
}

-- A write to the tree fields of one block.
pub SameBodies-modify :
    (i : ℕ) (f : BlockHeader → BlockHeader) (a : Arena)
    → ((h : BlockHeader) → body (f h) ≡ body h)
    → SameBodies a (modify i f a)
SameBodies-modify i f a same = record {
  same_bodies = λ j. ground (arith, same (a.blocks j));
  same_header = refl;
}
