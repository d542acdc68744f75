-- ===== src/Node.antt =====
-- include/pmm/block_header.h: the node types and what may be done with a block of each.
use netkeep80_persist_memory.Base.{ℕ, ◌≡◌, refl, Bool, true, false, ◌==◌, arith, if◌then◌else◌}

-- `enum class NodeType : uint8_t`; `unknown` holds a byte that names no enumerator.
pub data NodeType : Type 0 where
  free manager_header generic read_only_locked pstringview pstring parray pmap pptr : NodeType
  unknown : ℕ → NodeType

unfoldable pub is_free : NodeType → Bool
is_free free = true
is_free _ = false

unfoldable pub is_allocated : NodeType → Bool
is_allocated free = false
is_allocated (unknown b) = false
is_allocated _ = true

unfoldable pub is_mutable : NodeType → Bool
is_mutable read_only_locked = false
is_mutable pstringview = false
is_mutable (unknown b) = false
is_mutable _ = true

unfoldable pub can_be_deleted_from_pap : NodeType → Bool
can_be_deleted_from_pap free = false
can_be_deleted_from_pap manager_header = false
can_be_deleted_from_pap read_only_locked = false
can_be_deleted_from_pap (unknown b) = false
can_be_deleted_from_pap _ = true

unfoldable pub participates_in_free_tree : NodeType → Bool
participates_in_free_tree free = true
participates_in_free_tree _ = false

unfoldable pub is_known_node_type : NodeType → Bool
is_known_node_type (unknown b) = false
is_known_node_type _ = true

-- `static_cast<NodeType>( v )` of a byte, and back
unfoldable pub of_byte : ℕ → NodeType
of_byte v =
    if v == 0
    then free
    else if v == 1
    then manager_header
    else if v == 2
    then generic
    else if v == 3
    then read_only_locked
    else if v == 4
    then pstringview
    else if v == 5
    then pstring
    else if v == 6
    then parray
    else if v == 7
    then pmap
    else if v == 8
    then pptr
    else unknown v

unfoldable pub to_byte : NodeType → ℕ
to_byte free = 0
to_byte manager_header = 1
to_byte generic = 2
to_byte read_only_locked = 3
to_byte pstringview = 4
to_byte pstring = 5
to_byte parray = 6
to_byte pmap = 7
to_byte pptr = 8
to_byte (unknown b) = b

-- a block is never both free and allocated
pub is_free-is_allocated : (t : NodeType) → is_allocated t ≡ true → is_free t ≡ false
unfolding is_free is_allocated
is_free-is_allocated free h = cc
is_free-is_allocated _ h = refl

pub eq_free : (t : NodeType) → is_free t ≡ true → t ≡ free
unfolding is_free
eq_free free h = refl
eq_free manager_header h = cc
eq_free generic h = cc
eq_free read_only_locked h = cc
eq_free pstringview h = cc
eq_free pstring h = cc
eq_free parray h = cc
eq_free pmap h = cc
eq_free pptr h = cc
eq_free (unknown b) h = cc

-- A byte read as a node type has this byte as its value, also where no enumerator names it.
pub to_byte-of_byte : (v : ℕ) → to_byte (of_byte v) ≡ v
unfolding to_byte of_byte
to_byte-of_byte v = ground arith
