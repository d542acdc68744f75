-- ===== src/Layout/Same.antt =====
-- Being well formed looks at the bodies of the blocks and at the header but for the root of the tree.
use mathlib.Core.Path.{fun_ext, subst}
use netkeep80_persist_memory.Base.{ℕ, ◌≡◌, sym, List, arith}
use netkeep80_persist_memory.Traits.{Traits, no_block}
use netkeep80_persist_memory.Memory.{Arena}
use netkeep80_persist_memory.Layout.{
  Bodies, bodies, Chain, IsHeap, total_granules, sum_of, free_of, allocated_of, used_of,
}

pub IsHeap-same :
    (at : Traits) (a a' : Arena) (xs : List ℕ)
    → ((j : ℕ) → bodies a' j ≡ bodies a j)
    → a'.header ≡ record (a.header) { free_tree_root = a'.header.free_tree_root }
    → IsHeap at a xs
    → IsHeap at a' xs
IsHeap-same at a a' xs same header h =
    let eq : bodies a' ≡ bodies a = fun_ext same in
    let total_eq : total_granules at a' ≡ total_granules at a = ground (arith, header) in
    record {
      chained = record {
        chain = rw total_eq (
            subst (λ (m : Bodies). Chain at m (no_block at) xs (no_block at) (total_granules at a))
              (sym eq) h.chained.chain);
        fits = rw total_eq (h.chained.fits);
        first = ground (arith, header, h.chained.first);
        last = ground (arith, header, h.chained.last);
      };
      counted = record {
        blocks = ground (arith, header, h.counted.blocks);
        frees =
            subst (λ (m : Bodies). a'.header.free_count ≡ sum_of at (free_of at) m xs) (sym eq)
              (ground (arith, header, h.counted.frees));
        allocs =
            subst (λ (m : Bodies). a'.header.alloc_count ≡ sum_of at (allocated_of at) m xs)
              (sym eq) (ground (arith, header, h.counted.allocs));
        used =
            subst (λ (m : Bodies). a'.header.used_size ≡ sum_of at (used_of at) m xs) (sym eq)
              (ground (arith, header, h.counted.used));
      };
    }
