-- ===== src/ManagerLayout/Extended.antt =====
-- include/pmm/layout.h, `do_expand` where the last block is free and takes what is new.
use mathlib.Core.Path.{subst}
use netkeep80_persist_memory.Base.{
  ℕ, ◌-◌, ◌/◌, ◌≤◌, ◌<◌, ◌≡◌, refl, sym, ap, ◌∙◌, true, inl, inr, List, [], ◌∷◌, ◌++◌, arith, ◌==◌,
  eq_refl, eq_of_ne, eq→≡, last_or, Bool-cases, if◌then◌else◌,
}
use netkeep80_persist_memory.Traits.{Traits, no_block, sub_index, sub_index-eq}
use netkeep80_persist_memory.Node.{is_free}
use netkeep80_persist_memory.Memory.{Body, Arena, modify, with_header}
use netkeep80_persist_memory.FreeTree.Policy.{FreeBlockTreePolicy}
use netkeep80_persist_memory.Layout.{
  IsTraits, bodies, BlockOk, Chain, IsHeap, total_granules, sum_of, free_of, allocated_of, used_of,
}
use netkeep80_persist_memory.Layout.Chain.{Chain-append, Chain-front, Chain-back, Chain-frame}
use netkeep80_persist_memory.Layout.Totals.{sum_of-frame}
use netkeep80_persist_memory.ManagerLayout.{extend_last}

module _ {at : Traits} (t : IsTraits at) (ft : FreeBlockTreePolicy) (a : Arena) (pre : List ℕ)
    (i : ℕ) (new_total new_size : ℕ) (h : IsHeap at a (pre ++ i ∷ []))
    (was_free : is_free (a.blocks i).node_type ≡ true)
    (exact : new_size / at.granule_size ≡ new_total) (grows : total_granules at a ≤ new_total)
    (small : new_total ≤ at.index_max) where
  abbrev k : ℕ
  k = total_granules at a

  abbrev grown : Arena
  grown = extend_last at ft i new_total new_size a

  here : Chain at (bodies a) (last_or (no_block at) pre) (i ∷ []) (no_block at) k
  here = Chain-back at (bodies a) (no_block at) pre (i ∷ []) (no_block at) k h.chained.chain

  front : Chain at (bodies a) (no_block at) pre i i
  front = Chain-front at (bodies a) (no_block at) pre (i ∷ []) (no_block at) k h.chained.chain

  abbrev wide_body : Body
  wide_body = record (bodies a i) { weight = new_total - i }

  pub grown-bodies : (j : ℕ) → bodies grown j ≡ (if j == i then wide_body else bodies a j)
  unfolding extend_last
  grown-bodies j =
      let weight = sub_index-eq at new_total i (omega (arith, here.0.room, grows)) small in
      let taken = (ft.remove-SameBodies a i).same_bodies j in
      let a2 =
        with_header (λ h. record h { total_size = new_size })
          (modify i (λ h. record h { weight = sub_index at new_total i }) (ft.remove a i)) in
      let put = (ft.insert-SameBodies a2 i).same_bodies j in
      elim (Bool-cases (j == i)) [
        | inl e ↦ ground (arith, weight, taken, put, e)
        | inr e ↦ ground (arith, taken, put, e)
      ]

  pub grown-header :
      grown.header
      ≡ record (a.header) { total_size = new_size; free_tree_root = grown.header.free_tree_root }
  unfolding extend_last
  grown-header =
      let taken = (ft.remove-SameBodies a i).same_header in
      let a2 =
        with_header (λ h. record h { total_size = new_size })
          (modify i (λ h. record h { weight = sub_index at new_total i }) (ft.remove a i)) in
      let put = (ft.insert-SameBodies a2 i).same_header in ground (arith, taken, put)

  wide_body-BlockOk : BlockOk at wide_body (last_or (no_block at) pre) i (no_block at) new_total
  wide_body-BlockOk =
      let owner : (a.blocks i).root_offset ≡ 0 = ground (arith, here.0.sized, was_free) in
      record {
        prev = here.0.prev;
        next = here.0.next;
        room = omega (arith, here.0.room, grows);
        known = here.0.known;
        sized = rw was_free (omega (arith, here.0.room, grows), owner);
      }

  front_same : (j : ℕ) → j < i → bodies grown j ≡ bodies a j
  front_same j lt =
      let not_i = eq_of_ne j i (λ e. omega (arith, e, lt)) in ground (arith, grown-bodies j, not_i)

  chain_after : Chain at (bodies grown) (no_block at) (pre ++ i ∷ []) (no_block at) new_total
  chain_after =
      let own : bodies grown i ≡ wide_body = ground (arith, grown-bodies i, eq_refl i) in
      Chain-append at (bodies grown) (no_block at) pre (i ∷ []) (no_block at) new_total
        (Chain-frame t (bodies a) (bodies grown) (no_block at) pre i i (λ j lo hi. front_same j hi)
          front)
        (
          subst (λ b. BlockOk at b (last_or (no_block at) pre) i (no_block at) new_total) (sym own)
              wide_body-BlockOk,
          tt,
        )

  -- what does not look at the weight of a free block adds up to the same
  sum_after :
      (f : Body → ℕ)
      → f wide_body ≡ f (bodies a i)
      → sum_of at f (bodies grown) (pre ++ i ∷ []) ≡ sum_of at f (bodies a) (pre ++ i ∷ [])
  sum_after f same =
      sum_of-frame t f (bodies a) (bodies grown) (no_block at) (pre ++ i ∷ []) (no_block at) k
        (λ j lo hi. ap f (grown-bodies j) ∙ part j) h.chained.chain
    where
      part : (j : ℕ) → f (if j == i then wide_body else bodies a j) ≡ f (bodies a j)
      part j = elim (Bool-cases (j == i)) [
        | inl e ↦ rw e (same ∙ ap (λ x. f (bodies a x)) (sym (eq→≡ j i e)))
        | inr e ↦ rw e refl
      ]

  -- The last block of a well-formed arena is free. Where the granules after the growth are `new_total`,
  -- not fewer than before, and can be indexed, the block takes them: the arena stays well formed, with
  -- the same layout.
  pub extend_last-IsHeap : IsHeap at grown (pre ++ i ∷ [])
  extend_last-IsHeap =
      let total_eq : total_granules at grown ≡ new_total =
        ap (λ x. x.total_size / at.granule_size) grown-header ∙ exact in
      let n = h.counted in
      record {
        chained = record {
          chain = rw total_eq chain_after;
          fits = rw total_eq small;
          first = ap (λ x. x.first_block_offset) grown-header ∙ h.chained.first;
          last = ap (λ x. x.last_block_offset) grown-header ∙ h.chained.last;
        };
        counted = record {
          blocks = ap (λ x. x.block_count) grown-header ∙ n.blocks;
          frees = ap (λ x. x.free_count) grown-header ∙ n.frees ∙ sym (sum_after (free_of at) refl);
          allocs =
              ap (λ x. x.alloc_count) grown-header
              ∙ n.allocs
              ∙ sym (sum_after (allocated_of at) refl);
          used =
              ap (λ x. x.used_size) grown-header
              ∙ n.used
              ∙ sym (sum_after (used_of at) (rw was_free refl));
        };
      }
