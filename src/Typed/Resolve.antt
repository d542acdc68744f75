-- ===== src/Typed/Resolve.antt =====
-- include/pmm/typed_manager_api.h, `resolve_checked`: which pointers are resolved, and to what.
use netkeep80_persist_memory.Base.{
  zero, suc, last_or, head_or, ℕ, ◌+◌, ◌-◌, ◌*◌, ◌/◌, ◌≤◌, ◌<◌, ◌≡◌, ◌≢◌, refl, sym, true, false,
  not, ◌||◌, some, inl, inr, List, ◌∷◌, ◌++◌, arith, ◌==◌, Bool-cases, Option-cases, eq_of_ne,
}
use native.Mathlib.Nat.{le-div_iff_mul-le}
use netkeep80_persist_memory.Traits.{
  Traits, no_block, size_max, block_size, header_granules, sub_index-eq,
}
use netkeep80_persist_memory.Node.{is_free}
use netkeep80_persist_memory.Checked.{
  fits_range, fits, valid_block, try_user_ptr, try_block_idx_from_user_idx,
}
use netkeep80_persist_memory.Checked.Bounds.{fits_range-exact}
use netkeep80_persist_memory.Layout.{IsTraits, bodies, BlockOk, IsChained, total_granules}
use netkeep80_persist_memory.Layout.Chain.{Chain-back, Chain-length}
use netkeep80_persist_memory.Layout.Walked.{fits_block}
use netkeep80_persist_memory.Validation.Full.{has_known, in_use-range}
use netkeep80_persist_memory.Manager.{ok}
use netkeep80_persist_memory.State.{ManagerState}
use netkeep80_persist_memory.Typed.{
  returns, returns_error, block_raw_ptr_from_pptr, block_idx_from_pptr, raw_user_ptr_from_pptr,
  is_owned_block, resolve_unchecked, resolve_checked,
}

pos : (g : ℕ) → (g == 0) ≡ false → 0 < g
pos g e = ground arith

module _ (at : Traits) (total : ℕ) (wide : total ≤ size_max) where
  try_user_ptr-within :
      (p size_of : ℕ)
      → p ≢ 0
      → p ≢ no_block at
      → 0 < size_of
      → p * at.granule_size + size_of ≤ total
      → try_user_ptr at total p size_of ≡ some (p * at.granule_size)
  unfolding try_user_ptr
  try_user_ptr-within p size_of nonzero some_block sized range =
      let off : ℕ = p * at.granule_size in
      let inside : fits_range off size_of total ≡ true =
        rw (fits_range-exact off size_of total (omega (arith, range, wide)) wide)
          (ground (arith, range)) in
      elim (Bool-cases (at.granule_size == 0)) [
        | inl e ↦ ground (arith, range, inside, e)
        | inr e ↦
            let index_ok : p ≤ size_max / at.granule_size =
              (le-div_iff_mul-le (pos at.granule_size e)).1 (omega (arith, range, wide)) in
            ground (arith, range, inside, index_ok, e)
      ]

  try_user_ptr-inside :
      (p size_of raw : ℕ)
      → size_of ≤ size_max
      → try_user_ptr at total p size_of ≡ some raw
      → (raw ≡ p * at.granule_size) × (raw < total) × (raw + size_of ≤ total)
  unfolding try_user_ptr
  try_user_ptr-inside p size_of raw small h =
      ground (arith, fits_range-exact (p * at.granule_size) size_of total small wide)

try_block_idx-header :
    (at : Traits) (total i : ℕ)
    → 0 < header_granules at
    → fits at total i (block_size at) ≡ true
    → try_block_idx_from_user_idx at total (i + header_granules at) ≡ some i
unfolding try_block_idx_from_user_idx
try_block_idx-header at total i above h =
    let back : i + header_granules at - header_granules at ≡ i = omega arith in
    rw (back, h) (ground arith)

valid_block-fits :
    (at : Traits) (total i : ℕ)
    → (i == no_block at) ≡ false
    → fits at total i (block_size at) ≡ true
    → valid_block at total i ≡ true
unfolding valid_block
valid_block-fits at total i e h = rw (e, h) refl

positive : (w g size_of : ℕ) → 0 < size_of → size_of ≤ w * g → 0 < w
positive zero g size_of h k = absurd (omega (arith, h, k))
positive (suc w) g size_of h k = omega arith

module _ {at : Traits} (t : IsTraits at) (size_of : ℕ) (s : ManagerState)
    (wide : s.backend_size ≤ size_max) where
  pub block_raw_ptr_from_pptr-index :
      (p i : ℕ) → block_raw_ptr_from_pptr at s p ≡ some i → i ≡ p - header_granules at
  unfolding block_raw_ptr_from_pptr try_block_idx_from_user_idx
  block_raw_ptr_from_pptr-index p i h = ground arith

  pub resolve_unchecked-raw :
      (p raw : ℕ)
      → (resolve_unchecked at size_of s p).value ≡ some raw
      → try_user_ptr at s.backend_size p size_of ≡ some raw
  unfolding resolve_unchecked raw_user_ptr_from_pptr returns returns_error
  resolve_unchecked-raw p raw h = ground arith

  pub resolve_checked-cases :
      (p raw : ℕ)
      → (resolve_checked at size_of s p).value ≡ some raw
      → (i : ℕ) × (block_raw_ptr_from_pptr at s p ≡ some i)
        × (is_owned_block at (s.arena.blocks i) (block_idx_from_pptr at p) ≡ true)
        × ((resolve_unchecked at size_of s p).value ≡ some raw)
  unfolding resolve_checked returns returns_error
  resolve_checked-cases p raw h = elim (Option-cases (block_raw_ptr_from_pptr at s p)) [
    | inl e ↦ absurd (ground arith)
    | inr (i, e) ↦ (i, e, ground (arith, e), ground (arith, e))
  ]

  -- What `resolve_checked` resolves is safe to use, where `sizeof( T )` and the size of the backend are
  -- a `size_t`: the object of `size_of` bytes at the pointer's granule lies within the image, and the
  -- header in front of it is one of a block in use of a known type that owns itself.
  pub resolve_checked-safe :
      (p raw : ℕ)
      → size_of ≤ size_max
      → (resolve_checked at size_of s p).value ≡ some raw
      → (raw ≡ p * at.granule_size)
        × (raw < s.backend_size)
        × (raw + size_of ≤ s.backend_size)
        × (is_owned_block at (s.arena.blocks (p - header_granules at)) (block_idx_from_pptr at p)
            ≡ true)
  resolve_checked-safe p raw small h =
      let (i, block, owned, unchecked) = resolve_checked-cases p raw h in
      let inside =
        try_user_ptr-inside at s.backend_size wide p size_of raw small
          (resolve_unchecked-raw p raw unchecked) in
      (inside.0, inside.1, inside.2, rw (sym (block_raw_ptr_from_pptr-index p i block)) owned)

  is_owned_block-BlockOk :
      (i p n e : ℕ)
      → BlockOk at (bodies s.arena i) p i n e
      → is_free (s.arena.blocks i).node_type ≡ false
      → i + header_granules at ≤ at.index_max
      → is_owned_block at (s.arena.blocks i) (block_idx_from_pptr at (i + header_granules at))
        ≡ true
  unfolding is_owned_block block_idx_from_pptr
  is_owned_block-BlockOk i p n e h used small =
      let owner : ((s.arena.blocks i).root_offset == i) ≡ true = ground (arith, h.sized, used) in
      let back : i + header_granules at - header_granules at ≡ i = omega arith in
      rw
        (
          sub_index-eq at (i + header_granules at) (header_granules at) (omega arith) small,
          back,
          owner,
          has_known (s.arena.blocks i).node_type (h.known),
          h.known,
          used,
        )
        refl

  -- The manager is initialized, the arena's blocks are chained, and its size is that of the backend and
  -- a `size_t`. Then the `pptr` of a block in use, whose data has room for an object of `size_of` bytes,
  -- at least one, resolves to its data, and the error is cleared.
  pub resolve_checked-IsChained :
      (pre : List ℕ) (i : ℕ) (post : List ℕ)
      → IsChained at s.arena (pre ++ i ∷ post)
      → s.arena.header.total_size ≡ s.backend_size
      → s.initialized ≡ true
      → is_free (s.arena.blocks i).node_type ≡ false
      → 0 < size_of
      → size_of ≤ (s.arena.blocks i).weight * at.granule_size
      → resolve_checked at size_of s (i + header_granules at)
        ≡ returns_error ok (some ((i + header_granules at) * at.granule_size)) s
  unfolding resolve_checked resolve_unchecked raw_user_ptr_from_pptr block_raw_ptr_from_pptr
  resolve_checked-IsChained pre i post h same ready used sized holds =
      let p : ℕ = i + header_granules at in
      let here =
        Chain-back at (bodies s.arena) (no_block at) pre (i ∷ post) (no_block at)
          (total_granules at s.arena) h.chain in
      let len =
        Chain-length t (bodies s.arena) i post (no_block at) (total_granules at s.arena) here.1 in
      let room : i + header_granules at + (s.arena.blocks i).weight ≤ total_granules at s.arena =
        ground (arith, here.0.sized, used, len) in
      let range : p * at.granule_size + size_of ≤ s.backend_size = omega (
        arith,
        in_use-range t s.arena (rw same wide) i (s.arena.blocks i).weight room,
        t.block_fits_header,
        same,
        holds,
      ) in
      let header_fits : fits at s.backend_size i (block_size at) ≡ true =
        rw (sym same)
          (fits_block t s.arena.header.total_size i (rw same wide) (omega (arith, room))) in
      let here_is : (i == no_block at) ≡ false =
        eq_of_ne i (no_block at) (λ e. omega (arith, e, room, h.fits, t.header_pos)) in
      let weighs = positive (s.arena.blocks i).weight at.granule_size size_of sized holds in
      let owned =
        is_owned_block-BlockOk i (last_or (no_block at) pre) (head_or (no_block at) post)
          (head_or (total_granules at s.arena) post) here.0 used (omega (arith, room, h.fits)) in
      let resolved =
        try_user_ptr-within at s.backend_size wide p size_of (λ e. omega (arith, e, t.header_pos))
          (λ e. omega (arith, e, room, weighs, h.fits)) sized range in
      let enters : ((p == 0) || not (s.initialized)) ≡ false =
        ground (arith, ready, t.header_pos) in
      rw
        (
          enters,
          try_block_idx-header at s.backend_size i t.header_pos header_fits,
          valid_block-fits at s.backend_size i here_is header_fits,
          owned,
          enters,
          resolved,
        )
        refl
