-- ===== src/Base/Lists.antt =====
-- Lists with native lengths; the first and the last entry with a default.
use Prim.Native.Nat.{ℕ, suc, ◌+◌, ◌≤◌}
use mathlib.Core.Path.{◌≡◌, refl, ap}
use mathlib.Core.Logic.{◌⊎◌, inl, inr}
use mathlib.Core.List.{List, [], ◌∷◌, ◌++◌}
use native.Mathlib.Omega.{arith}

module _ {ℓ} {A : Type ℓ} where
  abbrev pub length : List A → ℕ
  length [] = 0
  length (x ∷ xs) = suc (length xs)

  -- the first entry of the list, or what stands behind it
  abbrev pub head_or : A → List A → A
  head_or d [] = d
  head_or d (x ∷ xs) = x

  -- the last entry of the list, or what stands before it
  abbrev pub last_or : A → List A → A
  last_or d [] = d
  last_or d (x ∷ xs) = last_or x xs

  pub length-append : (xs ys : List A) → length (xs ++ ys) ≡ length xs + length ys
  length-append [] ys = omega arith
  length-append (x ∷ xs) ys = omega (arith, length-append xs ys)

  pub head_or-append : (d : A) (xs ys : List A) → head_or d (xs ++ ys) ≡ head_or (head_or d ys) xs
  head_or-append d [] ys = refl
  head_or-append d (x ∷ xs) ys = refl

  pub last_or-append : (d : A) (xs ys : List A) → last_or d (xs ++ ys) ≡ last_or (last_or d xs) ys
  last_or-append d [] ys = refl
  last_or-append d (x ∷ xs) ys = last_or-append x xs ys

pub head_or_mono : (xs : List ℕ) (d e : ℕ) → d ≤ e → head_or d xs ≤ head_or e xs
head_or_mono [] d e h = h
head_or_mono (x ∷ xs) d e h = omega arith

-- a list is empty, or has a last entry
pub snoc_cases {ℓ} :
    {A : Type ℓ} (xs : List A) → (xs ≡ []) ⊎ ((ys : List A) × (y : A) × (xs ≡ ys ++ y ∷ []))
snoc_cases [] = inl refl
snoc_cases (x ∷ xs) = elim (snoc_cases xs) [
  | inl e ↦ inr ([], x, ap (λ zs. x ∷ zs) e)
  | inr (ys, y, e) ↦ inr (x ∷ ys, y, ap (λ zs. x ∷ zs) e)
]
