-- ===== src/Base/Tests.antt =====
-- Boolean tests on the native numbers, the conditional, and case splits that keep the equation.
use Prim.Native.Nat.{ℕ, ◌≤◌, ◌<◌, compare, Ordering}
use mathlib.Core.Path.{◌≡◌, refl}
use mathlib.Core.Logic.{◌⊎◌, inl, inr, ◌≢◌}
use mathlib.Core.Bool.{Bool, true, false}
use mathlib.Core.Option.{Option, none, some}
use native.Mathlib.Omega.{arith}

abbrev pub ltb : ℕ → ℕ → Bool
ltb a b = elim (compare a b) [ Ordering.lt ↦ true | _ ↦ false ]

abbrev pub leb : ℕ → ℕ → Bool
leb a b = elim (compare a b) [ Ordering.gt ↦ false | _ ↦ true ]

infix 50 ◌==◌
abbrev pub ◌==◌ : ℕ → ℕ → Bool
a == b = elim (compare a b) [ Ordering.eq ↦ true | _ ↦ false ]

infix 1 if◌then◌else◌
abbrev pub if◌then◌else◌ {ℓ} : {A : Type ℓ} → Bool → A → A → A
if true then x else y = x
if false then x else y = y

pub eq_refl : (a : ℕ) → (a == a) ≡ true
eq_refl a = ground arith

pub eq_of_ne : (a b : ℕ) → a ≢ b → (a == b) ≡ false
eq_of_ne a b h = ground arith

pub eq→≡ : (a b : ℕ) → (a == b) ≡ true → a ≡ b
eq→≡ a b h = ground arith

pub Bool-cases : (b : Bool) → (b ≡ true) ⊎ (b ≡ false)
Bool-cases true = inl refl
Bool-cases false = inr refl

pub Option-cases {ℓ} : {A : Type ℓ} (o : Option A) → (o ≡ none) ⊎ ((a : A) × (o ≡ some a))
Option-cases none = inl refl
Option-cases (some a) = inr (a, refl)

pub eq_when : (a b : ℕ) → a ≡ b → (a == b) ≡ true
eq_when a b h = ground arith

pub ltb_when : (a b : ℕ) → a < b → ltb a b ≡ true
ltb_when a b h = ground arith

pub leb_when : (a b : ℕ) → a ≤ b → leb a b ≡ true
leb_when a b h = ground arith

pub either_true : (b : Bool) → (if b then true else true) ≡ true
either_true true = refl
either_true false = refl
