-- ===== src/Prelude/Tests.antt =====
-- Boolean tests on the native numbers, on optional values and on types with decidable equality.
use Prim.Native.Nat.{ℕ, ◌≤◌, ◌<◌, compare, Ordering}
use mathlib.Core.Path.{◌≡◌, refl}
use mathlib.Core.Logic.{◌↔◌, ◌⊎◌, inl, inr}
use mathlib.Core.Bool.{Bool, true, false}
use mathlib.Core.Option.{Option, none, some}
use native.Mathlib.Omega.{arith}

abbrev pub ltb : ℕ → ℕ → Bool
ltb a b = elim (compare a b) [ Ordering.lt ↦ true | _ ↦ false ]

abbrev pub leb : ℕ → ℕ → Bool
leb a b = elim (compare a b) [ Ordering.gt ↦ false | _ ↦ true ]

infix 50 ◌==◌
abbrev pub ◌==◌ : ℕ → ℕ → Bool
a == b = elim (compare a b) [ Ordering.eq ↦ true | _ ↦ false ]

infix 1 if◌then◌else◌
abbrev pub if◌then◌else◌ {ℓ} : {A : Type ℓ} → Bool → A → A → A
if true then x else y = x
if false then x else y = y

pub ltb→lt : (a b : ℕ) → ltb a b ≡ true → a < b
ltb→lt a b h = ground arith

pub leb→le : (a b : ℕ) → leb a b ≡ true → a ≤ b
leb→le a b h = ground arith

pub ==_iff : (a b : ℕ) → ((a == b) ≡ true) ↔ (a ≡ b)
==_iff a b = ground arith

pub ==-refl : (a : ℕ) → (a == a) ≡ true
==-refl a = ground arith

-- To split on a computed value and keep the equation.
pub Bool-cases : (b : Bool) → (b ≡ true) ⊎ (b ≡ false)
Bool-cases true = inl refl
Bool-cases false = inr refl

pub Option-cases {ℓ} : {A : Type ℓ} (o : Option A) → (o ≡ none) ⊎ ((a : A) × (o ≡ some a))
Option-cases none = inl refl
Option-cases (some a) = inr (a, refl)

-- `x is not None`
abbrev pub is_some {ℓ} : {A : Type ℓ} → Option A → Bool
is_some none = false
is_some (some a) = true

abbrev pub decided {ℓ} : {P : Type ℓ} → Dec P → Bool
decided (yes p) = true
decided (no n) = false

module _ {ℓ} {A : Type ℓ} where
  -- Python's `==` of two contracts, which compares their fields.
  unfoldable pub same : Discrete A → A → A → Bool
  same d x y = decided (d x y)

  decided_refl : {x : A} (d : Dec (x ≡ x)) → decided d ≡ true
  decided_refl (yes p) = refl
  decided_refl (no n) = absurd (n refl)

  pub same_refl : (d : Discrete A) (x : A) → same d x x ≡ true
  unfolding same
  same_refl d x = decided_refl (d x x)

  decided→eq : {x y : A} (d : Dec (x ≡ y)) → decided d ≡ true → x ≡ y
  decided→eq (yes p) h = p
  decided→eq (no n) h = cc

  pub same→eq : (d : Discrete A) (x y : A) → same d x y ≡ true → x ≡ y
  unfolding same
  same→eq d x y h = decided→eq (d x y) h
