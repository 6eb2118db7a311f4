-- ===== src/Prelude/Tests.antt =====
-- Boolean tests on native numbers, on nullable columns and on text, and the conditional.
use Prim.Native.Nat.{ℕ, compare, Ordering, ◌≤◌, ◌<◌}
use mathlib.Core.Path.{◌≡◌, refl}
use mathlib.Core.Logic.{◌⊎◌, inl, inr}
use mathlib.Core.Bool.{Bool, true, false, ◌&&◌}
use mathlib.Core.Option.{Option, none, some}
use mathlib.Core.List.{List, [], ◌∷◌}
use native.Mathlib.Omega.{arith}

abbrev pub ltb : ℕ → ℕ → Bool
ltb a b = elim (compare a b) [ Ordering.lt ↦ true | _ ↦ false ]

abbrev pub leb : ℕ → ℕ → Bool
leb a b = elim (compare a b) [ Ordering.gt ↦ false | _ ↦ true ]

infix 50 ◌==◌
abbrev pub ◌==◌ : ℕ → ℕ → Bool
a == b = elim (compare a b) [ Ordering.eq ↦ true | _ ↦ false ]

infix 1 if◌then◌else◌
abbrev pub if◌then◌else◌ {ℓ} : {A : Type ℓ} → Bool → A → A → A
if true then x else y = x
if false then x else y = y

-- SQL's `column = value`, `column < value`, `column > value` in a WHERE clause: NULL never matches.
abbrev pub is_eq : Option ℕ → ℕ → Bool
is_eq none k = false
is_eq (some a) k = a == k

abbrev pub is_lt : Option ℕ → ℕ → Bool
is_lt none k = false
is_lt (some a) k = ltb a k

abbrev pub is_gt : Option ℕ → ℕ → Bool
is_gt none k = false
is_gt (some a) k = ltb k a

-- `column IS NULL`
abbrev pub is_null {ℓ} : {A : Type ℓ} → Option A → Bool
is_null none = true
is_null (some _) = false

-- A text is the list of its code points.
abbrev pub Text : Type 0
Text = List ℕ

unfoldable pub same : Text → Text → Bool
same [] [] = true
same (a ∷ s) (b ∷ t) = a == b && same s t
same _ _ = false

pub same_refl : (s : Text) → same s s ≡ true
unfolding same
same_refl [] = refl
same_refl (a ∷ s) = ground (arith, same_refl s)

pub same-eq : (s t : Text) → same s t ≡ true → s ≡ t
unfolding same
same-eq [] [] h = refl
same-eq [] (b ∷ t) h = cc
same-eq (a ∷ s) [] h = cc
same-eq (a ∷ s) (b ∷ t) h = ground (arith, same-eq s t)

pub ==_refl : (a : ℕ) → (a == a) ≡ true
==_refl a = ground arith

-- To split on a computed value and keep the equation.
pub Bool-cases : (b : Bool) → (b ≡ true) ⊎ (b ≡ false)
Bool-cases true = inl refl
Bool-cases false = inr refl

pub Option-cases {ℓ} : {A : Type ℓ} (o : Option A) → (o ≡ none) ⊎ ((a : A) × (o ≡ some a))
Option-cases none = inl refl
Option-cases (some a) = inr (a, refl)

pub le→leb : (a b : ℕ) → a ≤ b → leb a b ≡ true
le→leb a b h = ground arith

pub lt→ltb : (a b : ℕ) → a < b → ltb a b ≡ true
lt→ltb a b h = ground arith

pub ltb-le : (a b : ℕ) → ltb a b ≡ false → b ≤ a
ltb-le a b h = ground arith
