-- ===== src/Prelude/Tests.antt =====
-- Boolean tests on the native numbers, the conditional, and equality tests by instances.
use Prim.Native.Nat.{ℕ, compare, Ordering}
use Prim.Native.String.{String}
use mathlib.Core.Path.{◌≡◌, refl, sym, ◌∙◌}
use mathlib.Core.Logic.{◌↔◌, ◌⊎◌, inl, inr}
use mathlib.Core.Bool.{Bool, true, false, ◌&&◌}
use mathlib.Core.Option.{Option, none, some}
use mathlib.Core.List.{List, [], ◌∷◌}
use native.Mathlib.Omega.{arith}
use text.Mathlib.Text.{◌==◌ as str_eq}
use text.Mathlib.TextEquality.{eq_iff}

abbrev pub ltb : ℕ → ℕ → Bool
ltb a b = elim (compare a b) [ Ordering.lt ↦ true | _ ↦ false ]

abbrev pub leb : ℕ → ℕ → Bool
leb a b = elim (compare a b) [ Ordering.gt ↦ false | _ ↦ true ]

abbrev pub nat_eq : ℕ → ℕ → Bool
nat_eq a b = elim (compare a b) [ Ordering.eq ↦ true | _ ↦ false ]

infix 1 if◌then◌else◌
abbrev pub if◌then◌else◌ {ℓ} : {A : Type ℓ} → Bool → A → A → A
if true then x else y = x
if false then x else y = y

-- No test has both values.
pub true-false : {b : Bool} → b ≡ true → b ≡ false → ⊥
true-false {b} h k = let e : ◌≡◌ {A = Bool} true false = sym h ∙ k in cc

-- To split on a computed value and keep the equation.
pub Bool-cases : (b : Bool) → (b ≡ true) ⊎ (b ≡ false)
Bool-cases true = inl refl
Bool-cases false = inr refl

pub Option-cases {ℓ} : {A : Type ℓ} (o : Option A) → (o ≡ none) ⊎ ((a : A) × (o ≡ some a))
Option-cases none = inl refl
Option-cases (some a) = inr (a, refl)

-- Python's `==` on the values that the program compares.
pub record Eq {ℓ} (A : Type ℓ) : Type ℓ where
  pub beq : A → A → Bool
  pub beq_iff : (x y : A) → (beq x y ≡ true) ↔ (x ≡ y)

module _ {ℓ} {A : Type ℓ} ⦃e : Eq A⦄ where
  infix 50 ◌==◌
  abbrev pub ◌==◌ : A → A → Bool
  a == b = e.beq a b

  pub beq_refl : (a : A) → (a == a) ≡ true
  beq_refl a = (e.beq_iff a a).1 refl

pub nat_eq_iff : (a b : ℕ) → (nat_eq a b ≡ true) ↔ (a ≡ b)
nat_eq_iff a b = ground arith

instance abbrev pub nat_Eq : Eq ℕ
nat_Eq = record { beq = nat_eq; beq_iff = nat_eq_iff }

module _ {ℓ} {A : Type ℓ} ⦃e : Eq A⦄ where
  abbrev pub list_eq : List A → List A → Bool
  list_eq [] [] = true
  list_eq [] (y ∷ ys) = false
  list_eq (x ∷ xs) [] = false
  list_eq (x ∷ xs) (y ∷ ys) = x == y && list_eq xs ys

  pub list_eq_iff : (xs ys : List A) → (list_eq xs ys ≡ true) ↔ (xs ≡ ys)
  list_eq_iff [] [] = ground arith
  list_eq_iff [] (y ∷ ys) = ground arith
  list_eq_iff (x ∷ xs) [] = ground arith
  list_eq_iff (x ∷ xs) (y ∷ ys) = ground (arith, list_eq_iff xs ys, e.beq_iff x y)

  instance abbrev pub list_Eq : Eq (List A)
  list_Eq = record { beq = list_eq; beq_iff = list_eq_iff }

instance abbrev pub string_Eq : Eq String
string_Eq = record { beq = str_eq; beq_iff = eq_iff }
