-- ===== src/Base/Eq.antt =====
-- Equality tests by instance: numbers, texts, Booleans and lists of such.
use Prim.Native.Nat.{ℕ}
use Prim.Native.String.{String}
use mathlib.Core.Path.{◌≡◌, refl, subst}
use mathlib.Core.Logic.{◌↔◌, ◌≢◌}
use mathlib.Core.Bool.{Bool, true, false, ◌&&◌}
use mathlib.Core.List.{List, [], ◌∷◌}
use native.Mathlib.Omega.{arith}
use text.Mathlib.Text.{◌==◌ as str_beq}
use text.Mathlib.TextEquality.{eq_iff}
use exnode.Base.Tests.{nat_beq, nat_beq_iff}

pub record Equality {ℓ} (X : Type ℓ) : Type ℓ where
  pub equals : X → X → Bool
  pub equals_iff : (x y : X) → (equals x y ≡ true) ↔ (x ≡ y)

infix 50 ◌==◌
abbrev pub ◌==◌ {ℓ} : {X : Type ℓ} ⦃test : Equality X⦄ → X → X → Bool
◌==◌ ⦃test⦄ = test.equals

instance abbrev pub nat_eq : Equality ℕ
nat_eq = record { equals = nat_beq; equals_iff = nat_beq_iff }

instance abbrev pub string_eq : Equality String
string_eq = record { equals = str_beq; equals_iff = eq_iff }

abbrev pub bool_beq : Bool → Bool → Bool
bool_beq true b = b
bool_beq false true = false
bool_beq false false = true

pub bool_beq_iff : (a b : Bool) → (bool_beq a b ≡ true) ↔ (a ≡ b)
bool_beq_iff a b = ground arith

instance abbrev pub bool_eq : Equality Bool
bool_eq = record { equals = bool_beq; equals_iff = bool_beq_iff }

module _ {ℓ} {A : Type ℓ} ⦃e : Equality A⦄ where
  abbrev pub list_beq : List A → List A → Bool
  list_beq [] [] = true
  list_beq (x ∷ xs) (y ∷ ys) = x == y && list_beq xs ys
  list_beq _ _ = false

  list_beq→eq : (xs ys : List A) → list_beq xs ys ≡ true → xs ≡ ys
  list_beq→eq [] [] h = refl
  list_beq→eq [] (y ∷ ys) h = ground arith
  list_beq→eq (x ∷ xs) [] h = ground arith
  list_beq→eq (x ∷ xs) (y ∷ ys) h = ground (arith, e.equals_iff x y, list_beq→eq xs ys)

  list_beq_refl : (xs : List A) → list_beq xs xs ≡ true
  list_beq_refl [] = refl
  list_beq_refl (x ∷ xs) = ground (arith, e.equals_iff x x, list_beq_refl xs)

  pub list_beq_iff : (xs ys : List A) → (list_beq xs ys ≡ true) ↔ (xs ≡ ys)
  list_beq_iff xs ys =
      (list_beq→eq xs ys, λ p. subst (λ z. list_beq xs z ≡ true) p (list_beq_refl xs))

  instance abbrev pub list_eq : Equality (List A)
  list_eq = record { equals = list_beq; equals_iff = list_beq_iff }

  pub beq→eq : (a b : A) → (a == b) ≡ true → a ≡ b
  beq→eq a b = (e.equals_iff a b).0

  pub eq→beq : (a b : A) → a ≡ b → (a == b) ≡ true
  eq→beq a b = (e.equals_iff a b).1

  pub beq_refl : (a : A) → (a == a) ≡ true
  beq_refl a = (e.equals_iff a a).1 refl

  pub beq_false : (a b : A) → a ≢ b → (a == b) ≡ false
  beq_false a b h = ground (arith, e.equals_iff a b)

  pub beq_true : (a b : A) → (a == b) ≡ false → a ≢ b
  beq_true a b h p = ground (arith, e.equals_iff a b)
