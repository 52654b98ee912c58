-- ===== src/Base/Lists.antt =====
-- Lists over the native numbers and Boolean membership.
use Prim.Native.Nat.{ℕ, zero, suc, ◌+◌}
use mathlib.Core.Path.{◌≡◌, refl, ap}
use mathlib.Core.Bool.{Bool, true, false, ◌&&◌, ◌||◌, not}
use mathlib.Core.List.{List, [], ◌∷◌, ◌++◌}
use native.Mathlib.Omega.{arith}
use exnode.Base.Tests.{if◌then◌else◌}
use exnode.Base.Eq.{Equality, ◌==◌, list_eq}

module _ {ℓ} {A : Type ℓ} where
  abbrev pub length : List A → ℕ
  length [] = 0
  length (x ∷ xs) = suc (length xs)

  -- `len(xs) == 0`
  abbrev pub is_empty : List A → Bool
  is_empty [] = true
  is_empty (x ∷ xs) = false

  unfoldable pub keep : (A → Bool) → List A → List A
  keep p [] = []
  keep p (x ∷ xs) = let rest = keep p xs in if p x then x ∷ rest else rest

  abbrev pub all : (A → Bool) → List A → Bool
  all p [] = true
  all p (x ∷ xs) = p x && all p xs

  abbrev pub any : (A → Bool) → List A → Bool
  any p [] = false
  any p (x ∷ xs) = p x || any p xs

  pub keep-append : (p : A → Bool) (xs ys : List A) → keep p (xs ++ ys) ≡ keep p xs ++ keep p ys
  unfolding keep
  keep-append p [] ys = refl
  keep-append p (x ∷ xs) ys = ground (arith, keep-append p xs ys)

  pub keep-all : (p : A → Bool) (xs : List A) → all p xs ≡ true → keep p xs ≡ xs
  unfolding keep
  keep-all p [] h = refl
  keep-all p (x ∷ xs) h = ground (arith, keep-all p xs)

  pub keep-All : (q p : A → Bool) (xs : List A) → all q xs ≡ true → all q (keep p xs) ≡ true
  unfolding keep
  keep-All q p [] h = refl
  keep-All q p (x ∷ xs) h = ground (arith, keep-All q p xs, h)

  pub all-keep : (p : A → Bool) (xs : List A) → all p (keep p xs) ≡ true
  unfolding keep
  all-keep p [] = refl
  all-keep p (x ∷ xs) = ground (arith, all-keep p xs)

module _ {ℓ κ} {A : Type ℓ} (P : A → Type κ) where
  abbrev pub All : List A → Type κ
  All [] = Unit
  All (x ∷ xs) = P x × All xs

module _ {ℓ} {A : Type ℓ} ⦃e : Equality A⦄ where
  unfoldable pub contains : List A → A → Bool
  contains [] a = false
  contains (x ∷ xs) a = x == a || contains xs a

  pub contains_of_eq : (l : List A) (a b : A) → a ≡ b → contains l a ≡ contains l b
  contains_of_eq l a b p = ap (contains l) p

  pub contains-append :
      (xs ys : List A) (a : A) → contains (xs ++ ys) a ≡ (contains xs a || contains ys a)
  unfolding contains
  contains-append [] ys a = refl
  contains-append (x ∷ xs) ys a = ground (arith, contains-append xs ys a)

  pub contains-keep :
      (p : A → Bool) (xs : List A) (a : A) → contains (keep p xs) a ≡ (p a && contains xs a)
  unfolding contains keep
  contains-keep p [] a = ground arith
  contains-keep p (x ∷ xs) a = ground (arith, contains-keep p xs a, e.equals_iff x a)

  -- The first occurrence taken out.
  unfoldable pub erase : A → List A → List A
  erase a [] = []
  erase a (x ∷ xs) = let rest = erase a xs in if x == a then xs else x ∷ rest

  -- No element stands in the list twice.
  abbrev pub no_dups : List A → Bool
  no_dups [] = true
  no_dups (x ∷ xs) = not (contains xs x) && no_dups xs

  pub no_dups-concat :
      (xs : List A) (a : A)
      → no_dups xs ≡ true
      → contains xs a ≡ false
      → no_dups (xs ++ a ∷ []) ≡ true
  unfolding contains
  no_dups-concat [] a h k = refl
  no_dups-concat (x ∷ xs) a h k = ground (
    arith,
    no_dups-concat xs a,
    contains-append xs (a ∷ []) x,
    e.equals_iff a x,
    e.equals_iff x a,
  )

module _ {ℓ} {A : Type ℓ} where
  abbrev pub take : ℕ → List A → List A
  take zero xs = []
  take (suc n) [] = []
  take (suc n) (x ∷ xs) = x ∷ take n xs

  abbrev pub drop : ℕ → List A → List A
  drop zero xs = xs
  drop (suc n) [] = []
  drop (suc n) (x ∷ xs) = drop n xs

  pub take-length : (xs ys : List A) → take (length xs) (xs ++ ys) ≡ xs
  take-length [] ys = refl
  take-length (x ∷ xs) ys = ap (◌∷◌ x) (take-length xs ys)

  pub drop-length : (xs ys : List A) → drop (length xs) (xs ++ ys) ≡ ys
  drop-length [] ys = refl
  drop-length (x ∷ xs) ys = drop-length xs ys

  pub length-concat : (xs ys : List A) → length (xs ++ ys) ≡ length xs + length ys
  length-concat [] ys = ground arith
  length-concat (x ∷ xs) ys = ground (arith, length-concat xs ys)
