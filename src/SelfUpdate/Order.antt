-- ===== src/SelfUpdate/Order.antt =====
-- The order of versions is a strict one, so an agent never swaps two builds back and forth.
use exnode.Base.{
  ℕ, String, Bool, true, false, ◌≡◌, refl, List, [], ◌∷◌, nat_eq, arith, beq_refl, Bool-cases, inl,
  inr,
}
use exnode.SelfUpdate.{above, decide, newer_parts, newer_version, version_parts}

above_trans : (x y z : ℕ) → above x y ≡ true → above y z ≡ true → above x z ≡ true
unfolding above
above_trans x y z h k = ground arith

above_irrefl : (x : ℕ) → above x x ≡ false
unfolding above
above_irrefl x = ground arith

decide_trans :
    (x y z : ℕ) (p q r : Bool)
    → (p ≡ true → q ≡ true → r ≡ true)
    → decide x y p ≡ true
    → decide y z q ≡ true
    → decide x z r ≡ true
decide_trans x y z p q r h a b = grind (arith, above_trans x y z, above_irrefl x)

newer_parts_irrefl : (xs : List ℕ) → newer_parts xs xs ≡ false
unfolding newer_parts
newer_parts_irrefl [] = refl
newer_parts_irrefl (x ∷ xs) = rw (beq_refl x) (newer_parts_irrefl xs)

newer_parts_trans :
    (xs ys zs : List ℕ)
    → newer_parts xs ys ≡ true
    → newer_parts ys zs ≡ true
    → newer_parts xs zs ≡ true
unfolding newer_parts
newer_parts_trans [] [] [] = λ h k. h
newer_parts_trans [] [] (z ∷ zs) = λ h k. cc
newer_parts_trans (x ∷ xs) [] [] = λ h k. h
newer_parts_trans [] (y ∷ ys) [] =
    decide_trans 0 y 0 (newer_parts [] ys) (newer_parts ys []) false (newer_parts_trans [] ys [])
newer_parts_trans [] (y ∷ ys) (z ∷ zs) = decide_trans 0 y z _ _ _ (newer_parts_trans [] ys zs)
newer_parts_trans (x ∷ xs) [] (z ∷ zs) = decide_trans x 0 z _ _ _ (newer_parts_trans xs [] zs)
newer_parts_trans (x ∷ xs) (y ∷ ys) [] = decide_trans x y 0 _ _ _ (newer_parts_trans xs ys [])
newer_parts_trans (x ∷ xs) (y ∷ ys) (z ∷ zs) = decide_trans x y z _ _ _ (newer_parts_trans xs ys zs)

strict : (xs ys : List ℕ) → newer_parts xs ys ≡ true → newer_parts ys xs ≡ false
strict xs ys h = elim (Bool-cases (newer_parts ys xs)) [
  | inl back ↦ cc (newer_parts_trans xs ys xs h back, newer_parts_irrefl xs)
  | inr not_back ↦ not_back
]

-- No version is newer than itself; and where one version is newer than a second and the second newer
-- than a third, the first is newer than the third and the third is not newer than the first.
pub newer_version_trans :
    (a b c : String)
    → newer_version a b ≡ true
    → newer_version b c ≡ true
    → (newer_version a c ≡ true) × (newer_version c a ≡ false) × (newer_version a a ≡ false)
unfolding newer_version
newer_version_trans a b c h k =
    let u = version_parts a in
    let w = version_parts c in
    let far = newer_parts_trans u (version_parts b) w h k in
    (far, strict u w far, newer_parts_irrefl u)
