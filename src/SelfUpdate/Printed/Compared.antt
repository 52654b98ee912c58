-- ===== src/SelfUpdate/Printed/Compared.antt =====
-- The order of tagged versions is that of their numbers.
use exnode.Base.{
  ℕ, zero, suc, ◌<◌, Bool, true, List, [], ◌∷◌, ◌≡◌, ◌↔◌, ◌⊎◌, inl, inr, refl, sym, ap, ◌∙◌, All,
  if_false, if_true, beq_false, eq→beq, ltb, nat_eq, ◌==◌, beq→eq, Bool-cases, ltb→lt, lt→ltb,
  arith,
}
use exnode.SelfUpdate.{int_values, above, decide, newer_parts, newer_version}
use exnode.SelfUpdate.Printed.{tag, version_parts-tag}

-- The part at a place, and the parts before it, where a part that is missing is 0.
abbrev pub head_or : List ℕ → ℕ
head_or [] = 0
head_or (x ∷ xs) = x

abbrev pub tail_of : List ℕ → List ℕ
tail_of [] = []
tail_of (x ∷ xs) = xs

abbrev pub part : ℕ → List ℕ → ℕ
part zero xs = head_or xs
part (suc k) xs = part k (tail_of xs)

abbrev pub before : ℕ → List ℕ → List ℕ
before zero xs = []
before (suc k) xs = head_or xs ∷ before k (tail_of xs)

-- The first difference of the numbers is in favour of the first.
abbrev pub Greater : List ℕ → List ℕ → Type 0
Greater xs ys = (k : ℕ) × (before k xs ≡ before k ys) × (part k ys < part k xs)

abbrev pub Small : List ℕ → Type 0
Small = All (λ n. n < 9223372036854775808)

newer_unfolds :
    (xs ys : List ℕ)
    → newer_parts xs ys ≡ decide (head_or xs) (head_or ys) (newer_parts (tail_of xs) (tail_of ys))
unfolding newer_parts
newer_unfolds [] [] = refl
newer_unfolds [] (y ∷ ys) = refl
newer_unfolds (x ∷ xs) [] = refl
newer_unfolds (x ∷ xs) (y ∷ ys) = refl

above_small : (x y : ℕ) → x < 9223372036854775808 → y < 9223372036854775808 → above x y ≡ ltb y x
unfolding above
above_small x y h k = ground arith

decided :
    (x y : ℕ) (later : Bool)
    → x < 9223372036854775808
    → y < 9223372036854775808
    → decide x y later ≡ true
    → ((x ≡ y) × (later ≡ true)) ⊎ (y < x)
decided x y later h k d = elim (Bool-cases (x == y)) [
  | inl same ↦ inl (beq→eq x y same, sym (if_true (x == y) _ _ same) ∙ d)
  | inr other ↦ inr (ltb→lt y x (sym (above_small x y h k) ∙ sym (if_false (x == y) _ _ other) ∙ d))
]

Small-head : (xs : List ℕ) → Small xs → head_or xs < 9223372036854775808
Small-head [] h = omega arith
Small-head (x ∷ xs) (h, k) = h

Small-tail : (xs : List ℕ) → Small xs → Small (tail_of xs)
Small-tail [] h = tt
Small-tail (x ∷ xs) (h, k) = k

one_more :
    (xs ys : List ℕ)
    → ((head_or xs ≡ head_or ys) × Greater (tail_of xs) (tail_of ys)) ⊎ (head_or ys < head_or xs)
    → Greater xs ys
one_more xs ys (inl (same, (k, alike, less))) = (suc k, rw (same, alike) refl, less)
one_more xs ys (inr less) = (zero, refl, less)

climb :
    (xs ys : List ℕ)
    → Small xs
    → Small ys
    → (newer_parts (tail_of xs) (tail_of ys) ≡ true → Greater (tail_of xs) (tail_of ys))
    → newer_parts xs ys ≡ true
    → Greater xs ys
climb xs ys h k further d =
    one_more xs ys
      (elim (decided (head_or xs) (head_or ys) (newer_parts (tail_of xs) (tail_of ys))
        (Small-head xs h) (Small-head ys k) (sym (newer_unfolds xs ys) ∙ d)) [
          | inl (same, later) ↦ inl (same, further later)
          | inr less ↦ inr less
        ])

newer→Greater : (xs ys : List ℕ) → Small xs → Small ys → newer_parts xs ys ≡ true → Greater xs ys
unfolding newer_parts
newer→Greater [] [] h k d = cc
newer→Greater [] (y ∷ ys) h k d = climb [] (y ∷ ys) h k (λ l. newer→Greater [] ys tt k.1 l) d
newer→Greater (x ∷ xs) [] h k d = climb (x ∷ xs) [] h k (λ l. newer→Greater xs [] h.1 tt l) d
newer→Greater (x ∷ xs) (y ∷ ys) h k d =
    climb (x ∷ xs) (y ∷ ys) h k (λ l. newer→Greater xs ys h.1 k.1 l) d

decide_less :
    (x y : ℕ) (later : Bool)
    → x < 9223372036854775808
    → y < 9223372036854775808
    → y < x
    → decide x y later ≡ true
decide_less x y later h k less =
    if_false (x == y) _ _ (beq_false x y (λ p. omega arith)) ∙ above_small x y h k ∙ lt→ltb y x less

decide_same : (x y : ℕ) (later : Bool) → x ≡ y → decide x y later ≡ later
decide_same x y later same = if_true (x == y) _ _ (eq→beq x y same)

Greater→newer :
    (k : ℕ) (xs ys : List ℕ)
    → Small xs
    → Small ys
    → before k xs ≡ before k ys
    → part k ys < part k xs
    → newer_parts xs ys ≡ true
Greater→newer zero xs ys h k e less =
    newer_unfolds xs ys
    ∙ decide_less (head_or xs) (head_or ys) _ (Small-head xs h) (Small-head ys k) less
Greater→newer (suc j) xs ys h k e less =
    newer_unfolds xs ys
    ∙ decide_same (head_or xs) (head_or ys) _ (ap head_or e)
    ∙ Greater→newer j (tail_of xs) (tail_of ys) (Small-tail xs h) (Small-tail ys k) (ap tail_of e)
        less

Small-values : (xs : List ℕ) → Small xs → All (λ n. n < int_values) xs
Small-values [] h = tt
Small-values (x ∷ xs) (h, k) = (omega arith, Small-values xs k)

-- A release is newer than another one exactly if the first difference between their numbers, those
-- that are missing taken for 0, is in its favour: for tags of `v` and numbers below 2^63 with dots
-- between them.
pub newer_version-tag :
    (x : ℕ) (xs : List ℕ) (y : ℕ) (ys : List ℕ)
    → Small (x ∷ xs)
    → Small (y ∷ ys)
    → (newer_version (tag (x ∷ xs)) (tag (y ∷ ys)) ≡ true) ↔ Greater (x ∷ xs) (y ∷ ys)
unfolding newer_version
newer_version-tag x xs y ys h k =
    let a = version_parts-tag x xs (Small-values (x ∷ xs) h) in
    let b = version_parts-tag y ys (Small-values (y ∷ ys) k) in
    rw (a, b)
      (
        newer→Greater (x ∷ xs) (y ∷ ys) h k,
        λ (j, e, less). Greater→newer j (x ∷ xs) (y ∷ ys) h k e less,
      )
