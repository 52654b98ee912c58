-- ===== src/Wg/Rules/Effect/Copies.antt =====
-- How many copies of a rule its chain holds, when rules are added and taken out.
use exnode.Base.{
  String, beq_true, beq_false, ℕ, suc, ◌-◌, ◌≤◌, Bool, true, false, ◌||◌, ◌≡◌, refl, sym, ◌∙◌, List,
  [], ◌∷◌, ◌++◌, Bool-cases, inl, inr, if◌then◌else◌, ◌==◌, string_eq, list_eq, contains, erase,
  arith, beq→eq, beq_refl, Equality, &&_true, ||_false,
}
use exnode.Wg.Rules.{Rule}
use mathlib.Core.Path.{subst}
use exnode.Wg.Rules.Effect.{
  present, at_place, RuleMap, is_at, added, removed, added_all, removed_all,
}
use exnode.Wg.Rules.Effect.Undo.{same}

module _ {ℓ} {A : Type ℓ} ⦃e : Equality A⦄ where
  abbrev pub count : A → List A → ℕ
  count a [] = 0
  count a (x ∷ xs) = if x == a then suc (count a xs) else count a xs

  count-concat_self : (a : A) (l : List A) → count a (l ++ a ∷ []) ≡ suc (count a l)
  count-concat_self a [] = rw (beq_refl a)
  count-concat_self a (x ∷ l) = ground (arith, count-concat_self a l)

  count-concat_other : (a b : A) (l : List A) → (b == a) ≡ false → count a (l ++ b ∷ []) ≡ count a l
  count-concat_other a b [] h = rw h
  count-concat_other a b (x ∷ l) h = ground (arith, count-concat_other a b l)

  count-erase_self : (a : A) (l : List A) → count a (erase a l) ≡ count a l - 1
  unfolding erase
  count-erase_self a [] = refl
  count-erase_self a (x ∷ l) = elim (Bool-cases (x == a)) [
    | inl here ↦ rw here (omega arith)
    | inr other ↦ rw other (rw other (count-erase_self a l))
  ]

  count-erase_other : (a b : A) (l : List A) → (b == a) ≡ false → count a (erase b l) ≡ count a l
  unfolding erase
  count-erase_other a b [] h = refl
  count-erase_other a b (x ∷ l) h =
      ground (arith, count-erase_other a b l, e.equals_iff x b, e.equals_iff x a, e.equals_iff b a)

  count-absent : (a : A) (l : List A) → contains l a ≡ false → count a l ≡ 0
  unfolding contains
  count-absent a [] h = refl
  count-absent a (x ∷ l) h = ground (arith, count-absent a l)

  count-here : (a : A) (l : List A) → contains l a ≡ true → 1 ≤ count a l
  unfolding contains
  count-here a [] h = ground arith
  count-here a (x ∷ l) h = ground (arith, count-here a l)

  -- One copy is what adding leaves where there was at most one.
  count-add_self :
      (a : A) (l : List A) → count a l ≤ 1 → count a (if contains l a then l else l ++ a ∷ []) ≡ 1
  count-add_self a l few = elim (Bool-cases (contains l a)) [
    | inl here ↦ rw here (omega (arith, count-here a l here))
    | inr gone ↦ rw gone (rw (count-concat_self a l, count-absent a l gone))
  ]

  count-add_other :
      (a b : A) (l : List A)
      → (b == a) ≡ false
      → count a (if contains l b then l else l ++ b ∷ []) ≡ count a l
  count-add_other a b l differ = elim (Bool-cases (contains l b)) [
    | inl here ↦ rw here
    | inr gone ↦ rw gone (count-concat_other a b l differ)
  ]

pub beq_sym_false : (a b : List String) → (a == b) ≡ false → (b == a) ≡ false
beq_sym_false a b h = beq_false b a λ p. beq_true a b h (sym p)

if_same : {A : Type 0} {x : A} (b : Bool) → (if b then x else x) ≡ x
if_same true = refl
if_same false = refl

unfoldable pub copies : Rule → RuleMap → ℕ
copies r m = count r.args (m r.table r.chain)

-- The rule stands among those of the list.
abbrev pub among : List Rule → Rule → Bool
among [] x = false
among (r ∷ rs) x = same r x || among rs x

copies-added-same :
    (r x : Rule) (m : RuleMap) → same r x ≡ true → copies x m ≤ 1 → copies x (added r m) ≡ 1
unfolding copies added
copies-added-same r x m alike few =
    let (here, eq) = &&_true (is_at r x.table x.chain) (x.args == r.args) alike in
    rw (here, sym (beq→eq x.args r.args eq)) (count-add_self x.args (m x.table x.chain) few)

copies-added_other :
    (r x : Rule) (m : RuleMap) → same r x ≡ false → copies x (added r m) ≡ copies x m
unfolding copies added
copies-added_other r x m differ = elim (Bool-cases (is_at r x.table x.chain)) [
  | inr away ↦ rw away
  | inl here ↦ rw here (
      count-add_other x.args r.args (m x.table x.chain)
        (beq_sym_false x.args r.args (rw here at differ)))
]

pub copies-absent :
    (r x : Rule) (m : RuleMap) → same r x ≡ true → present m r ≡ false → copies x m ≡ 0
unfolding copies present
copies-absent r x m alike gone =
    let (here, eq) = &&_true (is_at r x.table x.chain) (x.args == r.args) alike in
    rw (beq→eq x.args r.args eq) (
      count-absent r.args (m x.table x.chain)
        (subst (λ l. contains l r.args ≡ false) (at_place r m x.table x.chain here) gone))

pub copies-removed-same :
    (r x : Rule) (m : RuleMap) → same r x ≡ true → copies x (removed r m) ≡ copies x m - 1
unfolding copies removed
copies-removed-same r x m alike =
    let (here, eq) = &&_true (is_at r x.table x.chain) (x.args == r.args) alike in
    rw (here, sym (beq→eq x.args r.args eq)) (count-erase_self x.args (m x.table x.chain))

pub copies-removed_other :
    (r x : Rule) (m : RuleMap) → same r x ≡ false → copies x (removed r m) ≡ copies x m
unfolding copies removed
copies-removed_other r x m differ = elim (Bool-cases (is_at r x.table x.chain)) [
  | inr away ↦ rw away
  | inl here ↦ rw here (
      count-erase_other x.args r.args (m x.table x.chain)
        (beq_sym_false x.args r.args (rw here at differ)))
]

-- A rule of the list that was there once at most is there exactly once when all have been added.
pub copies-added_all :
    (rs : List Rule) (x : Rule) (m : RuleMap)
    → copies x m ≤ 1
    → copies x (added_all rs m) ≡ (if among rs x then 1 else copies x m)
copies-added_all [] x m few = refl
copies-added_all (r ∷ rs) x m few = elim (Bool-cases (same r x)) [
  | inl alike ↦
      let one = copies-added-same r x m alike few in
      rw alike
        (copies-added_all rs x (added r m) (omega (arith, one)) ∙ rw one (if_same (among rs x)))
  | inr differ ↦
      let eq = copies-added_other r x m differ in
      rw differ (copies-added_all rs x (added r m) (omega (arith, eq, few)) ∙ rw eq refl)
]

-- A rule that is not of the list keeps its copies when all have been added.
pub copies-added_others :
    (rs : List Rule) (x : Rule) (m : RuleMap)
    → among rs x ≡ false
    → copies x (added_all rs m) ≡ copies x m
copies-added_others [] x m h = refl
copies-added_others (r ∷ rs) x m h =
    let (differ, rest) = ||_false (same r x) (among rs x) h in
    copies-added_others rs x (added r m) rest ∙ copies-added_other r x m differ

-- A rule of the list that was there once at most is gone when all have been taken out.
pub copies-removed_all :
    (rs : List Rule) (x : Rule) (m : RuleMap)
    → copies x m ≤ 1
    → copies x (removed_all rs m) ≡ (if among rs x then 0 else copies x m)
copies-removed_all [] x m few = refl
copies-removed_all (r ∷ rs) x m few = elim (Bool-cases (same r x)) [
  | inl alike ↦
      let less = copies-removed-same r x m alike in
      let none_left : copies x (removed r m) ≡ 0 = omega (arith, less, few) in
      rw alike (
        copies-removed_all rs x (removed r m) (omega (arith, none_left))
        ∙ rw none_left (if_same (among rs x)))
  | inr differ ↦
      let eq = copies-removed_other r x m differ in
      rw differ (copies-removed_all rs x (removed r m) (omega (arith, eq, few)) ∙ rw eq refl)
]

pub copies-removed_others :
    (rs : List Rule) (x : Rule) (m : RuleMap)
    → among rs x ≡ false
    → copies x (removed_all rs m) ≡ copies x m
copies-removed_others [] x m h = refl
copies-removed_others (r ∷ rs) x m h =
    let (differ, rest) = ||_false (same r x) (among rs x) h in
    copies-removed_others rs x (removed r m) rest ∙ copies-removed_other r x m differ
