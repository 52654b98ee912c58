-- ===== src/Wg/Rules/Effect/Counted.antt =====
-- Every copy of a rule taken out of its chain, and the copies that are left of each rule.
use mathlib.Core.Path.{fun_ext}
use exnode.Base.{
  ℕ, suc, ◌≤◌, true, false, not, ◌≡◌, refl, ap, sym, List, [], ◌∷◌, Bool-cases, inl, inr,
  if◌then◌else◌, ◌==◌, string_eq, list_eq, contains, erase, keep, arith, beq_refl, Equality, beq→eq,
}
use exnode.Wg.Rules.{Rule}
use exnode.Wg.Rules.Effect.{RuleMap, is_at, at_place, present, removed}
use exnode.Wg.Rules.Effect.Undo.{same}
use exnode.Wg.Rules.Effect.Copies.{count, copies, among}

module _ {ℓ} {A : Type ℓ} ⦃e : Equality A⦄ where
  pub others : A → List A → List A
  others a l = keep (λ x. not (x == a)) l

  others-erase : (a : A) (l : List A) → others a (erase a l) ≡ others a l
  unfolding others erase keep
  others-erase a [] = refl
  others-erase a (x ∷ l) = elim (Bool-cases (x == a)) [
    | inl same ↦ rw same
    | inr other ↦ rw other (rw other (ap (◌∷◌ x) (others-erase a l)))
  ]

  count-erase :
      (a : A) (l : List A) (n : ℕ)
      → count a l ≤ suc n
      → contains l a ≡ true
      → count a (erase a l) ≤ n
  unfolding erase contains
  count-erase a [] n = λ h k. cc
  count-erase a (x ∷ l) n = elim (Bool-cases (x == a)) [
    | inl same ↦ rw same (λ h k. omega arith)
    | inr other ↦ rw other (λ h k. rw other (count-erase a l n h k))
  ]

  others-absent : (a : A) (l : List A) → contains l a ≡ false → others a l ≡ l
  unfolding others keep contains
  others-absent a [] h = refl
  others-absent a (x ∷ l) h = ground (arith, others-absent a l)

  count-others : (a b : A) (l : List A) → count a (others b l) ≤ count a l
  unfolding others keep
  count-others a b [] = omega arith
  count-others a b (x ∷ l) = elim (Bool-cases (x == b)) [
    | inl same ↦ rw same (ground (arith, count-others a b l))
    | inr other ↦ rw other (ground (arith, count-others a b l))
  ]

  count_zero : (a : A) (l : List A) → count a l ≤ 0 → contains l a ≡ false
  unfolding contains
  count_zero a [] h = refl
  count_zero a (x ∷ l) h = ground (arith, count_zero a l)

-- Every copy of the rule taken out.
unfoldable pub cleared : Rule → RuleMap → RuleMap
cleared r m t c = if is_at r t c then others r.args (m t c) else m t c

abbrev pub cleared_all : List Rule → RuleMap → RuleMap
cleared_all [] m = m
cleared_all (r ∷ rs) m = cleared_all rs (cleared r m)

module _ (r : Rule) where
  pub cleared-removed : (m : RuleMap) → cleared r (removed r m) ≡ cleared r m
  unfolding cleared removed
  cleared-removed m = fun_ext λ t. fun_ext λ c. elim (Bool-cases (is_at r t c)) [
    | inl at ↦ simp at (others-erase r.args (m t c))
    | inr away ↦ simp away refl
  ]

  pub cleared-absent : (m : RuleMap) → present m r ≡ false → cleared r m ≡ m
  unfolding cleared present
  cleared-absent m gone = fun_ext λ t. fun_ext λ c. elim (Bool-cases (is_at r t c)) [
    | inl at ↦ simp at (rw (← at_place r m t c at) (others-absent r.args (m r.table r.chain) gone))
    | inr away ↦ rw away
  ]

  pub copies-removed :
      (m : RuleMap) (n : ℕ) → copies r m ≤ suc n → present m r ≡ true → copies r (removed r m) ≤ n
  unfolding copies removed present
  copies-removed m n h here =
      rw (beq_refl r.table, beq_refl r.chain) (count-erase r.args (m r.table r.chain) n h here)

  pub copies_zero : (m : RuleMap) → copies r m ≤ 0 → present m r ≡ false
  unfolding copies present
  copies_zero m h = count_zero r.args (m r.table r.chain) h

pub copies-cleared : (r x : Rule) (m : RuleMap) → copies r (cleared x m) ≤ copies r m
unfolding copies cleared
copies-cleared r x m = elim (Bool-cases (is_at x r.table r.chain)) [
  | inl at ↦ rw at (count-others r.args x.args (m r.table r.chain))
  | inr away ↦ rw away (omega arith)
]

-- At most eight copies of each rule are there.
abbrev pub Few : List Rule → RuleMap → Type 0
Few [] m = Unit
Few (r ∷ rs) m = (copies r m ≤ 8) × Few rs m

count-others_self : {A : Type 0} ⦃e : Equality A⦄ (a : A) (l : List A) → count a (others a l) ≡ 0
unfolding others keep
count-others_self a [] = refl
count-others_self a (x ∷ l) = elim (Bool-cases (x == a)) [
  | inl same ↦ rw same (count-others_self a l)
  | inr other ↦ rw other (rw other (count-others_self a l))
]

count-others_other :
    {A : Type 0} ⦃e : Equality A⦄ (a b : A) (l : List A)
    → (a == b) ≡ false
    → count a (others b l) ≡ count a l
unfolding others keep
count-others_other a b [] differ = refl
count-others_other ⦃e⦄ a b (x ∷ l) differ =
    ground
      (arith, count-others_other a b l differ, e.equals_iff x a, e.equals_iff x b, e.equals_iff a b)

-- Clearing a rule leaves none of its copies, and the copies of every other rule.
copies-cleared_exact :
    (r x : Rule) (m : RuleMap) → copies x (cleared r m) ≡ (if same r x then 0 else copies x m)
unfolding copies cleared
copies-cleared_exact r x m = elim (Bool-cases (is_at r x.table x.chain)) [
  | inr away ↦ rw away
  | inl here ↦ elim (Bool-cases (x.args == r.args)) [
    | inl alike ↦
        rw (here, alike)
          (rw (sym (beq→eq x.args r.args alike)) (count-others_self x.args (m x.table x.chain)))
    | inr differ ↦ rw (here, differ) (count-others_other x.args r.args (m x.table x.chain) differ)
  ]
]

pub copies-cleared_all :
    (rs : List Rule) (x : Rule) (m : RuleMap)
    → copies x (cleared_all rs m) ≡ (if among rs x then 0 else copies x m)
copies-cleared_all [] x m = refl
copies-cleared_all (r ∷ rs) x m = elim (Bool-cases (same r x)) [
  | inl alike ↦ ground (arith, copies-cleared_all rs x (cleared r m), copies-cleared_exact r x m)
  | inr differ ↦ ground (arith, copies-cleared_all rs x (cleared r m), copies-cleared_exact r x m)
]

pub Few-cleared : (r : Rule) (rs : List Rule) (m : RuleMap) → Few rs m → Few rs (cleared r m)
Few-cleared r [] m few = tt
Few-cleared r (x ∷ rs) m (few, rest) =
    (omega (arith, copies-cleared x r m), Few-cleared r rs m rest)
