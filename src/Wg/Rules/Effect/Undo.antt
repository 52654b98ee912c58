-- ===== src/Wg/Rules/Effect/Undo.antt =====
-- Taking rules out again that were added undoes the adding.
use mathlib.Core.Path.{fun_ext}
use exnode.Base.{
  String, Bool, true, false, not, ◌&&◌, ◌≡◌, refl, ap, ◌∙◌, List, [], ◌∷◌, ◌++◌, Bool-cases, inl,
  inr, &&_true, if◌then◌else◌, ◌==◌, string_eq, list_eq, contains, erase, arith, not-true, beq→eq,
  beq_refl, Equality,
}
use exnode.Wg.Rules.{Rule}
use exnode.Wg.Rules.Effect.{
  RuleMap, at_place, is_at, added, removed, added_all, removed_all, present,
}

module _ {ℓ} {A : Type ℓ} ⦃e : Equality A⦄ where
  erase-concat_self : (a : A) (l : List A) → contains l a ≡ false → erase a (l ++ a ∷ []) ≡ l
  unfolding erase contains
  erase-concat_self a [] h = rw (beq_refl a)
  erase-concat_self a (x ∷ l) h = ground (arith, erase-concat_self a l)

  erase-concat :
      (a b : A) (l : List A) → (b == a) ≡ false → erase a (l ++ b ∷ []) ≡ erase a l ++ b ∷ []
  unfolding erase
  erase-concat a b [] h = rw h
  erase-concat a b (x ∷ l) h = ground (arith, erase-concat a b l)

  contains-erase : (a b : A) (l : List A) → (b == a) ≡ false → contains (erase a l) b ≡ contains l b
  unfolding erase contains
  contains-erase a b [] h = refl
  contains-erase a b (x ∷ l) h =
      ground (arith, contains-erase a b l, e.equals_iff x a, e.equals_iff x b, e.equals_iff b a)

  erase-add :
      (a b : A) (l : List A)
      → (b == a) ≡ false
      → erase a (if contains l b then l else l ++ b ∷ [])
        ≡ (if contains (erase a l) b then erase a l else erase a l ++ b ∷ [])
  erase-add a b l h = rw (contains-erase a b l h) (elim (Bool-cases (contains l b)) [
    | inl here ↦ rw here
    | inr gone ↦ rw gone (erase-concat a b l h)
  ])

-- The same rule of the same chain.
abbrev pub same : Rule → Rule → Bool
same x r = is_at x r.table r.chain && r.args == x.args

same_place :
    (x r : Rule) (t c : String)
    → is_at x t c ≡ true
    → is_at r t c ≡ true
    → is_at x r.table r.chain ≡ true
same_place x r t c hx hr =
    let (xt, xc) = &&_true (x.table == t) (x.chain == c) hx in
    let (rt, rc) = &&_true (r.table == t) (r.chain == c) hr in
    rw (beq→eq r.table t rt, beq→eq r.chain c rc) hx

removed-added :
    (x r : Rule) (m : RuleMap) → same x r ≡ false → removed x (added r m) ≡ added r (removed x m)
unfolding removed added
removed-added x r m differ = fun_ext λ t. fun_ext λ c. elim (Bool-cases (is_at x t c)) [
  | inr away ↦ simp away refl
  | inl here ↦ elim (Bool-cases (is_at r t c)) [
    | inr far ↦ simp (here, far) refl
    | inl near ↦
        simp (here, near)
          (erase-add x.args r.args (m t c) (rw (same_place x r t c here near) at differ))
  ]
]

removed-added_self : (x : Rule) (m : RuleMap) → present m x ≡ false → removed x (added x m) ≡ m
unfolding removed added present
removed-added_self x m gone = fun_ext λ t. fun_ext λ c. elim (Bool-cases (is_at x t c)) [
  | inr away ↦ simp away refl
  | inl here ↦
      simp here
        (rw (← at_place x m t c here) (rw gone (erase-concat_self x.args (m x.table x.chain) gone)))
]

-- No rule of the list is the given one; no rule of the list stands in it twice.
abbrev pub apart : Rule → List Rule → Bool
apart x [] = true
apart x (r ∷ rs) = not (same x r) && apart x rs

abbrev pub distinct : List Rule → Bool
distinct [] = true
distinct (r ∷ rs) = apart r rs && distinct rs

-- No rule of the list is there.
abbrev pub all_absent : RuleMap → List Rule → Bool
all_absent m [] = true
all_absent m (r ∷ rs) = not (present m r) && all_absent m rs

removed-added_all :
    (x : Rule) (rs : List Rule) (m : RuleMap)
    → apart x rs ≡ true
    → removed x (added_all rs m) ≡ added_all rs (removed x m)
removed-added_all x [] m h = refl
removed-added_all x (r ∷ rs) m h =
    let (differ, rest) = &&_true (not (same x r)) (apart x rs) h in
    removed-added_all x rs (added r m) rest
    ∙ ap (added_all rs) (removed-added x r m (not-true (same x r) differ))

-- Adding distinct rules, none of which is there, and taking them out again restores the rules.
pub removed_all-added_all :
    (rs : List Rule) (m : RuleMap)
    → distinct rs ≡ true
    → all_absent m rs ≡ true
    → removed_all rs (added_all rs m) ≡ m
removed_all-added_all [] m d a = refl
removed_all-added_all (r ∷ rs) m d a =
    let (differ, rest) = &&_true (apart r rs) (distinct rs) d in
    let (gone, others) = &&_true (not (present m r)) (all_absent m rs) a in
    ap (removed_all rs) (
      removed-added_all r rs (added r m) differ
      ∙ ap (added_all rs) (removed-added_self r m (not-true (present m r) gone)))
    ∙ removed_all-added_all rs m rest others
