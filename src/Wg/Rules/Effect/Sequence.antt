-- ===== src/Wg/Rules/Effect/Sequence.antt =====
-- The loops of SetupNAT and TeardownNAT over a list of rules, as maps of the rules.
use exnode.Base.{
  string_eq, list_eq, contains, contains-append, beq_refl, Bool, true, false, ◌≡◌, refl, ap, ◌∙◌,
  List, [], ◌∷◌, Bool-cases, inl, inr, &&_true, ◌&&◌,
}
use exnode.Host.{Host}
use exnode.Host.Loops.{each_ok, each_all}
use exnode.Host.Iptables.{Iptables}
use exnode.Wg.Rules.{Rule, ensure_rule, delete_rule}
use exnode.Wg.Rules.Effect.{
  is_at, added, RuleMap, added_all, removed_all, rules-ensure_rule, rules-delete_rule, present,
  added-present,
}

module _ (H : Host) (ipt : Iptables H) where
  -- A run of ensureRule over a list of rules that meets no error has added them all, in order.
  pub rules-ensure_all :
      (rs : List Rule) (s : H.State)
      → (each_ok (ensure_rule H) rs s).0 ≡ true
      → ipt.rules (each_ok (ensure_rule H) rs s).1 ≡ added_all rs (ipt.rules s)
  unfolding each_ok
  rules-ensure_all [] s h = refl
  rules-ensure_all (r ∷ rs) s h = elim (Bool-cases (ensure_rule H r s).0) [
    | inl ok ↦ rw ok (
        rules-ensure_all rs (ensure_rule H r s).1 (rw ok at h)
        ∙ ap (added_all rs) (rules-ensure_rule H ipt r s ok))
    | inr failed ↦ let lost : false ≡ true = rw failed at h in cc
  ]

  -- A run of deleteRule over a list of rules that meets no error has taken each out, in order.
  pub rules-delete_all :
      (rs : List Rule) (s : H.State)
      → (each_all (delete_rule H) rs s).0 ≡ true
      → ipt.rules (each_all (delete_rule H) rs s).1 ≡ removed_all rs (ipt.rules s)
  unfolding each_all
  rules-delete_all [] s h = refl
  rules-delete_all (r ∷ rs) s h =
      let (ok, rest) =
        &&_true (delete_rule H r s).0 (each_all (delete_rule H) rs (delete_rule H r s).1).0 h in
      rules-delete_all rs (delete_rule H r s).1 rest
      ∙ ap (removed_all rs) (rules-delete_rule H ipt r s ok)

-- Every rule of the list is there.
abbrev pub all_present : RuleMap → List Rule → Bool
all_present m [] = true
all_present m (r ∷ rs) = present m r && all_present m rs

pub added_all-all_present :
    (rs : List Rule) (m : RuleMap) → all_present m rs ≡ true → added_all rs m ≡ m
added_all-all_present [] m h = refl
added_all-all_present (r ∷ rs) m h =
    let (here, rest) = &&_true (present m r) (all_present m rs) h in
    ap (added_all rs) (added-present r m here) ∙ added_all-all_present rs m rest

-- What was there stays there when a rule is added, and the added rule is there.
present-added : (r x : Rule) (m : RuleMap) → present m x ≡ true → present (added r m) x ≡ true
unfolding present added contains
present-added r x m h = elim (Bool-cases (is_at r x.table x.chain)) [
  | inr away ↦ rw away h
  | inl here ↦ rw here (elim (Bool-cases (contains (m x.table x.chain) r.args)) [
    | inl old ↦ rw old h
    | inr new ↦ rw new (rw (contains-append (m x.table x.chain) (r.args ∷ []) x.args, h))
  ])
]

present-added_self : (r : Rule) (m : RuleMap) → present (added r m) r ≡ true
unfolding present added contains
present-added_self r m =
    rw (beq_refl r.table, beq_refl r.chain)
      (elim (Bool-cases (contains (m r.table r.chain) r.args)) [
        | inl old ↦ rw old old
        | inr new ↦
            rw new
              (rw (contains-append (m r.table r.chain) (r.args ∷ []) r.args, new, beq_refl r.args))
      ])

pub present-added_all :
    (rs : List Rule) (x : Rule) (m : RuleMap)
    → present m x ≡ true
    → present (added_all rs m) x ≡ true
present-added_all [] x m h = h
present-added_all (r ∷ rs) x m h = present-added_all rs x (added r m) (present-added r x m h)

-- All the rules of a list are there once they have been added.
pub all_present-added_all : (rs : List Rule) (m : RuleMap) → all_present (added_all rs m) rs ≡ true
all_present-added_all [] m = refl
all_present-added_all (r ∷ rs) m =
    rw (present-added_all rs r (added r m) (present-added_self r m))
      (all_present-added_all rs (added r m))
