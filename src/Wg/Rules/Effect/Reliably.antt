-- ===== src/Wg/Rules/Effect/Reliably.antt =====
-- ensureRule and deleteRule on a machine whose iptables fails only for the documented reasons: they
-- meet no error, and loops that ignore errors do what those that stop at them do.
use exnode.Base.{
  true, ◌≡◌, refl, ap, ◌∙◌, List, [], ◌∷◌, Bool-cases, inl, inr, contains, string_eq, list_eq,
}
use exnode.Host.{Host}
use exnode.Host.Loops.{each}
use exnode.Host.Iptables.{Iptables, Reliable}
use exnode.Wg.Rules.{Rule, ensure_rule, delete_rule}
use exnode.Wg.Rules.Effect.{
  present, ensure_rule_lem, delete_rule_lem, checked, rules-checked, rules-ensure_rule,
  rules-delete_rule, added_all, removed_all,
}

module _ (H : Host) (ipt : Iptables H) (rel : Reliable H ipt) where
  pub ensure_rule_ok : (r : Rule) (s : H.State) → (ensure_rule H r s).0 ≡ true
  ensure_rule_ok r s = elim (Bool-cases (present (ipt.rules s) r)) [
    | inl here ↦ rw (ensure_rule_lem H ipt r s, here) refl
    | inr gone ↦
        rw (ensure_rule_lem H ipt r s, gone)
          (rel.append_ok r.table r.chain r.args (checked H ipt r s))
  ]

  still_there :
      (r : Rule) (s : H.State)
      → present (ipt.rules s) r ≡ true
      → contains (ipt.rules (checked H ipt r s) r.table r.chain) r.args ≡ true
  unfolding present
  still_there r s here = ap (λ m. present m r) (rules-checked H ipt r s) ∙ here

  pub delete_rule_ok : (r : Rule) (s : H.State) → (delete_rule H r s).0 ≡ true
  delete_rule_ok r s = elim (Bool-cases (present (ipt.rules s) r)) [
    | inr gone ↦ rw (delete_rule_lem H ipt r s, gone) refl
    | inl here ↦
        rw (delete_rule_lem H ipt r s, here)
          (rel.delete_ok r.table r.chain r.args (checked H ipt r s) (still_there r s here))
  ]

  pub rules-ensure_each :
      (rs : List Rule) (s : H.State)
      → ipt.rules (each (λ r s. (ensure_rule H r s).1) rs s) ≡ added_all rs (ipt.rules s)
  unfolding each
  rules-ensure_each [] s = refl
  rules-ensure_each (r ∷ rs) s =
      rules-ensure_each rs (ensure_rule H r s).1
      ∙ ap (added_all rs) (rules-ensure_rule H ipt r s (ensure_rule_ok r s))

  pub rules-delete_each :
      (rs : List Rule) (s : H.State)
      → ipt.rules (each (λ r s. (delete_rule H r s).1) rs s) ≡ removed_all rs (ipt.rules s)
  unfolding each
  rules-delete_each [] s = refl
  rules-delete_each (r ∷ rs) s =
      rules-delete_each rs (delete_rule H r s).1
      ∙ ap (removed_all rs) (rules-delete_rule H ipt r s (delete_rule_ok r s))
