-- ===== src/Overlay/Apply/Firewall.antt =====
-- What the overlay's firewall steps do to the rules of a machine.
use mathlib.Core.Path.{fun_ext, subst}
use exnode.Base.{
  String, true, false, ◌≡◌, refl, ap, sym, ◌∙◌, List, [], ◌∷◌, ◌++◌, Bool-cases, inl, inr,
  if◌then◌else◌, string_eq, list_eq, map,
}
use exnode.Host.{Host}
use exnode.Host.Loops.{each}
use exnode.Host.Iptables.{Iptables, Reliable}
use exnode.Wg.Rules.{Rule}
use exnode.Wg.Rules.Effect.{RuleMap, replaced_at, present, checked, rules-checked, ran}
use exnode.Wg.Rules.Effect.Sequence.{all_present}
use exnode.Overlay.Apply.Rules.{
  accepting, fronted, fronted_all, accepted, fronted-present, fronted-absent, accepted-fronted_all,
  accepted-kept, fronted_all_same,
}
use exnode.Overlay.{Config}
use exnode.Overlay.Commands.{fw_specs, forward_specs}
use exnode.Overlay.Apply.{accept, allow, firewall_allow, forward_allow}

abbrev opened : Config → RuleMap → RuleMap
opened c m = fronted_all "FORWARD" (forward_specs c.name) (fronted_all "INPUT" (fw_specs c) m)

opened_again : (c : Config) (m : RuleMap) → opened c (opened c m) ≡ opened c m
opened_again c m =
    ap (fronted_all "FORWARD" (forward_specs c.name)) (
      fronted_all_same "INPUT" (fw_specs c) (opened c m) (
        accepted-kept "FORWARD" (forward_specs c.name) "INPUT" (fw_specs c) _
          (accepted-fronted_all "INPUT" (fw_specs c) m)))
    ∙ fronted_all_same "FORWARD" (forward_specs c.name) (opened c m)
        (accepted-fronted_all "FORWARD" (forward_specs c.name) _)

module _ (H : Host) (ipt : Iptables H) (rel : Reliable H ipt) where
  rules-insert :
      (r : Rule) (s : H.State)
      → present (ipt.rules s) r ≡ false
      → ipt.rules (ran H ipt "-I" r s).after ≡ fronted r (ipt.rules s)
  rules-insert r s gone = fun_ext λ t. fun_ext λ c.
      rw (ipt.insert r.table r.chain r.args s t c, rel.insert_ok r.table r.chain r.args s)
        (replaced_at r (◌∷◌ r.args) (ipt.rules s) t c ∙ fronted-absent r (ipt.rules s) t c gone)

  allow_lem :
      (chain : String) (spec : List String) (s : H.State)
      → let r = accepting chain spec in
        allow H chain spec s ≡ (
          if present (ipt.rules s) r
          then checked H ipt r s
          else (ran H ipt "-I" r (checked H ipt r s)).after)
  unfolding allow present
  allow_lem chain spec s = rw (ipt.check_ok "" chain (spec ++ accept) s)

  rules-allow :
      (chain : String) (spec : List String) (s : H.State)
      → ipt.rules (allow H chain spec s) ≡ fronted (accepting chain spec) (ipt.rules s)
  rules-allow chain spec s =
      let r = accepting chain spec in
      let same = rules-checked H ipt r s in
      elim (Bool-cases (present (ipt.rules s) r)) [
        | inl here ↦
            rw (allow_lem chain spec s, here) (same ∙ sym (fronted-present r (ipt.rules s) here))
        | inr gone ↦
            rw (allow_lem chain spec s, gone)
              (rules-insert r (checked H ipt r s) (ap (λ m. present m r) same ∙ gone)
                ∙ ap (fronted r) same)
      ]

  -- The rules of a list of match specs of one chain, put in front one after another.
  rules-allow_all :
      (chain : String) (specs : List (List String)) (s : H.State)
      → ipt.rules (each (allow H chain) specs s) ≡ fronted_all chain specs (ipt.rules s)
  unfolding each
  rules-allow_all chain [] s = refl
  rules-allow_all chain (spec ∷ specs) s =
      rules-allow_all chain specs (allow H chain spec s)
      ∙ ap (fronted_all chain specs) (rules-allow chain spec s)

  rules-open :
      (c : Config) (s : H.State)
      → ipt.rules (forward_allow H c (firewall_allow H c s)) ≡ opened c (ipt.rules s)
  unfolding firewall_allow forward_allow
  rules-open c s =
      rules-allow_all "FORWARD" (forward_specs c.name) (firewall_allow H c s)
      ∙ ap (fronted_all "FORWARD" (forward_specs c.name)) (rules-allow_all "INPUT" (fw_specs c) s)

  -- On a machine where iptables fails only for the documented reasons, once the overlay has opened
  -- the firewall for a link, every rule that the link needs in INPUT and FORWARD is there; and
  -- opening it again changes no rule of any chain.
  pub firewall_opens :
      (c : Config) (s : H.State)
      → let open_for = λ (t : H.State). forward_allow H c (firewall_allow H c t) in
        (all_present (ipt.rules (open_for s)) (map (accepting "INPUT") (fw_specs c)) ≡ true)
        × (all_present (ipt.rules (open_for s)) (map (accepting "FORWARD") (forward_specs c.name))
            ≡ true)
        × (ipt.rules (open_for (open_for s)) ≡ ipt.rules (open_for s))
  unfolding firewall_allow forward_allow
  firewall_opens c s = (
    subst (λ m. accepted "INPUT" (fw_specs c) m ≡ true) (sym (rules-open c s))
        (accepted-kept "FORWARD" (forward_specs c.name) "INPUT" (fw_specs c) _
          (accepted-fronted_all "INPUT" (fw_specs c) (ipt.rules s))),
    subst (λ m. accepted "FORWARD" (forward_specs c.name) m ≡ true) (sym (rules-open c s))
        (accepted-fronted_all "FORWARD" (forward_specs c.name) _),
    rules-open c _
        ∙ ap (opened c) (rules-open c s)
        ∙ opened_again c (ipt.rules s)
        ∙ sym (rules-open c s),
  )
