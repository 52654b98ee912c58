-- ===== src/Wg/Policy/Forward.antt =====
-- wg/policy.go, ReconcilePolicyRoutes: what it leaves of the FORWARD rules of the operator's subnets.
use mathlib.Core.Path.{fun_ext, subst}
use exnode.Base.{
  ◌≤◌, String, true, false, not, ◌≡◌, refl, sym, ap, ◌∙◌, List, [], ◌∷◌, if◌then◌else◌, string_eq,
  list_eq, contains, is_empty, Bool-cases, inl, inr, beq→eq, arith, All,
}
use exnode.Text.Fields.{fields}
use exnode.Host.{Host}
use exnode.Host.Loops.{each}
use exnode.Host.Iptables.{Iptables, Reliable}
use exnode.Wg.Rules.{Rule}
use exnode.Wg.Rules.Effect.{RuleMap, added_all, removed_all}
use exnode.Wg.Rules.Effect.Undo.{same}
use exnode.Wg.Rules.Effect.Copies.{
  copies, among, copies-added_all, copies-added_others, copies-removed_all, copies-removed_others,
}
use exnode.Wg.Rules.Effect.Reliably.{rules-ensure_each, rules-delete_each}
use exnode.Wg.Rules.Effect.Settled.{Unused, Settled, latest, follow, follow-Settled}
use exnode.Wg.Nat.{enable_forwarding}
use exnode.Wg.Policy.{
  swap_verb, is_ip_line, policy_lines, policy_from_subnets, policy_forward_rules, run_policy_line,
  apply_policy_line, apply_policy_routes, reconcile_policy_routes,
}
use exnode.Wg.Policy.Subnets.{among-keep, among_split, forwards, no_lines, no_text, stale}

replaced_once :
    (base m : RuleMap) (old new : String)
    → Unused base (forwards old)
    → Unused base (forwards new)
    → Settled base (forwards old) m
    → Settled base
        (forwards new)
        (added_all (forwards new) (removed_all (policy_forward_rules (stale old new)) m))
replaced_once base m old new unused_old unused_new settled x =
    let olds = policy_from_subnets old in
    let news = policy_from_subnets new in
    let gone = policy_forward_rules (stale old new) in
    let rest = removed_all gone m in
    elim (Bool-cases (among (forwards new) x)) [
      | inl now ↦
          let few : copies x m ≤ 1 = ground (arith, settled x, unused_new x now) in
          rw now (
            rw
              (
                copies-added_all (forwards new) x rest
                    (ground (arith, copies-removed_all gone x m few)),
                now,
              )
              refl)
      | inr never ↦ rw never (
          copies-added_others (forwards new) x rest never ∙ elim (Bool-cases (among gone x)) [
            | inl taken ↦
                let was = among-keep (λ sub. not (contains news sub)) olds x taken in
                let few : copies x m ≤ 1 = ground (arith, settled x, was) in
                rw (copies-removed_all gone x m few, taken) (sym (unused_old x was))
            | inr kept ↦
                copies-removed_others gone x m kept
                ∙ settled x
                ∙ (elim (Bool-cases (among (forwards old) x)) [
                  | inr other ↦ rw other refl
                  | inl was ↦ let now = among_split olds news x was kept in cc
                ])
          ])
    ]

module _ (H : Host) (ipt : Iptables H) (rel : Reliable H ipt) where
  run_ip :
      (f : List String) (verb : String) (s : H.State)
      → is_ip_line f ≡ true
      → ipt.rules (H.run (swap_verb verb f) s).after ≡ ipt.rules s
  unfolding swap_verb
  run_ip [] verb s h = ground arith
  run_ip (f ∷ []) verb s h = ground arith
  run_ip (f ∷ g ∷ rest) verb s h =
      rw (beq→eq f "ip" h) (fun_ext λ t. fun_ext λ c. ipt.ip_same (swap_verb verb (g ∷ rest)) s t c)

  rules-run_policy_line :
      (line verb : String) (s : H.State) → ipt.rules (run_policy_line H line verb s).1 ≡ ipt.rules s
  unfolding run_policy_line
  rules-run_policy_line line verb s = elim (Bool-cases (is_ip_line (fields line))) [
    | inl ip ↦ rw ip (run_ip (fields line) verb s ip)
    | inr other ↦ rw other refl
  ]

  -- A loop over lines that leaves the rules alone at each of them.
  rules-each :
      (f : String → H.State → H.State)
      → ((ln : String) (s : H.State) → ipt.rules (f ln s) ≡ ipt.rules s)
      → (lines : List String) (s : H.State) → ipt.rules (each f lines s) ≡ ipt.rules s
  unfolding each
  rules-each f same [] s = refl
  rules-each f same (ln ∷ lines) s = rules-each f same lines (f ln s) ∙ same ln s

  rules-apply_policy_line :
      (line : String) (s : H.State) → ipt.rules (apply_policy_line H line s) ≡ ipt.rules s
  unfolding apply_policy_line
  rules-apply_policy_line line s =
      rules-run_policy_line line "add" (run_policy_line H line "del" s).1
      ∙ rules-run_policy_line line "del" s

  rules-apply_policy_routes :
      (text : String) (s : H.State)
      → ipt.rules (apply_policy_routes H text s) ≡ added_all (forwards text) (ipt.rules s)
  unfolding apply_policy_routes enable_forwarding
  rules-apply_policy_routes text s = elim (Bool-cases (is_empty (policy_lines text))) [
    | inl none ↦ rw (none, no_lines text none) refl
    | inr some ↦ rw some (
        rules-ensure_each H ipt rel (forwards text) _
        ∙ ap (added_all (forwards text)) (
            rules-each (apply_policy_line H) rules-apply_policy_line (policy_lines text) _
            ∙ fun_ext λ t. fun_ext λ c. ipt.write_same "/proc/sys/net/ipv4/ip_forward" "1\n" s t c))
  ]

  rules-reconcile_policy_routes :
      (old new : String) (s : H.State)
      → ipt.rules (reconcile_policy_routes H old new s)
        ≡ added_all
            (forwards new)
            (removed_all (policy_forward_rules (stale old new)) (ipt.rules s))
  unfolding reconcile_policy_routes
  rules-reconcile_policy_routes old new s =
      rules-apply_policy_routes new _
      ∙ ap (added_all (forwards new)) (
          rules-delete_each H ipt rel (policy_forward_rules (stale old new)) _
          ∙ ap (removed_all (policy_forward_rules (stale old new))) (
              rules-each (λ ln s. (run_policy_line H ln "del" s).1)
                (λ ln s. rules-run_policy_line ln "del" s) _ s))

  -- However often the operator's text changes, from no text on: afterwards there is, of each FORWARD
  -- rule for a subnet of the last text, one copy, and of every other rule of any chain there are as
  -- many copies as at first. This holds on a machine whose iptables fails only for the documented
  -- reasons, for texts none of whose FORWARD rules was there at first.
  pub reconcile_policy_routes_refines :
      (texts : List String) (s : H.State)
      → All (λ text. Unused (ipt.rules s) (forwards text)) texts
      → (x : Rule)
      → copies x (ipt.rules (follow (reconcile_policy_routes H) "" texts s))
        ≡ (if among (forwards (latest "" texts)) x then 1 else copies x (ipt.rules s))
  reconcile_policy_routes_refines texts s unused =
      follow-Settled ipt.rules forwards (λ text. Unused (ipt.rules s) (forwards text))
        (reconcile_policy_routes H) (ipt.rules s)
        (λ old new t unused_old unused_new settled.
          subst (Settled (ipt.rules s) (forwards new))
            (sym (rules-reconcile_policy_routes old new t))
            (replaced_once (ipt.rules s) (ipt.rules t) old new unused_old unused_new settled))
        "" texts s (λ x h. let lost : false ≡ true = rw no_text at h in cc) unused
        (λ x. rw no_text refl)
