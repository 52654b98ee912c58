-- ===== src/Engine/Untouched.antt =====
-- wg/nat.go and wg/policy.go: NAT and policy routes leave the links of the machine alone.
use exnode.Base.{
  String, Bool, true, false, ◌||◌, not, ◌≡◌, refl, sym, ◌∙◌, List, [], ◌∷◌, if◌then◌else◌, is_empty,
  keep-All, ◌==◌, string_eq, contains, all, keep, beq→eq, Bool-cases, Option-cases, inl, inr, arith,
}
use exnode.Text.{is_nil, split, trim_space}
use exnode.Text.Fields.{fields}
use exnode.Host.{Host}
use exnode.Host.Loops.{each, each_same, always_same, each_ok_same, each_all_same}
use exnode.Wg.{Interface}
use exnode.Wg.Network.{Addresses, Links}
use exnode.Wg.Rules.{Rule, iptables_args, ensure_rule, delete_rule, run_iptables}
use exnode.Wg.Nat.{
  nat_rules, nat_sources, resolve_egress, setup_nat, teardown_nat, install, uninstall,
  reconcile_nat, enable_forwarding,
}
use exnode.Wg.Policy.{
  policy_lines, swap_verb, is_ip_line, run_policy_line, apply_policy_line, apply_policy_routes,
  remove_policy_routes, reconcile_policy_routes, policy_forward_rules, policy_from_subnets,
}
use exnode.Wg.Device.{Formats}
use exnode.Wg.Kernel.{Kernel}
use exnode.Wg.Kernel.LinkTable.{LinkTable}

-- A policy line that is about rules or routes, if it is a command of `ip` at all.
abbrev is_routing : List String → Bool
is_routing (f ∷ object ∷ rest) = not (f == "ip") || contains ("rule" ∷ "route" ∷ []) object
is_routing _ = true

-- The lines of a policy are about rules and routes.
unfoldable pub only_routing : String → Bool
only_routing text = all (λ ln. is_routing (fields ln)) (policy_lines text)

pub no_policy : only_routing "" ≡ true
unfolding only_routing policy_lines split trim_space
no_policy = refl

module _ (H : Host) (F : Formats) (K : Kernel H F) (T : LinkTable H F K) (t : String) where
  abbrev linked : H.State → Bool
  linked s = K.link_by_name t s

  ensured_same : (r : Rule) (s : H.State) → linked (ensure_rule H r s).1 ≡ linked s
  unfolding ensure_rule run_iptables
  ensured_same r s = ground (
    arith,
    T.iptables_same (iptables_args "-C" r) s t,
    T.iptables_same (iptables_args "-A" r) (H.run ("iptables" ∷ iptables_args "-C" r) s).after t,
  )

  deleted_same : (r : Rule) (s : H.State) → linked (delete_rule H r s).1 ≡ linked s
  unfolding delete_rule run_iptables
  deleted_same r s = ground (
    arith,
    T.iptables_same (iptables_args "-C" r) s t,
    T.iptables_same (iptables_args "-D" r) (H.run ("iptables" ∷ iptables_args "-C" r) s).after t,
  )

  installed_same :
      (A : Addresses) (L : Links H A) (i : Interface) (subnets : List String)
      (egress : String × String) (s : H.State)
      → linked (install H A L i subnets egress s).1 ≡ linked s
  unfolding install enable_forwarding
  installed_same A L i subnets (device, snat_ip) s =
      let forwarded = T.write_same "/proc/sys/net/ipv4/ip_forward" "1\n" s t in
      let rules = nat_rules subnets i.name device snat_ip in
      elim (Bool-cases (enable_forwarding H s).0) [
        | inl on ↦ rw on (
            each_ok_same linked (ensure_rule H) ensured_same rules (enable_forwarding H s).1
            ∙ forwarded)
        | inr off ↦ rw off forwarded
      ]

  uninstalled_same :
      (A : Addresses) (L : Links H A) (i : Interface) (subnets : List String)
      (egress : String × String) (s : H.State)
      → linked (uninstall H A L i subnets egress s).1 ≡ linked s
  unfolding uninstall
  uninstalled_same A L i subnets (device, snat_ip) s = elim (Bool-cases (is_nil device)) [
    | inl none_found ↦ rw none_found refl
    | inr found ↦ rw found (
        each_all_same linked (delete_rule H) deleted_same (nat_rules subnets i.name device snat_ip)
          s)
  ]

  nat_set_same :
      (A : Addresses) (L : Links H A) (i : Interface) (s : H.State)
      → linked (setup_nat H A L i s).1 ≡ linked s
  unfolding setup_nat
  nat_set_same A L i s = elim (Option-cases (nat_sources A i)) [
    | inl bad ↦ rw (bad, setup_nat) refl
    | inr (subnets, good) ↦
        rw (good, setup_nat)
          (elim (Option-cases (resolve_egress A (L.view s) i.egress_interface)) [
            | inl lost ↦ rw (lost, setup_nat) refl
            | inr (egress, found) ↦ rw (found, setup_nat) (installed_same A L i subnets egress s)
          ])
  ]

  pub nat_torn_same :
      (A : Addresses) (L : Links H A) (i : Interface) (s : H.State)
      → linked (teardown_nat H A L i s).1 ≡ linked s
  unfolding teardown_nat
  nat_torn_same A L i s = elim (Option-cases (nat_sources A i)) [
    | inl bad ↦ rw (bad, teardown_nat) refl
    | inr (subnets, good) ↦
        rw (good, teardown_nat)
          (elim (Option-cases (resolve_egress A (L.view s) i.egress_interface)) [
            | inl lost ↦ rw (lost, teardown_nat) refl
            | inr (egress, found) ↦
                rw (found, teardown_nat) (uninstalled_same A L i subnets egress s)
          ])
  ]

  pub nat_reconciled_same :
      (A : Addresses) (L : Links H A) (old new : Interface) (s : H.State)
      → linked (reconcile_nat H A L old new s).1 ≡ linked s
  unfolding reconcile_nat
  nat_reconciled_same A L old new s = ground (
    arith,
    nat_torn_same A L old s,
    nat_set_same A L new s,
    nat_set_same A L new (teardown_nat H A L old s).1,
  )

  object_same :
      (verb object : String) (rest : List String)
      → contains ("rule" ∷ "route" ∷ []) object ≡ true
      → (s : H.State) → linked (H.run (swap_verb verb ("ip" ∷ object ∷ rest)) s).after ≡ linked s
  unfolding swap_verb contains
  object_same verb object rest h s = elim (Bool-cases ("rule" == object)) [
    | inl rule ↦
        rw (sym (beq→eq "rule" object rule)) (T.ip_same "rule" (swap_verb verb rest) s t refl)
    | inr other ↦
        rw (sym (beq→eq "route" object (ground (arith, h, other))))
          (T.ip_same "route" (swap_verb verb rest) s t refl)
  ]

  words_same :
      (verb : String) (f : List String)
      → is_routing f ≡ true
      → (s : H.State)
      → (let went : Bool × H.State =
            if is_ip_line f
            then (let r = H.run (swap_verb verb f) s in (r.ok, r.after))
            else (false, s) in
          linked went.1 ≡ linked s)
  words_same verb [] h s = refl
  words_same verb (f ∷ []) h s = refl
  words_same verb (f ∷ object ∷ rest) h s = elim (Bool-cases (f == "ip")) [
    | inr other ↦ rw other refl
    | inl here ↦ rw (beq→eq f "ip" here) (object_same verb object rest (ground (arith, h, here)) s)
  ]

  line_same :
      (verb ln : String)
      → is_routing (fields ln) ≡ true
      → (s : H.State) → linked (run_policy_line H ln verb s).1 ≡ linked s
  unfolding run_policy_line
  line_same verb ln h s = words_same verb (fields ln) h s

  added_line_same :
      (ln : String)
      → is_routing (fields ln) ≡ true
      → (s : H.State) → linked (apply_policy_line H ln s) ≡ linked s
  unfolding apply_policy_line
  added_line_same ln h s =
      line_same "add" ln h (run_policy_line H ln "del" s).1 ∙ line_same "del" ln h s

  applied_same :
      (text : String)
      → only_routing text ≡ true
      → (s : H.State) → linked (apply_policy_routes H text s) ≡ linked s
  unfolding apply_policy_routes enable_forwarding only_routing
  applied_same text h s = elim (Bool-cases (is_empty (policy_lines text))) [
    | inl none_there ↦ rw none_there refl
    | inr some_there ↦ rw some_there (
        always_same linked (λ r s. (ensure_rule H r s).1) ensured_same
          (policy_forward_rules (policy_from_subnets text))
          (each (apply_policy_line H) (policy_lines text) (enable_forwarding H s).1)
        ∙ each_same linked (λ ln. is_routing (fields ln)) (apply_policy_line H) added_line_same
            (policy_lines text) h (enable_forwarding H s).1
        ∙ T.write_same "/proc/sys/net/ipv4/ip_forward" "1\n" s t)
  ]

  pub policy_removed_same :
      (text : String)
      → only_routing text ≡ true
      → (s : H.State) → linked (remove_policy_routes H text s) ≡ linked s
  unfolding remove_policy_routes only_routing
  policy_removed_same text h s =
      always_same linked (λ r s. (delete_rule H r s).1) deleted_same
        (policy_forward_rules (policy_from_subnets text))
        (each (λ ln s. (run_policy_line H ln "del" s).1) (policy_lines text) s)
      ∙ each_same linked (λ ln. is_routing (fields ln)) (λ ln s. (run_policy_line H ln "del" s).1)
          (line_same "del") (policy_lines text) h s

  pub policy_reconciled_same :
      (old new : String)
      → only_routing old ≡ true
      → only_routing new ≡ true
      → (s : H.State) → linked (reconcile_policy_routes H old new s) ≡ linked s
  unfolding reconcile_policy_routes only_routing
  policy_reconciled_same old new h h' s =
      let stale_lines = keep (λ ln. not (contains (policy_lines new) ln)) (policy_lines old) in
      let stale_subs =
        keep (λ sub. not (contains (policy_from_subnets new) sub)) (policy_from_subnets old) in
      let s₁ = each (λ ln s. (run_policy_line H ln "del" s).1) stale_lines s in
      applied_same new h' (each (λ r s. (delete_rule H r s).1) (policy_forward_rules stale_subs) s₁)
      ∙ always_same linked (λ r s. (delete_rule H r s).1) deleted_same
          (policy_forward_rules stale_subs) s₁
      ∙ each_same linked (λ ln. is_routing (fields ln)) (λ ln s. (run_policy_line H ln "del" s).1)
          (line_same "del") stale_lines
          (keep-All (λ ln. is_routing (fields ln)) (λ ln. not (contains (policy_lines new) ln))
            (policy_lines old) h)
          s
