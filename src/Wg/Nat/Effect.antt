-- ===== src/Wg/Nat/Effect.antt =====
-- What SetupNAT, TeardownNAT and ReconcileNAT do to the rules of a machine.
use exnode.Base.{
  String, true, false, ◌≡◌, refl, ap, ◌∙◌, List, [], ◌∷◌, Option, none, some, Bool-cases, inl, inr,
  if◌then◌else◌, string_eq, arith, Option-cases,
}
use mathlib.Core.Path.{fun_ext, subst}
use exnode.Text.{is_nil}
use exnode.Host.{Host}
use exnode.Host.Loops.{each_ok}
use exnode.Host.Iptables.{Iptables}
use exnode.Wg.{Interface}
use exnode.Wg.Network.{Addresses, Netlink, Links}
use exnode.Wg.Rules.{Rule, iptables_args, ensure_rule, run_iptables}
use exnode.Wg.Rules.Effect.{added_all, removed_all}
use exnode.Wg.Rules.Effect.Sequence.{rules-ensure_all, rules-delete_all}
use exnode.Wg.Rules.Effect.Undo.{distinct}
use exnode.Wg.Nat.{
  nat_rules, nat_sources, resolve_egress, enable_forwarding, setup_nat, teardown_nat, install,
  uninstall,
}
use exnode.Wg.Nat.Plan.{nat_sources-no_dups, nat_rules-distinct}

-- The rules of an interface over the given networks and egress, if it has a device.
abbrev pub rules_at : Interface → List String → String × String → Option (List Rule)
rules_at iface subnets (device, snat_ip) =
    if is_nil device then none else some (nat_rules subnets iface.name device snat_ip)

-- The rules that belong to an interface, `none` if its networks or its egress cannot be found.
abbrev pub nat_plan : (A : Addresses) → Netlink A.Ip → Interface → Option (List Rule)
nat_plan A n iface = elim (nat_sources A iface) [
  | none ↦ none
  | some subnets ↦ elim (resolve_egress A n iface.egress_interface) [
    | none ↦ none
    | some egress ↦ rules_at iface subnets egress
  ]
]

rules_at-some :
    (iface : Interface) (subnets : List String) (device snat_ip : String) {rs : List Rule}
    → rules_at iface subnets (device, snat_ip) ≡ some rs
    → (is_nil device ≡ false) × (nat_rules subnets iface.name device snat_ip ≡ rs)
rules_at-some iface subnets device snat_ip = elim (Bool-cases (is_nil device)) [
  | inl none_found ↦ rw (none_found, rules_at) (λ h. cc)
  | inr found ↦ rw (found, rules_at) (λ h. (refl, cc))
]

module _ (A : Addresses) where
  pub plan-distinct :
      (iface : Interface) (n : Netlink A.Ip) {rs : List Rule}
      → nat_plan A n iface ≡ some rs
      → distinct rs ≡ true
  plan-distinct iface n = elim (Option-cases (nat_sources A iface)) [
    | inl bad ↦ rw (bad, nat_plan) (λ h. cc)
    | inr (subnets, good) ↦
        rw (good, nat_plan)
          (elim (Option-cases (resolve_egress A n iface.egress_interface)) [
            | inl lost ↦ rw (lost, nat_plan) (λ h. cc)
            | inr ((device, snat_ip), found) ↦
                rw (found, nat_plan)
                  (λ p.
                    subst (λ rs. distinct rs ≡ true)
                      (rules_at-some iface subnets device snat_ip p).1
                      (nat_rules-distinct device snat_ip subnets iface.name
                        (nat_sources-no_dups A iface good)))
          ])
  ]

module _ (H : Host) (A : Addresses) (L : Links H A) where
  -- The loops over rules leave the links and routes as they are.
  view-ensure_rule : (r : Rule) (s : H.State) → L.view (ensure_rule H r s).1 ≡ L.view s
  unfolding ensure_rule run_iptables
  view-ensure_rule r s = ground (
    arith,
    L.iptables_same (iptables_args "-C" r) s,
    L.iptables_same (iptables_args "-A" r) (H.run ("iptables" ∷ iptables_args "-C" r) s).after,
  )

  pub view-ensure_all :
      (rs : List Rule) (s : H.State) → L.view (each_ok (ensure_rule H) rs s).1 ≡ L.view s
  unfolding each_ok
  view-ensure_all [] s = refl
  view-ensure_all (r ∷ rs) s = elim (Bool-cases (ensure_rule H r s).0) [
    | inl ok ↦ rw ok (view-ensure_all rs (ensure_rule H r s).1 ∙ view-ensure_rule r s)
    | inr failed ↦ rw failed (view-ensure_rule r s)
  ]

  view-enable_forwarding : (s : H.State) → L.view (enable_forwarding H s).1 ≡ L.view s
  unfolding enable_forwarding
  view-enable_forwarding s = L.write_same "/proc/sys/net/ipv4/ip_forward" "1\n" s

  view-install :
      (iface : Interface) (subnets : List String) (egress : String × String) (s : H.State)
      → L.view (install H A L iface subnets egress s).1 ≡ L.view s
  unfolding install
  view-install iface subnets (device, snat_ip) s = elim (Bool-cases (enable_forwarding H s).0) [
    | inl ok ↦ rw ok (
        view-ensure_all (nat_rules subnets iface.name device snat_ip) (enable_forwarding H s).1
        ∙ view-enable_forwarding s)
    | inr failed ↦ rw failed (view-enable_forwarding s)
  ]

  pub view-setup_nat :
      (iface : Interface) (s : H.State) → L.view (setup_nat H A L iface s).1 ≡ L.view s
  unfolding setup_nat
  view-setup_nat iface s = elim (Option-cases (nat_sources A iface)) [
    | inl bad ↦ rw (bad, setup_nat)
    | inr (subnets, good) ↦
        rw (good, setup_nat)
          (elim (Option-cases (resolve_egress A (L.view s) iface.egress_interface)) [
            | inl lost ↦ rw (lost, setup_nat)
            | inr (egress, found) ↦ rw (found, setup_nat) (view-install iface subnets egress s)
          ])
  ]

module _ (H : Host) (ipt : Iptables H) (A : Addresses) (L : Links H A) where
  rules-enable_forwarding : (s : H.State) → ipt.rules (enable_forwarding H s).1 ≡ ipt.rules s
  unfolding enable_forwarding
  rules-enable_forwarding s =
      fun_ext λ t. fun_ext λ c. ipt.write_same "/proc/sys/net/ipv4/ip_forward" "1\n" s t c

  rules-install :
      (iface : Interface) (subnets : List String) (device snat_ip : String) (s : H.State)
      → (install H A L iface subnets (device, snat_ip) s).0 ≡ true
      → ipt.rules (install H A L iface subnets (device, snat_ip) s).1
        ≡ added_all (nat_rules subnets iface.name device snat_ip) (ipt.rules s)
  unfolding install
  rules-install iface subnets device snat_ip s = elim (Bool-cases (enable_forwarding H s).0) [
    | inl ok ↦ rw ok λ h.
        let rs = nat_rules subnets iface.name device snat_ip in
        rules-ensure_all H ipt rs (enable_forwarding H s).1 h
        ∙ ap (added_all rs) (rules-enable_forwarding s)
    | inr failed ↦ rw failed (λ h. cc)
  ]

  -- When SetupNAT returns no error, the rules of the interface have been added, those that were
  -- missing, at the ends of their chains and in their order, and no other rule has changed.
  pub rules-setup_nat :
      (iface : Interface) (s : H.State) {rs : List Rule}
      → nat_plan A (L.view s) iface ≡ some rs
      → (setup_nat H A L iface s).0 ≡ true
      → ipt.rules (setup_nat H A L iface s).1 ≡ added_all rs (ipt.rules s)
  unfolding setup_nat
  rules-setup_nat iface s = elim (Option-cases (nat_sources A iface)) [
    | inl bad ↦ rw (bad, setup_nat, nat_plan) (λ h. cc)
    | inr (subnets, good) ↦
        rw (good, setup_nat, nat_plan)
          (elim (Option-cases (resolve_egress A (L.view s) iface.egress_interface)) [
            | inl lost ↦ rw (lost, setup_nat, nat_plan) (λ h. cc)
            | inr ((device, snat_ip), found) ↦
                rw (found, setup_nat, nat_plan)
                  (λ p h.
                    rules-install iface subnets device snat_ip s h
                    ∙ ap (λ r. added_all r (ipt.rules s))
                        (rules_at-some iface subnets device snat_ip p).1)
          ])
  ]

  -- When TeardownNAT returns no error, each rule of the interface has been taken out once.
  pub rules-teardown_nat :
      (iface : Interface) (s : H.State) {rs : List Rule}
      → nat_plan A (L.view s) iface ≡ some rs
      → (teardown_nat H A L iface s).0 ≡ true
      → ipt.rules (teardown_nat H A L iface s).1 ≡ removed_all rs (ipt.rules s)
  unfolding teardown_nat uninstall
  rules-teardown_nat iface s = elim (Option-cases (nat_sources A iface)) [
    | inl bad ↦ rw (bad, teardown_nat, nat_plan) (λ h. cc)
    | inr (subnets, good) ↦
        rw (good, teardown_nat, nat_plan)
          (elim (Option-cases (resolve_egress A (L.view s) iface.egress_interface)) [
            | inl lost ↦ rw (lost, teardown_nat, nat_plan) (λ h. cc)
            | inr ((device, snat_ip), found) ↦
                rw (found, teardown_nat, nat_plan)
                  (λ p.
                    let (solid, eq) = rules_at-some iface subnets device snat_ip p in
                    rw solid λ h.
                      rules-delete_all H ipt (nat_rules subnets iface.name device snat_ip) s h
                      ∙ ap (λ r. removed_all r (ipt.rules s)) eq)
          ])
  ]
