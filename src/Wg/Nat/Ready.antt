-- ===== src/Wg/Nat/Ready.antt =====
-- SetupNAT on a machine whose iptables fails only for the documented reason and whose forwarding can
-- be switched on: it meets no error where its rules can be computed.
use exnode.Base.{
  String, true, ◌≡◌, refl, List, [], ◌∷◌, some, inl, inr, string_eq, list_eq, Option-cases,
}
use exnode.Host.{Host}
use exnode.Host.Loops.{each_ok}
use exnode.Host.Iptables.{Iptables, Reliable}
use exnode.Wg.{Interface}
use exnode.Wg.Network.{Addresses, Links}
use exnode.Wg.Rules.{Rule, ensure_rule}
use exnode.Wg.Rules.Effect.Reliably.{ensure_rule_ok}
use exnode.Wg.Nat.{nat_rules, nat_sources, resolve_egress, setup_nat, install, enable_forwarding}
use exnode.Wg.Nat.Effect.{nat_plan}

module _ (H : Host) (ipt : Iptables H) (rel : Reliable H ipt) (A : Addresses) (L : Links H A)
    (forwards : (s : H.State) → (enable_forwarding H s).0 ≡ true) where
  ensure_all_ok : (rs : List Rule) (s : H.State) → (each_ok (ensure_rule H) rs s).0 ≡ true
  unfolding each_ok
  ensure_all_ok [] s = refl
  ensure_all_ok (r ∷ rs) s =
      rw (ensure_rule_ok H ipt rel r s) (ensure_all_ok rs (ensure_rule H r s).1)

  install_ok :
      (iface : Interface) (subnets : List String) (egress : String × String) (s : H.State)
      → (install H A L iface subnets egress s).0 ≡ true
  unfolding install
  install_ok iface subnets (device, snat_ip) s =
      rw (forwards s) (ensure_all_ok (nat_rules subnets iface.name device snat_ip) _)

  -- SetupNAT of an interface whose rules can be computed meets no error.
  pub setup_nat_ok :
      (iface : Interface) (s : H.State) {rs : List Rule}
      → nat_plan A (L.view s) iface ≡ some rs
      → (setup_nat H A L iface s).0 ≡ true
  unfolding setup_nat
  setup_nat_ok iface s = elim (Option-cases (nat_sources A iface)) [
    | inl bad ↦ rw (bad, nat_plan) (λ h. cc)
    | inr (subnets, good) ↦
        rw (good, setup_nat, nat_plan)
          (elim (Option-cases (resolve_egress A (L.view s) iface.egress_interface)) [
            | inl lost ↦ rw (lost, nat_plan) (λ h. cc)
            | inr (egress, found) ↦ rw (found, setup_nat) (λ h. install_ok iface subnets egress s)
          ])
  ]
