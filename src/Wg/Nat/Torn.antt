-- ===== src/Wg/Nat/Torn.antt =====
-- TeardownNAT on a machine whose iptables fails only for the documented reason: it meets no error,
-- and leaves the links and routes alone.
use exnode.Base.{
  String, true, ◌≡◌, refl, ◌∙◌, List, [], ◌∷◌, some, Bool-cases, inl, inr, string_eq, list_eq,
  Option-cases, arith,
}
use exnode.Text.{is_nil}
use exnode.Host.{Host}
use exnode.Host.Loops.{each_all}
use exnode.Host.Iptables.{Iptables, Reliable}
use exnode.Wg.{Interface}
use exnode.Wg.Network.{Addresses, Links}
use exnode.Wg.Rules.{Rule, iptables_args, delete_rule, run_iptables}
use exnode.Wg.Rules.Effect.Reliably.{delete_rule_ok}
use exnode.Wg.Nat.{nat_rules, nat_sources, resolve_egress, teardown_nat, uninstall}

module _ (H : Host) (ipt : Iptables H) (rel : Reliable H ipt) where
  delete_all_ok : (rs : List Rule) (s : H.State) → (each_all (delete_rule H) rs s).0 ≡ true
  unfolding each_all
  delete_all_ok [] s = refl
  delete_all_ok (r ∷ rs) s =
      rw (delete_rule_ok H ipt rel r s, delete_all_ok rs (delete_rule H r s).1) refl

module _ (H : Host) (A : Addresses) (L : Links H A) where
  view-delete_rule : (r : Rule) (s : H.State) → L.view (delete_rule H r s).1 ≡ L.view s
  unfolding delete_rule run_iptables
  view-delete_rule r s = ground (
    arith,
    L.iptables_same (iptables_args "-C" r) s,
    L.iptables_same (iptables_args "-D" r) (H.run ("iptables" ∷ iptables_args "-C" r) s).after,
  )

  view-delete_all :
      (rs : List Rule) (s : H.State) → L.view (each_all (delete_rule H) rs s).1 ≡ L.view s
  unfolding each_all
  view-delete_all [] s = refl
  view-delete_all (r ∷ rs) s = view-delete_all rs (delete_rule H r s).1 ∙ view-delete_rule r s

  view-uninstall :
      (iface : Interface) (subnets : List String) (egress : String × String) (s : H.State)
      → L.view (uninstall H A L iface subnets egress s).1 ≡ L.view s
  unfolding uninstall
  view-uninstall iface subnets (device, snat_ip) s = elim (Bool-cases (is_nil device)) [
    | inl none_found ↦ rw none_found refl
    | inr found ↦ rw found (view-delete_all (nat_rules subnets iface.name device snat_ip) s)
  ]

  pub view-teardown_nat :
      (iface : Interface) (s : H.State) → L.view (teardown_nat H A L iface s).1 ≡ L.view s
  unfolding teardown_nat
  view-teardown_nat iface s = elim (Option-cases (nat_sources A iface)) [
    | inl bad ↦ rw (bad, teardown_nat)
    | inr (subnets, good) ↦
        rw (good, teardown_nat)
          (elim (Option-cases (resolve_egress A (L.view s) iface.egress_interface)) [
            | inl lost ↦ rw (lost, teardown_nat)
            | inr (egress, found) ↦ rw (found, teardown_nat) (view-uninstall iface subnets egress s)
          ])
  ]

  module _ (ipt : Iptables H) (rel : Reliable H ipt) where
    uninstall_ok :
        (iface : Interface) (subnets : List String) (egress : String × String) (s : H.State)
        → (uninstall H A L iface subnets egress s).0 ≡ true
    unfolding uninstall
    uninstall_ok iface subnets (device, snat_ip) s = elim (Bool-cases (is_nil device)) [
      | inl none_found ↦ rw none_found refl
      | inr found ↦
          rw found (delete_all_ok H ipt rel (nat_rules subnets iface.name device snat_ip) s)
    ]

    pub teardown_nat_ok :
        (iface : Interface) (s : H.State) {subnets : List String}
        → nat_sources A iface ≡ some subnets
        → (teardown_nat H A L iface s).0 ≡ true
    unfolding teardown_nat
    teardown_nat_ok iface s {subnets = subnets} good =
        rw (teardown_nat, good)
          (elim (Option-cases (resolve_egress A (L.view s) iface.egress_interface)) [
            | inl lost ↦ rw (teardown_nat, lost) refl
            | inr (egress, found) ↦ rw (teardown_nat, found) (uninstall_ok iface subnets egress s)
          ])
