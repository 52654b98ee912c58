-- ===== src/Wg/Nat/Converge.antt =====
-- ReconcileNAT takes an interface's rules away as it put them in place, and is idempotent.
use exnode.Base.{true, false, ◌≡◌, ap, ◌∙◌, List, some, string_eq, bool_eq, beq_refl}
use exnode.Host.{Host}
use exnode.Host.Iptables.{Iptables}
use exnode.Wg.{Interface}
use exnode.Wg.Network.{Addresses, Links}
use exnode.Wg.Rules.{Rule}
use exnode.Wg.Rules.Effect.{removed_all}
use exnode.Wg.Rules.Effect.Sequence.{all_present, all_present-added_all, added_all-all_present}
use exnode.Wg.Rules.Effect.Undo.{all_absent, removed_all-added_all}
use exnode.Wg.Nat.{setup_nat, teardown_nat, reconcile_nat, nat_enabled, nat_params_differ}
use exnode.Wg.Nat.Effect.{
  nat_plan, plan-distinct, view-setup_nat, rules-setup_nat, rules-teardown_nat,
}

nat_params_same : (a : Interface) → nat_params_differ a a ≡ false
unfolding nat_params_differ
nat_params_same a =
    rw (
      beq_refl a.masquerade,
      beq_refl a.egress_interface,
      beq_refl a.nat_subnets,
      beq_refl a.address,
    )

module _ (H : Host) (ipt : Iptables H) (A : Addresses) (L : Links H A) where
  -- The rules of an interface are computed from its configuration and the machine's links. If none
  -- of them is there, SetupNAT without an error followed by TeardownNAT without an error leaves
  -- every rule of every chain as it was.
  pub teardown_nat-setup_nat :
      (iface : Interface) (s : H.State) {rs : List Rule}
      → nat_plan A (L.view s) iface ≡ some rs
      → all_absent (ipt.rules s) rs ≡ true
      → (setup_nat H A L iface s).0 ≡ true
      → (teardown_nat H A L iface (setup_nat H A L iface s).1).0 ≡ true
      → ipt.rules (teardown_nat H A L iface (setup_nat H A L iface s).1).1 ≡ ipt.rules s
  teardown_nat-setup_nat iface s {rs = rs} plan absent up down =
      let s' = (setup_nat H A L iface s).1 in
      let plan' = ap (λ n. nat_plan A n iface) (view-setup_nat H A L iface s) ∙ plan in
      rules-teardown_nat H ipt A L iface s' plan' down
      ∙ ap (removed_all rs) (rules-setup_nat H ipt A L iface s plan up)
      ∙ removed_all-added_all rs (ipt.rules s) (plan-distinct A iface (L.view s) plan) absent

  -- ReconcileNAT from an interface without NAT to one with it, without an error, leaves all the
  -- rules of the new interface in place; the next ReconcileNAT from that interface to itself,
  -- without an error, changes no rule.
  reconcile_nat_idem :
      (off iface : Interface) (s : H.State) {rs : List Rule}
      → nat_enabled off ≡ false
      → nat_enabled iface ≡ true
      → nat_plan A (L.view s) iface ≡ some rs
      → (reconcile_nat H A L off iface s).0 ≡ true
      → (reconcile_nat H A L iface iface (reconcile_nat H A L off iface s).1).0 ≡ true
      → (all_present (ipt.rules (reconcile_nat H A L off iface s).1) rs ≡ true)
        × (ipt.rules (reconcile_nat H A L iface iface (reconcile_nat H A L off iface s).1).1
            ≡ ipt.rules (reconcile_nat H A L off iface s).1)
  unfolding reconcile_nat
  reconcile_nat_idem off iface s {rs = rs} was_off is_on plan =
      rw (was_off, is_on, nat_params_same iface)
        λ up again.
          let s' = (setup_nat H A L iface s).1 in
          let plan' = ap (λ n. nat_plan A n iface) (view-setup_nat H A L iface s) ∙ plan in
          let here =
            ap (λ m. all_present m rs) (rules-setup_nat H ipt A L iface s plan up)
            ∙ all_present-added_all rs (ipt.rules s) in
          (
            here,
            rules-setup_nat H ipt A L iface s' plan' again
                ∙ added_all-all_present rs (ipt.rules s') here,
          )
