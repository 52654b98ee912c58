-- ===== src/Wg/Nat/Alike.antt =====
-- wg/nat.go: the rules that a configuration wants; by natParamsDiffer, configurations that do not
-- differ want the same ones.
use exnode.Base.{
  String, Bool, true, false, ◌&&◌, ◌||◌, not, ◌≡◌, refl, sym, ap, ◌∙◌, List, [], ◌∷◌, Option, none,
  some, inl, inr, if◌then◌else◌, ◌==◌, string_eq, bool_eq, arith, beq→eq, Option-cases,
}
use exnode.Host.{Host}
use exnode.Base.Int.{pos}
use exnode.Extras.{no_extras}
use exnode.Wg.{Interface}
use exnode.Wg.Network.{Addresses, Netlink, Links}
use exnode.Wg.Rules.{Rule}
use exnode.Wg.Rules.Effect.{RuleMap, added_all}
use exnode.Wg.Nat.{reconcile_nat, nat_enabled, nat_params_differ, nat_sources}
use exnode.Wg.Nat.Effect.{nat_plan}

-- The rules of a plan, none where its networks or its egress cannot be found.
abbrev pub rules_of : Option (List Rule) → List Rule
rules_of none = []
rules_of (some rs) = rs

-- What the rules of a machine are to be: those without any NAT, and those of the configuration.
unfoldable pub wanted : (A : Addresses) → Netlink A.Ip → RuleMap → Interface → RuleMap
wanted A n base i = if nat_enabled i then added_all (rules_of (nat_plan A n i)) base else base

abbrev pub last : Interface → List Interface → Interface
last current [] = current
last current (next ∷ later) = last next later

module _ (H : Host) (A : Addresses) (L : Links H A) where
  -- ReconcileNAT from each configuration to the next, and whether no call returns an error.
  abbrev pub turns : Interface → List Interface → H.State → Bool × H.State
  turns current [] s = (true, s)
  turns current (next ∷ later) s =
      let (ok, s') = reconcile_nat H A L current next s in
      let (oks, s'') = turns next later s' in (ok && oks, s'')

module _ (A : Addresses) (n : Netlink A.Ip) where
  abbrev pub FieldsEq : Interface → Interface → Type 0
  FieldsEq a b =
      (a.name ≡ b.name)
      × (a.egress_interface ≡ b.egress_interface)
      × (a.nat_subnets ≡ b.nat_subnets)
      × (a.address ≡ b.address)

  all_alike :
      (a b c d : Bool)
      → (not a || not b || not c || not d) ≡ false
      → (a ≡ true) × (b ≡ true) × (c ≡ true) × (d ≡ true)
  all_alike a b c d h = ground arith

  -- The fields that the rules are computed from.
  abbrev trimmed : String → String → String → String → Interface
  trimmed name egress subnets address = record {
    name = name;
    private_key = "";
    listen_port = pos 0;
    address = address;
    mtu = pos 0;
    masquerade = false;
    egress_interface = egress;
    nat_subnets = subnets;
    policy_routes = "";
    extras = no_extras;
    peers = [];
  }

  plan_trimmed :
      (i : Interface)
      → nat_plan A n i ≡ nat_plan A n (trimmed i.name i.egress_interface i.nat_subnets i.address)
  unfolding nat_sources
  plan_trimmed i = refl

  pub plan_same : (a b : Interface) → FieldsEq a b → nat_plan A n a ≡ nat_plan A n b
  plan_same a b (name, egress, subnets, address) =
      plan_trimmed a
      ∙ ap (nat_plan A n) (rw (name, egress, subnets, address) refl)
      ∙ sym (plan_trimmed b)

  pub fields_same :
      (a b : Interface) → a.name ≡ b.name → nat_params_differ a b ≡ false → FieldsEq a b
  unfolding nat_params_differ
  fields_same a b name h =
      let (masquerade, egress, subnets, address) =
        all_alike (a.masquerade == b.masquerade) (a.egress_interface == b.egress_interface)
          (a.nat_subnets == b.nat_subnets) (a.address == b.address) h in
      (
        name,
        beq→eq a.egress_interface b.egress_interface egress,
        beq→eq a.nat_subnets b.nat_subnets subnets,
        beq→eq a.address b.address address,
      )

  pub sources_found :
      (i : Interface) {rs : List Rule}
      → nat_plan A n i ≡ some rs
      → (subnets : List String) × (nat_sources A i ≡ some subnets)
  sources_found i {rs = rs} = elim (Option-cases (nat_sources A i)) [
    | inl bad ↦ rw (bad, nat_plan) (λ h. cc)
    | inr found ↦ λ h. found
  ]
