-- ===== src/Node/Masquerade.antt =====
-- node/controller.go, ensureNAT: what it leaves in the machine's chains for all the interfaces.
use exnode.Base.{
  true, false, ◌≡◌, refl, ap, ◌∙◌, List, [], ◌∷◌, some, ◌⊎◌, inl, inr, if◌then◌else◌, Bool-cases,
  All, &&_true,
}
use exnode.Host.{Host}
use exnode.Host.Loops.{each}
use exnode.Host.Iptables.{Iptables, Reliable}
use exnode.Wg.{Interface}
use exnode.Wg.Network.{Addresses, Netlink, Links}
use exnode.Wg.Rules.{Rule}
use exnode.Wg.Rules.Effect.{RuleMap, added_all, present}
use exnode.Wg.Rules.Effect.Sequence.{all_present, all_present-added_all, present-added_all}
use exnode.Wg.Nat.{nat_enabled, setup_nat, enable_forwarding}
use exnode.Wg.Nat.Effect.{nat_plan, view-setup_nat, rules-setup_nat}
use exnode.Wg.Nat.Ready.{setup_nat_ok}
use exnode.Node.Control.{Engines, ensure_nat}

all_present-kept :
    (rs xs : List Rule) (m : RuleMap)
    → all_present m xs ≡ true
    → all_present (added_all rs m) xs ≡ true
all_present-kept rs [] m h = refl
all_present-kept rs (x ∷ xs) m h =
    let (here, rest) = &&_true (present m x) (all_present m xs) h in
    rw (present-added_all rs x m here) (all_present-kept rs xs m rest)

module _ (H : Host) (ipt : Iptables H) (rel : Reliable H ipt) (A : Addresses) (L : Links H A)
    (forwards : (s : H.State) → (enable_forwarding H s).0 ≡ true) (n : Netlink A.Ip) where
  -- NAT is off, or the interface's rules can be computed.
  abbrev pub Planned : Interface → Type 0
  Planned i = (nat_enabled i ≡ false) ⊎ ((rs : List Rule) × (nat_plan A n i ≡ some rs))

  -- NAT is off, or all the interface's rules are there.
  abbrev pub Served : RuleMap → Interface → Type 0
  Served m i =
      (nat_enabled i ≡ false)
      ⊎ ((rs : List Rule) × (nat_plan A n i ≡ some rs) × (all_present m rs ≡ true))

  abbrev one : Interface → H.State → H.State
  one i s = if nat_enabled i then (setup_nat H A L i s).1 else s

  one-Grown :
      (i : Interface) (s : H.State)
      → L.view s ≡ n
      → Planned i
      → (rs : List Rule) × (L.view (one i s) ≡ n)
        × (ipt.rules (one i s) ≡ added_all rs (ipt.rules s))
        × Served (ipt.rules (one i s)) i
  one-Grown i s view (inl off) = ([], rw off view, rw off refl, inl off)
  one-Grown i s view (inr (rs, plan)) = elim (Bool-cases (nat_enabled i)) [
    | inr off ↦ ([], rw off view, rw off refl, inl off)
    | inl on ↦
        let plan' = ap (λ v. nat_plan A v i) view ∙ plan in
        let ok = setup_nat_ok H ipt rel A L forwards i s plan' in
        let rules = rules-setup_nat H ipt A L i s plan' ok in
        (
          rs,
          rw on (view-setup_nat H A L i s ∙ view),
          rw on rules,
          inr (
            rs,
            plan,
            rw on (ap (λ m. all_present m rs) rules ∙ all_present-added_all rs (ipt.rules s)),
          ),
        )
  ]

  kept :
      (rs : List Rule) (i : Interface) (s s' : H.State)
      → ipt.rules s' ≡ added_all rs (ipt.rules s)
      → Served (ipt.rules s) i
      → Served (ipt.rules s') i
  kept rs i s s' grown (inl off) = inl off
  kept rs i s s' grown (inr (xs, plan, here)) =
      inr (xs, plan, ap (λ m. all_present m xs) grown ∙ all_present-kept rs xs (ipt.rules s) here)

  stays :
      (ifaces : List Interface) (i : Interface) (s : H.State)
      → L.view s ≡ n
      → All Planned ifaces
      → Served (ipt.rules s) i
      → Served (ipt.rules (each one ifaces s)) i
  unfolding each
  stays [] i s view all served = served
  stays (j ∷ ifaces) i s view (planned, all) served =
      let (rs, view', grown, _) = one-Grown j s view planned in
      stays ifaces i (one j s) view' all (kept rs i s (one j s) grown served)

  All-Served :
      (ifaces : List Interface) (s : H.State)
      → L.view s ≡ n
      → All Planned ifaces
      → All (Served (ipt.rules (each one ifaces s))) ifaces
  unfolding each
  All-Served [] s view all = tt
  All-Served (i ∷ ifaces) s view (planned, all) =
      let (rs, view', grown, served) = one-Grown i s view planned in
      (stays ifaces i (one i s) view' all served, All-Served ifaces (one i s) view' all)

  -- After ensureNAT, whatever rules were missing before, all the rules of every interface with NAT
  -- are there. This holds on a machine whose iptables fails only for the documented reasons and where
  -- forwarding can be switched on, and for interfaces whose rules can be computed.
  pub ensure_nat-Served :
      (E : Engines H) (ifaces : List Interface) (s : H.State)
      → L.view s ≡ n
      → All Planned ifaces
      → All (Served (ipt.rules (ensure_nat H A L E ifaces s))) ifaces
  unfolding ensure_nat
  ensure_nat-Served E ifaces s view all = All-Served ifaces s view all
