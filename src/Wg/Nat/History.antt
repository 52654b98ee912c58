-- ===== src/Wg/Nat/History.antt =====
-- ReconcileNAT over the configurations that an interface has had, one after the other.
use exnode.Base.{
  String, Bool, true, false, ◌&&◌, ◌||◌, not, ◌≡◌, refl, sym, ap, ◌∙◌, List, [], ◌∷◌, some, ◌⊎◌,
  inl, inr, if◌then◌else◌, string_eq, bool_eq, Bool-cases, &&_true, All, ||_false, not-false,
}
use exnode.Host.{Host}
use exnode.Host.Iptables.{Iptables, Reliable}
use exnode.Wg.{Interface}
use exnode.Wg.Network.{Addresses, Netlink, Links}
use exnode.Wg.Rules.{Rule}
use exnode.Wg.Rules.Effect.{RuleMap, added_all, removed_all}
use exnode.Wg.Rules.Effect.Sequence.{all_present-added_all, added_all-all_present}
use exnode.Wg.Rules.Effect.Undo.{all_absent, removed_all-added_all}
use exnode.Wg.Nat.{setup_nat, teardown_nat, reconcile_nat, nat_enabled, nat_params_differ}
use exnode.Wg.Nat.Effect.{
  nat_plan, plan-distinct, view-setup_nat, rules-setup_nat, rules-teardown_nat,
}
use exnode.Wg.Nat.Torn.{view-teardown_nat, teardown_nat_ok}
use exnode.Wg.Nat.Alike.{fields_same, last, plan_same, rules_of, sources_found, turns, wanted}

module _ (H : Host) (ipt : Iptables H) (rel : Reliable H ipt) (A : Addresses) (L : Links H A)
    (name : String) (n : Netlink A.Ip) (base : RuleMap) where
  -- A configuration of the interface: NAT is off, or its rules can be computed and none of them is
  -- among those that are there without it.
  abbrev pub Sound : Interface → Type 0
  Sound i =
      (i.name ≡ name)
      × ((nat_enabled i ≡ false)
          ⊎ ((rs : List Rule) × (nat_plan A n i ≡ some rs) × (all_absent base rs ≡ true)))

  abbrev Holds : Interface → H.State → Type 0
  Holds i s = (L.view s ≡ n) × (ipt.rules s ≡ wanted A n base i)

  wanted_on :
      (i : Interface) {rs : List Rule}
      → nat_enabled i ≡ true
      → nat_plan A n i ≡ some rs
      → wanted A n base i ≡ added_all rs base
  unfolding wanted
  wanted_on i on plan = rw on (ap (λ p. added_all (rules_of p) base) plan)

  wanted_off : (i : Interface) → nat_enabled i ≡ false → wanted A n base i ≡ base
  unfolding wanted
  wanted_off i off = rw off refl

  -- From rules that are the old configuration's, the teardown leaves none of them.
  torn :
      (old : Interface) (s : H.State) {rs : List Rule}
      → nat_enabled old ≡ true
      → nat_plan A n old ≡ some rs
      → all_absent base rs ≡ true
      → Holds old s
      → (L.view (teardown_nat H A L old s).1 ≡ n) × (ipt.rules (teardown_nat H A L old s).1 ≡ base)
  torn old s {rs = rs} on plan absent (view, rules) =
      let plan' = ap (λ v. nat_plan A v old) view ∙ plan in
      let (subnets, found) = sources_found A n old plan in
      (
        view-teardown_nat H A L old s ∙ view,
        rules-teardown_nat H ipt A L old s plan' (teardown_nat_ok H A L ipt rel old s found)
            ∙ ap (removed_all rs) (rules ∙ wanted_on old on plan)
            ∙ removed_all-added_all rs base (plan-distinct A old n plan) absent,
      )

  -- From rules without NAT, SetupNAT leads to those of the configuration.
  set_up :
      (new : Interface) (s : H.State) (m : RuleMap) {rs : List Rule}
      → nat_plan A n new ≡ some rs
      → L.view s ≡ n
      → ipt.rules s ≡ m
      → (setup_nat H A L new s).0 ≡ true
      → (L.view (setup_nat H A L new s).1 ≡ n)
        × (ipt.rules (setup_nat H A L new s).1 ≡ added_all rs m)
  set_up new s m {rs = rs} plan view rules ok =
      let here = ap (λ v. nat_plan A v new) view ∙ plan in
      (
        view-setup_nat H A L new s ∙ view,
        rules-setup_nat H ipt A L new s here ok ∙ ap (added_all rs) rules,
      )

  again : (rs : List Rule) → added_all rs (added_all rs base) ≡ added_all rs base
  again rs = added_all-all_present rs (added_all rs base) (all_present-added_all rs base)

  -- The rules before SetupNAT is considered: no NAT, or already that of the configuration.
  abbrev Ready : Interface → H.State → Type 0
  Ready new s = (L.view s ≡ n) × ((ipt.rules s ≡ base) ⊎ (ipt.rules s ≡ wanted A n base new))

  abbrev changes : Interface → Interface → Bool
  changes old new = not (nat_enabled new) || nat_params_differ old new

  unchanged :
      (old new : Interface)
      → old.name ≡ new.name
      → nat_enabled old ≡ true
      → changes old new ≡ false
      → wanted A n base old ≡ wanted A n base new
  unfolding wanted
  unchanged old new same on kept =
      let (still, alike) = ||_false (not (nat_enabled new)) (nat_params_differ old new) kept in
      rw (on, not-false _ still)
        (ap (λ p. added_all (rules_of p) base)
          (plan_same A n old new (fields_same A n old new same alike)))

  cleaned : Interface → Interface → H.State → H.State
  cleaned old new s = if nat_enabled old && changes old new then (teardown_nat H A L old s).1 else s

  cleaned-Ready :
      (old new : Interface) (s : H.State)
      → Sound old
      → Sound new
      → Holds old s
      → Ready new (cleaned old new s)
  unfolding cleaned
  cleaned-Ready old new s (_, inl off) sound_new (view, rules) =
      rw off (view, inl (rules ∙ wanted_off old off))
  cleaned-Ready old new s (named, inr (rs, plan, absent)) (named', _) (view, rules) =
      elim (Bool-cases (nat_enabled old)) [
        | inr off ↦ rw off (view, inl (rules ∙ wanted_off old off))
        | inl on ↦ rw on (elim (Bool-cases (changes old new)) [
          | inl differ ↦
              rw differ (
                let (view', rules') = torn old s on plan absent (view, rules) in
                (view', inl rules'))
          | inr kept ↦ rw kept (view, inr (rules ∙ unchanged old new (named ∙ sym named') on kept))
        ])
      ]

  finish : Interface → H.State → Bool × H.State
  finish new s = if nat_enabled new then setup_nat H A L new s else (true, s)

  left_off : (new : Interface) (s : H.State) → nat_enabled new ≡ false → Ready new s → Holds new s
  left_off new s off (view, inl rules) = (view, rules ∙ sym (wanted_off new off))
  left_off new s off (view, inr rules) = (view, rules)

  put_on :
      (new : Interface) (s : H.State) {rs : List Rule}
      → nat_enabled new ≡ true
      → nat_plan A n new ≡ some rs
      → Ready new s
      → (setup_nat H A L new s).0 ≡ true
      → Holds new (setup_nat H A L new s).1
  put_on new s on plan (view, inl rules) ok =
      let (view', rules') = set_up new s base plan view rules ok in
      (view', rules' ∙ sym (wanted_on new on plan))
  put_on new s {rs = rs} on plan (view, inr rules) ok =
      let there = rules ∙ wanted_on new on plan in
      let (view', rules') = set_up new s (added_all rs base) plan view there ok in
      (view', rules' ∙ again rs ∙ sym (wanted_on new on plan))

  finish-Holds :
      (new : Interface) (s : H.State)
      → Sound new
      → Ready new s
      → (finish new s).0 ≡ true
      → Holds new (finish new s).1
  unfolding finish
  finish-Holds new s (_, inl off) ready = rw off (λ ok. left_off new s off ready)
  finish-Holds new s (_, inr (rs, plan, absent)) ready = elim (Bool-cases (nat_enabled new)) [
    | inr off ↦ rw off (λ ok. left_off new s off ready)
    | inl on ↦ rw on (λ ok. put_on new s on plan ready ok)
  ]

  -- One ReconcileNAT keeps the rules those of the configuration.
  step :
      (old new : Interface) (s : H.State)
      → Sound old
      → Sound new
      → Holds old s
      → (reconcile_nat H A L old new s).0 ≡ true
      → Holds new (reconcile_nat H A L old new s).1
  unfolding reconcile_nat cleaned finish
  step old new s sound_old sound_new holds ok =
      finish-Holds new (cleaned old new s) sound_new
        (cleaned-Ready old new s sound_old sound_new holds) ok

  run-Holds :
      (current : Interface) (later : List Interface) (s : H.State)
      → Sound current
      → All Sound later
      → Holds current s
      → (turns H A L current later s).0 ≡ true
      → Holds (last current later) (turns H A L current later s).1
  run-Holds current [] s sound all holds ok = holds
  run-Holds current (next ∷ later) s sound (sound', all) holds ok =
      let (first, rest) =
        &&_true (reconcile_nat H A L current next s).0
          (turns H A L next later (reconcile_nat H A L current next s).1).0 ok in
      run-Holds next later (reconcile_nat H A L current next s).1 sound' all
        (step current next s sound sound' holds first) rest

  -- ReconcileNAT implements a machine whose NAT rules are a function of the configuration: however
  -- the configuration of an interface changes and how often, if no call of ReconcileNAT returns an
  -- error, the rules of all chains are in the end those without NAT with the rules of the last
  -- configuration added, and nothing is left of those before. This holds on a machine whose
  -- iptables fails only for the documented reasons and whose links and routes stay the same, and
  -- for configurations that are off or whose rules can be computed and are not there without them.
  pub reconcile_nat_refines :
      (current : Interface) (later : List Interface) (s : H.State)
      → Sound current
      → All Sound later
      → L.view s ≡ n
      → ipt.rules s ≡ wanted A n base current
      → (turns H A L current later s).0 ≡ true
      → ipt.rules (turns H A L current later s).1 ≡ wanted A n base (last current later)
  reconcile_nat_refines current later s sound all view rules ok =
      (run-Holds current later s sound all (view, rules) ok).1
