-- ===== src/Tests/Wg.antt =====
-- wg: runs and witnesses.
use exnode.Base.{
  Bool, true, false, ◌≡◌, refl, List, [], ◌∷◌, some, inl, inr, contains, erase, keep, String,
  if◌then◌else◌,
}
use exnode.Text.{trim_space, split, has_prefix}
use exnode.Text.Fields.{fields}
use exnode.Host.Loops.{each_ok, each_all, each}
use exnode.Host.Toy.{toy, toy_iptables, toy-Reliable, Rules}
use exnode.Wg.Rules.{Rule, iptables_args, ensure_rule, delete_rule}
use exnode.Wg.Rules.Effect.{present}
use exnode.Wg.Nat.{
  nat_enabled, nat_params_differ, nat_sources, nat_rules, resolve_egress, setup_nat, teardown_nat,
  reconcile_nat, default_egress_interface, custom_sources, subnet_for, enable_forwarding,
}
use exnode.Wg.Nat.Effect.{nat_plan}
use exnode.Wg.Nat.Converge.{teardown_nat-setup_nat}
use exnode.Wg.Rules.Effect.Undo.{all_absent}
use exnode.Wg.Nat.Alike.{turns, wanted}
use exnode.Wg.Nat.History.{Sound, reconcile_nat_refines}
use exnode.Wg.{Interface}
use exnode.Wg.Rules.Effect.Copies.{copies, among}
use exnode.Wg.Policy.{
  reconcile_policy_routes, apply_policy_routes, apply_policy_line, run_policy_line, swap_verb,
  policy_from_subnets, policy_forward_rules, policy_lines, from_values,
}
use exnode.Wg.Policy.Forward.{reconcile_policy_routes_refines}
use exnode.Wg.Policy.Subnets.{forwards}
use exnode.Wg.Rules.Effect.Settled.{Unused, follow}
use exnode.Tests.Machine.{addresses, links, no_rules, home, bare}

abbrev home_rules : List Rule
unfolding nat_rules
home_rules = nat_rules ("10.8.0.0/24" ∷ []) "wg0" "eth0" ""

plan_home : nat_plan addresses (links.view no_rules) home ≡ some home_rules
unfolding nat_sources resolve_egress default_egress_interface custom_sources subnet_for trim_space
    split nat_rules
plan_home = refl

-- The run of a reconcile on the test machine.
turn : Interface → Interface → Rules → Bool × Rules
unfolding setup_nat teardown_nat reconcile_nat nat_enabled nat_params_differ nat_sources
    resolve_egress default_egress_interface custom_sources subnet_for trim_space split nat_rules
    enable_forwarding each_ok each_all ensure_rule delete_rule iptables_args contains erase
turn old new s = reconcile_nat toy addresses links old new s

up_home : (setup_nat toy addresses links home no_rules).0 ≡ true
unfolding turn
up_home = refl

down_home :
    (teardown_nat toy addresses links home (setup_nat toy addresses links home no_rules).1).0 ≡ true
unfolding turn
down_home = refl

absent_home : all_absent no_rules home_rules ≡ true
unfolding present contains home_rules
absent_home = refl

off_bare : nat_enabled bare ≡ false
unfolding turn
off_bare = refl

on_home : nat_enabled home ≡ true
unfolding turn
on_home = refl

reconciled :
    (turn bare home no_rules).1 "nat" "POSTROUTING"
    ≡ ("-s" ∷ "10.8.0.0/24" ∷ "-o" ∷ "eth0" ∷ "-j" ∷ "MASQUERADE" ∷ []) ∷ []
unfolding turn
reconciled = refl

reconciled_up : (reconcile_nat toy addresses links bare home no_rules).0 ≡ true
unfolding turn
reconciled_up = refl

reconciled_again :
    (reconcile_nat toy addresses links home home
      (reconcile_nat toy addresses links bare home no_rules).1).0
    ≡ true
unfolding turn
reconciled_again = refl

reconciled_down :
    (teardown_nat toy addresses links home
      (reconcile_nat toy addresses links bare home no_rules).1).0
    ≡ true
unfolding turn
reconciled_down = refl

teardown_nat-setup_nat_example :
    (teardown_nat toy addresses links home (setup_nat toy addresses links home no_rules).1).1
    ≡ no_rules
teardown_nat-setup_nat_example =
    teardown_nat-setup_nat toy toy_iptables addresses links home no_rules plan_home absent_home
      up_home down_home

-- NAT on, then another network, then off, then on again.
abbrev office : Interface
office = record home { nat_subnets = "10.9.0.0/24" }

abbrev office_rules : List Rule
unfolding nat_rules
office_rules = nat_rules ("10.9.0.0/24" ∷ []) "wg0" "eth0" ""

plan_office : nat_plan addresses (links.view no_rules) office ≡ some office_rules
unfolding nat_sources resolve_egress default_egress_interface custom_sources subnet_for trim_space
    split nat_rules contains
plan_office = refl

absent_office : all_absent no_rules office_rules ≡ true
unfolding present contains office_rules
absent_office = refl

abbrev versions : List Interface
versions = home ∷ office ∷ bare ∷ home ∷ []

all_well : (turns toy addresses links bare versions no_rules).0 ≡ true
unfolding turn
all_well = refl

abbrev SoundHere : Interface → Type 0
SoundHere = Sound toy toy_iptables toy-Reliable addresses links "wg0" (links.view no_rules) no_rules

on_again : SoundHere home
on_again = (refl, inr (home_rules, plan_home, absent_home))

off_again : SoundHere bare
off_again = (refl, inl off_bare)

reconcile_nat_refines_example :
    (turns toy addresses links bare versions no_rules).1
    ≡ wanted addresses (links.view no_rules) no_rules home
unfolding turn wanted
reconcile_nat_refines_example =
    reconcile_nat_refines toy toy_iptables toy-Reliable addresses links "wg0" (links.view no_rules)
      no_rules bare versions no_rules (refl, inl off_bare)
      (
        on_again,
        ((refl, inr (office_rules, plan_office, absent_office)), (off_again, (on_again, tt))),
      )
      refl refl all_well

-- The texts of an operator that moves a subnet's rule to another subnet.
abbrev first_text : String
first_text = "ip rule add from 10.1.0.0/24 table 5"

abbrev second_text : String
second_text = "# moved\n  ip rule add from 10.2.0.0/24 table 5\n"

moved : Rules
unfolding reconcile_policy_routes apply_policy_routes apply_policy_line run_policy_line swap_verb
    policy_from_subnets policy_forward_rules policy_lines from_values trim_space split fields
    enable_forwarding each ensure_rule delete_rule iptables_args contains erase keep has_prefix
moved = follow (reconcile_policy_routes toy) "" (first_text ∷ second_text ∷ []) no_rules

moved_rules :
    moved "" "FORWARD"
    ≡ ("-s" ∷ "10.2.0.0/24" ∷ "-j" ∷ "ACCEPT" ∷ [])
      ∷ ("-d" ∷ "10.2.0.0/24" ∷ "-m" ∷ "state" ∷ "--state" ∷ "RELATED,ESTABLISHED" ∷ "-j" ∷ "ACCEPT"
          ∷ [])
      ∷ []
unfolding moved
moved_rules = refl

abbrev old_rule : Rule
old_rule = record {
  table = "";
  chain = "FORWARD";
  args = "-s" ∷ "10.1.0.0/24" ∷ "-j" ∷ "ACCEPT" ∷ [];
}

Unused-at_first : (text : String) → Unused no_rules (forwards text)
unfolding copies
Unused-at_first text x h = refl

reconcile_policy_routes_refines_example :
    copies old_rule
      (follow (reconcile_policy_routes toy) "" (first_text ∷ second_text ∷ []) no_rules)
    ≡ (if among (forwards second_text) old_rule then 1 else copies old_rule no_rules)
reconcile_policy_routes_refines_example =
    reconcile_policy_routes_refines toy toy_iptables toy-Reliable (first_text ∷ second_text ∷ [])
      no_rules (Unused-at_first first_text, (Unused-at_first second_text, tt)) old_rule
