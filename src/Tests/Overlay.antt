-- ===== src/Tests/Overlay.antt =====
-- overlay: runs and witnesses.
use exnode.Base.{
  ◌↔◌, ◌+◌, ◌≤◌, ◌<◌, true, false, ◌≡◌, refl, [], ◌∷◌, all, contains, keep, map, ◌&&◌, not, arith,
  string_eq, ◌⊎◌, list_eq,
}
use exnode.Base.Int.{pos, is_pos, to_nat}
use exnode.Text.{is_nil, join, is_space, trim_space, has_infix}
use exnode.Text.Fields.{fields, is_word}
use exnode.Host.Toy.{toy, toy_iptables, toy-Reliable, Rules}
use exnode.Overlay.{Config, plan, stale_routes, link_mtu, overhead, names, has_name}
use exnode.Overlay.Commands.{fw_specs, forward_specs, rule_spec, matches}
use exnode.Overlay.Commands.{spec_of, rule_spec}
use exnode.Overlay.Check.{dedupe_rules, count_rules, managed_forward_rules}
use exnode.Overlay.Check.Deduped.{Listed, dedupe_rules_leaves_one}
use exnode.Host.Toy.{Rules, show_chain}
use exnode.Wg.Rules.Effect.Copies.{count}
use exnode.Text.{split, is_nil, join, is_space}
use exnode.Text.Fields.{fields, is_word, all_words}
use exnode.Base.{
  List, String, ltb, ◌&&◌, ◌==◌, if◌then◌else◌, contains, erase, all, false, string_eq, list_eq,
}
use exnode.Overlay.Sizes.{link_mtu_fits}
use exnode.Overlay.Plan.{plan_splits, stale_routes_exact, Dropped}
use exnode.Overlay.Apply.{firewall_allow, forward_allow, remove}
use exnode.Overlay.Apply.Rules.{accepting}
use exnode.Overlay.Apply.Firewall.{firewall_opens}
use exnode.Wg.Rules.Effect.Copies.{copies}
use exnode.Overlay.Apply.Forget.{rules-remove, link_rules}
use exnode.Wg.Rules.Effect.Counted.{cleared_all}
use exnode.Base.Times.{Spaced}
use exnode.Overlay.Check.Warnings.{warn_once-Spaced, logged}
use exnode.Overlay.Check.{last_seen}
use exnode.Wg.Rules.Effect.Sequence.{all_present}
use exnode.Tests.Machine.{no_rules}

abbrev vx : Config
vx = record {
  kind = "";
  name = "vx1";
  vni = pos 42;
  port = pos 4789;
  key = pos 0;
  local_ip = "10.0.0.2";
  dev = "eth0";
  local = "10.1.0.1/24";
  remote = "10.0.0.1";
  mtu = pos 0;
  tunnel_mtu = pos 1420;
  routes = "10.9.0.0/16" ∷ "10.8.0.0/16" ∷ [];
}

abbrev vx_moved : Config
vx_moved = record vx { routes = "10.8.0.0/16" ∷ [] }

abbrev gre : Config
gre = record vx { name = "gre1"; kind = "gre" }

-- A reconcile replaces the vxlan link by the gre link.
plan_example : plan (vx ∷ []) (gre ∷ []) ≡ ("vx1" ∷ [], gre ∷ [])
unfolding plan keep contains
plan_example = refl

mtu_vx : link_mtu vx ≡ 1370
unfolding link_mtu overhead
mtu_vx = refl

stale_example : stale_routes (vx ∷ []) (vx_moved ∷ []) ≡ "10.9.0.0/16" ∷ []
unfolding stale_routes keep contains
stale_example = refl

-- The link test looks for substrings, so a link to 10.0.0.12 passes for one to 10.0.0.1.
matches_prefix :
    matches "link/gre gre remote 10.0.0.12 local 10.0.0.2 dev eth0 ttl inherit"
      (record gre { remote = "10.0.0.1" })
    ≡ true
unfolding matches trim_space has_infix
matches_prefix = refl

plan_splits_example :
    (contains (plan (vx ∷ []) (gre ∷ [])).0 "vx1" ≡ (
      not (is_nil "vx1")
      && contains (names (vx ∷ [])) "vx1"
      && not (contains (names (gre ∷ [])) "vx1")))
    × ((plan (vx ∷ []) (gre ∷ [])).1 ≡ keep has_name (gre ∷ []))
plan_splits_example = plan_splits (vx ∷ []) (gre ∷ []) "vx1"

stale_routes_exact_example :
    (contains (stale_routes (vx ∷ []) (vx_moved ∷ [])) "10.9.0.0/16" ≡ true)
    ↔ Dropped (vx ∷ []) (vx_moved ∷ []) "10.9.0.0/16"
stale_routes_exact_example = stale_routes_exact (vx ∷ []) (vx_moved ∷ []) "10.9.0.0/16"

link_mtu_fits_example :
    (((is_pos vx.mtu ≡ true) × (pos (link_mtu vx) ≡ vx.mtu))
      ⊎ ((is_pos vx.mtu ≡ false)
          × (((link_mtu vx ≡ 0) × (to_nat vx.tunnel_mtu ≤ overhead vx))
              ⊎ ((0 < link_mtu vx) × (pos (link_mtu vx + overhead vx) ≡ vx.tunnel_mtu)))))
    × (20 ≤ overhead vx)
    × (overhead vx ≤ 50)
link_mtu_fits_example = link_mtu_fits vx

abbrev opened_vx : Rules → Rules
opened_vx t = forward_allow toy vx (firewall_allow toy vx t)

firewall_opens_example :
    (all_present (opened_vx no_rules) (map (accepting "INPUT") (fw_specs vx)) ≡ true)
    × (all_present (opened_vx no_rules) (map (accepting "FORWARD") (forward_specs vx.name)) ≡ true)
    × (opened_vx (opened_vx no_rules) ≡ opened_vx no_rules)
firewall_opens_example = firewall_opens toy toy_iptables toy-Reliable vx no_rules

warn_once-Spaced_example :
    Spaced (last_seen "mtu" []) (logged "mtu" (("mtu", 5) ∷ ("mtu", 200) ∷ ("mtu", 310) ∷ []) [])
warn_once-Spaced_example = warn_once-Spaced "mtu" (("mtu", 5) ∷ ("mtu", 200) ∷ ("mtu", 310) ∷ []) []

-- A machine on which two copies of a tunnel's rule have piled up.
abbrev piled : Rules
piled = λ t c.
    if t == "" && c == "FORWARD"
    then ("-i" ∷ "vx1" ∷ "-j" ∷ "ACCEPT" ∷ [])
      ∷ ("-s" ∷ "10.0.0.0/8" ∷ "-j" ∷ "DROP" ∷ [])
      ∷ ("-i" ∷ "vx1" ∷ "-j" ∷ "ACCEPT" ∷ [])
      ∷ []
    else []

few : copies (accepting "INPUT" ("-i" ∷ "vx1" ∷ [])) piled ≤ 8
unfolding copies
few = ground arith

few_forward : copies (accepting "FORWARD" ("-i" ∷ "vx1" ∷ [])) piled ≤ 8
unfolding copies
few_forward = ground arith

few_out : copies (accepting "FORWARD" ("-o" ∷ "vx1" ∷ [])) piled ≤ 8
unfolding copies
few_out = ground arith

rules-remove_example : remove toy "vx1" piled ≡ cleared_all (link_rules "vx1") piled
rules-remove_example =
    rules-remove toy toy_iptables toy-Reliable "vx1" piled refl (few, (few_forward, (few_out, tt)))

vx_rules : List String
unfolding managed_forward_rules
vx_rules = managed_forward_rules (vx ∷ [])

single : Rules
unfolding dedupe_rules count_rules contains rule_spec spec_of fields is_space split erase join
    show_chain vx_rules
single = (dedupe_rules toy "FORWARD" vx_rules piled).1

single_rules :
    single "" "FORWARD"
    ≡ ("-s" ∷ "10.0.0.0/8" ∷ "-j" ∷ "DROP" ∷ []) ∷ ("-i" ∷ "vx1" ∷ "-j" ∷ "ACCEPT" ∷ []) ∷ []
unfolding single
single_rules = refl

listed : Listed toy toy_iptables "FORWARD" piled
unfolding fields split show_chain join all_words is_space
listed = record {
  shown_ok = refl;
  shown_same = λ t c. refl;
  policy = "-P FORWARD ACCEPT";
  target = "ACCEPT";
  policy_words = refl;
  shown = refl;
  worded = refl;
}

abbrev vx_rule : List String
vx_rule = "-i" ∷ "vx1" ∷ "-j" ∷ "ACCEPT" ∷ []

vx_words :
    (is_word "FORWARD" ≡ true) × (all is_word vx_rule ≡ true) × (is_nil (join vx_rule " ") ≡ false)
unfolding is_space join
vx_words = (refl, refl, refl)

dedupe_rules_leaves_one_example :
    (count vx_rule ((dedupe_rules toy "FORWARD" vx_rules piled).1 "" "FORWARD") ≡ (
      if contains vx_rules (join vx_rule " ") && ltb 1 (count vx_rule (piled "" "FORWARD"))
      then 1
      else count vx_rule (piled "" "FORWARD")))
    × ((dedupe_rules toy "FORWARD" vx_rules piled).1 "nat" "POSTROUTING"
        ≡ piled "nat" "POSTROUTING")
dedupe_rules_leaves_one_example =
    dedupe_rules_leaves_one toy toy_iptables toy-Reliable "FORWARD" vx_rules piled vx_rule "nat"
      "POSTROUTING" vx_words.0 listed vx_words.1 vx_words.2 refl
