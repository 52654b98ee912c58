-- ===== src/Wg/Nat.antt =====
-- wg/nat.go: internet access for an interface's clients, by forwarding and rules of iptables.
pub mod Plan
pub mod Effect
pub mod Converge
pub mod Torn
pub mod Ready
pub mod History
pub mod Alike
use exnode.Base.{
  String, Bool, true, false, ◌&&◌, ◌||◌, not, List, [], ◌∷◌, ◌++◌, Option, none, some, map,
  if◌then◌else◌, ◌==◌, string_eq, bool_eq, contains,
}
use exnode.Text.{is_nil, trim_space, split}
use exnode.Host.{Host}
use exnode.Host.Loops.{each_ok, each_all}
use exnode.Wg.{Interface}
use exnode.Wg.Network.{Addresses, Netlink, Route, Links}
use exnode.Wg.Rules.{Rule, ensure_rule, delete_rule}

abbrev target : String → List String
target snat_ip =
    if is_nil snat_ip
    then "-j" ∷ "MASQUERADE" ∷ []
    else "-j" ∷ "SNAT" ∷ "--to-source" ∷ snat_ip ∷ []

unfoldable pub post_rule : String → String → String → Rule
post_rule egress snat_ip s = record {
  table = "nat";
  chain = "POSTROUTING";
  args = ("-s" ∷ s ∷ "-o" ∷ egress ∷ []) ++ target snat_ip;
}

unfoldable pub forward_rules : String → String → List Rule
forward_rules device egress =
    record {
      table = "";
      chain = "FORWARD";
      args = "-i" ∷ device ∷ "-o" ∷ egress ∷ "-j" ∷ "ACCEPT" ∷ [];
    }
    ∷ record {
      table = "";
      chain = "FORWARD";
      args =
          "-i" ∷ egress ∷ "-o" ∷ device ∷ "-m" ∷ "state" ∷ "--state" ∷ "RELATED,ESTABLISHED" ∷ "-j"
          ∷ "ACCEPT" ∷ [];
    }
    ∷ []

unfoldable pub nat_rules : List String → String → String → String → List Rule
unfolding post_rule forward_rules
nat_rules subnets device egress snat_ip =
    map (post_rule egress snat_ip) subnets ++ forward_rules device egress

unfoldable pub nat_enabled : Interface → Bool
nat_enabled iface =
    iface.masquerade
    || not (is_nil (trim_space iface.egress_interface))
    || not (is_nil (trim_space iface.nat_subnets))

unfoldable pub nat_params_differ : Interface → Interface → Bool
nat_params_differ a b =
    not (a.masquerade == b.masquerade)
    || not (a.egress_interface == b.egress_interface)
    || not (a.nat_subnets == b.nat_subnets)
    || not (a.address == b.address)

module _ (A : Addresses) where
  unfoldable pub subnet_for : String → Option String
  subnet_for address = A.parse_cidr (trim_space address)

  -- The loop of natSources: `seen` is the set of the networks in `custom`, and `none` is an error.
  unfoldable pub custom_sources : List String → List String → List String → Option (List String)
  custom_sources [] seen custom = some custom
  custom_sources (raw ∷ parts) seen custom = elim (is_nil (trim_space raw)) [
    | true ↦ custom_sources parts seen custom
    | false ↦ elim (subnet_for (trim_space raw)) [
      | none ↦ none
      | some norm ↦ elim (contains seen norm) [
        | true ↦ custom_sources parts seen custom
        | false ↦ custom_sources parts (norm ∷ seen) (custom ++ norm ∷ [])
      ]
    ]
  ]

  -- Custom networks replace the tunnel's own one.
  abbrev pub or_tunnel : Interface → List String → Option (List String)
  or_tunnel iface (c ∷ custom) = some (c ∷ custom)
  or_tunnel iface [] = elim (subnet_for iface.address) [
    | none ↦ none
    | some wg_subnet ↦ some (wg_subnet ∷ [])
  ]

  unfoldable pub nat_sources : Interface → Option (List String)
  nat_sources iface = elim (custom_sources (split iface.nat_subnets b',') [] []) [
    | none ↦ none
    | some custom ↦ or_tunnel iface custom
  ]

  any_equal : A.Ip → List A.Ip → Bool
  any_equal ip [] = false
  any_equal ip (a ∷ addrs) = A.ip_equal a ip || any_equal ip addrs

  -- A link whose addresses cannot be read is passed over.
  owns : Netlink A.Ip → A.Ip → String → Bool
  unfolding any_equal
  owns n ip link = elim (n.addr_list link) [ none ↦ false | some addrs ↦ any_equal ip addrs ]

  first_owner : Netlink A.Ip → A.Ip → List String → Option String
  first_owner n ip [] = none
  first_owner n ip (l ∷ links) =
      let rest = first_owner n ip links in if owns n ip l then some l else rest

  unfoldable pub link_for_ip : Netlink A.Ip → A.Ip → Option String
  unfolding owns first_owner
  link_for_ip n ip = elim n.link_list [ none ↦ none | some links ↦ first_owner n ip links ]

  abbrev is_default : Route A.Ip → Bool
  is_default r = elim r.dst [ none ↦ true | some ip ↦ A.is_unspecified ip ]

  first_default : Netlink A.Ip → List (Route A.Ip) → Option String
  first_default n [] = none
  first_default n (r ∷ routes) =
      let rest = first_default n routes in
      if is_default r then n.link_by_index r.link_index else rest

  unfoldable pub default_egress_interface : Netlink A.Ip → Option String
  unfolding first_default
  default_egress_interface n = elim n.route_list [
    | none ↦ none
    | some routes ↦ first_default n routes
  ]

  with_snat : String → Option String → Option (String × String)
  with_snat snat_ip none = none
  with_snat snat_ip (some device) = some (device, snat_ip)

  -- The device, and the address of SNAT or "".
  unfoldable pub resolve_egress : Netlink A.Ip → String → Option (String × String)
  unfolding with_snat
  resolve_egress n raw =
      let spec = trim_space raw in
      if is_nil spec then with_snat "" (default_egress_interface n) else elim (A.parse_ip spec) [
        | none ↦ some (spec, "")
        | some ip ↦ with_snat spec (link_for_ip n ip)
      ]

-- EnableForwarding
unfoldable pub enable_forwarding : (H : Host) → H.State → Bool × H.State
enable_forwarding H s = H.write_file "/proc/sys/net/ipv4/ip_forward" "1\n" s

module _ (H : Host) (A : Addresses) (L : Links H A) where
  unfoldable pub install : Interface → List String → String × String → H.State → Bool × H.State
  install iface subnets (device, snat_ip) s =
      let (ok, s') = enable_forwarding H s in
      if ok
      then each_ok (ensure_rule H) (nat_rules subnets iface.name device snat_ip) s'
      else (false, s')

  -- The device that SetupNAT also returns is used by no caller; `true` is no error.
  unfoldable pub setup_nat : Interface → H.State → Bool × H.State
  unfolding install
  setup_nat iface s = elim (nat_sources A iface) [
    | none ↦ (false, s)
    | some subnets ↦ elim (resolve_egress A (L.view s) iface.egress_interface) [
      | none ↦ (false, s)
      | some egress ↦ install iface subnets egress s
    ]
  ]

  unfoldable pub uninstall : Interface → List String → String × String → H.State → Bool × H.State
  uninstall iface subnets (device, snat_ip) s =
      if is_nil device
      then (true, s)
      else each_all (delete_rule H) (nat_rules subnets iface.name device snat_ip) s

  unfoldable pub teardown_nat : Interface → H.State → Bool × H.State
  unfolding uninstall
  teardown_nat iface s = elim (nat_sources A iface) [
    | none ↦ (false, s)
    | some subnets ↦ elim (resolve_egress A (L.view s) iface.egress_interface) [
      | none ↦ (true, s)
      | some egress ↦ uninstall iface subnets egress s
    ]
  ]

  -- From the state applied before to the desired one; the teardown's error is dropped.
  unfoldable pub reconcile_nat : Interface → Interface → H.State → Bool × H.State
  reconcile_nat old new s =
      let s' =
        if nat_enabled old && (not (nat_enabled new) || nat_params_differ old new)
        then (teardown_nat old s).1
        else s in
      if nat_enabled new then setup_nat new s' else (true, s')
