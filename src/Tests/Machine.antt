-- ===== src/Tests/Machine.antt =====
-- A machine for the tests: rules of iptables, and one link with the default route.
use exnode.Base.{String, true, false, [], ◌∷◌, none, some, ◌==◌, string_eq, refl}
use exnode.Base.Int.{pos}
use exnode.Extras.{no_extras}
use exnode.Host.Toy.{toy, Rules}
use exnode.Wg.{Interface}
use exnode.Wg.Network.{Addresses, Netlink, Links}

abbrev pub addresses : Addresses
addresses = record {
  Ip = String;
  parse_ip = λ s. none;
  ip_equal = λ a b. a == b;
  is_unspecified = λ ip. ip == "0.0.0.0";
  parse_cidr = λ s. some s;
}

abbrev pub uplink : Netlink String
uplink = record {
  link_list = some ("eth0" ∷ []);
  addr_list = λ l. some ("203.0.113.7" ∷ []);
  route_list = some (record { dst = none; link_index = 2 } ∷ []);
  link_by_index = λ i. some "eth0";
}

abbrev pub links : Links toy addresses
links = record {
  view = λ s. uplink;
  iptables_same = λ args s. refl;
  write_same = λ path text s. refl;
}

abbrev pub no_rules : Rules
no_rules = λ t c. []

abbrev pub home : Interface
home = record {
  name = "wg0";
  private_key = "";
  listen_port = pos 51820;
  address = "10.8.0.0/24";
  mtu = pos 1420;
  masquerade = true;
  egress_interface = "";
  nat_subnets = "";
  policy_routes = "";
  extras = no_extras;
  peers = [];
}

abbrev pub bare : Interface
bare = record home { masquerade = false }
