-- ===== src/Node.antt =====
-- node/controller.go, the translation of the panel's interfaces into those of the datapath and into
-- overlay links.
pub mod Control
pub mod Run
pub mod Masquerade
pub mod Start
pub mod Tunnels
use exnode.Base.{
  String, Bool, List, [], ◌∷◌, ◌++◌, Option, none, some, if◌then◌else◌, is_empty, map,
}
use exnode.Text.{is_nil}
use exnode.Extras.{Extras}
use exnode.Overlay.{Config}
use exnode.Panel.{Tunnel, Member, Device}
use exnode.Wg.{Peer, Interface}

abbrev to_peer : Member → Peer
to_peer m = record {
  public_key = m.public_key;
  preshared_key = m.preshared_key;
  allowed_ips = m.allowed_ips;
  persistent_keepalive = m.persistent_keepalive;
}

unfoldable pub to_engine_interface : Device → Interface
to_engine_interface d = record {
  name = d.name;
  private_key = d.private_key;
  listen_port = d.listen_port;
  address = d.address;
  mtu = d.mtu;
  masquerade = d.masquerade;
  egress_interface = d.egress_interface;
  nat_subnets = d.nat_subnets;
  policy_routes = d.policy_routes;
  extras = record { routes = d.extra_routes; rules = d.extra_rules; nat = d.extra_nat };
  peers = map to_peer d.peers;
}

-- The tunnels of a device, or the single one of older panels.
unfoldable pub tunnels_of : Device → List Tunnel
tunnels_of d =
    if is_empty d.tunnels then elim d.vxlan [ none ↦ [] | some tunnel ↦ tunnel ∷ [] ] else d.tunnels

abbrev pub to_config : Device → Tunnel → Config
to_config d t = record {
  kind = t.kind;
  name = t.name;
  vni = t.vni;
  port = t.port;
  key = t.key;
  local_ip = t.local_ip;
  dev = t.dev;
  local = t.local;
  remote = t.remote;
  mtu = t.mtu;
  tunnel_mtu = d.mtu;
  routes = t.routes;
}

-- The loop over the tunnels of one device.
unfoldable pub configs_of : Device → List Tunnel → List Config
configs_of d [] = []
configs_of d (t ∷ tunnels) =
    let rest = configs_of d tunnels in if is_nil t.name then rest else to_config d t ∷ rest

unfoldable pub overlay_configs : List Device → List Config
unfolding tunnels_of configs_of
overlay_configs [] = []
overlay_configs (d ∷ devices) = configs_of d (tunnels_of d) ++ overlay_configs devices
