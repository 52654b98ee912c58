-- ===== src/Tests/Engine.antt =====
-- engine and wg, the devices: runs and witnesses.
use exnode.Base.{
  sym, some_eq, String, Bool, true, false, ◌≡◌, refl, List, [], ◌∷◌, Option, none, some, contains,
  string_eq, map, ◌==◌,
}
use exnode.Base.Int.{ℤ, pos, in_seconds}
use exnode.Text.{trim_space, split}
use exnode.Host.Toy.{toy, Rules}
use exnode.Panel.{SyncResponse}
use exnode.Wg.{Peer}
use exnode.Wg.Device.{
  Formats, PeerConfig, build_peer_config, parse_cidr_list, desired_configs, removals, peer_delta,
  public_keys,
}
use exnode.Wg.Device.Peers.{peer_after, peer_delta_exact}
use exnode.Wg.Kernel.{Kernel}
use exnode.Engine.Controlled.{AnyEngine, is_singbox, engines, syncs, syncs_switch}
use exnode.Tests.Singbox.{processes, blank}
use exnode.Node.Control.{Controller, sync}
use exnode.Tests.Node.{device}
use exnode.Tests.Machine.{addresses, links, no_rules}

-- Keys are texts, and every text is one.
abbrev pub formats : Formats
formats = record {
  Key = String;
  Net = String;
  Addr = String;
  parse_key = λ s. some s;
  key_text = λ key. key;
  parse_net = λ s. some s;
  parse_addr = λ s. some s;
}

abbrev peer : Peer
peer = record {
  public_key = "b";
  preshared_key = "";
  allowed_ips = "10.8.0.2/32";
  persistent_keepalive = pos 25;
}

abbrev config : String → Bool → Option ℤ → List String → PeerConfig String String
config key gone keepalive nets = record {
  public_key = key;
  remove = gone;
  preshared_key = none;
  keepalive = keepalive;
  allowed_ips = nets;
}

abbrev delta : List (PeerConfig String String)
delta =
    config "b" false (some (pos 25000000000)) ("10.8.0.2/32" ∷ []) ∷ config "a" true none [] ∷ []

delta_made : peer_delta formats ("a" ∷ "b" ∷ []) (peer ∷ []) ≡ some delta
unfolding in_seconds peer_delta desired_configs build_peer_config parse_cidr_list removals contains
    trim_space split
delta_made = refl

peer_delta_exact_example :
    peer_after formats delta "a" (contains (map formats.key_text ("a" ∷ "b" ∷ [])) "a")
    ≡ contains (public_keys formats (peer ∷ [])) "a"
peer_delta_exact_example =
    peer_delta_exact formats (λ key. refl) (λ text key h. some_eq (sym h)) ("a" ∷ "b" ∷ [])
      (peer ∷ []) "a" delta_made

-- A kernel on which no link can be made.
abbrev broken : Kernel toy formats
broken = record {
  link_by_name = λ name s. false;
  link_add = λ name mtu s. (false, s);
  link_del = λ name s. (false, s);
  addr_replace = λ name addr s. (false, s);
  link_set_up = λ name s. (false, s);
  client = λ s. true;
  configure_device = λ name key port s. (false, s);
  configure_peers = λ name configs s. (false, s);
  device = λ name s. none;
}

abbrev fresh : Controller AnyEngine
fresh = record {
  engine = none;
  engine_type = "";
  rev_known = false;
  revision = 0;
  desired = [];
  vxlan = [];
  extras = [];
}

-- The panel asks for the kernel engine, does not answer, and then asks for sing-box.
abbrev answers : List (Option SyncResponse)
answers = some (record { config_revision = 4; engine = ""; interfaces = device ∷ [] }) ∷ none ∷ []

abbrev switch : SyncResponse
switch = record { config_revision = 5; engine = "singbox"; interfaces = [] }

abbrev before : Controller AnyEngine × Rules
before = syncs toy addresses links formats broken processes blank answers fresh no_rules

abbrev after : Controller AnyEngine
after =
    (sync toy addresses links (engines toy addresses links formats broken processes blank)
      (some switch) before.0 before.1).0

syncs_switch_example :
    (e : AnyEngine) × (after.engine ≡ some e) × (is_singbox e ≡ (switch.engine == "singbox"))
syncs_switch_example =
    syncs_switch toy addresses links formats broken processes blank answers switch fresh no_rules
      refl
