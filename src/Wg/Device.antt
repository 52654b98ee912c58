-- ===== src/Wg/Device.antt =====
-- wg/engine.go, the device: its link, its peers and its statistics. Keys, addresses, netlink and wgctrl
-- are parameters.
pub mod Peers
use exnode.Base.{
  ℕ, ◌*◌, String, Bool, true, false, ◌&&◌, not, ◌≡◌, List, [], ◌∷◌, ◌++◌, Option, none, some,
  if◌then◌else◌, contains, string_eq, is_empty, map,
}
use exnode.Base.Int.{ℤ, is_pos, to_nat, in_seconds}
use exnode.Text.{is_nil, trim_space, split}
use exnode.Wg.{Interface, Peer, PeerStat}

-- wgtypes.ParseKey and Key.String, net.ParseCIDR and netlink.ParseAddr
pub record Formats : Type 1 where
  pub Key : Type 0
  pub Net : Type 0
  pub Addr : Type 0
  pub parse_key : String → Option Key
  pub key_text : Key → String
  pub parse_net : String → Option Net
  pub parse_addr : String → Option Addr

-- wgtypes.PeerConfig, with ReplaceAllowedIPs set wherever Remove is not
pub record PeerConfig (Key Net : Type 0) : Type 0 where
  pub public_key : Key
  pub remove : Bool
  pub preshared_key : Option Key
  pub keepalive : Option ℤ
  pub allowed_ips : List Net

module _ (F : Formats) where
  abbrev pub Config : Type 0
  Config = PeerConfig F.Key F.Net

  parse_nets : List String → Option (List F.Net)
  parse_nets [] = some []
  parse_nets (raw ∷ parts) =
      let rest = parse_nets parts in
      let s = trim_space raw in
      if is_nil s then rest else elim (F.parse_net s) [
        | none ↦ none
        | some net ↦ elim rest [ none ↦ none | some nets ↦ some (net ∷ nets) ]
      ]

  -- parseCIDRList
  unfoldable pub parse_cidr_list : String → Option (List F.Net)
  unfolding parse_nets
  parse_cidr_list text = parse_nets (split text b',')

  abbrev keepalive_of : ℤ → Option ℤ
  keepalive_of seconds = if is_pos seconds then some (in_seconds (to_nat seconds)) else none

  -- A preshared key that is given and does not parse is an error.
  preshared_of : String → Option (Option F.Key)
  preshared_of text =
      if is_nil text
      then some none
      else elim (F.parse_key text) [ none ↦ none | some key ↦ some (some key) ]

  pub configured : Peer → F.Key → Option (List F.Net) → Option Config
  unfolding preshared_of
  configured p key none = none
  configured p key (some allowed) = elim (preshared_of p.preshared_key) [
    | none ↦ none
    | some psk ↦ some (record {
      public_key = key;
      remove = false;
      preshared_key = psk;
      keepalive = keepalive_of p.persistent_keepalive;
      allowed_ips = allowed;
    })
  ]

  unfoldable pub build_peer_config : Peer → Option Config
  unfolding configured
  build_peer_config p = elim (F.parse_key p.public_key) [
    | none ↦ none
    | some key ↦ configured p key (parse_cidr_list p.allowed_ips)
  ]

  -- The loop over the desired peers; it returns at the first error.
  unfoldable pub desired_configs : List Peer → Option (List Config)
  unfolding build_peer_config
  desired_configs [] = some []
  desired_configs (p ∷ peers) =
      let rest = desired_configs peers in
      elim (build_peer_config p) [
        | none ↦ none
        | some config ↦ elim rest [ none ↦ none | some configs ↦ some (config ∷ configs) ]
      ]

  abbrev removal : F.Key → Config
  removal key = record {
    public_key = key;
    remove = true;
    preshared_key = none;
    keepalive = none;
    allowed_ips = [];
  }

  abbrev removal_of : Option F.Key → List Config
  removal_of none = []
  removal_of (some key) = removal key ∷ []

  abbrev pub public_keys : List Peer → List String
  public_keys [] = []
  public_keys (p ∷ peers) = p.public_key ∷ public_keys peers

  -- The loop over the device's peers, by the text of their keys.
  unfoldable pub removals : List String → List String → List Config
  removals desired [] = []
  removals desired (key ∷ current) =
      let rest = removals desired current in
      if contains desired key then rest else removal_of (F.parse_key key) ++ rest

  -- What the device is configured with, from its own peers and the desired ones.
  unfoldable pub peer_delta : List F.Key → List Peer → Option (List Config)
  unfolding desired_configs removals
  peer_delta current peers = elim (desired_configs peers) [
    | none ↦ none
    | some configs ↦ some (configs ++ removals (public_keys peers) (map F.key_text current))
  ]
