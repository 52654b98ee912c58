-- ===== src/Engine/Rendered.antt =====
-- engine/singbox.go: the configuration that sing-box is given.
use exnode.Base.{String, Bool, List, [], ◌∷◌, Option, none, some, nat_eq, if◌then◌else◌, string_eq}
use exnode.Base.Int.{ℤ, is_pos}
use exnode.Text.{◌<>◌, is_nil, trim_space, split}
use exnode.Conf.{SingboxConfig}
use exnode.Wg.{Interface, Peer}

trimmed_parts : List String → List String
trimmed_parts [] = []
trimmed_parts (p ∷ parts) =
    let rest = trimmed_parts parts in let s = trim_space p in if is_nil s then rest else s ∷ rest

-- splitCIDRs
unfoldable pub split_cidrs : String → List String
unfolding trimmed_parts
split_cidrs text = trimmed_parts (split text b',')

-- The configuration of sing-box; `none` for a field that is left out. Its outbound and its route are
-- the same for all.
pub record RenderedPeer : Type 0 where
  pub public_key : String
  pub allowed_ips : List String
  pub pre_shared_key : Option String
  pub persistent_keepalive_interval : Option ℤ

pub record Endpoint : Type 0 where
  pub tag : String
  pub system : Bool
  pub name : String
  pub listen_port : ℤ
  pub address : List String
  pub private_key : String
  pub peers : List RenderedPeer
  pub mtu : Option ℤ

pub record Rendered : Type 0 where
  pub level : String
  pub endpoints : List Endpoint

abbrev positive : ℤ → Option ℤ
positive n = if is_pos n then some n else none

rendered_peers : List Peer → List RenderedPeer
rendered_peers [] = []
rendered_peers (p ∷ peers) =
    record {
      public_key = p.public_key;
      allowed_ips = split_cidrs p.allowed_ips;
      pre_shared_key = if is_nil p.preshared_key then none else some p.preshared_key;
      persistent_keepalive_interval = positive p.persistent_keepalive;
    }
    ∷ rendered_peers peers

endpoints_of : Bool → List Interface → List Endpoint
unfolding rendered_peers
endpoints_of system [] = []
endpoints_of system (i ∷ ifaces) =
    record {
      tag = "ep-" <> i.name;
      system = system;
      name = i.name;
      listen_port = i.listen_port;
      address = split_cidrs i.address;
      private_key = i.private_key;
      peers = rendered_peers i.peers;
      mtu = positive i.mtu;
    }
    ∷ endpoints_of system ifaces

-- render, before json.MarshalIndent
unfoldable pub render : SingboxConfig → List Interface → Rendered
unfolding endpoints_of
render cfg ifaces = record { level = cfg.log_level; endpoints = endpoints_of cfg.system ifaces }
