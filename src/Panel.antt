-- ===== src/Panel.antt =====
-- panel/client.go, the messages: what the panel answers to a heartbeat and to a sync.
pub mod Client
use exnode.Base.{ℕ, String, Bool, List, Option}
use exnode.Base.Int.{ℤ}

-- VXLAN: one overlay link that the panel wants on the node.
pub record Tunnel : Type 0 where
  pub kind : String
  pub name : String
  pub vni : ℤ
  pub port : ℤ
  pub local_ip : String
  pub key : ℤ
  pub mtu : ℤ
  pub dev : String
  pub local : String
  pub remote : String
  pub routes : List String

pub record Member : Type 0 where
  pub public_key : String
  pub preshared_key : String
  pub allowed_ips : String
  pub persistent_keepalive : ℤ

-- Interface, as the panel sends it
pub record Device : Type 0 where
  pub name : String
  pub private_key : String
  pub listen_port : ℤ
  pub address : String
  pub mtu : ℤ
  pub masquerade : Bool
  pub egress_interface : String
  pub nat_subnets : String
  pub policy_routes : String
  pub extra_routes : List String
  pub extra_rules : List String
  pub extra_nat : List String
  pub peers : List Member
  pub tunnels : List Tunnel
  pub vxlan : Option Tunnel

pub record UpgradeDirective : Type 0 where
  pub version : String
  pub url : String

pub record HeartbeatResponse : Type 0 where
  pub config_revision : ℕ
  pub upgrade : Option UpgradeDirective
  pub restart : Bool

pub record SyncResponse : Type 0 where
  pub config_revision : ℕ
  pub engine : String
  pub interfaces : List Device

pub record StatusPeer : Type 0 where
  pub public_key : String
  pub last_handshake : Option ℕ
  pub rx_bytes : ℤ
  pub tx_bytes : ℤ
  pub endpoint : String

pub record HeartbeatRequest : Type 0 where
  pub agent_version : String
  pub os : String
  pub arch : String
  pub upgrade_error : String
  pub primary_interface : String
  pub binary_path : String
  pub pid : ℤ
  pub started_at : ℤ
