-- ===== src/Wg.antt =====
-- wg/engine.go: the desired state of one WireGuard device and its peers.
pub mod Network
pub mod Rules
pub mod Nat
pub mod Policy
pub mod Device
pub mod Kernel
use exnode.Base.{ℕ, String, Bool, List, Option}
use exnode.Base.Int.{ℤ}
use exnode.Extras.{Extras}

pub record Peer : Type 0 where
  pub public_key : String
  pub preshared_key : String
  pub allowed_ips : String
  pub persistent_keepalive : ℤ

pub record Interface : Type 0 where
  pub name : String
  pub private_key : String
  pub listen_port : ℤ
  pub address : String
  pub mtu : ℤ
  pub masquerade : Bool
  pub egress_interface : String
  pub nat_subnets : String
  pub policy_routes : String
  pub extras : Extras
  pub peers : List Peer

-- A snapshot of one peer, as the kernel reports it; `none` for the zero time.
pub record PeerStat : Type 0 where
  pub public_key : String
  pub last_handshake : Option ℕ
  pub rx_bytes : ℤ
  pub tx_bytes : ℤ
  pub endpoint : String
