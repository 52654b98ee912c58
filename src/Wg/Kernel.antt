-- ===== src/Wg/Kernel.antt =====
-- wg/engine.go, the operations on a WireGuard device through netlink and wgctrl.
pub mod LinkTable
pub mod Made
use exnode.Base.{
  ℕ, String, Bool, true, false, List, [], ◌∷◌, Option, none, some, if◌then◌else◌, is_empty,
}
use exnode.Base.Int.{ℤ, is_pos, to_nat}
use exnode.Host.{Host}
use exnode.Wg.{Interface, PeerStat}
use exnode.Wg.Device.{Formats, Config, peer_delta}

-- A peer as wgctrl reports it; `none` for the zero time and for no endpoint.
pub record DevicePeer (Key : Type 0) : Type 0 where
  pub public_key : Key
  pub last_handshake : Option ℕ
  pub receive_bytes : ℤ
  pub transmit_bytes : ℤ
  pub endpoint : Option String

-- The calls of netlink and wgctrl, on links by their names; `true` is no error.
pub record Kernel (H : Host) (F : Formats) : Type 0 where
  pub link_by_name : String → H.State → Bool
  -- LinkAdd of a WireGuard link, with an MTU or the default
  pub link_add : String → Option ℕ → H.State → Bool × H.State
  pub link_del : String → H.State → Bool × H.State
  pub addr_replace : String → F.Addr → H.State → Bool × H.State
  pub link_set_up : String → H.State → Bool × H.State
  -- wgctrl.New
  pub client : H.State → Bool
  -- ConfigureDevice with a private key and a port, and with peers
  pub configure_device : String → F.Key → ℤ → H.State → Bool × H.State
  pub configure_peers : String → List (Config F) → H.State → Bool × H.State
  pub device : String → H.State → Option (List (DevicePeer F.Key))

module _ (H : Host) (F : Formats) (K : Kernel H F) where
  addressed : String → Option F.Addr → H.State → Bool × H.State
  addressed name none s = (false, s)
  addressed name (some addr) s =
      let (assigned, s₁) = K.addr_replace name addr s in
      let up = K.link_set_up name s₁ in if assigned then up else (false, s₁)

  unfoldable pub ensure_link : String → String → ℤ → H.State → Bool × H.State
  unfolding addressed
  ensure_link name address mtu s =
      let (made, s₁) =
        if K.link_by_name name s
        then (true, s)
        else K.link_add name (if is_pos mtu then some (to_nat mtu) else none) s in
      let rest = addressed name (F.parse_addr address) s₁ in if made then rest else (false, s₁)

  unfoldable pub remove_link : String → H.State → Bool × H.State
  remove_link name s = if K.link_by_name name s then K.link_del name s else (true, s)

  keys_of : List (DevicePeer F.Key) → List F.Key
  keys_of [] = []
  keys_of (p ∷ peers) = p.public_key ∷ keys_of peers

  -- The peers are configured unless there is nothing to change.
  delta_applied : String → Option (List (Config F)) → H.State → Bool × H.State
  delta_applied name none s = (false, s)
  delta_applied name (some configs) s =
      if is_empty configs then (true, s) else K.configure_peers name configs s

  peers_set : Interface → Option (List (DevicePeer F.Key)) → H.State → Bool × H.State
  unfolding keys_of delta_applied
  peers_set i none s = (false, s)
  peers_set i (some current) s = delta_applied i.name (peer_delta F (keys_of current) i.peers) s

  keyed : Interface → Option F.Key → H.State → Bool × H.State
  unfolding peers_set
  keyed i none s = (false, s)
  keyed i (some key) s =
      let (set, s₁) = K.configure_device i.name key i.listen_port s in
      let rest = peers_set i (K.device i.name s₁) s₁ in
      if K.client s then (if set then rest else (false, s₁)) else (false, s)

  -- Reconcile
  unfoldable pub reconcile : Interface → H.State → Bool × H.State
  unfolding ensure_link keyed
  reconcile i s =
      let (linked, s₁) = ensure_link i.name i.address i.mtu s in
      let rest = keyed i (F.parse_key i.private_key) s₁ in if linked then rest else (false, s₁)

  stat_of : DevicePeer F.Key → PeerStat
  stat_of p = record {
    public_key = F.key_text p.public_key;
    last_handshake = p.last_handshake;
    rx_bytes = p.receive_bytes;
    tx_bytes = p.transmit_bytes;
    endpoint = elim p.endpoint [ none ↦ "" | some e ↦ e ];
  }

  stats_of : List (DevicePeer F.Key) → List PeerStat
  unfolding stat_of
  stats_of [] = []
  stats_of (p ∷ peers) = stat_of p ∷ stats_of peers

  unfoldable pub device_stats : String → H.State → Option (List PeerStat)
  unfolding stats_of
  device_stats name s =
      if K.client s
      then elim (K.device name s) [ none ↦ none | some peers ↦ some (stats_of peers) ]
      else none
