-- ===== src/Wg/Network.antt =====
-- What the program takes from Go's net package and from netlink: addresses, and the answers of one
-- look at the links, addresses and routes of the machine.
use exnode.Base.{ℕ, String, Bool, List, Option, ◌≡◌, ◌∷◌}
use exnode.Host.{Host}

pub record Addresses : Type 1 where
  pub Ip : Type 0
  -- net.ParseIP and IP.Equal
  pub parse_ip : String → Option Ip
  pub ip_equal : Ip → Ip → Bool
  pub is_unspecified : Ip → Bool
  -- net.ParseCIDR, the network printed by IPNet.String
  pub parse_cidr : String → Option String

-- A route of the routing table: no destination, or one, and the index of its link.
pub record Route (Ip : Type 0) : Type 0 where
  pub dst : Option Ip
  pub link_index : ℕ

-- `none` is an error of the call.
pub record Netlink (Ip : Type 0) : Type 0 where
  pub link_list : Option (List String)
  pub addr_list : String → Option (List Ip)
  pub route_list : Option (List (Route Ip))
  pub link_by_index : ℕ → Option String

-- A machine's links and routes; neither iptables nor a write to a file changes them.
pub record Links (H : Host) (A : Addresses) : Type 0 where
  pub view : H.State → Netlink A.Ip
  pub iptables_same :
      (args : List String) (s : H.State) → view (H.run ("iptables" ∷ args) s).after ≡ view s
  pub write_same : (path text : String) (s : H.State) → view (H.write_file path text s).1 ≡ view s
