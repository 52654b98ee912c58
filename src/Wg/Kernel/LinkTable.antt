-- ===== src/Wg/Kernel/LinkTable.antt =====
-- What is relied on of netlink, iptables and ip, as far as the machine's links are concerned.
use exnode.Base.{
  ℕ, String, true, ◌&&◌, ◌||◌, not, ◌≡◌, List, [], ◌∷◌, Option, ◌==◌, string_eq, contains,
}
use exnode.Base.Int.{ℤ}
use exnode.Host.{Host}
use exnode.Wg.Device.{Formats, Config}
use exnode.Wg.Kernel.{Kernel}

-- What netlink documents of the links. LinkAdd either makes the link of its name or changes nothing;
-- LinkDel of a link that stands there removes it and no other (the agent runs as root); addresses,
-- keys and peers, iptables, a write to a file, and `ip rule` and `ip route` leave the links as they are.
pub record LinkTable (H : Host) (F : Formats) (K : Kernel H F) : Type 0 where
  pub added :
      (name : String) (mtu : Option ℕ) (s : H.State) (t : String)
      → K.link_by_name t (K.link_add name mtu s).1
        ≡ (K.link_by_name t s || ((K.link_add name mtu s).0 && name == t))
  pub deleted :
      (name : String) (s : H.State) (t : String)
      → K.link_by_name name s ≡ true
      → K.link_by_name t (K.link_del name s).1 ≡ (K.link_by_name t s && not (name == t))
  pub addr_same :
      (name : String) (a : F.Addr) (s : H.State) (t : String)
      → K.link_by_name t (K.addr_replace name a s).1 ≡ K.link_by_name t s
  pub up_same :
      (name : String) (s : H.State) (t : String)
      → K.link_by_name t (K.link_set_up name s).1 ≡ K.link_by_name t s
  pub device_same :
      (name : String) (key : F.Key) (port : ℤ) (s : H.State) (t : String)
      → K.link_by_name t (K.configure_device name key port s).1 ≡ K.link_by_name t s
  pub peers_same :
      (name : String) (configs : List (Config F)) (s : H.State) (t : String)
      → K.link_by_name t (K.configure_peers name configs s).1 ≡ K.link_by_name t s
  pub iptables_same :
      (args : List String) (s : H.State) (t : String)
      → K.link_by_name t (H.run ("iptables" ∷ args) s).after ≡ K.link_by_name t s
  pub ip_same :
      (object : String) (args : List String) (s : H.State) (t : String)
      → contains ("rule" ∷ "route" ∷ []) object ≡ true
      → K.link_by_name t (H.run ("ip" ∷ object ∷ args) s).after ≡ K.link_by_name t s
  pub write_same :
      (path text : String) (s : H.State) (t : String)
      → K.link_by_name t (H.write_file path text s).1 ≡ K.link_by_name t s
