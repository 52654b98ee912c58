-- ===== src/Wg/Kernel/Made.antt =====
-- wg/engine.go, on the machine's links: Reconcile makes the link of its interface and no other, and
-- RemoveLink removes the link of its name and no other.
use exnode.Base.{
  String, Bool, ◌&&◌, ◌||◌, not, ◌≡◌, refl, sym, ◌∙◌, List, Option, none, some, if◌then◌else◌, ◌==◌,
  string_eq, Bool-cases, inl, inr, arith, beq→eq,
}
use exnode.Base.Int.{is_pos, to_nat}
use exnode.Host.{Host}
use exnode.Wg.{Interface}
use exnode.Wg.Device.{Formats, Config, peer_delta}
use exnode.Wg.Kernel.{
  Kernel, DevicePeer, addressed, ensure_link, remove_link, keys_of, delta_applied, peers_set, keyed,
  reconcile,
}
use exnode.Wg.Kernel.LinkTable.{LinkTable}

module _ (H : Host) (F : Formats) (K : Kernel H F) (T : LinkTable H F K) (t : String) where
  abbrev linked : H.State → Bool
  linked s = K.link_by_name t s

  pub remove_link-links :
      (name : String) (s : H.State)
      → linked (remove_link H F K name s).1 ≡ (linked s && not (name == t))
  unfolding remove_link
  remove_link-links name s = elim (Bool-cases (K.link_by_name name s)) [
    | inl here ↦ rw here (T.deleted name s t here)
    | inr gone ↦ rw gone (elim (Bool-cases (name == t)) [
      | inl same ↦ rw (sym (beq→eq name t same), gone) refl
      | inr other ↦ rw other (ground arith)
    ])
  ]

  -- Whether a link is made for an interface.
  abbrev makes : Interface → H.State → Bool
  makes i s =
      not (K.link_by_name i.name s)
      && (K.link_add i.name (if is_pos i.mtu then some (to_nat i.mtu) else none) s).0

  addressed_same :
      (name : String) (a : Option F.Addr) (s : H.State)
      → linked (addressed H F K name a s).1 ≡ linked s
  unfolding addressed
  addressed_same name none s = refl
  addressed_same name (some a) s =
      ground (arith, T.addr_same name a s t, T.up_same name (K.addr_replace name a s).1 t)

  delta_same :
      (name : String) (configs : Option (List (Config F))) (s : H.State)
      → linked (delta_applied H F K name configs s).1 ≡ linked s
  unfolding delta_applied
  delta_same name none s = refl
  delta_same name (some configs) s = ground (arith, T.peers_same name configs s t)

  peers_set_same :
      (i : Interface) (current : Option (List (DevicePeer F.Key))) (s : H.State)
      → linked (peers_set H F K i current s).1 ≡ linked s
  unfolding peers_set
  peers_set_same i none s = refl
  peers_set_same i (some current) s =
      delta_same i.name (peer_delta F (keys_of H F K current) i.peers) s

  keyed_same :
      (i : Interface) (key : Option F.Key) (s : H.State) → linked (keyed H F K i key s).1 ≡ linked s
  unfolding keyed
  keyed_same i none s = refl
  keyed_same i (some key) s =
      let s₁ = (K.configure_device i.name key i.listen_port s).1 in
      ground (
        arith,
        T.device_same i.name key i.listen_port s t,
        peers_set_same i (K.device i.name s₁) s₁,
      )

  ensured-links :
      (i : Interface) (s : H.State)
      → linked (ensure_link H F K i.name i.address i.mtu s).1
        ≡ (linked s || (makes i s && i.name == t))
  unfolding ensure_link
  ensured-links i s =
      let size = if is_pos i.mtu then some (to_nat i.mtu) else none in
      let s₁ = (K.link_add i.name size s).1 in
      elim (Bool-cases (K.link_by_name i.name s)) [
        | inl here ↦ rw here (addressed_same i.name (F.parse_addr i.address) s ∙ ground arith)
        | inr absent ↦ rw absent (
            ground
              (arith, T.added i.name size s t, addressed_same i.name (F.parse_addr i.address) s₁))
      ]

  pub reconcile-links :
      (i : Interface) (s : H.State)
      → linked (reconcile H F K i s).1 ≡ (linked s || (makes i s && i.name == t))
  unfolding reconcile
  reconcile-links i s =
      let s₁ = (ensure_link H F K i.name i.address i.mtu s).1 in
      ground (arith, ensured-links i s, keyed_same i (F.parse_key i.private_key) s₁)
