-- ===== src/Engine.antt =====
-- engine/kernel.go: the engine that drives the kernel's WireGuard devices.
pub mod Controlled
pub mod Managed
pub mod Removed
pub mod Rendered
pub mod Singbox
pub mod Untouched
use exnode.Base.{
  String, Bool, true, false, List, [], ◌∷◌, ◌++◌, Option, none, some, if◌then◌else◌, ◌==◌,
  string_eq, contains,
}
use exnode.Base.Int.{ℤ, pos}
use exnode.Host.{Host}
use exnode.Host.Loops.{each}
use exnode.Extras.{no_extras}
use exnode.Wg.{Interface, PeerStat}
use exnode.Wg.Network.{Addresses, Links}
use exnode.Wg.Nat.{reconcile_nat, teardown_nat}
use exnode.Wg.Policy.{reconcile_policy_routes, remove_policy_routes}
use exnode.Wg.Device.{Formats}
use exnode.Wg.Kernel.{Kernel, reconcile, remove_link, device_stats}

-- The map from names to the interfaces applied last: a later entry of a name overrides it.
abbrev pub Managed : Type 0
Managed = List Interface

-- `wg.Interface{}`, which Go's map gives for a name that it does not hold
abbrev pub no_interface : Interface
no_interface = record {
  name = "";
  private_key = "";
  listen_port = pos 0;
  address = "";
  mtu = pos 0;
  masquerade = false;
  egress_interface = "";
  nat_subnets = "";
  policy_routes = "";
  extras = no_extras;
  peers = [];
}

unfoldable pub find : String → Managed → Option Interface
find name [] = none
find name (i ∷ managed) = elim (find name managed) [
  | some later ↦ some later
  | none ↦ if i.name == name then some i else none
]

abbrev pub old_of : String → Managed → Interface
old_of name managed = elim (find name managed) [ none ↦ no_interface | some i ↦ i ]

abbrev pub interface_names : List Interface → List String
interface_names [] = []
interface_names (i ∷ ifaces) = i.name ∷ interface_names ifaces

-- The entries of the map: each name with the interface that it holds.
unfoldable pub entries : Managed → List Interface
entries [] = []
entries (i ∷ managed) =
    let rest = entries managed in
    if contains (interface_names managed) i.name then rest else i ∷ rest

stale_in : List String → List Interface → List Interface
stale_in desired [] = []
stale_in desired (i ∷ managed) =
    let rest = stale_in desired managed in if contains desired i.name then rest else i ∷ rest

-- The managed interfaces that are desired no more.
unfoldable pub stale : Managed → List Interface → List Interface
unfolding entries stale_in
stale managed desired = stale_in (interface_names desired) (entries managed)

module _ (H : Host) (A : Addresses) (L : Links H A) (F : Formats) (K : Kernel H F) where
  apply_one : Managed → Interface → H.State → H.State
  apply_one managed i s =
      let old = old_of i.name managed in
      let s₁ = (reconcile H F K i s).1 in
      let s₂ = (reconcile_nat H A L old i s₁).1 in
      reconcile_policy_routes H old.policy_routes i.policy_routes s₂

  remove_one : Interface → H.State → H.State
  remove_one old s =
      let s₁ = remove_policy_routes H old.policy_routes s in
      let s₂ = (teardown_nat H A L old s₁).1 in (remove_link H F K old.name s₂).1

  -- Apply; the managed interfaces become the desired ones. Every error is logged and passed over.
  unfoldable pub apply : List Interface → Managed → H.State → Bool × Managed × H.State
  unfolding apply_one remove_one stale
  apply desired managed s =
      (true, desired, each remove_one (stale managed desired) (each (apply_one managed) desired s))

  one_stat : Option (List PeerStat) → List PeerStat
  one_stat none = []
  one_stat (some stats) = stats

  collect : List Interface → H.State → List PeerStat
  unfolding one_stat
  collect [] s = []
  collect (i ∷ managed) s = one_stat (device_stats H F K i.name s) ++ collect managed s

  -- Stats; a device that cannot be read is passed over.
  unfoldable pub stats : Managed → H.State → List PeerStat
  unfolding collect entries
  stats managed s = collect (entries managed) s
