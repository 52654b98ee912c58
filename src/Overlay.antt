-- ===== src/Overlay.antt =====
-- overlay/overlay.go, the part that computes: the links that the panel asks for, their commands,
-- and the plan from one set of links to the next.
pub mod Commands
pub mod Apply
pub mod Check
pub mod Plan
pub mod Sizes
use exnode.Base.{
  ℕ, ◌-◌, String, Bool, true, false, ◌&&◌, ◌||◌, not, List, [], ◌∷◌, ◌++◌, Option, none, some, keep,
  contains, if◌then◌else◌, ◌==◌, string_eq, ltb,
}
use exnode.Base.Int.{ℤ, pos, negsuc, is_pos, to_nat}
use exnode.Text.{is_nil}

pub record Config : Type 0 where
  pub kind : String
  pub name : String
  pub vni : ℤ
  pub port : ℤ
  pub key : ℤ
  pub local_ip : String
  pub dev : String
  pub local : String
  pub remote : String
  pub mtu : ℤ
  pub tunnel_mtu : ℤ
  pub routes : List String

abbrev pub vxlan_overhead : ℕ
vxlan_overhead = 50

abbrev pub kind_vxlan : String
kind_vxlan = "vxlan"

abbrev pub kind_ipip : String
kind_ipip = "ipip"

abbrev pub kind_gre : String
kind_gre = "gre"

-- The normalised kind: anything but ipip and gre means vxlan.
unfoldable pub kind : Config → String
kind c = if c.kind == kind_ipip || c.kind == kind_gre then c.kind else kind_vxlan

unfoldable pub overhead : Config → ℕ
unfolding kind
overhead c = if kind c == kind_ipip then 20 else if kind c == kind_gre then 24 else vxlan_overhead

-- `c.TunnelMTU - o`, when that is above 0, and 0 for "leave the kernel default"
abbrev pub sized : ℤ → ℕ → ℕ
sized (pos t) o = if ltb o t then t - o else 0
sized (negsuc t) o = 0

unfoldable pub link_mtu : Config → ℕ
link_mtu c = if is_pos c.mtu then to_nat c.mtu else sized c.tunnel_mtu (overhead c)

-- The routes of the last configuration of a name, which is what the map of a name holds.
unfoldable pub wanted : List Config → String → Option (List String)
wanted [] name = none
wanted (c ∷ next) name = elim (wanted next name) [
  | some routes ↦ some routes
  | none ↦ if c.name == name then some c.routes else none
]

-- Go's map is a set here: a route that stands twice in `prev` is listed twice.
abbrev pub stale_of : List String → Option (List String) → List String
stale_of routes none = []
stale_of routes (some set) = keep (λ r. not (contains set r)) routes

unfoldable pub stale_routes : List Config → List Config → List String
unfolding wanted
stale_routes [] next = []
stale_routes (c ∷ prev) next = stale_of c.routes (wanted next c.name) ++ stale_routes prev next

abbrev pub has_name : Config → Bool
has_name c = not (is_nil c.name)

abbrev pub names : List Config → List String
names [] = []
names (c ∷ cs) = c.name ∷ names cs

-- The links to delete, by name, and those to put in place.
unfoldable pub plan : List Config → List Config → List String × List Config
plan prev next =
    let kept = names (keep has_name next) in
    (keep (λ name. not (contains kept name)) (names (keep has_name prev)), keep has_name next)
