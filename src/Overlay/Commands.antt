-- ===== src/Overlay/Commands.antt =====
-- overlay/overlay.go: the argument lists of the ip and iptables commands, and the reading of their
-- output.
pub mod Specs
use exnode.Base.{
  String, Bool, true, false, ◌&&◌, ◌||◌, not, List, [], ◌∷◌, ◌++◌, if◌then◌else◌, ◌==◌, string_eq,
  all,
}
use exnode.Base.Int.{is_pos, below}
use exnode.Text.{◌<>◌, is_nil, trim_space, has_infix, join, itoa}
use exnode.Text.Fields.{fields}
use exnode.Overlay.{Config, kind, kind_vxlan, kind_gre}

unfoldable pub route_args : String → List String
route_args spec = "route" ∷ "replace" ∷ fields spec

unfoldable pub route_del_args : String → List String
route_del_args spec = "route" ∷ "del" ∷ fields spec

-- RouteDev: the field behind the first `dev` that has one
dev_of : List String → String
dev_of [] = ""
dev_of (f ∷ []) = ""
dev_of (f ∷ next ∷ rest) = let more = dev_of (next ∷ rest) in if f == "dev" then next else more

unfoldable pub route_dev : String → String
unfolding dev_of
route_dev text = dev_of (fields text)

-- `args = append(args, word, value)` under a test
abbrev opt : Bool → String → String → List String
opt test word value = if test then word ∷ value ∷ [] else []

tunnel_args : Config → String → List String
tunnel_args c k =
    ("tunnel" ∷ "add" ∷ c.name ∷ "mode" ∷ k ∷ [])
    ++ (opt (not (is_nil c.remote)) "remote" c.remote
        ++ (opt (not (is_nil c.local_ip)) "local" c.local_ip
            ++ (opt (not (is_nil c.dev)) "dev" c.dev
                ++ opt (k == kind_gre && is_pos c.key) "key" (itoa c.key))))

vxlan_args : Config → List String
vxlan_args c =
    ("link" ∷ "add" ∷ c.name ∷ "type" ∷ "vxlan" ∷ "id" ∷ itoa c.vni ∷ [])
    ++ (opt (not (is_nil c.local_ip)) "local" c.local_ip
        ++ (opt (not (is_nil c.remote)) "remote" c.remote
            ++ (opt (not (is_nil c.dev)) "dev" c.dev
                ++ opt (is_pos c.port) "dstport" (itoa c.port))))

unfoldable pub add_args : Config → List String
unfolding kind tunnel_args vxlan_args
add_args c = if kind c == kind_vxlan then vxlan_args c else tunnel_args c (kind c)

-- What the output for an ipip or gre link must show; a guard that fails is an early return.
tunnel_matches : String → Config → String → Bool
tunnel_matches show c k =
    has_infix show ("link/" <> k)
    && (is_nil c.remote || has_infix show (k <> " remote " <> c.remote))
    && (is_nil c.local_ip || has_infix show ("local " <> c.local_ip))
    && (is_nil c.dev
        || (not (has_infix show "local any")
            && not (has_infix show "dev " && not (has_infix show ("dev " <> c.dev)))))
    && not (k == kind_gre && is_pos c.key && not (has_infix show ("key " <> itoa c.key)))

abbrev want : Bool → String → List String
want test text = if test then text ∷ [] else []

vxlan_checks : Config → List String
vxlan_checks c =
    ("vxlan id " <> itoa c.vni <> " ")
    ∷ (want (not (is_nil c.remote)) ("remote " <> c.remote)
        ++ (want (is_pos c.port) ("dstport " <> itoa c.port)
            ++ (want (not (is_nil c.dev)) ("dev " <> c.dev)
                ++ want (not (is_nil c.local_ip)) ("local " <> c.local_ip))))

unfoldable pub matches : String → Config → Bool
unfolding kind tunnel_matches vxlan_checks
matches show c =
    if is_nil (trim_space show)
    then false
    else if kind c == kind_vxlan
    then all (has_infix show) (vxlan_checks c)
    else tunnel_matches show c (kind c)

unfoldable pub fw_specs : Config → List (List String)
fw_specs c =
    ("-p" ∷ "4" ∷ [])
    ∷ ("-p" ∷ "47" ∷ [])
    ∷ (if is_nil c.name then [] else ("-i" ∷ c.name ∷ []) ∷ [])

unfoldable pub forward_specs : String → List (List String)
forward_specs name = if is_nil name then [] else ("-i" ∷ name ∷ []) ∷ ("-o" ∷ name ∷ []) ∷ []

-- Whether a link is worth building.
unfoldable pub applicable : Config → Bool
unfolding kind
applicable c =
    not (is_nil c.name || is_nil (trim_space c.local))
    && not (kind c == kind_vxlan && below c.vni 1)

-- The match spec that a line of `iptables -S` documents, "" for any other line.
unfoldable pub spec_of : List String → String
spec_of (a ∷ chain ∷ f ∷ rest) = if a == "-A" then join (f ∷ rest) " " else ""
spec_of _ = ""

unfoldable pub rule_spec : String → String
unfolding spec_of
rule_spec line = spec_of (fields line)
