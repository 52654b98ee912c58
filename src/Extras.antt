-- ===== src/Extras.antt =====
-- extras/extras.go: the operator's custom routes, ip rules and NAT entries, and how a line is read.
pub mod Parsed
pub mod Apply
pub mod Entries
pub mod Called
pub mod Spellings
pub mod Asked
use exnode.Base.{
  String, Bool, true, false, ◌&&◌, ◌||◌, not, List, [], ◌∷◌, Option, none, some, if◌then◌else◌,
  ◌==◌, string_eq, nat_eq, list_eq, is_empty, contains,
}
use exnode.Text.{◌<>◌, is_nil, trim_space, has_prefix, trim_prefix, upper_codes, codes}
use exnode.Text.Fields.{fields}

pub record Extras : Type 0 where
  pub routes : List String
  pub rules : List String
  pub nat : List String

abbrev pub no_extras : Extras
no_extras = record { routes = []; rules = []; nat = [] }

unfoldable pub is_zero : Extras → Bool
is_zero e = is_empty e.routes && is_empty e.rules && is_empty e.nat

unfoldable pub normalize_lines : List String → List String
normalize_lines [] = []
normalize_lines (l ∷ lines) =
    let rest = normalize_lines lines in
    let l' = trim_space l in if is_nil l' || has_prefix l' "#" then rest else l' ∷ rest

strip_first : String → List String → String
strip_first line [] = line
strip_first line (p ∷ prefixes) =
    let rest = strip_first line prefixes in
    if has_prefix line (p <> " ") then trim_space (trim_prefix line p) else rest

unfoldable pub strip_prefix : String → List String → String
unfolding strip_first
strip_prefix line prefixes = strip_first (trim_space line) prefixes

abbrev route_prefixes : List String
route_prefixes =
    "ip route add" ∷ "ip route replace" ∷ "ip -4 route add" ∷ "ip -4 route replace" ∷ "ip route"
    ∷ "ip -4 route" ∷ []

-- The tests on `len(f)` are the patterns.
pub route_argv : List String → Option (List String)
route_argv (dst ∷ via ∷ gateway ∷ []) =
    if via == "via" then some ("route" ∷ "replace" ∷ dst ∷ "via" ∷ gateway ∷ []) else none
route_argv (dst ∷ via ∷ gateway ∷ word ∷ table ∷ []) =
    if via == "via" && word == "table"
    then some ("route" ∷ "replace" ∷ dst ∷ "via" ∷ gateway ∷ "table" ∷ table ∷ [])
    else none
route_argv _ = none

-- ParseRouteLine; `none` is an error.
unfoldable pub parse_route_line : String → Option (List String)
unfolding route_argv
parse_route_line line = route_argv (fields (strip_prefix line route_prefixes))

abbrev rule_prefixes : List String
rule_prefixes = "ip rule add" ∷ "ip -4 rule add" ∷ "ip rule" ∷ "ip -4 rule" ∷ []

-- The loop over the fields: each keyword takes the next field as its value. `none` is an error, and
-- a result says whether there was a lookup.
pub rule_words : List String → Bool → Option Bool
rule_words [] has_lookup = some has_lookup
rule_words (word ∷ []) has_lookup = none
rule_words (word ∷ value ∷ rest) has_lookup =
    let later = rule_words rest (has_lookup || word == "lookup") in
    if word == "from" || word == "to" || word == "lookup" || word == "priority" then later else none

abbrev pub starts_from : List String → Bool
starts_from (a ∷ b ∷ c ∷ rest) = a == "from"
starts_from _ = false

abbrev pub if_lookup : List String → Option Bool → Option (List String)
if_lookup f none = none
if_lookup f (some has_lookup) = if has_lookup then some f else none

pub rule_argv : List String → Option (List String)
unfolding rule_words
rule_argv f = if starts_from f then if_lookup f (rule_words f false) else none

-- ParseRuleLine
unfoldable pub parse_rule_line : String → Option (List String)
unfolding rule_argv
parse_rule_line line = rule_argv (fields (strip_prefix line rule_prefixes))

abbrev nat_prefixes : List String
nat_prefixes =
    "iptables -t nat -A POSTROUTING" ∷ "iptables -A POSTROUTING -t nat"
    ∷ "iptables -t nat -I POSTROUTING" ∷ "iptables -t nat -A" ∷ "iptables -t nat" ∷ []

abbrev pub allowed : List String
allowed =
    "-s" ∷ "--source" ∷ "-d" ∷ "--destination" ∷ "-o" ∷ "--out-interface" ∷ "-p" ∷ "--protocol"
    ∷ "--dport" ∷ "--sport" ∷ "-j" ∷ "--to-source" ∷ []

abbrev pub good_target : String → Bool
good_target target = upper_codes target == codes "MASQUERADE" || upper_codes target == codes "SNAT"

-- The loop over the fields: each option of the list takes the next field as its value.
pub nat_words : List String → Bool
nat_words [] = true
nat_words (word ∷ []) = false
nat_words (word ∷ value ∷ rest) =
    contains allowed word && (not (word == "-j") || good_target value) && nat_words rest

pub nat_argv : List String → Option (List String)
unfolding nat_words
nat_argv [] = none
nat_argv (word ∷ rest) = if nat_words (word ∷ rest) then some (word ∷ rest) else none

-- ParseNATLine
unfoldable pub parse_nat_line : String → Option (List String)
unfolding nat_argv
parse_nat_line line = nat_argv (fields (strip_prefix line nat_prefixes))
