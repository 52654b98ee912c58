-- ===== src/Tests/Extras.antt =====
-- extras: runs and witnesses.
use exnode.Base.{
  list_eq, String, true, ◌≡◌, ◌≢◌, refl, List, [], ◌∷◌, none, some, All, all, contains, string_eq,
  erase,
}
use exnode.Text.{trim_space, has_prefix, trim_prefix, is_space, upper_codes, join}
use exnode.Text.Fields.{fields, is_word}
use exnode.Host.Loops.{each}
use exnode.Host.Toy.{Rules}
use exnode.Tests.Spelled.{fluent}
use exnode.Wg.Rules.{Rule}
use exnode.Wg.Rules.Effect.Settled.{follow}
use exnode.Extras.Apply.{apply_nat, add_nat, drop_copies, accepted, desired, undesired}
use exnode.Tests.Machine.{no_rules}
use exnode.Extras.{
  normalize_lines, parse_nat_line, parse_rule_line, parse_route_line, strip_prefix, starts_from,
}
use exnode.Extras.Parsed.{
  parse_nat_line_safe, parse_rule_line_safe, flat, NatOption, RuleOption, keys,
}

abbrev masquerade_line : String
masquerade_line = "iptables -t nat -A POSTROUTING -s 10.0.0.0/8 -j MASQUERADE"

abbrev masquerade_args : List String
masquerade_args = "-s" ∷ "10.0.0.0/8" ∷ "-j" ∷ "MASQUERADE" ∷ []

masqueraded : parse_nat_line masquerade_line ≡ some masquerade_args
unfolding parse_nat_line contains strip_prefix fields is_space trim_space has_prefix trim_prefix
    upper_codes
masqueraded = refl

dropped : parse_nat_line "-s 10.0.0.0/8 -j DROP" ≡ none
unfolding parse_nat_line contains strip_prefix fields is_space trim_space has_prefix trim_prefix
    upper_codes
dropped = refl

routed :
    parse_route_line "ip route add 10.0.0.0/8 via 10.1.0.1 table 7"
    ≡ some ("route" ∷ "replace" ∷ "10.0.0.0/8" ∷ "via" ∷ "10.1.0.1" ∷ "table" ∷ "7" ∷ [])
unfolding parse_route_line strip_prefix fields is_space trim_space has_prefix trim_prefix
routed = refl

ruled :
    parse_rule_line "ip rule add from 10.0.0.0/8 lookup 7"
    ≡ some ("from" ∷ "10.0.0.0/8" ∷ "lookup" ∷ "7" ∷ [])
unfolding parse_rule_line strip_prefix fields is_space trim_space has_prefix trim_prefix
ruled = refl

unlooked : parse_rule_line "from 10.0.0.0/8 priority 7" ≡ none
unfolding parse_rule_line strip_prefix fields is_space trim_space has_prefix trim_prefix
unlooked = refl

parse_nat_line_safe_example :
    (ps : List (String × String)) × (masquerade_args ≡ flat ps)
    × All NatOption ps
    × (all is_word masquerade_args ≡ true)
    × (masquerade_args ≢ [])
parse_nat_line_safe_example = parse_nat_line_safe masquerade_line masqueraded

parse_rule_line_safe_example :
    (ps : List (String × String)) × (("from" ∷ "10.0.0.0/8" ∷ "lookup" ∷ "7" ∷ []) ≡ flat ps)
    × All RuleOption ps
    × (starts_from ("from" ∷ "10.0.0.0/8" ∷ "lookup" ∷ "7" ∷ []) ≡ true)
    × (contains (keys ps) "lookup" ≡ true)
    × (all is_word ("from" ∷ "10.0.0.0/8" ∷ "lookup" ∷ "7" ∷ []) ≡ true)
parse_rule_line_safe_example = parse_rule_line_safe "ip rule add from 10.0.0.0/8 lookup 7" ruled

abbrev first_nat : List String
first_nat = masquerade_line ∷ "# none" ∷ []

abbrev second_nat : List String
second_nat = "-s 10.2.0.0/16 -o eth0 -j SNAT --to-source 192.0.2.1" ∷ "-s 10.3.0.0/16 -j DROP" ∷ []

changed : Rules
unfolding apply_nat add_nat drop_copies accepted desired undesired normalize_lines parse_nat_line
    contains strip_prefix fields is_space trim_space has_prefix trim_prefix upper_codes join each
    erase
changed = follow (apply_nat fluent) [] (first_nat ∷ second_nat ∷ []) no_rules

changed_rules :
    changed "nat" "POSTROUTING"
    ≡ ("-s" ∷ "10.2.0.0/16" ∷ "-o" ∷ "eth0" ∷ "-j" ∷ "SNAT" ∷ "--to-source" ∷ "192.0.2.1" ∷ []) ∷ []
unfolding changed
changed_rules = refl

-- The same entry under the long name of an option: it is found to be there, and then deleted as an
-- old one that is wanted no more.
abbrev respelled_line : List String
respelled_line = "--source 10.0.0.0/8 -j MASQUERADE" ∷ []

lost_entry :
    follow (apply_nat fluent) [] (first_nat ∷ respelled_line ∷ []) no_rules "nat" "POSTROUTING" ≡ []
unfolding apply_nat add_nat drop_copies accepted desired undesired normalize_lines parse_nat_line
    contains strip_prefix fields is_space trim_space has_prefix trim_prefix upper_codes join each
    erase
lost_entry = refl

abbrev second_args : List String
second_args =
    "-s" ∷ "10.2.0.0/16" ∷ "-o" ∷ "eth0" ∷ "-j" ∷ "SNAT" ∷ "--to-source" ∷ "192.0.2.1" ∷ []

abbrev first_entry : Rule
first_entry = record { table = "nat"; chain = "POSTROUTING"; args = masquerade_args }
