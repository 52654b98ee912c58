-- ===== src/Wg/Policy.antt =====
-- wg/policy.go: the operator's policy routing lines, run as `ip` commands with their verb forced.
pub mod Verbs
pub mod Forward
pub mod Subnets
use exnode.Base.{
  String, Bool, true, false, ◌&&◌, ◌||◌, not, List, [], ◌∷◌, ◌++◌, Option, none, some, keep, any,
  contains, if◌then◌else◌, ◌==◌, string_eq, is_empty,
}
use exnode.Text.{◌<>◌, is_nil, trim_space, has_prefix, has_infix, split}
use exnode.Text.Fields.{fields}
use exnode.Host.{Ran, Host}
use exnode.Host.Loops.{each}
use exnode.Wg.Rules.{Rule, ensure_rule, delete_rule}
use exnode.Wg.Nat.{enable_forwarding}

unfoldable kept_lines : List String → List String
kept_lines [] = []
kept_lines (raw ∷ lines) =
    let rest = kept_lines lines in
    let ln = trim_space raw in
    if not (is_nil ln) && not (has_prefix ln "#") then ln ∷ rest else rest

unfoldable pub policy_lines : String → List String
unfolding kept_lines
policy_lines text = kept_lines (split text b'\n')

-- The first `add` or `del` among the fields becomes the verb.
unfoldable pub swap_verb : String → List String → List String
swap_verb verb [] = []
swap_verb verb (f ∷ rest) =
    let more = swap_verb verb rest in if f == "add" || f == "del" then verb ∷ rest else f ∷ more

-- `len(fields) < 2 || fields[0] != "ip"`, negated
abbrev pub is_ip_line : List String → Bool
is_ip_line (f ∷ g ∷ rest) = f == "ip"
is_ip_line _ = false

abbrev from_here : String → String → List String → List String
from_here f next more = if f == "from" then next ∷ more else more

-- The field behind each `from`.
unfoldable pub from_values : List String → List String
from_values [] = []
from_values (f ∷ []) = []
from_values (f ∷ next ∷ rest) = from_here f next (from_values (next ∷ rest))

unfoldable from_lines : List String → List String
from_lines [] = []
from_lines (ln ∷ lines) = from_values (fields ln) ++ from_lines lines

unfoldable pub policy_from_subnets : String → List String
unfolding from_lines from_values policy_lines
policy_from_subnets text = from_lines (policy_lines text)

unfoldable pub policy_forward_rules : List String → List Rule
policy_forward_rules [] = []
policy_forward_rules (s ∷ subnets) =
    record { table = ""; chain = "FORWARD"; args = "-s" ∷ s ∷ "-j" ∷ "ACCEPT" ∷ [] }
    ∷ record {
      table = "";
      chain = "FORWARD";
      args = "-d" ∷ s ∷ "-m" ∷ "state" ∷ "--state" ∷ "RELATED,ESTABLISHED" ∷ "-j" ∷ "ACCEPT" ∷ [];
    }
    ∷ policy_forward_rules subnets

-- The field behind the first `key`, or "".
unfoldable pub field_after : List String → String → String
field_after [] key = ""
field_after (f ∷ []) key = ""
field_after (f ∷ next ∷ rest) key =
    let more = field_after (next ∷ rest) key in if f == key then next else more

-- A line of `ip rule show` that tells of the rule.
abbrev shows_rule : String → String → String → Bool
shows_rule from table ln =
    (is_nil from || has_infix ln ("from " <> from)) && has_infix ln ("lookup " <> table)

module _ (H : Host) where
  -- runPolicyLine; `true` is no error.
  unfoldable pub run_policy_line : String → String → H.State → Bool × H.State
  unfolding swap_verb
  run_policy_line line verb s =
      let f = fields line in
      if is_ip_line f then (let r = H.run (swap_verb verb f) s in (r.ok, r.after)) else (false, s)

  unfoldable pub apply_policy_line : String → H.State → H.State
  unfolding run_policy_line
  apply_policy_line line s = (run_policy_line line "add" (run_policy_line line "del" s).1).1

  unfoldable pub apply_policy_routes : String → H.State → H.State
  unfolding apply_policy_line
  apply_policy_routes text s =
      let lines = policy_lines text in
      if is_empty lines
      then s
      else each (λ r s. (ensure_rule H r s).1) (policy_forward_rules (policy_from_subnets text))
          (each apply_policy_line lines (enable_forwarding H s).1)

  unfoldable pub remove_policy_routes : String → H.State → H.State
  unfolding run_policy_line
  remove_policy_routes text s =
      each (λ r s. (delete_rule H r s).1) (policy_forward_rules (policy_from_subnets text))
        (each (λ ln s. (run_policy_line ln "del" s).1) (policy_lines text) s)

  -- ipShow: what the command wrote, "" on an error
  ip_show : List String → H.State → String × H.State
  ip_show args s = let r = H.run ("ip" ∷ args) s in (if r.ok then r.combined else "", r.after)

  unfoldable pub policy_line_present : String → H.State → Bool × H.State
  unfolding ip_show
  policy_line_present line s =
      let f = fields line in
      let table = field_after f "table" in
      if is_nil table
      then (true, s)
      else if contains f "rule"
      then (let (out, s') = ip_show ("rule" ∷ "show" ∷ []) s in
          (any (shows_rule (field_after f "from") table) (split out b'\n'), s'))
      else if contains f "route"
      then (let (out, s') = ip_show ("route" ∷ "show" ∷ "table" ∷ table ∷ []) s in
          (not (is_nil (trim_space out)), s'))
      else (true, s)

  restore_line : String → H.State → H.State
  unfolding policy_line_present apply_policy_line
  restore_line ln s =
      let (here, s') = policy_line_present ln s in if here then s' else apply_policy_line ln s'

  unfoldable pub ensure_policy_routes : String → H.State → H.State
  unfolding restore_line
  ensure_policy_routes text s =
      let lines = policy_lines text in
      if is_empty lines
      then s
      else each (λ r s. (ensure_rule H r s).1) (policy_forward_rules (policy_from_subnets text))
          (each restore_line lines (enable_forwarding H s).1)

  unfoldable pub reconcile_policy_routes : String → String → H.State → H.State
  unfolding run_policy_line apply_policy_routes
  reconcile_policy_routes old_text new_text s =
      let want_lines = policy_lines new_text in
      let want_subs = policy_from_subnets new_text in
      let stale_lines = keep (λ ln. not (contains want_lines ln)) (policy_lines old_text) in
      let stale_subs = keep (λ sub. not (contains want_subs sub)) (policy_from_subnets old_text) in
      let s' = each (λ ln s. (run_policy_line ln "del" s).1) stale_lines s in
      let s'' = each (λ r s. (delete_rule H r s).1) (policy_forward_rules stale_subs) s' in
      apply_policy_routes new_text s''
