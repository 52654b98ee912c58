-- ===== src/Extras/Apply.antt =====
-- extras/extras.go, the part that acts on the machine: the custom routes, ip rules and NAT entries
-- of an interface put in place, taken away and restored. Failures are logged and passed over.
use exnode.Base.{
  ℕ, zero, suc, String, Bool, true, ◌&&◌, ◌||◌, not, List, [], ◌∷◌, ◌++◌, Option, none, some,
  if◌then◌else◌, ◌==◌, string_eq, any, contains,
}
use exnode.Text.{◌<>◌, is_nil, has_infix, join, split}
use exnode.Host.{Host}
use exnode.Host.Loops.{each}
use exnode.Extras.{
  Extras, is_zero, normalize_lines, parse_route_line, parse_rule_line, parse_nat_line,
}

-- The argument lists of the lines that a parser accepts, in order.
unfoldable pub accepted : (String → Option (List String)) → List String → List (List String)
accepted parse [] = []
accepted parse (line ∷ lines) =
    let rest = accepted parse lines in elim (parse line) [ none ↦ rest | some args ↦ args ∷ rest ]

-- The map `desired`, by the argument lists joined with spaces.
unfoldable pub desired : List (List String) → List String
desired [] = []
desired (args ∷ more) = join args " " ∷ desired more

-- The argument lists of the old lines that are wanted no more.
unfoldable pub undesired : List String → List (List String) → List (List String)
undesired want [] = []
undesired want (args ∷ more) =
    let rest = undesired want more in if contains want (join args " ") then rest else args ∷ rest

abbrev post : List String
post = "POSTROUTING" ∷ []

abbrev args_of : List String → List String
args_of (route ∷ replace ∷ args) = args
args_of _ = []

-- Words that tell an ip rule: its source, its destination or "", and its table.
pub record Selector : Type 0 where
  pub src : String
  pub dst : String
  pub table : String

-- The loop over the words; a later key overrides an earlier one.
unfoldable pub selector : List String → Selector → Selector
selector [] sel = sel
selector (w ∷ []) sel = sel
selector (w ∷ v ∷ rest) sel = selector (v ∷ rest) (
    if w == "from"
    then record sel { src = v }
    else if w == "to"
    then record sel { dst = v }
    else if w == "lookup"
    then record sel { table = v }
    else sel)

abbrev shows : Selector → String → Bool
shows sel line =
    has_infix line ("from " <> sel.src)
    && has_infix line ("lookup " <> sel.table)
    && (is_nil sel.dst || has_infix line ("to " <> sel.dst))

-- `args[2]`
abbrev destination : List String → String
destination (a ∷ b ∷ dst ∷ rest) = dst
destination _ = ""

-- Whether the output shows the gateway behind `via`, where the arguments have one.
abbrev shows_gateway : List String → String → Bool
shows_gateway (a ∷ b ∷ c ∷ via ∷ gw ∷ rest) out = not (via == "via") || has_infix out ("via " <> gw)
shows_gateway _ out = true

module _ (H : Host) where
  act : List String → H.State → H.State
  act argv s = (H.run argv s).after

  -- `for i := 0; i < 8; i++`: the deletion is repeated until it fails.
  unfoldable pub drop_copies : ℕ → List String → H.State → H.State
  drop_copies zero argv s = s
  drop_copies (suc rounds) argv s =
      let r = H.run argv s in
      let more = drop_copies rounds argv r.after in if r.ok then more else r.after

  unfoldable pub apply_routes : List String → List String → H.State → H.State
  unfolding act
  apply_routes prev next s =
      let want = accepted parse_route_line (normalize_lines next) in
      let gone = undesired (desired want) (accepted parse_route_line (normalize_lines prev)) in
      each (λ args. act ("ip" ∷ "route" ∷ "del" ∷ args_of args)) gone
        (each (λ args. act ("ip" ∷ args)) want s)

  add_rule : List String → H.State → H.State
  unfolding act drop_copies
  add_rule args s =
      act ("ip" ∷ "rule" ∷ "add" ∷ args) (drop_copies 8 ("ip" ∷ "rule" ∷ "del" ∷ args) s)

  unfoldable pub apply_rules : List String → List String → H.State → H.State
  unfolding add_rule
  apply_rules prev next s =
      let want = accepted parse_rule_line (normalize_lines next) in
      let gone = undesired (desired want) (accepted parse_rule_line (normalize_lines prev)) in
      each (λ args. drop_copies 8 ("ip" ∷ "rule" ∷ "del" ∷ args)) gone (each add_rule want s)

  unfoldable pub add_nat : List String → H.State → H.State
  add_nat args s =
      let check = H.run ("iptables" ∷ "-t" ∷ "nat" ∷ "-C" ∷ "POSTROUTING" ∷ args) s in
      if check.ok
      then check.after
      else (H.run ("iptables" ∷ "-t" ∷ "nat" ∷ "-A" ∷ "POSTROUTING" ∷ args) check.after).after

  unfoldable pub apply_nat : List String → List String → H.State → H.State
  apply_nat prev next s =
      let want = accepted parse_nat_line (normalize_lines next) in
      let gone = undesired (desired want) (accepted parse_nat_line (normalize_lines prev)) in
      each (λ args. drop_copies 8 ("iptables" ∷ "-t" ∷ "nat" ∷ "-D" ∷ "POSTROUTING" ∷ args)) gone
        (each add_nat want s)

  unfoldable pub reconcile : Extras → Extras → H.State → H.State
  reconcile prev next s =
      apply_nat prev.nat next.nat
        (apply_rules prev.rules next.rules (apply_routes prev.routes next.routes s))

  -- routePresent, of the arguments of the line
  unfoldable pub route_present : List String → H.State → Bool × H.State
  route_present args s =
      let r = H.run ("ip" ∷ "route" ∷ "show" ∷ destination args ∷ []) s in
      (r.ok && shows_gateway args r.stdout, r.after)

  unfoldable pub rule_present : List String → H.State → Bool × H.State
  unfolding selector
  rule_present args s =
      let r = H.run ("ip" ∷ "rule" ∷ "show" ∷ []) s in
      let sel = selector args (record { src = ""; dst = ""; table = "" }) in
      (r.ok && any (shows sel) (split r.stdout b'\n'), r.after)

  restore : (List String → H.State → Bool × H.State) → List String → List String → H.State → H.State
  unfolding act
  restore present verb args s =
      let (here, s') = present args s in if here then s' else act ("ip" ∷ verb ++ args) s'

  unfoldable pub ensure : Extras → H.State → H.State
  unfolding restore is_zero
  ensure e s =
      let routes = accepted parse_route_line (normalize_lines e.routes) in
      let rules = accepted parse_rule_line (normalize_lines e.rules) in
      let nat = accepted parse_nat_line (normalize_lines e.nat) in
      if is_zero e
      then s
      else each add_nat nat (
          each (restore rule_present ("rule" ∷ "add" ∷ [])) rules
            (each (restore route_present []) routes s))
