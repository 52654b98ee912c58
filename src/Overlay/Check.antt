-- ===== src/Overlay/Check.antt =====
-- overlay/overlay.go: the self-check, the removal of repeated rules, the throttled warnings, and
-- the convergence of all links.
pub mod Warnings
pub mod Deduped
pub mod Lines
pub mod Counts
use exnode.Base.{
  ℕ, zero, suc, ◌+◌, ◌*◌, ◌-◌, ◌≤◌, String, Bool, true, false, ◌&&◌, ◌||◌, not, List, [], ◌∷◌, ◌++◌,
  Option, none, some, if◌then◌else◌, ◌==◌, string_eq, ltb, is_empty, contains, length,
}
use exnode.Base.Times.{too_soon}
use exnode.Text.{◌<>◌, is_nil, trim_space, join, split}
use exnode.Text.Fields.{fields}
use exnode.Host.{Host}
use exnode.Host.Loops.{each}
use exnode.Overlay.{Config, plan, stale_routes}
use exnode.Overlay.Commands.{forward_specs, rule_spec, route_del_args}
use exnode.Overlay.Apply.{ip, ensure, remove, is_one, accept, forward_path}

unfoldable pub managed_input_rules : List Config → List String
managed_input_rules [] = "-p 4 -j ACCEPT" ∷ "-p 47 -j ACCEPT" ∷ []
managed_input_rules (c ∷ links) =
    let rest = managed_input_rules links in
    if is_nil c.name then rest else ("-i " <> c.name <> " -j ACCEPT") ∷ rest

unfoldable pub managed_forward_rules : List Config → List String
managed_forward_rules [] = []
managed_forward_rules (c ∷ links) =
    let rest = managed_forward_rules links in
    if is_nil c.name
    then rest
    else ("-i " <> c.name <> " -j ACCEPT") ∷ ("-o " <> c.name <> " -j ACCEPT") ∷ rest

-- `counts[spec]++` in a map as a list of pairs
unfoldable bump : String → List (String × ℕ) → List (String × ℕ)
bump spec [] = (spec, 1) ∷ []
bump spec ((k, n) ∷ counts) =
    let rest = bump spec counts in if k == spec then (k, n + 1) ∷ counts else (k, n) ∷ rest

unfoldable pub count_rules : List String → List String → List (String × ℕ)
unfolding bump
count_rules keep_set [] = []
count_rules keep_set (line ∷ lines) =
    let rest = count_rules keep_set lines in
    let spec = rule_spec line in
    if not (is_nil spec) && contains keep_set spec then bump spec rest else rest

-- The warnings seen, as the time of the last one for each key.
abbrev pub Seen : Type 0
Seen = List (String × ℕ)

unfoldable pub last_seen : String → Seen → Option ℕ
last_seen key [] = none
last_seen key ((k, t) ∷ seen) = if k == key then some t else last_seen key seen

-- warnOnce at the time `now`, in nanoseconds; the result says whether the warning was logged.
unfoldable pub warn_once : String → ℕ → Seen → Bool × Seen
unfolding last_seen
warn_once key now seen =
    if too_soon now (last_seen key seen) then (false, seen) else (true, (key, now) ∷ seen)

-- the file's text is there and, trimmed, is not "1"
abbrev is_off : Option String → Bool
is_off none = false
is_off (some text) = not (trim_space text == "1")

module _ (H : Host) where
  -- One rule's surplus copies, as long as the deletion succeeds: how many went, and the machine.
  unfoldable drop_copies : String → String → ℕ → H.State → ℕ × H.State
  drop_copies chain spec zero s = (0, s)
  drop_copies chain spec (suc n) s =
      let r = H.run ("iptables" ∷ "-D" ∷ chain ∷ fields spec) s in
      let (more, s') = drop_copies chain spec n r.after in
      if r.ok then (more + 1, s') else (0, r.after)

  unfoldable drop_all : String → List (String × ℕ) → H.State → ℕ × H.State
  unfolding drop_copies
  drop_all chain [] s = (0, s)
  drop_all chain ((spec, n) ∷ counts) s =
      let (removed, s') = drop_copies chain spec (n - 1) s in
      let (more, s'') = drop_all chain counts s' in (removed + more, s'')

  unfoldable pub dedupe_rules : String → List String → H.State → ℕ × H.State
  unfolding drop_all
  dedupe_rules chain keep_set s =
      let r = H.run ("iptables" ∷ "-S" ∷ chain ∷ []) s in
      if is_empty keep_set
      then (0, s)
      else if r.ok
      then drop_all chain (count_rules keep_set (split r.stdout b'\n')) r.after
      else (0, r.after)

  -- A problem's key for warnOnce; the text of the warning is not kept.
  check_spec : Config → List String → List String × H.State → List String × H.State
  check_spec c spec (keys, s) =
      let r = H.run ("iptables" ∷ "-C" ∷ "FORWARD" ∷ spec ++ accept) s in
      (if r.ok then keys else keys ++ ("forward" <> c.name <> join spec "") ∷ [], r.after)

  check_link : Config → List String × H.State → List String × H.State
  unfolding check_spec
  check_link c = each (check_spec c) (forward_specs c.name)

  -- SelfCheck, as the keys that it hands to warnOnce, in order.
  unfoldable pub self_check : List Config → H.State → List String × H.State
  unfolding check_link dedupe_rules
  self_check links s =
      let unforwarded = is_off (H.read_file forward_path s) in
      let (input, s₁) = dedupe_rules "INPUT" (managed_input_rules links) s in
      let (forward, s₂) = dedupe_rules "FORWARD" (managed_forward_rules links) s₁ in
      let keys =
        (if unforwarded then "ip_forward" ∷ [] else [])
        ++ (if ltb 0 (input + forward) then "dedupe" ∷ [] else []) in
      if is_empty links then ([], s) else each check_link links (keys, s₂)

  unfoldable pub reconcile : List Config → List Config → H.State → List String × H.State
  unfolding self_check
  reconcile prev next s =
      let (gone, kept) = plan prev next in
      let s₁ = each (remove H) gone s in
      let s₂ = each (λ spec s. (ip H (route_del_args spec) s).1) (stale_routes prev next) s₁ in
      self_check next (each (ensure H) kept s₂)
