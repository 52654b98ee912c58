-- ===== src/Overlay/Apply.antt =====
-- overlay/overlay.go, the part that acts on the machine: one link put in place or taken away, with
-- its firewall rules, its address and its routes. Failures are logged and passed over.
pub mod Rules
pub mod Firewall
pub mod Forget
use exnode.Base.{
  ℕ, zero, suc, ◌<◌, String, Bool, true, false, ◌&&◌, not, List, [], ◌∷◌, ◌++◌, Option, none, some,
  if◌then◌else◌, ◌==◌, string_eq, ltb,
}
use exnode.Base.Int.{pos}
use exnode.Text.{◌<>◌, is_nil, trim_space, has_infix, itoa}
use exnode.Host.{Host}
use exnode.Host.Loops.{each}
use exnode.Overlay.{Config, link_mtu}
use exnode.Overlay.Commands.{add_args, matches, fw_specs, forward_specs, applicable, route_args}

abbrev pub accept : List String
accept = "-j" ∷ "ACCEPT" ∷ []

abbrev pub forward_path : String
forward_path = "/proc/sys/net/ipv4/ip_forward"

-- the file's text is there and, trimmed, is "1"
abbrev pub is_one : Option String → Bool
is_one none = false
is_one (some text) = trim_space text == "1"

module _ (H : Host) where
  -- A command run for its effect; `true` is no error.
  unfoldable pub ip : List String → H.State → Bool × H.State
  ip args s = let r = H.run ("ip" ∷ args) s in (r.ok, r.after)

  unfoldable pub show_link : String → H.State → String × H.State
  show_link name s =
      let r = H.run ("ip" ∷ "-d" ∷ "link" ∷ "show" ∷ "dev" ∷ name ∷ []) s in
      (if r.ok then r.combined else "", r.after)

  unfoldable pub show_addr : String → H.State → String × H.State
  show_addr name s =
      let r = H.run ("ip" ∷ "-4" ∷ "addr" ∷ "show" ∷ "dev" ∷ name ∷ []) s in
      (if r.ok then r.combined else "", r.after)

  -- One match spec of a chain is accepted: checked first, and put in front if it is not there.
  unfoldable pub allow : String → List String → H.State → H.State
  allow chain spec s =
      let check = H.run ("iptables" ∷ "-C" ∷ chain ∷ spec ++ accept) s in
      if check.ok
      then check.after
      else (H.run ("iptables" ∷ "-I" ∷ chain ∷ spec ++ accept) check.after).after

  unfoldable pub firewall_allow : Config → H.State → H.State
  unfolding allow
  firewall_allow c s = each (allow "INPUT") (fw_specs c) s

  unfoldable pub forward_allow : Config → H.State → H.State
  unfolding allow
  forward_allow c s = each (allow "FORWARD") (forward_specs c.name) s

  -- `for i := 0; i < 8; i++`: the rule is deleted until that fails.
  unfoldable pub forget : ℕ → String → List String → H.State → H.State
  forget zero chain spec s = s
  forget (suc rounds) chain spec s =
      let r = H.run ("iptables" ∷ "-D" ∷ chain ∷ spec ++ accept) s in
      let more = forget rounds chain spec r.after in if r.ok then more else r.after

  unfoldable pub firewall_forget : String → H.State → H.State
  unfolding forget
  firewall_forget name s = if is_nil name then s else forget 8 "INPUT" ("-i" ∷ name ∷ []) s

  unfoldable pub forward_forget : String → H.State → H.State
  unfolding forget
  forward_forget name s = each (forget 8 "FORWARD") (forward_specs name) s

  unfoldable pub ensure_forwarding : H.State → H.State
  ensure_forwarding s =
      if is_one (H.read_file forward_path s) then s else (H.write_file forward_path "1\n" s).1

  unfoldable pub relax_rp_filter : String → H.State → H.State
  relax_rp_filter name s =
      if is_nil name
      then s
      else (let everywhere : String = "/proc/sys/net/ipv4/conf/all/rp_filter" in
          let s' =
            if is_one (H.read_file everywhere s) then (H.write_file everywhere "2\n" s).1 else s in
          (H.write_file ("/proc/sys/net/ipv4/conf/" <> name <> "/rp_filter") "2\n" s').1)

  -- The link is there as configured, or it is made anew; `false` is the early return.
  unfoldable pub ensure_link : Config → H.State → Bool × H.State
  unfolding show_link ip
  ensure_link c s =
      let (show, s') = show_link c.name s in
      if matches show c
      then (true, s')
      else (let s'' =
            if is_nil (trim_space show) then s' else (ip ("link" ∷ "del" ∷ c.name ∷ []) s').1 in
          ip (add_args c) s'')

  unfoldable pub ensure_mtu : Config → H.State → H.State
  unfolding ip
  ensure_mtu c s =
      let mtu = link_mtu c in
      if ltb 0 mtu then (ip ("link" ∷ "set" ∷ c.name ∷ "mtu" ∷ itoa (pos mtu) ∷ []) s).1 else s

  unfoldable pub ensure_addr : Config → H.State → H.State
  unfolding show_addr ip
  ensure_addr c s =
      let (show, s') = show_addr c.name s in
      if has_infix show (" " <> c.local <> " ")
      then s'
      else (let s'' = (ip ("addr" ∷ "flush" ∷ "dev" ∷ c.name ∷ []) s').1 in
          (ip ("addr" ∷ "add" ∷ c.local ∷ "dev" ∷ c.name ∷ []) s'').1)

  -- What follows once the link exists.
  unfoldable pub settle : Config → H.State → H.State
  unfolding ip relax_rp_filter firewall_allow ensure_forwarding forward_allow ensure_mtu ensure_addr
  settle c s =
      let s₁ = (ip ("link" ∷ "set" ∷ c.name ∷ "up" ∷ []) s).1 in
      let s₂ = forward_allow c (ensure_forwarding (firewall_allow c (relax_rp_filter c.name s₁))) in
      each (λ r s. (ip (route_args r) s).1) c.routes (ensure_addr c (ensure_mtu c s₂))

  unfoldable pub ensure : Config → H.State → H.State
  unfolding ensure_link settle
  ensure c s =
      if applicable c
      then (let (made, s') = ensure_link c s in if made then settle c s' else s')
      else s

  unfoldable pub remove : String → H.State → H.State
  unfolding firewall_forget forward_forget ip
  remove name s =
      if is_nil name
      then s
      else (ip ("link" ∷ "del" ∷ name ∷ []) (forward_forget name (firewall_forget name s))).1
