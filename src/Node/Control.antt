-- ===== src/Node/Control.antt =====
-- node/controller.go, the control loops: heartbeat, sync and watchdog.
pub mod Revision
use exnode.Base.{
  ℕ, String, Bool, true, false, ◌&&◌, ◌||◌, not, List, [], ◌∷◌, Option, none, some, if◌then◌else◌,
  ◌==◌, string_eq, nat_eq, map,
}
use exnode.Text.{is_nil}
use exnode.Host.{Host}
use exnode.Host.Loops.{each}
use exnode.Extras.{Extras, no_extras, is_zero}
use exnode.Extras.Apply as ExtrasApply
use exnode.Overlay.{Config}
use exnode.Overlay.Check as OverlayCheck
use exnode.Panel.{Device, UpgradeDirective, HeartbeatResponse, SyncResponse}
use exnode.Wg.{Interface, PeerStat}
use exnode.Wg.Network.{Addresses, Links}
use exnode.Wg.Nat.{nat_enabled, setup_nat}
use exnode.Wg.Policy.{ensure_policy_routes}
use exnode.SelfUpdate.Platform.{Platform}
use exnode.SelfUpdate.Swap.{Order}
use exnode.SelfUpdate.Attempt.{Upgrader, maybe_upgrade, clear_error}
use exnode.Node.{to_engine_interface, overlay_configs}

-- engine.Engine, behind engine.Build: the engines' states, and what each operation does to the
-- machine. `true` is no error.
pub record Engines (H : Host) : Type 1 where
  pub Engine : Type 0
  pub build : String → Engine
  pub apply : List Interface → Engine → H.State → Bool × Engine × H.State
  pub stats : Engine → H.State → Option (List PeerStat)
  pub close : Engine → H.State → H.State

-- The custom entries applied, by the interface's name; a later entry comes first.
abbrev pub Applied : Type 0
Applied = List (String × Extras)

unfoldable pub applied_to : String → Applied → Extras
applied_to name [] = no_extras
applied_to name ((n, e) ∷ applied) =
    let rest = applied_to name applied in if n == name then e else rest

-- The fields of Controller that change.
pub record Controller (Engine : Type 0) : Type 0 where
  pub engine : Option Engine
  pub engine_type : String
  pub rev_known : Bool
  pub revision : ℕ
  pub desired : List Interface
  pub vxlan : List Config
  pub extras : Applied

abbrev pub engine_name : String → String
engine_name t = if is_nil t then "kernel" else t

module _ (H : Host) (A : Addresses) (L : Links H A) (E : Engines H) where
  shut : Option E.Engine → H.State → H.State
  shut none s = s
  shut (some e) s = let (ok, e', s') = E.apply [] e s in E.close e' s'

  -- The engine at hand is kept where its type is the one asked for.
  kept_engine : String → String → Option E.Engine → Option E.Engine
  kept_engine t engine_type none = none
  kept_engine t engine_type (some e) = if t == engine_type then some e else none

  -- ensureEngine: the engine to use, and the machine once the old one is shut down.
  unfoldable pub ensure_engine : String → Controller E.Engine → H.State → E.Engine × H.State
  unfolding shut kept_engine
  ensure_engine wanted c s =
      let t = engine_name wanted in
      elim (kept_engine t c.engine_type c.engine) [
        | some e ↦ (e, s)
        | none ↦ (E.build t, shut c.engine s)
      ]

  unfoldable pub ensure_nat : List Interface → H.State → H.State
  ensure_nat ifaces s = each (λ i s. if nat_enabled i then (setup_nat H A L i s).1 else s) ifaces s

  ensure_extra : Interface → Applied × H.State → Applied × H.State
  ensure_extra i (applied, s) =
      let prev = applied_to i.name applied in
      if is_zero prev && is_zero i.extras
      then (applied, s)
      else ((i.name, i.extras) ∷ applied, ExtrasApply.reconcile H prev i.extras s)

  unfoldable pub ensure_extras : List Interface → Applied → H.State → Applied × H.State
  unfolding ensure_extra
  ensure_extras ifaces applied s = each ensure_extra ifaces (applied, s)

  overlay_reconcile : List Config → List Config → H.State → H.State
  overlay_reconcile prev next s = (OverlayCheck.reconcile H prev next s).1

  -- From the engine's Apply on, with the engine of the type `t`.
  pub converge :
      SyncResponse
      → String
      → E.Engine
      → Controller E.Engine
      → H.State
      → Controller E.Engine × H.State
  unfolding overlay_reconcile
  converge response t engine c s =
      let desired = map to_engine_interface response.interfaces in
      let (ok, engine', s₁) = E.apply desired engine s in
      let next = overlay_configs response.interfaces in
      let s₂ = overlay_reconcile c.vxlan next s₁ in
      let s₃ = ensure_nat desired s₂ in
      let (extras, s₄) = ensure_extras desired c.extras s₃ in
      let c' = record c { engine = some engine'; engine_type = t; vxlan = next; extras = extras } in
      if ok
      then (
        record c' { revision = response.config_revision; rev_known = true; desired = desired },
        overlay_reconcile c.vxlan next s₄,
      )
      else (c', s₄)

  -- sync, by what the panel answers; `none` is an error of the request.
  unfoldable pub sync :
      Option SyncResponse → Controller E.Engine → H.State → Controller E.Engine × H.State
  unfolding converge
  sync none c s = (c, s)
  sync (some response) c s =
      let (engine, s') = ensure_engine response.engine c s in
      converge response (engine_name response.engine) engine c s'

  restore : Interface → H.State → H.State
  restore i s =
      let s' = if is_nil i.policy_routes then s else ensure_policy_routes H i.policy_routes s in
      if is_zero i.extras then s' else ExtrasApply.ensure H i.extras s'

  -- policyWatchdogTick
  unfoldable pub policy_watchdog_tick : Controller E.Engine → H.State → H.State
  unfolding restore
  policy_watchdog_tick c s = each restore c.desired s

  -- Whether a heartbeat that reports the revision leads to a sync.
  abbrev pub changed : Bool → ℕ → Controller E.Engine → Bool
  changed force revision c = force || not c.rev_known || not (revision == c.revision)

  module _ (P : Platform) where
    -- The controller and what it acts on: the machine's network, the state of the self-upgrade and the
    -- files.
    pub record Agent : Type 0 where
      pub controller : Controller E.Engine
      pub machine : H.State
      pub upgrader : Upgrader
      pub disk : P.State

    restarted : Bool → P.State → Bool × P.State
    restarted asked s = elim (P.executable s) [
      | none ↦ (false, s)
      | some exe ↦ if asked then P.exec exe s else (false, s)
    ]

    order_of : Option UpgradeDirective → Option Order
    order_of none = none
    order_of (some u) = some (record { version = u.version; url = u.url })

    synced : Bool → Option SyncResponse → Agent → Agent
    synced due answer a =
        let (c, s) = sync answer a.controller a.machine in
        if due then record a { controller = c; machine = s } else a

    -- What follows an answer: `true` where another build has replaced the process.
    pub answered :
        Bool → String → ℕ → HeartbeatResponse → Option SyncResponse → Agent → Bool × Agent
    unfolding restarted order_of synced
    answered force version now response answer a =
        let (gone, disk) = restarted response.restart a.disk in
        let turn =
          maybe_upgrade P (order_of response.upgrade) version now (clear_error a.upgrader) disk in
        let a' = record a { upgrader = turn.upgrader; disk = turn.after } in
        if gone
        then (true, record a { upgrader = clear_error a.upgrader; disk = disk })
        else if turn.replaced
        then (true, a')
        else (false, synced (changed force response.config_revision a.controller) answer a')

    -- heartbeatTick of the build `version` at the time `now`, by the panel's answers to the heartbeat
    -- and to the sync that may follow; `none` is an error.
    unfoldable pub heartbeat_tick :
        Bool → String → ℕ → Option HeartbeatResponse → Option SyncResponse → Agent → Bool × Agent
    unfolding answered
    heartbeat_tick force version now none answer a = (false, a)
    heartbeat_tick force version now (some response) answer a =
        answered force version now response answer a
