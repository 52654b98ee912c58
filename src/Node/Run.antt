-- ===== src/Node/Run.antt =====
-- node/controller.go, the loop over the ticks, the report of the statistics, and the end.
use exnode.Base.{ℕ, String, Bool, true, false, List, [], ◌∷◌, Option, none, some, if◌then◌else◌}
use exnode.Host.{Host}
use exnode.Panel.{HeartbeatResponse, SyncResponse, StatusPeer}
use exnode.Wg.{PeerStat}
use exnode.Wg.Network.{Addresses, Links}
use exnode.SelfUpdate.Platform.{Platform}
use exnode.Node.Control.{Engines, Controller, Agent, heartbeat_tick, policy_watchdog_tick}

abbrev to_status : List PeerStat → List StatusPeer
to_status [] = []
to_status (s ∷ stats) =
    record {
      public_key = s.public_key;
      last_handshake = s.last_handshake;
      rx_bytes = s.rx_bytes;
      tx_bytes = s.tx_bytes;
      endpoint = s.endpoint;
    }
    ∷ to_status stats

-- A report of no peers is not sent.
abbrev sent : Option (List PeerStat) → Option (List StatusPeer)
sent none = none
sent (some []) = none
sent (some (s ∷ stats)) = some (to_status (s ∷ stats))

-- What a tick of the loop brings: the answers of the panel and the time, where it asks for them.
pub data Tick : Type 0 where
  heartbeat : ℕ → Option HeartbeatResponse → Option SyncResponse → Tick
  status : Tick
  watchdog : Tick

module _ (H : Host) (A : Addresses) (L : Links H A) (E : Engines H) where
  -- The peers that statusTick reports, `none` where it sends no report.
  unfoldable pub status_tick : Controller E.Engine → H.State → Option (List StatusPeer)
  status_tick c s = elim c.engine [ none ↦ none | some e ↦ sent (E.stats e s) ]

  -- Close
  unfoldable pub close : Controller E.Engine → H.State → Controller E.Engine × H.State
  close c s = elim c.engine [ none ↦ (c, s) | some e ↦ (record c { engine = none }, E.close e s) ]

  module _ (P : Platform) where
    -- One turn of the loop: `true` where another build has replaced the process. A report changes
    -- nothing here.
    unfoldable pub turn : String → Tick → Agent H A L E P → Bool × Agent H A L E P
    turn version (heartbeat now response answer) a =
        heartbeat_tick H A L E P false version now response answer a
    turn version status a = (false, a)
    turn version watchdog a =
        (false, record a { machine = policy_watchdog_tick H A L E a.controller a.machine })

    turns : String → List Tick → Agent H A L E P → Bool × Agent H A L E P
    unfolding turn
    turns version [] a = (false, a)
    turns version (t ∷ ticks) a =
        let (gone, a') = turn version t a in
        let rest = turns version ticks a' in if gone then (true, a') else rest

    stopped : Bool → Agent H A L E P → Agent H A L E P
    unfolding close
    stopped gone a =
        let (c, s) = close a.controller a.machine in
        if gone then a else record a { controller = c; machine = s }

    -- Run: a forced heartbeat, then the ticks in their order up to the cancellation.
    unfoldable pub run :
        String
        → ℕ
        → Option HeartbeatResponse
        → Option SyncResponse
        → List Tick
        → Agent H A L E P
        → Agent H A L E P
    unfolding turns stopped
    run version now response answer ticks a =
        let (gone, a') = heartbeat_tick H A L E P true version now response answer a in
        let (gone', a'') = turns version ticks a' in if gone then a' else stopped gone' a''
