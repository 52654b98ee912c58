-- ===== src/Node/Control/Revision.antt =====
-- When the agent's revision advances, and when a sync is tried again.
use exnode.Base.{
  Option-cases, beq→eq, ◌==◌, string_eq, ℕ, String, Bool, true, false, ◌&&◌, not, ◌≡◌, refl, sym,
  ap, ◌∙◌, Option, some, ◌⊎◌, inl, inr, if◌then◌else◌, nat_eq, Bool-cases, if_true, if_false,
  beq_refl, arith, map,
}
use exnode.Host.{Host}
use exnode.Panel.{HeartbeatResponse, SyncResponse}
use exnode.Wg.Network.{Addresses, Links}
use exnode.SelfUpdate.Platform.{Platform}
use exnode.SelfUpdate.Attempt.{clear_error, maybe_upgrade}
use exnode.Node.{to_engine_interface, overlay_configs}
use exnode.Node.Control.{
  Engines, Controller, Agent, engine_name, ensure_engine, converge, sync, changed, synced,
  kept_engine, restarted, order_of, answered, heartbeat_tick,
}

and_false : (b : Bool) → (b && false) ≡ false
and_false b = ground arith

and_true : (b : Bool) → (b && true) ≡ b
and_true b = ground arith

module _ (H : Host) (A : Addresses) (L : Links H A) (E : Engines H) where
  -- The engine to use is the one at hand, where its type is the one asked for, or a new one.
  pub ensured :
      (wanted : String) (c : Controller E.Engine) (s : H.State)
      → let e = (ensure_engine H A L E wanted c s).0 in
        ((c.engine ≡ some e) × (engine_name wanted ≡ c.engine_type))
        ⊎ (e ≡ E.build (engine_name wanted))
  unfolding ensure_engine kept_engine
  ensured wanted c s = elim (Option-cases c.engine) [
    | inl first ↦ rw (first, ensure_engine, kept_engine) (inr refl)
    | inr (e, here) ↦ elim (Bool-cases (engine_name wanted == c.engine_type)) [
      | inl same ↦
          rw (here, same, ensure_engine, kept_engine)
            (inl (refl, beq→eq (engine_name wanted) c.engine_type same))
      | inr other ↦ rw (here, other, ensure_engine, kept_engine) (inr refl)
    ]
  ]

  -- Whether the engine applies what a sync asks for.
  abbrev pub applies : SyncResponse → Controller E.Engine → H.State → Bool
  applies response c s =
      let (engine, s') = ensure_engine H A L E response.engine c s in
      (E.apply (map to_engine_interface response.interfaces) engine s').0

  -- The engine after a sync is what Apply made of the one that was ensured.
  pub sync_engine :
      (response : SyncResponse) (c : Controller E.Engine) (s : H.State)
      → let (engine, s') = ensure_engine H A L E response.engine c s in
        (sync H A L E (some response) c s).0.engine
        ≡ some (E.apply (map to_engine_interface response.interfaces) engine s').1
  unfolding sync converge
  sync_engine response c s = elim (Bool-cases (applies response c s)) [
    | inl ok ↦ rw ok refl
    | inr failed ↦ rw failed refl
  ]

  -- A sync that the panel answers always takes over the overlay links and the engine's type and
  -- leaves an engine; the revision and the desired interfaces are those of the answer where the
  -- engine applied them, and are kept where it failed.
  pub sync_commits :
      (response : SyncResponse) (c : Controller E.Engine) (s : H.State)
      → let c' = (sync H A L E (some response) c s).0 in
        (c'.vxlan ≡ overlay_configs response.interfaces)
        × (c'.engine_type ≡ engine_name response.engine)
        × ((e : E.Engine) × (c'.engine ≡ some e))
        × (((applies response c s ≡ true)
              × (c'.revision ≡ response.config_revision)
              × (c'.rev_known ≡ true)
              × (c'.desired ≡ map to_engine_interface response.interfaces))
            ⊎ ((applies response c s ≡ false)
                × (c'.revision ≡ c.revision)
                × (c'.rev_known ≡ c.rev_known)
                × (c'.desired ≡ c.desired)))
  unfolding sync converge
  sync_commits response c s = elim (Bool-cases (applies response c s)) [
    | inl ok ↦ rw ok (refl, refl, (_, refl), inl (refl, refl, refl, refl))
    | inr failed ↦ rw failed (refl, refl, (_, refl), inr (refl, refl, refl, refl))
  ]

  never_due : (b c : Bool) → b ≡ false → b ≡ (b && c)
  never_due b c h = ground arith

  -- After a sync to the revision that a heartbeat reports, the next heartbeat that reports it asks for
  -- no further one exactly where the engine applied what the sync brought.
  settles :
      (revision : ℕ) (response : SyncResponse) (c : Controller E.Engine) (s : H.State)
      → response.config_revision ≡ revision
      → changed H A L E false revision (sync H A L E (some response) c s).0
        ≡ (changed H A L E false revision c && not (applies response c s))
  settles revision response c s same =
      let (links, type, engine, verdict) = sync_commits response c s in
      elim verdict [
        | inl (ok, reached, known, desired) ↦
            rw (ok, reached, known, same)
              (ap not (beq_refl revision) ∙ sym (and_false (changed H A L E false revision c)))
        | inr (failed, kept, known, desired) ↦
            rw (failed, kept, known) (sym (and_true (changed H A L E false revision c)))
      ]

  module _ (P : Platform) where
    left_alive :
        (b c : Bool) (x y z : Agent H A L E P)
        → (if◌then◌else◌ {A = Bool × Agent H A L E P} b
            (true, x)
            (if c then (true, y) else (false, z))).0
          ≡ false
        → (if◌then◌else◌ {A = Bool × Agent H A L E P} b
            (true, x)
            (if c then (true, y) else (false, z))).1
          ≡ z
    left_alive true c x y z h = cc
    left_alive false true x y z h = cc
    left_alive false false x y z h = refl

    synced_fields :
        (due : Bool) (answer : Option SyncResponse) (a : Agent H A L E P)
        → ((synced H A L E P due answer a).controller
            ≡ (if due then (sync H A L E answer a.controller a.machine).0 else a.controller))
          × ((synced H A L E P due answer a).machine
              ≡ (if due then (sync H A L E answer a.controller a.machine).1 else a.machine))
    unfolding synced
    synced_fields true answer a = (refl, refl)
    synced_fields false answer a = (refl, refl)

    after_heartbeat :
        (force : Bool) (version : String) (now : ℕ) (response : HeartbeatResponse)
        (answer : Option SyncResponse) (a : Agent H A L E P)
        → (heartbeat_tick H A L E P force version now (some response) answer a).0 ≡ false
        → let r = sync H A L E answer a.controller a.machine in
          let a' = (heartbeat_tick H A L E P force version now (some response) answer a).1 in
          let due = changed H A L E force response.config_revision a.controller in
          (a'.controller ≡ (if due then r.0 else a.controller))
          × (a'.machine ≡ (if due then r.1 else a.machine))
    unfolding heartbeat_tick answered
    after_heartbeat force version now response answer a h =
        let restart = restarted H A L E P response.restart a.disk in
        let t =
          maybe_upgrade P (order_of H A L E P response.upgrade) version now (clear_error a.upgrader)
            restart.1 in
        let due = changed H A L E force response.config_revision a.controller in
        let x : Agent H A L E P = record a {
          upgrader = clear_error a.upgrader;
          disk = restart.1;
        } in
        let y : Agent H A L E P = record a { upgrader = t.upgrader; disk = t.after } in
        let end = left_alive restart.0 t.replaced x y (synced H A L E P due answer y) h in
        (
          ap (λ (b : Agent H A L E P). b.controller) end ∙ (synced_fields due answer y).0,
          ap (λ (b : Agent H A L E P). b.machine) end ∙ (synced_fields due answer y).1,
        )

    -- Heartbeats that report one revision, once the process lives on: whether the next one asks for a
    -- sync is settled by this one, since a sync that brings this revision is asked for again exactly
    -- where it was due and the engine failed to apply it; and where it was not due, the controller
    -- and the machine's network are left alone.
    pub heartbeat_retries :
        (version : String) (now : ℕ) (response : HeartbeatResponse) (answer : SyncResponse)
        (a : Agent H A L E P)
        → (heartbeat_tick H A L E P false version now (some response) (some answer) a).0 ≡ false
        → answer.config_revision ≡ response.config_revision
        → let a' = (heartbeat_tick H A L E P false version now (some response) (some answer) a).1 in
          let due = λ (c : Controller E.Engine). changed H A L E false response.config_revision c in
          (due a'.controller ≡ (due a.controller && not (applies answer a.controller a.machine)))
          × (((due a.controller ≡ true)
                × (a'.controller ≡ (sync H A L E (some answer) a.controller a.machine).0)
                × (a'.machine ≡ (sync H A L E (some answer) a.controller a.machine).1))
              ⊎ ((due a.controller ≡ false)
                  × (a'.controller ≡ a.controller)
                  × (a'.machine ≡ a.machine)))
    heartbeat_retries version now response answer a h same =
        let (c, s) = after_heartbeat false version now response (some answer) a h in
        let again = λ (k : Controller E.Engine). changed H A L E false response.config_revision k in
        elim (Bool-cases (changed H A L E false response.config_revision a.controller)) [
          | inl due ↦
              let c' = c ∙ if_true _ _ _ due in
              (
                ap again c' ∙ settles response.config_revision answer a.controller a.machine same,
                inl (due, c', s ∙ if_true _ _ _ due),
              )
          | inr quiet ↦
              let c' = c ∙ if_false _ _ _ quiet in
              (
                ap again c'
                    ∙ never_due (again a.controller) (not (applies answer a.controller a.machine))
                        quiet,
                inr (quiet, c', s ∙ if_false _ _ _ quiet),
              )
        ]
