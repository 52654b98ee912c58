-- ===== src/Engine/Controlled.antt =====
-- engine/engine.go: Build's choice between the two engines, and both of them behind the controller.
use exnode.Base.{
  String, Bool, true, false, ◌≡◌, refl, ap, sym, ◌∙◌, List, [], ◌∷◌, Option, none, some, ◌⊎◌, inl,
  inr, if◌then◌else◌, ◌==◌, string_eq, Bool-cases, map, some_eq,
}
use exnode.Host.{Host}
use exnode.Conf.{SingboxConfig}
use exnode.Panel.{SyncResponse}
use exnode.Wg.{Interface, PeerStat}
use exnode.Wg.Network.{Addresses, Links}
use exnode.Wg.Device.{Formats}
use exnode.Wg.Kernel.{Kernel}
use exnode.Engine.{Managed, stats}
use exnode.Engine as Kernels
use exnode.Engine.Singbox.{Processes, Singbox, begin, close}
use exnode.Engine.Singbox as Singboxes
use exnode.Node.{to_engine_interface}
use exnode.Node.Control.{Engines, Controller, engine_name, ensure_engine, sync}
use exnode.Node.Control.Revision.{sync_commits, sync_engine, ensured}

-- A kernel engine, by the interfaces that it manages, or a sing-box engine.
abbrev pub AnyEngine : Type 0
AnyEngine = Managed ⊎ Singbox

-- A new kernel engine manages nothing.
unfoldable pub build : SingboxConfig → String → AnyEngine
build cfg type = if type == "singbox" then inr (begin cfg) else inl []

abbrev pub is_singbox : AnyEngine → Bool
is_singbox (inl managed) = false
is_singbox (inr e) = true

module _ (H : Host) (A : Addresses) (L : Links H A) (F : Formats) (K : Kernel H F)
    (P : Processes H) where
  pub apply_any : List Interface → AnyEngine → H.State → Bool × AnyEngine × H.State
  apply_any desired (inl managed) s =
      let (ok, managed', s') = Kernels.apply H A L F K desired managed s in (ok, inl managed', s')
  apply_any desired (inr e) s =
      let (ok, e', s') = Singboxes.apply H A L P desired e s in (ok, inr e', s')

  -- sing-box gives no statistics.
  pub stats_any : AnyEngine → H.State → Option (List PeerStat)
  stats_any (inl managed) s = some (stats H A L F K managed s)
  stats_any (inr e) s = some []

  -- The kernel engine's Close leaves the devices up.
  pub close_any : AnyEngine → H.State → H.State
  close_any (inl managed) s = s
  close_any (inr e) s = (close H A L P e s).1

  abbrev pub engines : SingboxConfig → Engines H
  engines cfg = record {
    Engine = AnyEngine;
    build = build cfg;
    apply = apply_any;
    stats = stats_any;
    close = close_any;
  }

  module _ (cfg : SingboxConfig) where
    -- The engine at hand, if there is one, is of the type that the controller has noted.
    abbrev Typed : Controller AnyEngine → Type 0
    Typed c = (e : AnyEngine) → c.engine ≡ some e → is_singbox e ≡ (c.engine_type == "singbox")

    build_kind : (type : String) → is_singbox (build cfg type) ≡ (type == "singbox")
    unfolding build
    build_kind type = elim (Bool-cases (type == "singbox")) [
      | inl box ↦ rw box refl
      | inr other ↦ rw other refl
    ]

    apply_kind :
        (desired : List Interface) (e : AnyEngine) (s : H.State)
        → is_singbox (apply_any desired e s).1 ≡ is_singbox e
    unfolding apply_any
    apply_kind desired (inl managed) s = refl
    apply_kind desired (inr e) s = refl

    ensured_kind :
        (wanted : String) (c : Controller AnyEngine) (s : H.State)
        → Typed c
        → is_singbox (ensure_engine H A L (engines cfg) wanted c s).0
          ≡ (engine_name wanted == "singbox")
    ensured_kind wanted c s typed = elim (ensured H A L (engines cfg) wanted c s) [
      | inl (here, same) ↦ typed _ here ∙ ap (λ t. t == "singbox") (sym same)
      | inr new ↦ ap is_singbox new ∙ build_kind (engine_name wanted)
    ]

    named_kind : (wanted : String) → (engine_name wanted == "singbox") ≡ (wanted == "singbox")
    named_kind String.[] = refl
    named_kind (String.◌∷◌ x w) = refl

    sync_kind :
        (response : SyncResponse) (c : Controller AnyEngine) (s : H.State)
        → Typed c
        → let c' = (sync H A L (engines cfg) (some response) c s).0 in
          (e : AnyEngine) × (c'.engine ≡ some e)
          × (is_singbox e ≡ (engine_name response.engine == "singbox"))
    sync_kind response c s typed =
        let (engine, s') = ensure_engine H A L (engines cfg) response.engine c s in
        (
          _,
          sync_engine H A L (engines cfg) response c s,
          apply_kind (map to_engine_interface response.interfaces) engine s'
              ∙ ensured_kind response.engine c s typed,
        )

    sync-Typed :
        (answer : Option SyncResponse) (c : Controller AnyEngine) (s : H.State)
        → Typed c
        → Typed (sync H A L (engines cfg) answer c s).0
    unfolding sync
    sync-Typed none c s typed e here = typed e here
    sync-Typed (some response) c s typed e here =
        let (e', made, kind) = sync_kind response c s typed in
        let (_, type, _, _) = sync_commits H A L (engines cfg) response c s in
        ap is_singbox (some_eq (sym here ∙ made)) ∙ kind ∙ ap (λ t. t == "singbox") (sym type)

    -- The controller and the machine after a row of answers to sync requests.
    abbrev pub syncs :
        List (Option SyncResponse) → Controller AnyEngine → H.State → Controller AnyEngine × H.State
    syncs [] c s = (c, s)
    syncs (answer ∷ answers) c s =
        let (c', s') = sync H A L (engines cfg) answer c s in syncs answers c' s'

    syncs-Typed :
        (answers : List (Option SyncResponse)) (c : Controller AnyEngine) (s : H.State)
        → Typed c
        → Typed (syncs answers c s).0
    syncs-Typed [] c s typed = typed
    syncs-Typed (answer ∷ answers) c s typed =
        let (c', s') = sync H A L (engines cfg) answer c s in
        syncs-Typed answers c' s' (sync-Typed answer c s typed)

    -- Whatever the panel has answered before, from a controller without an engine on: after a sync that
    -- is answered, the engine at hand is sing-box exactly where the answer asks for it by its name,
    -- and otherwise the kernel's, whichever of them ran before and whether or not they applied what
    -- they were given.
    pub syncs_switch :
        (answers : List (Option SyncResponse)) (response : SyncResponse) (c : Controller AnyEngine)
        (s : H.State)
        → c.engine ≡ none
        → let (c₁, s₁) = syncs answers c s in
          let c₂ = (sync H A L (engines cfg) (some response) c₁ s₁).0 in
          (e : AnyEngine) × (c₂.engine ≡ some e) × (is_singbox e ≡ (response.engine == "singbox"))
    syncs_switch answers response c s fresh =
        let (c₁, s₁) = syncs answers c s in
        let (e, here, kind) =
          sync_kind response c₁ s₁ (syncs-Typed answers c s (λ e h. cc (fresh, h))) in
        (e, here, kind ∙ named_kind response.engine)
