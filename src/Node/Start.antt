-- ===== src/Node/Start.antt =====
-- node/controller.go, what a controller is built from and tells the panel of itself.
use exnode.Base.{
  String, true, false, List, [], ◌∷◌, Option, none, some, if◌then◌else◌, map, is_empty,
}
use exnode.Base.Int.{ℤ}
use exnode.Text.{is_nil, join}
use exnode.Host.{Host}
use exnode.Conf.{SingboxConfig, PanelConfig, heartbeat_interval, status_interval, http_timeout}
use exnode.Overlay.{Config}
use exnode.Overlay.Commands.{route_dev}
use exnode.Panel.{HeartbeatRequest}
use exnode.Panel.Client.{Client, new_client}
use exnode.SelfUpdate.Attempt.{UpgradeError, Upgrader, pending_error}

-- The part of Controller that does not change, with the timeout of its client.
pub record Settings : Type 0 where
  pub client : Client
  pub timeout : ℤ
  pub singbox : SingboxConfig
  pub heartbeat_every : ℤ
  pub status_every : ℤ
  pub version : String
  pub os_name : String
  pub binary_path : String
  pub pid : ℤ
  pub started_at : ℤ
  pub primary_if : String

-- selfPath
unfoldable pub self_path : Option String → String
self_path none = ""
self_path (some path) = path

module _ (H : Host) where
  second_try : H.State → String × H.State
  second_try s =
      let r = H.run ("ip" ∷ "-4" ∷ "route" ∷ "get" ∷ "1.1.1.1" ∷ []) s in
      (if r.ok then route_dev r.stdout else "", r.after)

  -- primaryInterface
  unfoldable pub primary_interface : H.State → String × H.State
  unfolding second_try route_dev
  primary_interface s =
      let r = H.run ("ip" ∷ "-4" ∷ "route" ∷ "show" ∷ "default" ∷ []) s in
      let dev = if r.ok then route_dev r.stdout else "" in
      elim (is_nil dev) [ true ↦ second_try r.after | false ↦ (dev, r.after) ]

  -- NewController, with the path of the program, the number of the process and the time.
  unfoldable pub new_controller :
      PanelConfig
      → SingboxConfig
      → String
      → String
      → Option String
      → ℤ
      → ℤ
      → H.State
      → Settings × H.State
  unfolding primary_interface self_path new_client heartbeat_interval status_interval http_timeout
  new_controller p singbox version os_name exe pid now s =
      let (dev, s') = primary_interface s in
      (
        record {
          client = new_client p.api_host p.node_id p.secret_key;
          timeout = http_timeout p;
          singbox = singbox;
          heartbeat_every = heartbeat_interval p;
          status_every = status_interval p;
          version = version;
          os_name = os_name;
          binary_path = self_path exe;
          pid = pid;
          started_at = now;
          primary_if = dev;
        },
        s',
      )

-- The request of heartbeatTick, with the wording of an upgrade's error.
unfoldable pub heartbeat_request :
    (UpgradeError → String) → String → Settings → Upgrader → HeartbeatRequest
unfolding pending_error
heartbeat_request wording goarch c u = record {
  agent_version = c.version;
  os = c.os_name;
  arch = goarch;
  upgrade_error = elim (pending_error u) [ none ↦ "" | some e ↦ wording e ];
  primary_interface = c.primary_if;
  binary_path = c.binary_path;
  pid = c.pid;
  started_at = c.started_at;
}

-- overlayNames
unfoldable pub overlay_names : List Config → String
overlay_names cfgs = if is_empty cfgs then "-" else join (map (λ c. c.name) cfgs) ","
