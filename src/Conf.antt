-- ===== src/Conf.antt =====
-- conf/conf.go and the helpers of main.go on the configuration: defaults, and what is loaded.
pub mod Crypto
pub mod Load
use exnode.Base.{ℕ, String, Bool, List, if◌then◌else◌}
use exnode.Base.Int.{ℤ, in_seconds, is_pos, to_nat}
use exnode.Text.{◌<>◌, is_nil, format_nat}

pub record SingboxConfig : Type 0 where
  pub bin_path : String
  pub config_path : String
  pub system : Bool
  pub log_level : String

-- Type and Singbox of the engine's configuration, and the log's level.
pub record EngineConfig : Type 0 where
  pub type : String
  pub singbox : SingboxConfig

pub record PanelConfig : Type 0 where
  pub api_host : String
  pub node_id : ℕ
  pub secret_key : String
  pub timeout : ℤ
  pub heartbeat_seconds : ℤ
  pub status_seconds : ℤ

pub record Conf : Type 0 where
  pub log_level : String
  pub engine : EngineConfig
  pub nodes : List PanelConfig

unfoldable pub engine_type : Conf → String
engine_type c = if is_nil c.engine.type then "kernel" else c.engine.type

-- A duration in nanoseconds, with the default for what is not above 0.
seconds_or : ℕ → ℤ → ℤ
unfolding in_seconds
seconds_or default seconds = in_seconds (if is_pos seconds then to_nat seconds else default)

unfoldable pub heartbeat_interval : PanelConfig → ℤ
unfolding seconds_or
heartbeat_interval p = seconds_or 15 p.heartbeat_seconds

unfoldable pub status_interval : PanelConfig → ℤ
unfolding seconds_or
status_interval p = seconds_or 20 p.status_seconds

unfoldable pub http_timeout : PanelConfig → ℤ
unfolding seconds_or
http_timeout p = seconds_or 30 p.timeout

-- singboxConfig of main.go
unfoldable pub singbox_config : Conf → ℕ → SingboxConfig
singbox_config c node_id =
    let sb = c.engine.singbox in
    record sb {
      config_path =
          if is_nil sb.config_path
          then "/etc/exnode/sing-box-node" <> format_nat node_id <> ".json"
          else sb.config_path;
    }
