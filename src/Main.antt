-- ===== src/Main.antt =====
-- main.go: what the arguments and the configuration lead to, up to the start of the controllers.
-- flag.Parse, the environment and the log are parameters or left out.
pub mod Paths
use Prim.Native.Char.{code}
use exnode.Base.{
  ℕ, String, Bool, true, false, ◌||◌, List, [], ◌∷◌, Option, none, some, if◌then◌else◌, ◌==◌,
  string_eq, nat_eq, list_eq, any, contains, map,
}
use exnode.Text.{is_nil, lower_codes, codes}
use exnode.Host.{Host}
use exnode.Conf.{SingboxConfig, PanelConfig, Conf, singbox_config}
use exnode.Conf.Crypto.{Ciphers}
use exnode.Conf.Load.{load_with_key, encrypt_config_file, decrypt_config_file}

-- The flags, as flag.Parse leaves them.
pub record Flags : Type 0 where
  pub config_path : String
  pub key : String
  pub encrypt : Bool
  pub decrypt : Bool
  pub show_version : Bool

-- What a run comes to.
pub data Outcome : Type 0 where
  version_printed : String → Outcome
  encrypted : String → Outcome
  decrypted : String → Outcome
  fatal : Outcome
  -- the controllers' configurations, and whether the log is silenced
  started : Bool → List (PanelConfig × SingboxConfig) → Outcome

-- A first argument that asks for the version.
unfoldable pub asks_version : List String → Bool
asks_version (exe ∷ arg ∷ args) = contains ("version" ∷ "v" ∷ "-v" ∷ "--version" ∷ []) arg
asks_version _ = false

unfoldable pub passphrase_of : String → String → String → String
passphrase_of key env default =
    let p = if is_nil key then env else key in if is_nil p then default else p

abbrev quiet_levels : List String
quiet_levels = "none" ∷ "off" ∷ "silent" ∷ "quiet" ∷ "disabled" ∷ []

-- `switch strings.ToLower(cfg.Log.Level)`
unfoldable pub silenced : String → Bool
unfolding lower_codes
silenced level = contains (map codes quiet_levels) (lower_codes level)

unfoldable pub controllers : Conf → List (PanelConfig × SingboxConfig)
unfolding singbox_config
controllers c = map (λ p. (p, singbox_config c p.node_id)) c.nodes

module _ (C : Ciphers) (parse : String → Option Conf) (H : Host) (salt : Option (List C.Byte))
    (nonce : ℕ → Option (List C.Byte)) where
  started_with : Option Conf → Outcome
  unfolding silenced controllers
  started_with none = fatal
  started_with (some c) = started (silenced c.log_level) (controllers c)

  decrypted_to : Option String → Outcome
  decrypted_to none = fatal
  decrypted_to (some plain) = decrypted plain

  -- main, with the arguments, the flags, the values of EXNODE_KEY and EXNODE_CONFIG, and the version
  -- and the key that are built in.
  unfoldable pub main :
      List String → Flags → String → String → String → String → H.State → Outcome × H.State
  unfolding asks_version passphrase_of encrypt_config_file decrypt_config_file load_with_key
      started_with decrypted_to
  main args flags env_key env_config version default_key s =
      let p = passphrase_of flags.key env_key default_key in
      elim (asks_version args || flags.show_version) [
        | true ↦ (version_printed version, s)
        | false ↦ elim flags.encrypt [
          | true ↦
              let (ok, s') =
                encrypt_config_file C parse H salt nonce env_config flags.config_path p s in
              (if ok then encrypted flags.config_path else fatal, s')
          | false ↦ elim flags.decrypt [
            | true ↦ (decrypted_to (decrypt_config_file C parse H flags.config_path p s), s)
            | false ↦ (started_with (load_with_key C parse H env_config flags.config_path p s), s)
          ]
        ]
      ]
