-- ===== src/Conf/Load.antt =====
-- conf/conf.go, LoadWithKey, and main.go, the commands that encrypt and decrypt the file. yaml.Unmarshal
-- is a parameter; the mode of the file is not modelled.
pub mod Stored
use exnode.Base.{
  ℕ, ◌≡◌, String, Bool, true, false, ◌||◌, not, List, [], ◌∷◌, all, Option, none, some,
  if◌then◌else◌, ◌==◌, nat_eq, is_empty,
}
use exnode.Text.{is_nil}
use exnode.Host.{Host}
use exnode.Conf.{Conf, PanelConfig}
use exnode.Conf.Crypto.{Ciphers, is_encrypted, encrypt, decrypt}

-- A panel with all that is required.
unfoldable pub complete : PanelConfig → Bool
complete n = not (is_nil n.api_host || n.node_id == 0 || is_nil n.secret_key)

unfoldable pub checked : Conf → Option Conf
unfolding complete
checked c = if is_empty c.nodes then none else if all complete c.nodes then some c else none

module _ (C : Ciphers) (parse : String → Option Conf) where
  parsed : Option String → Option Conf
  unfolding checked
  parsed none = none
  parsed (some text) = elim (parse text) [ none ↦ none | some c ↦ checked c ]

  pub loaded : String → Option String → Option Conf
  unfolding parsed
  loaded passphrase none = none
  loaded passphrase (some text) =
      if is_encrypted text then parsed (decrypt C text passphrase) else parsed (some text)

  module _ (H : Host) where
    -- LoadWithKey, with the value of EXNODE_CONFIG
    unfoldable pub load_with_key : String → String → String → H.State → Option Conf
    unfolding loaded
    load_with_key env path passphrase s =
        loaded passphrase (if is_nil env then H.read_file path s else some env)

    -- decryptConfigFile
    unfoldable pub decrypt_config_file : String → String → H.State → Option String
    decrypt_config_file path passphrase s = elim (H.read_file path s) [
      | none ↦ none
      | some text ↦ if is_encrypted text then decrypt C text passphrase else some text
    ]

    rewritten : String → Option String → H.State → Bool × H.State
    rewritten path none s = (false, s)
    rewritten path (some blob) s = H.write_file path blob s

    -- encryptConfigFile, with the value of EXNODE_CONFIG and the random bytes of Encrypt
    unfoldable pub encrypt_config_file :
        Option (List C.Byte)
        → (ℕ → Option (List C.Byte))
        → String
        → String
        → String
        → H.State
        → Bool × H.State
    unfolding load_with_key rewritten
    encrypt_config_file salt nonce env path passphrase s =
        if is_nil passphrase then (false, s) else elim (H.read_file path s) [
          | none ↦ (false, s)
          | some plain ↦
              if is_encrypted plain then (false, s) else elim (load_with_key env path "" s) [
                | none ↦ (false, s)
                | some c ↦ rewritten path (encrypt C salt nonce plain passphrase) s
              ]
        ]
