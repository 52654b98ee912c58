-- ===== src/Tests/Main.antt =====
-- main.go: runs and a witness.
use exnode.Base.{
  ℕ, String, true, false, ◌≡◌, refl, List, [], ◌∷◌, some, contains, no_dups, nat_eq, string_eq,
}
use exnode.Text.{lower_codes, is_space, trim_space, has_prefix}
use exnode.Conf.{Conf, singbox_config}
use exnode.Conf.Crypto.{is_encrypted, encrypt}
use exnode.Conf.Load.{complete, checked, load_with_key, encrypt_config_file}
use exnode.Main.{
  Flags, Outcome, version_printed, started, asks_version, silenced, passphrase_of, controllers,
  main,
}
use exnode.Main.Paths.{config_paths, config_paths_distinct}
use exnode.Tests.Conf.{plain_ciphers, one_file, node, conf, parse, bytes, file}

abbrev flags : Flags
flags = record {
  config_path = "config.yml";
  key = "";
  encrypt = false;
  decrypt = false;
  show_version = false;
}

abbrev run : List String → Flags → Outcome × String
run args flags =
    main plain_ciphers parse one_file (some (bytes 16)) (λ size. some (bytes 12)) args flags "" ""
      "v1.10.0" "key" file

asked : run ("exnode" ∷ "-v" ∷ []) flags ≡ (version_printed "v1.10.0", file)
unfolding main asks_version contains
asked = refl

begun : (run ("exnode" ∷ []) flags).0 ≡ started false (controllers conf)
unfolding main asks_version passphrase_of silenced lower_codes contains controllers singbox_config
    load_with_key checked complete is_encrypted trim_space is_space has_prefix
begun = refl

hidden :
    (run ("exnode" ∷ []) (record flags { encrypt = true })).1
    ≡ "EXNODE-ENC1:xxxxxxxxxxxxxxxxxxxxxxxxxxxxNodes: [...]="
unfolding main asks_version passphrase_of contains encrypt_config_file encrypt load_with_key checked
    complete is_encrypted trim_space is_space has_prefix
hidden = refl

quiet : silenced "Silent" ≡ true
unfolding silenced lower_codes contains
quiet = refl

loud : silenced "info" ≡ false
unfolding silenced lower_codes contains
loud = refl

abbrev two : Conf
two = record conf { nodes = node ∷ record node { node_id = 12 } ∷ [] }

distinct : no_dups {A = ℕ} (7 ∷ 12 ∷ []) ≡ true
unfolding contains
distinct = refl

config_paths_distinct_example : no_dups (config_paths (controllers two)) ≡ true
config_paths_distinct_example = config_paths_distinct two refl distinct
