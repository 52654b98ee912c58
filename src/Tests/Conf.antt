-- ===== src/Tests/Conf.antt =====
-- conf: runs and witnesses.
use Prim.Native.Char.{Char}
use mathlib.Core.Path.{subst}
use exnode.Text.Trim.{trim_right_cons}
use exnode.Base.{
  ◌≢◌, All, sym, some_eq, ℕ, zero, suc, ◌≡◌, refl, ap, String, Bool, true, false, List, [], ◌∷◌,
  Option, none, some, if◌then◌else◌, ◌==◌, string_eq, list_eq,
}
use exnode.Base.Int.{pos}
use exnode.Text.{is_nil, trim_right, is_space, trim_space, has_prefix}
use exnode.Host.{Host}
use exnode.Conf.{Conf, PanelConfig}
use exnode.Conf.Crypto.{Aead, Ciphers, is_encrypted, encrypt, decrypt}
use exnode.Conf.Crypto.Sealed.{Documented, decrypt-encrypt}
use exnode.Conf.Load.{complete, checked, load_with_key, decrypt_config_file, encrypt_config_file}
use exnode.Conf.Load.Stored.{Usable, encrypt_config_file_keeps, load_with_key-Usable}

-- Ciphers that hide nothing: a byte is a character, and an encoded text ends with a mark.
abbrev pub chars : String → List Char
chars String.[] = []
chars (String.◌∷◌ c s) = c ∷ chars s

abbrev pub marked : List Char → String
marked [] = "="
marked (c ∷ cs) = String.◌∷◌ c (marked cs)

abbrev pub unmarked : String → List Char
unmarked String.[] = []
unmarked (String.◌∷◌ c String.[]) = []
unmarked (String.◌∷◌ c (String.◌∷◌ d s)) = c ∷ unmarked (String.◌∷◌ d s)

abbrev pub text_of : List Char → String
text_of [] = ""
text_of (c ∷ cs) = String.◌∷◌ c (text_of cs)

abbrev pub plain_gcm : Aead Char
plain_gcm = record {
  nonce_size = 12;
  seal = λ nonce text. chars text;
  open_ = λ nonce bytes. some (text_of bytes);
}

abbrev pub plain_ciphers : Ciphers
plain_ciphers = record {
  Byte = Char;
  scrypt = λ passphrase salt. some [];
  new_gcm = λ key. some plain_gcm;
  encode = marked;
  decode = λ text. some (unmarked text);
}

unmarked-marked : (cs : List Char) → unmarked (marked cs) ≡ cs
unmarked-marked [] = refl
unmarked-marked (c ∷ []) = refl
unmarked-marked (c ∷ d ∷ cs) = ap (◌∷◌ c) (unmarked-marked (d ∷ cs))

text_of-chars : (s : String) → text_of (chars s) ≡ s
text_of-chars String.[] = refl
text_of-chars (String.◌∷◌ c s) = ap (String.◌∷◌ c) (text_of-chars s)

marked_full : (cs : List Char) → is_nil (marked cs) ≡ false
marked_full [] = refl
marked_full (c ∷ cs) = refl

end_marked : (cs : List Char) → trim_right (marked cs) ≡ marked cs
unfolding trim_right is_space
end_marked [] = refl
end_marked (c ∷ cs) = trim_right_cons c (marked cs) (marked_full cs) (end_marked cs)

plain-Documented : Documented plain_ciphers
plain-Documented = record {
  decode_encode = λ bytes. ap some (unmarked-marked bytes);
  encode_end = end_marked;
  standard_nonce = λ key made. sym (ap (λ (g : Aead Char). g.nonce_size) (some_eq made));
  open_seal = λ key made nonce plaintext size.
      subst (λ (g : Aead Char). g.open_ nonce (g.seal nonce plaintext) ≡ some plaintext)
        (some_eq made) (ap some (text_of-chars plaintext));
}

-- A machine with one file.
abbrev pub one_file : Host
one_file = record {
  State = String;
  run = λ argv s. record { ok = false; stdout = ""; combined = ""; after = s };
  read_file = λ path s. some s;
  write_file = λ path text s. (true, text);
}

abbrev pub node : PanelConfig
node = record {
  api_host = "https://panel.example.com";
  node_id = 7;
  secret_key = "s";
  timeout = pos 0;
  heartbeat_seconds = pos 0;
  status_seconds = pos 0;
}

abbrev pub conf : Conf
conf = record {
  log_level = "";
  engine = record {
    type = "";
    singbox = record { bin_path = ""; config_path = ""; system = false; log_level = "" };
  };
  nodes = node ∷ [];
}

abbrev pub parse : String → Option Conf
parse text = if text == "Nodes: []" then some (record conf { nodes = [] }) else some conf

abbrev pub bytes : ℕ → List Char
bytes zero = []
bytes (suc n) = "x" ∷ bytes n

abbrev pub file : String
file = "Nodes: [...]"

loads : load_with_key plain_ciphers parse one_file "" "config.yml" "" file ≡ some conf
unfolding load_with_key checked complete is_encrypted trim_space is_space has_prefix
loads = refl

none_loaded : load_with_key plain_ciphers parse one_file "Nodes: []" "config.yml" "" file ≡ none
unfolding load_with_key checked complete is_encrypted trim_space is_space has_prefix
none_loaded = refl

sealed :
    encrypt plain_ciphers (some (bytes 16)) (λ size. some (bytes 12)) file "key"
    ≡ some "EXNODE-ENC1:xxxxxxxxxxxxxxxxxxxxxxxxxxxxNodes: [...]="
unfolding encrypt
sealed = refl

decrypt-encrypt_example :
    (is_encrypted "EXNODE-ENC1:xxxxxxxxxxxxxxxxxxxxxxxxxxxxNodes: [...]=" ≡ true)
    × (decrypt plain_ciphers "EXNODE-ENC1:xxxxxxxxxxxxxxxxxxxxxxxxxxxxNodes: [...]=" "key"
        ≡ some file)
decrypt-encrypt_example =
    decrypt-encrypt plain_ciphers plain-Documented (bytes 16) (bytes 12) file "key" refl refl sealed

load_with_key-Usable_example : (conf.nodes ≢ []) × All Usable conf.nodes
load_with_key-Usable_example =
    load_with_key-Usable plain_ciphers parse one_file "" "config.yml" "" file loads

abbrev encrypting : Bool × String
encrypting =
    encrypt_config_file plain_ciphers parse one_file (some (bytes 16)) (λ size. some (bytes 12)) ""
      "config.yml" "key" file

went_well : encrypting.0 ≡ true
unfolding encrypt_config_file load_with_key checked complete is_encrypted trim_space is_space
    has_prefix encrypt
went_well = refl

encrypt_config_file_keeps_example :
    (load_with_key plain_ciphers parse one_file "" "config.yml" "key" encrypting.1
      ≡ load_with_key plain_ciphers parse one_file "" "config.yml" "key" file)
    × (decrypt_config_file plain_ciphers parse one_file "config.yml" "key" encrypting.1 ≡ some file)
encrypt_config_file_keeps_example =
    encrypt_config_file_keeps plain_ciphers parse one_file plain-Documented (λ path text s ok. refl)
      (bytes 16) (bytes 12) "" "config.yml" "key" file refl refl went_well
