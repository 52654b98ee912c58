-- ===== src/Conf/Crypto.antt =====
-- conf/crypto.go: the encrypted form of the configuration. scrypt, AES-GCM, base64 and the source of
-- random bytes are parameters.
pub mod Sealed
use exnode.Base.{
  ℕ, ◌+◌, ◌≡◌, String, Bool, true, List, ◌++◌, Option, none, some, if◌then◌else◌, ltb, length, take,
  drop,
}
use exnode.Text.{◌<>◌, is_nil, trim_space, has_prefix, trim_prefix}

-- cipher.AEAD, as cipher.NewGCM builds it
pub record Aead (Byte : Type 0) : Type 0 where
  pub nonce_size : ℕ
  pub seal : List Byte → String → List Byte
  pub open_ : List Byte → List Byte → Option String

-- `none` is an error
pub record Ciphers : Type 1 where
  pub Byte : Type 0
  -- scrypt.Key with the parameters of the package
  pub scrypt : String → List Byte → Option (List Byte)
  -- aes.NewCipher and cipher.NewGCM
  pub new_gcm : List Byte → Option (Aead Byte)
  -- base64.StdEncoding
  pub encode : List Byte → String
  pub decode : String → Option (List Byte)

abbrev pub enc_magic : String
enc_magic = "EXNODE-ENC1:"

abbrev pub salt_len : ℕ
salt_len = 16

unfoldable pub is_encrypted : String → Bool
is_encrypted text = has_prefix (trim_space text) enc_magic

module _ (C : Ciphers) where
  -- The cipher of a passphrase and a salt.
  unfoldable pub gcm_for : String → List C.Byte → Option (Aead C.Byte)
  gcm_for passphrase salt = elim (C.scrypt passphrase salt) [
    | none ↦ none
    | some key ↦ C.new_gcm key
  ]

  pub sealed : List C.Byte → Aead C.Byte → String → Option (List C.Byte) → Option String
  sealed salt gcm plaintext none = none
  sealed salt gcm plaintext (some nonce) =
      some (enc_magic <> C.encode (salt ++ (nonce ++ gcm.seal nonce plaintext)))

  -- Encrypt, by what the two reads of random bytes give: the salt, and the nonce for its size.
  unfoldable pub encrypt :
      Option (List C.Byte) → (ℕ → Option (List C.Byte)) → String → String → Option String
  unfolding gcm_for sealed
  encrypt salt nonce plaintext passphrase = if is_nil passphrase then none else elim salt [
    | none ↦ none
    | some salt ↦ elim (gcm_for passphrase salt) [
      | none ↦ none
      | some gcm ↦ sealed salt gcm plaintext (nonce gcm.nonce_size)
    ]
  ]

  pub opened : List C.Byte → Option (Aead C.Byte) → Option String
  opened rest none = none
  opened rest (some gcm) =
      if ltb (length rest) gcm.nonce_size
      then none
      else gcm.open_ (take gcm.nonce_size rest) (drop gcm.nonce_size rest)

  pub unsealed : String → Option (List C.Byte) → Option String
  unfolding gcm_for opened
  unsealed passphrase none = none
  unsealed passphrase (some blob) =
      if ltb (length blob) (salt_len + 12)
      then none
      else opened (drop salt_len blob) (gcm_for passphrase (take salt_len blob))

  -- Decrypt
  unfoldable pub decrypt : String → String → Option String
  unfolding unsealed
  decrypt text passphrase =
      if is_nil passphrase
      then none
      else unsealed passphrase (C.decode (trim_prefix (trim_space text) enc_magic))
