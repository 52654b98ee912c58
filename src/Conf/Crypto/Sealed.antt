-- ===== src/Conf/Crypto/Sealed.antt =====
-- A configuration that was encrypted is read back.
use mathlib.Core.Path.{subst, ap₂}
use exnode.Base.{
  ℕ, ◌≡◌, refl, sym, ap, ◌∙◌, String, true, false, List, ◌++◌, Option, none, some, if◌then◌else◌,
  ltb, length, take, drop, take-length, drop-length, length-concat, Option-cases, Bool-cases, inl,
  inr, some_eq, arith, if_false,
}
use exnode.Text.{◌<>◌, is_nil, trim_space, trim_right, trim_prefix, is_space}
use exnode.Text.Fields.{solid}
use exnode.Text.Trim.{trim_space-concat, has_prefix-concat, trim_prefix-concat}
use exnode.Conf.Crypto.{
  Aead, Ciphers, enc_magic, is_encrypted, gcm_for, sealed, encrypt, opened, unsealed, decrypt,
}

-- What the documentation of the packages promises.
pub record Documented (C : Ciphers) : Type 0 where
  pub decode_encode : (bytes : List C.Byte) → C.decode (C.encode bytes) ≡ some bytes
  -- Base64 has no white space, so there is none at its end.
  pub encode_end : (bytes : List C.Byte) → trim_right (C.encode bytes) ≡ C.encode bytes
  pub standard_nonce :
      (key : List C.Byte) {gcm : Aead C.Byte} → C.new_gcm key ≡ some gcm → gcm.nonce_size ≡ 12
  pub open_seal :
      (key : List C.Byte) {gcm : Aead C.Byte}
      → C.new_gcm key ≡ some gcm
      → (nonce : List C.Byte) (plaintext : String) → length nonce ≡ gcm.nonce_size
      → gcm.open_ nonce (gcm.seal nonce plaintext) ≡ some plaintext

magic_solid : solid enc_magic ≡ true
unfolding is_space
magic_solid = refl

not_short : {A : Type 0} (xs ys : List A) → ltb (length (xs ++ ys)) (length xs) ≡ false
not_short xs ys = ground (arith, length-concat xs ys)

long_enough :
    {A : Type 0} (xs ys zs : List A)
    → length xs ≡ 16
    → length ys ≡ 12
    → ltb (length (xs ++ (ys ++ zs))) 28 ≡ false
long_enough xs ys zs h k = ground (arith, length-concat xs (ys ++ zs), length-concat ys zs)

cut :
    {A : Type 0} (n : ℕ) (xs ys : List A) (f : List A → List A → Option String)
    → length xs ≡ n
    → (if ltb (length (xs ++ ys)) n then none else f (take n (xs ++ ys)) (drop n (xs ++ ys)))
      ≡ f xs ys
cut n xs ys f h = rw (← h) (rw (not_short xs ys, take-length xs ys, drop-length xs ys))

module _ (C : Ciphers) (D : Documented C) where
  trimmed :
      (bytes : List C.Byte) → trim_space (enc_magic <> C.encode bytes) ≡ enc_magic <> C.encode bytes
  trimmed bytes = trim_space-concat enc_magic (C.encode bytes) magic_solid refl (D.encode_end bytes)

  marked : (bytes : List C.Byte) → is_encrypted (enc_magic <> C.encode bytes) ≡ true
  unfolding is_encrypted
  marked bytes = rw (trimmed bytes) (has_prefix-concat enc_magic (C.encode bytes))

  gcm_for_made :
      (passphrase : String) (salt : List C.Byte) {gcm : Aead C.Byte}
      → gcm_for C passphrase salt ≡ some gcm
      → (key : List C.Byte) × (C.new_gcm key ≡ some gcm)
  unfolding gcm_for
  gcm_for_made passphrase salt = elim (Option-cases (C.scrypt passphrase salt)) [
    | inl bad ↦ rw (gcm_for, bad) (λ h. cc)
    | inr (key, good) ↦ rw (gcm_for, good) (λ h. (key, h))
  ]

  opened-seal :
      (key nonce : List C.Byte) (plaintext : String) {gcm : Aead C.Byte}
      → C.new_gcm key ≡ some gcm
      → length nonce ≡ 12
      → opened C (nonce ++ gcm.seal nonce plaintext) (some gcm) ≡ some plaintext
  unfolding opened
  opened-seal key nonce plaintext {gcm = gcm} made size =
      let fits = size ∙ sym (D.standard_nonce key made) in
      cut gcm.nonce_size nonce (gcm.seal nonce plaintext) gcm.open_ fits
      ∙ D.open_seal key made nonce plaintext fits

  unsealed-seal :
      (passphrase : String) (salt nonce : List C.Byte) (plaintext : String) {gcm : Aead C.Byte}
      → gcm_for C passphrase salt ≡ some gcm
      → length salt ≡ 16
      → length nonce ≡ 12
      → unsealed C passphrase (some (salt ++ (nonce ++ gcm.seal nonce plaintext))) ≡ some plaintext
  unfolding unsealed
  unsealed-seal passphrase salt nonce plaintext {gcm = gcm} found salt_size nonce_size =
      let rest = nonce ++ gcm.seal nonce plaintext in
      let (key, made) = gcm_for_made passphrase salt found in
      if_false _ _ _ (long_enough salt nonce (gcm.seal nonce plaintext) salt_size nonce_size)
      ∙ ap₂ (opened C) (subst (λ n. drop n (salt ++ rest) ≡ rest) salt_size (drop-length salt rest))
          (ap (gcm_for C passphrase)
              (subst (λ n. take n (salt ++ rest) ≡ salt) salt_size (take-length salt rest))
            ∙ found)
      ∙ opened-seal key nonce plaintext made nonce_size

  decrypted :
      (passphrase plaintext : String) (bytes : List C.Byte)
      → is_nil passphrase ≡ false
      → unsealed C passphrase (some bytes) ≡ some plaintext
      → decrypt C (enc_magic <> C.encode bytes) passphrase ≡ some plaintext
  unfolding decrypt
  decrypted passphrase plaintext bytes given opens =
      if_false _ _ _ given
      ∙ ap (λ t. unsealed C passphrase (C.decode (trim_prefix t enc_magic))) (trimmed bytes)
      ∙ ap (λ t. unsealed C passphrase (C.decode t)) (trim_prefix-concat enc_magic (C.encode bytes))
      ∙ ap (unsealed C passphrase) (D.decode_encode bytes)
      ∙ opens

  encrypted :
      (salt nonce : List C.Byte) (plaintext passphrase : String) {blob : String}
      → encrypt C (some salt) (λ size. some nonce) plaintext passphrase ≡ some blob
      → (is_nil passphrase ≡ false)
        × ((gcm : Aead C.Byte) × (gcm_for C passphrase salt ≡ some gcm)
            × (enc_magic <> C.encode (salt ++ (nonce ++ gcm.seal nonce plaintext)) ≡ blob))
  unfolding encrypt sealed
  encrypted salt nonce plaintext passphrase = elim (Bool-cases (is_nil passphrase)) [
    | inl empty ↦ rw empty (λ h. cc)
    | inr given ↦ rw given (elim (Option-cases (gcm_for C passphrase salt)) [
      | inl bad ↦ rw bad (λ h. cc)
      | inr (gcm, found) ↦ rw found (λ h. (refl, (gcm, refl, some_eq h)))
    ])
  ]

  -- What Encrypt makes of a text, with a salt of 16 and a nonce of 12 random bytes, is told apart from
  -- plain text, and Decrypt gives the text back for the same passphrase.
  pub decrypt-encrypt :
      (salt nonce : List C.Byte) (plaintext passphrase : String) {blob : String}
      → length salt ≡ 16
      → length nonce ≡ 12
      → encrypt C (some salt) (λ size. some nonce) plaintext passphrase ≡ some blob
      → (is_encrypted blob ≡ true) × (decrypt C blob passphrase ≡ some plaintext)
  decrypt-encrypt salt nonce plaintext passphrase {blob = blob} salt_size nonce_size h =
      let (given, (gcm, found, same)) = encrypted salt nonce plaintext passphrase h in
      subst (λ b. (is_encrypted b ≡ true) × (decrypt C b passphrase ≡ some plaintext)) same
        (
          marked (salt ++ (nonce ++ gcm.seal nonce plaintext)),
          decrypted passphrase plaintext (salt ++ (nonce ++ gcm.seal nonce plaintext)) given
              (unsealed-seal passphrase salt nonce plaintext found salt_size nonce_size),
        )
