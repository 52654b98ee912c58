-- ===== src/Conf/Load/Stored.antt =====
-- What is loaded, and the file that was encrypted.
use mathlib.Core.Path.{subst}
use exnode.Base.{
  ◌≢◌, All, [], ◌∷◌, &&_true, arith, eq→beq, string_eq, ℕ, ◌≡◌, refl, sym, ap, ◌∙◌, String, true,
  false, List, all, length, Option, none, some, nat_eq, is_empty, Bool-cases, Option-cases, inl,
  inr, some_eq, if_true, if_false,
}
use exnode.Text.{is_nil}
use exnode.Host.{Host}
use exnode.Conf.{Conf, PanelConfig}
use exnode.Conf.Crypto.{Ciphers, is_encrypted, encrypt, decrypt}
use exnode.Conf.Crypto.Sealed.{Documented, decrypt-encrypt}
use exnode.Conf.Load.{
  complete, checked, loaded, parsed, load_with_key, decrypt_config_file, encrypt_config_file,
  rewritten,
}

-- A panel that can be asked: it has a host, a number other than 0 and a key.
abbrev pub Usable : PanelConfig → Type 0
Usable n = (n.api_host ≢ "") × (n.node_id ≢ 0) × (n.secret_key ≢ "")

complete-Usable : (n : PanelConfig) → complete n ≡ true → Usable n
unfolding complete
complete-Usable n h = (
  λ p. ground (arith, h, ap is_nil p),
  λ p. ground (arith, h, eq→beq n.node_id 0 p),
  λ p. ground (arith, h, ap is_nil p),
)

All-complete : (nodes : List PanelConfig) → all complete nodes ≡ true → All Usable nodes
All-complete [] h = tt
All-complete (n ∷ nodes) h =
    let (here, rest) = &&_true (complete n) (all complete nodes) h in
    (complete-Usable n here, All-complete nodes rest)

not_empty : (nodes : List PanelConfig) → is_empty nodes ≡ false → nodes ≢ []
not_empty nodes h p = let lost : true ≡ false = ap is_empty (sym p) ∙ h in cc

module _ (C : Ciphers) (parse : String → Option Conf) (H : Host) where
  stored :
      (salt : Option (List C.Byte)) (nonce : ℕ → Option (List C.Byte))
      (env path passphrase : String) (s : H.State)
      → (encrypt_config_file C parse H salt nonce env path passphrase s).0 ≡ true
      → (plain : String) × (blob : String) × (H.read_file path s ≡ some plain)
        × (is_encrypted plain ≡ false)
        × (encrypt C salt nonce plain passphrase ≡ some blob)
        × ((H.write_file path blob s).0 ≡ true)
        × ((encrypt_config_file C parse H salt nonce env path passphrase s).1
            ≡ (H.write_file path blob s).1)
  unfolding encrypt_config_file rewritten
  stored salt nonce env path passphrase s = elim (Bool-cases (is_nil passphrase)) [
    | inl empty ↦ rw empty (λ h. cc)
    | inr given ↦ rw given (elim (Option-cases (H.read_file path s)) [
      | inl unread ↦ rw unread (λ h. cc)
      | inr (plain, read) ↦ rw read (elim (Bool-cases (is_encrypted plain)) [
        | inl twice ↦ rw twice (λ h. cc)
        | inr once ↦ rw once (elim (Option-cases (load_with_key C parse H env path "" s)) [
          | inl bad ↦ rw bad (λ h. cc)
          | inr (c, good) ↦ rw good (elim (Option-cases (encrypt C salt nonce plain passphrase)) [
            | inl unsealed ↦ rw unsealed (λ h. cc)
            | inr (blob, done) ↦ rw done (λ h. (plain, blob, refl, once, done, h, refl))
          ])
        ])
      ])
    ])
  ]

  loaded_sealed :
      (passphrase text plain : String)
      → is_encrypted text ≡ true
      → decrypt C text passphrase ≡ some plain
      → loaded C parse passphrase (some text) ≡ parsed C parse (some plain)
  unfolding loaded
  loaded_sealed passphrase text plain mark opens = if_true _ _ _ mark ∙ ap (parsed C parse) opens

  loaded_plain :
      (passphrase plain : String)
      → is_encrypted plain ≡ false
      → loaded C parse passphrase (some plain) ≡ parsed C parse (some plain)
  unfolding loaded
  loaded_plain passphrase plain mark = if_false _ _ _ mark

  -- Once the file was encrypted without an error, with a salt of 16 and a nonce of 12 random bytes, the
  -- agent loads the same configuration from it with the passphrase, and decrypting the file shows the
  -- text that stood in it before. This holds where a file that was written reads back as it is.
  pub encrypt_config_file_keeps :
      Documented C
      → ((path text : String) (s : H.State)
          → (H.write_file path text s).0 ≡ true
          → H.read_file path (H.write_file path text s).1 ≡ some text)
      → (salt nonce : List C.Byte) (env path passphrase : String) (s : H.State) → length salt ≡ 16
      → length nonce ≡ 12
      → (encrypt_config_file C parse H (some salt) (λ size. some nonce) env path passphrase s).0
        ≡ true
      → let s' =
          (encrypt_config_file C parse H
            (some salt)
            (λ size. some nonce)
            env
            path
            passphrase
            s).1 in
        (load_with_key C parse H "" path passphrase s'
          ≡ load_with_key C parse H "" path passphrase s)
        × (decrypt_config_file C parse H path passphrase s' ≡ H.read_file path s)
  unfolding load_with_key decrypt_config_file
  encrypt_config_file_keeps D reads salt nonce env path passphrase s n m ok =
      let (plain, blob, read, once, done, wrote, after) =
        stored (some salt) (λ size. some nonce) env path passphrase s ok in
      let (mark, opens) = decrypt-encrypt C D salt nonce plain passphrase n m done in
      let read' = ap (H.read_file path) after ∙ reads path blob s wrote in
      (
        ap (loaded C parse passphrase) read'
            ∙ loaded_sealed passphrase blob plain mark opens
            ∙ sym (ap (loaded C parse passphrase) read ∙ loaded_plain passphrase plain once),
        rw (decrypt_config_file, read') (if_true _ _ _ mark ∙ opens ∙ sym read),
      )

  checked-complete :
      (c d : Conf) → checked c ≡ some d → (is_empty d.nodes ≡ false) × (all complete d.nodes ≡ true)
  unfolding checked
  checked-complete c d = elim (Bool-cases (is_empty c.nodes)) [
    | inl empty ↦ rw empty (λ h. cc)
    | inr full ↦ rw full (elim (Bool-cases (all complete c.nodes)) [
      | inl good ↦ rw good (λ h.
          subst (λ (e : Conf). (is_empty e.nodes ≡ false) × (all complete e.nodes ≡ true))
            (some_eq h) (full, good))
      | inr bad ↦ rw bad (λ h. cc)
    ])
  ]

  parsed-complete :
      (text : Option String) (d : Conf)
      → parsed C parse text ≡ some d
      → (is_empty d.nodes ≡ false) × (all complete d.nodes ≡ true)
  unfolding parsed
  parsed-complete none d = λ h. cc
  parsed-complete (some text) d = elim (Option-cases (parse text)) [
    | inl bad ↦ rw (parsed, bad) (λ h. cc)
    | inr (c, good) ↦ rw (parsed, good) (checked-complete c d)
  ]

  loaded-complete :
      (passphrase : String) (text : Option String) (d : Conf)
      → loaded C parse passphrase text ≡ some d
      → (is_empty d.nodes ≡ false) × (all complete d.nodes ≡ true)
  unfolding loaded
  loaded-complete passphrase none d = λ h. cc
  loaded-complete passphrase (some text) d = elim (Bool-cases (is_encrypted text)) [
    | inl mark ↦ rw mark (parsed-complete (decrypt C text passphrase) d)
    | inr plain ↦ rw plain (parsed-complete (some text) d)
  ]

  -- A configuration that is loaded, from the variable or the file, encrypted or not, has at least one
  -- panel, and every one of its panels has a host, a node's number other than 0 and a secret key.
  pub load_with_key-Usable :
      (env path passphrase : String) (s : H.State) {c : Conf}
      → load_with_key C parse H env path passphrase s ≡ some c
      → (c.nodes ≢ []) × All Usable c.nodes
  unfolding load_with_key
  load_with_key-Usable env path passphrase s {c = c} h =
      let (full, good) = loaded-complete passphrase _ c h in
      (not_empty c.nodes full, All-complete c.nodes good)
