-- ===== src/Wg/Device/Peers.antt =====
-- The peers of a device after it was configured.
use mathlib.Core.Path.{subst}
use text.Mathlib.TextEquality.{eq_iff}
use exnode.Base.{
  contains_of_eq, String, Bool, false, ◌&&◌, ◌||◌, not, ◌≡◌, refl, ap, ◌∙◌, List, [], ◌∷◌, ◌++◌,
  some, if◌then◌else◌, ◌==◌, contains, string_eq, map, Option-cases, Bool-cases, inl, inr, some_eq,
  arith,
}
use exnode.Wg.{Peer}
use exnode.Wg.Device.{
  Formats, Config, configured, build_peer_config, desired_configs, public_keys, removals,
  peer_delta, preshared_of, parse_cidr_list,
}

module _ (F : Formats) where
  -- Whether a device has a peer with a key once it was configured, as wgctrl documents it for
  -- ReplacePeers off: peer by peer, one that is marked for removal goes and any other is there.
  abbrev pub peer_after : List (Config F) → String → Bool → Bool
  peer_after [] key here = here
  peer_after (c ∷ configs) key here =
      peer_after configs key (if F.key_text c.public_key == key then not c.remove else here)

  peer_after-append :
      (xs ys : List (Config F)) (key : String) (here : Bool)
      → peer_after (xs ++ ys) key here ≡ peer_after ys key (peer_after xs key here)
  peer_after-append [] ys key here = refl
  peer_after-append (x ∷ xs) ys key here = peer_after-append xs ys key _

  module _ (parse_text : (key : F.Key) → F.parse_key (F.key_text key) ≡ some key)
      (text_parse : (text : String) (key : F.Key)
        → F.parse_key text ≡ some key
        → F.key_text key ≡ text) where
    built :
        (p : Peer) {c : Config F}
        → build_peer_config F p ≡ some c
        → (F.key_text c.public_key ≡ p.public_key) × (c.remove ≡ false)
    unfolding build_peer_config configured
    built p = elim (Option-cases (F.parse_key p.public_key)) [
      | inl bad ↦ rw (build_peer_config, bad) (λ h. cc)
      | inr (key, good) ↦
          rw (build_peer_config, good)
            (elim (Option-cases (parse_cidr_list F p.allowed_ips)) [
              | inl bad ↦ rw bad (λ h. cc)
              | inr (nets, fine) ↦ rw fine (elim (Option-cases (preshared_of F p.preshared_key)) [
                | inl bad ↦ rw (configured, bad) (λ h. cc)
                | inr (psk, right) ↦
                    rw (configured, right)
                      (λ h.
                        subst
                          (λ (d : Config F).
                            (F.key_text d.public_key ≡ p.public_key) × (d.remove ≡ false))
                          (some_eq h) (text_parse p.public_key key good, refl))
              ])
            ])
    ]

    configured_after :
        (p : Peer) (below : List Peer) (c : Config F) (key : String) (here : Bool)
        → (F.key_text c.public_key ≡ p.public_key) × (c.remove ≡ false)
        → (contains (public_keys F below) key
            || (if F.key_text c.public_key == key then not c.remove else here))
          ≡ ((p.public_key == key || contains (public_keys F below) key) || here)
    configured_after p below c key here (text, kept) = rw (text, kept) (ground arith)

    desired_after :
        (peers : List Peer) {configs : List (Config F)} (key : String) (here : Bool)
        → desired_configs F peers ≡ some configs
        → peer_after configs key here ≡ (contains (public_keys F peers) key || here)
    unfolding desired_configs contains
    desired_after [] key here = λ h. subst (λ cs. peer_after cs key here ≡ here) (some_eq h) refl
    desired_after (p ∷ peers) key here = elim (Option-cases (build_peer_config F p)) [
      | inl bad ↦ rw (desired_configs, bad) (λ h. cc)
      | inr (c, good) ↦
          rw (desired_configs, good)
            (elim (Option-cases (desired_configs F peers)) [
              | inl bad ↦ rw bad (λ h. cc)
              | inr (cs, fine) ↦ rw fine (λ h.
                  subst
                    (λ l.
                      peer_after l key here ≡ (contains (public_keys F (p ∷ peers)) key || here))
                    (some_eq h)
                    (desired_after peers key _ fine
                      ∙ configured_after p peers c key here (built p good)))
            ])
    ]

    removed_after :
        (desired : List String) (current : List F.Key) (key : String) (here : Bool)
        → peer_after (removals F desired (map F.key_text current)) key here ≡ (
            if contains (map F.key_text current) key && not (contains desired key)
            then false
            else here)
    unfolding removals contains
    removed_after desired [] key here = refl
    removed_after desired (k ∷ current) key here =
        elim (Bool-cases (contains desired (F.key_text k))) [
          | inl wanted ↦ rw wanted (
              ground (
                arith,
                removed_after desired current key here,
                wanted,
                contains_of_eq desired (F.key_text k) key,
                eq_iff (F.key_text k) key,
              ))
          | inr stale ↦
              rw (stale, parse_text k)
                (ground (
                  arith,
                  removed_after desired current key (if F.key_text k == key then false else here),
                  stale,
                  contains_of_eq desired (F.key_text k) key,
                  eq_iff (F.key_text k) key,
                ))
        ]

    exact : (c d : Bool) → (if c && not d then false else (d || c)) ≡ d
    exact c d = ground arith

    -- Where the peers' keys can be read and printing gives back what was read, a device that was
    -- configured with the delta has exactly the desired peers, whatever peers it had before.
    pub peer_delta_exact :
        (current : List F.Key) (peers : List Peer) (key : String) {configs : List (Config F)}
        → peer_delta F current peers ≡ some configs
        → peer_after configs key (contains (map F.key_text current) key)
          ≡ contains (public_keys F peers) key
    unfolding peer_delta
    peer_delta_exact current peers key = elim (Option-cases (desired_configs F peers)) [
      | inl bad ↦ rw (peer_delta, bad) (λ h. cc)
      | inr (ds, fine) ↦
          rw (peer_delta, fine)
            (λ h.
              let here = contains (map F.key_text current) key in
              let gone = removals F (public_keys F peers) (map F.key_text current) in
              subst (λ l. peer_after l key here ≡ contains (public_keys F peers) key) (some_eq h)
                (peer_after-append ds gone key here
                  ∙ ap (peer_after gone key) (desired_after peers key here fine)
                  ∙ removed_after (public_keys F peers) current key _
                  ∙ exact here (contains (public_keys F peers) key)))
    ]
