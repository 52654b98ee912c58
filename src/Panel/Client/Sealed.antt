-- ===== src/Panel/Client/Sealed.antt =====
-- What comes back from an exchange with the panel: errors that keep its host to themselves, and data
-- only of an answer that the panel gave.
use exnode.Base.{
  ℕ, ◌≤◌, ◌<◌, ◌≡◌, refl, String, true, false, ◌||◌, Option, none, some, ◌⊎◌, inl, inr,
  if◌then◌else◌, ltb, leb, ◌==◌, string_eq, Bool-cases, Option-cases, Sum-cases, arith,
}
use exnode.Base.Action.{◌>>=◌, Ends, >>=-Ends, weaker-Ends}
use exnode.Text.{◌<>◌, is_nil, has_infix, replace_all}
use exnode.Text.Replaced.{lacks, has_infix-replace_all}
use exnode.Panel.Client.{
  Client, Envelope, Request, Web, panel_host, sanitize, wrapped, marshalled, sent, decoded,
  received, answered, exchange, do_request,
}

module _ {S : Type 0} (W : Web S) (c : Client) where
  -- A host's name that the mark in its place does not show.
  abbrev pub Hideable : String → Type 0
  Hideable host =
      (is_nil host ≡ false)
      × (lacks b'[' host ≡ true)
      × (lacks b']' host ≡ true)
      × (has_infix "panel" host ≡ false)

  scrubbed_twice :
      (s host : String)
      → Hideable host
      → has_infix (if is_nil host then s else replace_all s host "[panel]") host ≡ false
  scrubbed_twice s host (full, no_open, no_close, outside) =
      rw full (has_infix-replace_all s host full no_open no_close outside)

  sanitize_hides :
      (host s : String)
      → W.hostname c.api_host ≡ some host
      → Hideable host
      → has_infix (sanitize W c s) host ≡ false
  unfolding sanitize panel_host
  sanitize_hides host s named h = rw (sanitize, panel_host, named) (scrubbed_twice _ host h)

  module _ {A : Type 0} (method path : String) (out : Option (String → String ⊎ A)) (s₀ : S) where
    -- What was decoded of an envelope's data, `none` for data that is left out or null.
    abbrev pub Decoded : Envelope → (String → String ⊎ A) → Option A → Type 0
    Decoded env decode none = (is_nil env.data_text || env.data_text == "null") ≡ true
    Decoded env decode (some a) = decode env.data_text ≡ inr a

    abbrev pub Read : String → Option (String → String ⊎ A) → Option A → Type 0
    Read raw none a = a ≡ none
    Read raw (some decode) a =
        (env : Envelope) × (W.envelope_of raw ≡ inr env) × Decoded env decode a

    -- The panel's answer to a request for the path.
    abbrev pub Got : ℕ × String → Type 0
    Got answer =
        (request : Request) × (request.method ≡ method)
        × (request.url ≡ c.api_host <> path)
        × ((W.send request s₀).0 ≡ inr answer)

    abbrev pub Accepted : Option A → S → Type 0
    Accepted a s =
        (status : ℕ) × (raw : String) × Got (status, raw)
        × (200 ≤ status)
        × (status < 300)
        × Read raw out a

    abbrev Any : String → S → Type 0
    Any e s = Unit

    wrapped-Got :
        (context : String) (request : Request) (r : (String ⊎ ℕ × String) × S)
        → request.method ≡ method
        → request.url ≡ c.api_host <> path
        → (W.send request s₀).0 ≡ r.0
        → Ends Any (λ answer _. Got answer) (wrapped W context r)
    wrapped-Got context request (inl e, s) hm hu h = tt
    wrapped-Got context request (inr answer, s) hm hu h = (request, hm, hu, h)

    sent-Got :
        (body : Option String) → Ends Any (λ answer _. Got answer) (sent W c method path body s₀)
    unfolding sent
    sent-Got body = elim (Option-cases (W.build method (c.api_host <> path))) [
      | inr (e, bad) ↦ rw (sent, bad) tt
      | inl fine ↦ rw (sent, fine) (wrapped-Got (method <> " " <> path <> ": ") _ _ refl refl refl)
    ]

    decoded-Decoded :
        (decode : String → String ⊎ A) (env : Envelope) (s : S)
        → Ends Any (λ a _. Decoded env decode a) (decoded W decode env.data_text s)
    unfolding decoded
    decoded-Decoded decode env s =
        elim (Bool-cases (is_nil env.data_text || env.data_text == "null")) [
          | inl empty ↦ rw (decoded, empty) empty
          | inr full ↦
              rw (decoded, full)
                (elim (Sum-cases (decode env.data_text)) [
                  | inl (e, bad) ↦ rw bad tt
                  | inr (a, good) ↦ rw good good
                ])
        ]

    opened-Read :
        (decode : String → String ⊎ A) (raw : String) (s : S) (r : String ⊎ Envelope)
        → W.envelope_of raw ≡ r
        → Ends Any
            (λ a _. Read raw (some decode) a)
            (elim r [
              | inl e ↦ (inl ("decode envelope: " <> e), s)
              | inr envelope ↦ decoded W decode envelope.data_text s
            ])
    opened-Read decode raw s (inl e) h = tt
    opened-Read decode raw s (inr env) h =
        weaker-Ends Any Any (λ a _. Decoded env decode a) (λ a _. Read raw (some decode) a)
          (decoded W decode env.data_text s) (decoded-Decoded decode env s) (λ e s' k. k)
          (λ a s' k. (env, h, k))

    received-Read :
        (o : Option (String → String ⊎ A)) (raw : String) (s : S)
        → Ends Any (λ a _. Read raw o a) (received W o raw s)
    unfolding received
    received-Read none raw s = refl
    received-Read (some decode) raw s = opened-Read decode raw s (W.envelope_of raw) refl

    in_range :
        (status : ℕ) → (ltb status 200 || leb 300 status) ≡ false → (200 ≤ status) × (status < 300)
    in_range status h = ground arith

    answered-Accepted :
        (answer : ℕ × String) (s : S)
        → Got answer
        → Ends Any Accepted (answered W method path out answer s)
    unfolding answered
    answered-Accepted (status, raw) s got = elim (Bool-cases (ltb status 200 || leb 300 status)) [
      | inl bad ↦ rw (answered, bad) tt
      | inr good ↦
          rw (answered, good)
            (let (low, high) = in_range status good in
              weaker-Ends Any Any (λ a _. Read raw out a) Accepted (received W out raw s)
                (received-Read out raw s) (λ e s' h. h)
                (λ a s' h. (status, raw, got, low, high, h)))
    ]

    asked-Accepted :
        (text : Option String)
        → Ends Any Accepted ((sent W c method path text >>= answered W method path out) s₀)
    asked-Accepted text =
        >>=-Ends Any (λ answer _. Got answer) Accepted (sent W c method path text)
          (answered W method path out) s₀ (sent-Got text) answered-Accepted

    exchange-Accepted :
        (body : Option (String ⊎ String)) → Ends Any Accepted (exchange W c method path body out s₀)
    unfolding exchange marshalled
    exchange-Accepted none = asked-Accepted none
    exchange-Accepted (some (inl e)) = tt
    exchange-Accepted (some (inr text)) = asked-Accepted (some text)

    module _ (host : String) where
      abbrev pub Silent : String → S → Type 0
      Silent e s = has_infix e host ≡ false

      scrub :
          (r : (String ⊎ Option A) × S)
          → W.hostname c.api_host ≡ some host
          → Hideable host
          → Ends Any Accepted r
          → Ends Silent Accepted (elim r.0 [ inl e ↦ inl (sanitize W c e) | inr a ↦ inr a ], r.1)
      scrub (inl e, s) named h got = sanitize_hides host e named h
      scrub (inr a, s) named h got = got

      -- An exchange with the panel fails with an error in whose text the panel's host does not stand,
      -- or the panel answered a request for the path with a status of 200 to 299 and the result is
      -- what its envelope's data decode to, if there is something to decode. This holds for a host
      -- without brackets that is not part of the word panel.
      pub do_request-Silent :
          (body : Option (String ⊎ String))
          → W.hostname c.api_host ≡ some host
          → Hideable host
          → Ends Silent Accepted (do_request W c method path body out s₀)
      unfolding do_request
      do_request-Silent body named h =
          scrub (exchange W c method path body out s₀) named h (exchange-Accepted body)
