-- ===== src/Panel/Client.antt =====
-- panel/client.go, the client: requests to the panel, the envelope of its answers, and errors that
-- do not name it.
pub mod Sealed
use exnode.Base.{
  ℕ, String, Bool, true, false, ◌&&◌, ◌||◌, not, List, [], ◌∷◌, ◌++◌, Option, none, some, ◌⊎◌, inl,
  inr, if◌then◌else◌, ltb, leb, ◌==◌, string_eq,
}
use exnode.Base.Action.{Action, pure, raise_if, ◌>>=◌, ◌>>◌}
use exnode.Text.{◌<>◌, is_nil, trim_space, trim_right_of, replace_all, format_nat}
use exnode.Panel.{HeartbeatResponse, SyncResponse, HeartbeatRequest, StatusPeer}

-- Client, without the HTTP client that it holds
pub record Client : Type 0 where
  pub api_host : String
  pub node_id : ℕ
  pub secret : String

-- New
unfoldable pub new_client : String → ℕ → String → Client
unfolding trim_right_of
new_client api_host node_id secret = record {
  api_host = trim_right_of b'/' api_host;
  node_id = node_id;
  secret = secret;
}

-- Label
unfoldable pub label : Client → String
unfolding format_nat
label c = "node " <> format_nat c.node_id

-- envelope, with the text of its data; the empty text where there is none
pub record Envelope : Type 0 where
  pub success : Bool
  pub message : String
  pub data_text : String

pub record Request : Type 0 where
  pub method : String
  pub url : String
  pub headers : List (String × String)
  pub body : Option String

-- What the client takes from net/url, net/http and encoding/json; an error is its text.
pub record Web (S : Type 0) : Type 0 where
  -- url.Parse and Hostname, `none` where the text is no URL
  pub hostname : String → Option String
  -- http.NewRequest: the error for a method and a URL
  pub build : String → String → Option String
  -- the HTTP client's Do and io.ReadAll: the status and what was read of the body
  pub send : Request → S → (String ⊎ ℕ × String) × S
  pub envelope_of : String → String ⊎ Envelope
  pub heartbeat_text : HeartbeatRequest → String ⊎ String
  pub status_text : List StatusPeer → String ⊎ String
  pub heartbeat_of : String → String ⊎ HeartbeatResponse
  pub sync_of : String → String ⊎ SyncResponse

module _ {S : Type 0} (W : Web S) where
  -- panelHost
  unfoldable pub panel_host : Client → String
  panel_host c = elim (W.hostname c.api_host) [ none ↦ "" | some host ↦ host ]

  unfoldable pub sanitize : Client → String → String
  unfolding replace_all panel_host
  sanitize c s =
      let s' = if is_nil c.api_host then s else replace_all s c.api_host "[panel]" in
      let host = panel_host c in if is_nil host then s' else replace_all s' host "[panel]"

  -- An error of a step, in front of which its context is put.
  abbrev wrapped : {A : Type 0} → String → (String ⊎ A) × S → (String ⊎ A) × S
  wrapped context (inl e, s) = (inl (context <> e), s)
  wrapped context (inr a, s) = (inr a, s)

  marshalled : Option (String ⊎ String) → Action S String (Option String)
  marshalled none s = (inr none, s)
  marshalled (some (inl e)) s = (inl ("marshal request: " <> e), s)
  marshalled (some (inr text)) s = (inr (some text), s)

  abbrev headers_of : Client → Option String → List (String × String)
  headers_of c body =
      ("X-Node-ID", format_nat c.node_id)
      ∷ ("Authorization", "Bearer " <> c.secret)
      ∷ elim body [ none ↦ [] | some text ↦ ("Content-Type", "application/json") ∷ [] ]

  sent : Client → String → String → Option String → Action S String (ℕ × String)
  unfolding format_nat
  sent c method path body s =
      let url = c.api_host <> path in
      elim (W.build method url) [
        | some e ↦ (inl ("build request: " <> e), s)
        | none ↦ wrapped (method <> " " <> path <> ": ") (
            W.send (record { method = method; url = url; headers = headers_of c body; body = body })
              s)
      ]

  module _ {A : Type 0} where
    decoded : (String → String ⊎ A) → String → Action S String (Option A)
    decoded decode text s =
        if is_nil text || text == "null" then (inr none, s) else elim (decode text) [
          | inl e ↦ (inl ("decode data: " <> e), s)
          | inr a ↦ (inr (some a), s)
        ]

    -- The data of the envelope; `none` for a nil `out`.
    received : Option (String → String ⊎ A) → String → Action S String (Option A)
    unfolding decoded
    received none raw s = (inr none, s)
    received (some decode) raw s = elim (W.envelope_of raw) [
      | inl e ↦ (inl ("decode envelope: " <> e), s)
      | inr envelope ↦ decoded decode envelope.data_text s
    ]

    -- From the check of the status on.
    answered :
        String → String → Option (String → String ⊎ A) → ℕ × String → Action S String (Option A)
    unfolding trim_space format_nat received
    answered method path out (status, raw) = do
      raise_if (ltb status 200 || leb 300 status)
          (method <> " " <> path <> ": status " <> format_nat status <> ": " <> trim_space raw)
      received out raw

    exchange :
        Client
        → String
        → String
        → Option (String ⊎ String)
        → Option (String → String ⊎ A)
        → Action S String (Option A)
    unfolding marshalled sent answered
    exchange c method path body out = do
      text ← marshalled body
      answer ← sent c method path text
      answered method path out answer

    -- do: what is decoded, `none` where `out` is left as it is; the deferred function scrubs errors
    unfoldable pub do_request :
        Client
        → String
        → String
        → Option (String ⊎ String)
        → Option (String → String ⊎ A)
        → Action S String (Option A)
    unfolding exchange sanitize
    do_request c method path body out s =
        let (r, s') = exchange c method path body out s in
        (elim r [ inl e ↦ inl (sanitize c e) | inr a ↦ inr a ], s')

  abbrev or_zero : {A : Type 0} → A → Option A → A
  or_zero zero none = zero
  or_zero zero (some a) = a

  abbrev no_response : HeartbeatResponse
  no_response = record { config_revision = 0; upgrade = none; restart = false }

  abbrev no_state : SyncResponse
  no_state = record { config_revision = 0; engine = ""; interfaces = [] }

  -- Heartbeat, Sync and ReportStatus
  unfoldable pub send_heartbeat : Client → HeartbeatRequest → Action S String HeartbeatResponse
  unfolding do_request
  send_heartbeat c request = do
    out ←
        do_request c "POST" "/api/v1/node/heartbeat" (some (W.heartbeat_text request))
          (some W.heartbeat_of)
    pure (or_zero no_response out)

  unfoldable pub fetch_state : Client → Action S String SyncResponse
  unfolding do_request
  fetch_state c = do
    out ← do_request c "GET" "/api/v1/node/sync" none (some W.sync_of)
    pure (or_zero no_state out)

  unfoldable pub report_status : Client → List StatusPeer → Action S String (Unit {0})
  unfolding do_request
  report_status c peers = do
    out ← do_request {A = Unit {0}} c "POST" "/api/v1/node/status" (some (W.status_text peers)) none
    pure tt
