-- ===== src/Tests/Panel.antt =====
-- panel: runs and witnesses, with a panel that answers and one that cannot be reached.
use exnode.Base.{
  ℕ, String, true, false, ◌≡◌, refl, [], none, some, ◌⊎◌, inl, inr, if◌then◌else◌, ◌==◌, string_eq,
  nat_eq,
}
use exnode.Base.Action.{Ends}
use exnode.Base.Int.{pos}
use exnode.Text.{
  ◌<>◌, has_infix, has_prefix, replace_all, trim_space, trim_right_of, format_nat, is_space,
}
use exnode.Panel.{HeartbeatRequest, HeartbeatResponse, SyncResponse}
use exnode.Panel.Client.{
  Client, Web, new_client, label, panel_host, sanitize, do_request, send_heartbeat, fetch_state,
}
use exnode.Panel.Client.Sealed.{Silent, Accepted, do_request-Silent}

abbrev client : Client
client = new_client "https://vpn.example.com//" 7 "s3cret"

abbrev seven : HeartbeatResponse
seven = record { config_revision = 7; upgrade = none; restart = false }

-- The status and the envelope's data of every answer; status 0 stands for no answer.
abbrev web : ℕ → String → Web ℕ
web status text = record {
  hostname = λ url. some "vpn.example.com";
  build = λ method url. none;
  send = λ r s. (
    if status == 0
        then inl ("Post \"" <> r.url <> "\": dial tcp: lookup vpn.example.com: no such host")
        else inr (status, text),
    s,
  );
  envelope_of = λ raw. inr (record { success = true; message = ""; data_text = raw });
  heartbeat_text = λ r. inr "{}";
  status_text = λ peers. inr "{}";
  heartbeat_of = λ t. if t == "7" then inr seven else inl "bad";
  sync_of = λ t. inl "bad";
}

abbrev asked : HeartbeatRequest
asked = record {
  agent_version = "v1.10.0";
  os = "linux";
  arch = "amd64";
  upgrade_error = "";
  primary_interface = "eth0";
  binary_path = "";
  pid = pos 1;
  started_at = pos 1;
}

answered_seven : (send_heartbeat (web 200 "7") client asked 0).0 ≡ inr seven
unfolding send_heartbeat do_request new_client trim_right_of sanitize replace_all trim_space
    format_nat
answered_seven = refl

no_state :
    (fetch_state (web 204 "null") client 0).0
    ≡ inr (record { config_revision = 0; engine = ""; interfaces = [] })
unfolding fetch_state do_request new_client trim_right_of sanitize replace_all trim_space format_nat
no_state = refl

unreachable :
    (send_heartbeat (web 0 "") client asked 0).0
    ≡ inl
        "POST /api/v1/node/heartbeat: Post \"[panel]/api/v1/node/heartbeat\": dial tcp: lookup [panel]: no such host"
unfolding send_heartbeat do_request new_client trim_right_of sanitize panel_host replace_all
    has_prefix trim_space format_nat
unreachable = refl

refused :
    (send_heartbeat (web 500 " vpn.example.com is down ") client asked 0).0
    ≡ inl "POST /api/v1/node/heartbeat: status 500: [panel] is down"
unfolding send_heartbeat do_request new_client trim_right_of sanitize panel_host replace_all
    has_prefix trim_space format_nat is_space
refused = refl

labelled : label client ≡ "node 7"
unfolding label new_client format_nat
labelled = refl

abbrev unreadable : String → String ⊎ SyncResponse
unreadable text = inl "bad"

do_request-Silent_example :
    Ends
      (Silent (web 0 "") client "GET" "/api/v1/node/sync" (some unreadable) 0 "vpn.example.com")
      (Accepted (web 0 "") client "GET" "/api/v1/node/sync" (some unreadable) 0)
      (do_request (web 0 "") client "GET" "/api/v1/node/sync" none (some unreadable) 0)
unfolding has_infix has_prefix
do_request-Silent_example =
    do_request-Silent (web 0 "") client "GET" "/api/v1/node/sync" (some unreadable) 0
      "vpn.example.com" none refl (refl, refl, refl, refl)
