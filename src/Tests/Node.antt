-- ===== src/Tests/Node.antt =====
-- node: runs and witnesses.
use exnode.Base.{
  List, ◌≡◌, All, inl, inr, ℕ, zero, suc, Bool, true, false, ◌&&◌, not, refl, [], ◌∷◌, none, some,
  ◌⊎◌, any, contains, map, nat_eq, string_eq,
}
use exnode.Base.Int.{pos}
use exnode.Text.{is_nil}
use exnode.Host.Toy.{toy, toy_iptables, toy-Reliable}
use exnode.Text.{trim_space, split}
use exnode.Wg.Rules.{Rule}
use exnode.Wg.Nat.{
  nat_enabled, nat_sources, nat_rules, resolve_egress, default_egress_interface, custom_sources,
  subnet_for, enable_forwarding,
}
use exnode.Wg.Nat.Effect.{nat_plan}
use exnode.Node.Masquerade.{Served, ensure_nat-Served}
use exnode.Overlay.{names, plan}
use exnode.Panel.{Tunnel, Device, HeartbeatResponse, SyncResponse}
use exnode.SelfUpdate.Attempt.{maybe_upgrade}
use exnode.Node.{to_engine_interface, overlay_configs}
use exnode.Node.Tunnels.{overlay_configs_exact, offers}
use exnode.Node.Control.{Engines, Controller, Agent, ensure_nat, sync, changed, heartbeat_tick}
use exnode.Node.Control.Revision.{sync_commits, heartbeat_retries, applies}
use exnode.Tests.Machine.{addresses, links, no_rules, home, bare}
use exnode.Tests.Disk.{platform}

-- An engine that counts, and applies from its second call on.
abbrev late : ℕ → Bool
late zero = false
late (suc n) = true

abbrev engines : Engines toy
engines = record {
  Engine = ℕ;
  build = λ type. 0;
  apply = λ ifaces n s. (late n, suc n, s);
  stats = λ n s. none;
  close = λ n s. s;
}

abbrev pub tunnel : Tunnel
tunnel = record {
  kind = "gre";
  name = "gre1";
  vni = pos 0;
  port = pos 0;
  local_ip = "";
  key = pos 7;
  mtu = pos 0;
  dev = "";
  local = "10.1.0.1/24";
  remote = "10.0.0.2";
  routes = [];
}

-- A device of a panel that predates the list of tunnels.
abbrev pub device : Device
device = record {
  name = "wg0";
  private_key = "";
  listen_port = pos 51820;
  address = "10.8.0.0/24";
  mtu = pos 1420;
  masquerade = false;
  egress_interface = "";
  nat_subnets = "";
  policy_routes = "";
  extra_routes = [];
  extra_rules = [];
  extra_nat = [];
  peers = [];
  tunnels = [];
  vxlan = some tunnel;
}

abbrev fresh : Controller ℕ
fresh = record {
  engine = none;
  engine_type = "";
  rev_known = false;
  revision = 0;
  desired = [];
  vxlan = [];
  extras = [];
}

abbrev answer : SyncResponse
answer = record { config_revision = 4; engine = ""; interfaces = device ∷ [] }

abbrev beat : HeartbeatResponse
beat = record { config_revision = 4; upgrade = none; restart = false }

abbrev agent : Agent toy addresses links engines platform
agent = record {
  controller = fresh;
  machine = no_rules;
  upgrader = record { upgrading = false; last_attempt = none; attempt_version = ""; error = none };
  disk = λ path. none;
}

legacy : names (overlay_configs (device ∷ [])) ≡ "gre1" ∷ []
unfolding overlay_configs
legacy = refl

overlay_configs_exact_example :
    (contains (names (overlay_configs (device ∷ []))) "gre1"
      ≡ (not (is_nil "gre1") && any (offers "gre1") (device ∷ [])))
    × ((plan [] (overlay_configs (device ∷ []))).1 ≡ overlay_configs (device ∷ []))
overlay_configs_exact_example = overlay_configs_exact (device ∷ []) [] "gre1"

abbrev after_sync : Controller ℕ
after_sync = (sync toy addresses links engines (some answer) fresh no_rules).0

sync_commits_example :
    (after_sync.vxlan ≡ overlay_configs (device ∷ []))
    × (after_sync.engine_type ≡ "kernel")
    × ((e : ℕ) × (after_sync.engine ≡ some e))
    × (((applies toy addresses links engines answer fresh no_rules ≡ true)
          × (after_sync.revision ≡ 4)
          × (after_sync.rev_known ≡ true)
          × (after_sync.desired ≡ map to_engine_interface (device ∷ [])))
        ⊎ ((applies toy addresses links engines answer fresh no_rules ≡ false)
            × (after_sync.revision ≡ 0)
            × (after_sync.rev_known ≡ false)
            × (after_sync.desired ≡ [])))
sync_commits_example = sync_commits toy addresses links engines answer fresh no_rules

beats :
    (heartbeat_tick toy addresses links engines platform false "v1.9.3" 0
      (some beat)
      (some answer)
      agent).0
    ≡ false
unfolding heartbeat_tick maybe_upgrade
beats = refl

abbrev after_beat : Agent toy addresses links engines platform
after_beat =
    (heartbeat_tick toy addresses links engines platform false "v1.9.3" 0 (some beat) (some answer)
      agent).1

abbrev due : Controller ℕ → Bool
due c = changed toy addresses links engines false 4 c

heartbeat_retries_example :
    (due after_beat.controller
      ≡ (due fresh && not (applies toy addresses links engines answer fresh no_rules)))
    × (((due fresh ≡ true)
          × (after_beat.controller ≡ after_sync)
          × (after_beat.machine
              ≡ (sync toy addresses links engines (some answer) fresh no_rules).1))
        ⊎ ((due fresh ≡ false) × (after_beat.controller ≡ fresh) × (after_beat.machine ≡ no_rules)))
heartbeat_retries_example =
    heartbeat_retries toy addresses links engines platform "v1.9.3" 0 beat answer agent beats refl

abbrev home_rules : List Rule
unfolding nat_rules
home_rules = nat_rules ("10.8.0.0/24" ∷ []) "wg0" "eth0" ""

plan_home : nat_plan addresses (links.view no_rules) home ≡ some home_rules
unfolding nat_sources resolve_egress default_egress_interface custom_sources subnet_for trim_space
    split nat_rules
plan_home = refl

off_bare : nat_enabled bare ≡ false
unfolding nat_enabled trim_space
off_bare = refl

forwards : (s : toy.State) → (enable_forwarding toy s).0 ≡ true
unfolding enable_forwarding
forwards s = refl

ensure_nat-Served_example :
    All
      (Served toy toy_iptables toy-Reliable addresses links forwards
        (links.view no_rules)
        (ensure_nat toy addresses links engines (bare ∷ home ∷ []) no_rules))
      (bare ∷ home ∷ [])
ensure_nat-Served_example =
    ensure_nat-Served toy toy_iptables toy-Reliable addresses links forwards (links.view no_rules)
      engines (bare ∷ home ∷ []) no_rules refl (inl off_bare, (inr (home_rules, plan_home), tt))
