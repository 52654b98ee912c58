-- ===== src/Engine/Singbox.antt =====
-- engine/singbox.go: the engine that drives a sing-box process. The JSON encoder, the process and the
-- installer of the program are parameters.
pub mod Settled
pub mod Written
pub mod Revived
pub mod Found
use exnode.Base.{
  ℕ, String, Bool, true, false, ◌&&◌, not, List, [], ◌∷◌, Option, none, some, ◌⊎◌, inl, inr, nat_eq,
  if◌then◌else◌, ◌==◌, string_eq,
}
use exnode.Base.Int.{ℤ, is_pos}
use exnode.Text.{◌<>◌, is_nil, trim_space, split}
use exnode.Host.{Host}
use exnode.Host.Loops.{each}
use exnode.Conf.{SingboxConfig}
use exnode.Wg.{Interface, Peer}
use exnode.Wg.Network.{Addresses, Links}
use exnode.Wg.Nat.{reconcile_nat, teardown_nat}
use exnode.Wg.Policy.{reconcile_policy_routes, remove_policy_routes}
use exnode.Storage.{Storage}
use exnode.Engine.Rendered.{Rendered, render}
use exnode.Engine.Singbox.Written.{write_file_atomic}
use exnode.Engine.{Managed, old_of, entries, stale}

-- NewSingboxEngine's defaults
unfoldable pub with_defaults : SingboxConfig → SingboxConfig
with_defaults cfg = record cfg {
  bin_path = if is_nil cfg.bin_path then "sing-box" else cfg.bin_path;
  config_path = if is_nil cfg.config_path then "/etc/exnode/sing-box.json" else cfg.config_path;
  log_level = if is_nil cfg.log_level then "warn" else cfg.log_level;
}

-- json.MarshalIndent, the files, singbox.Usable, singbox.Ensure, exec.Cmd's Start, and Kill with Wait;
-- a process is named by a number.
pub record Processes (H : Host) : Type 0 where
  pub marshal : Rendered → Option String
  pub files : Storage H.State String
  pub usable : String → H.State → Option String
  pub ensure : String → H.State → Option String × H.State
  pub start : String → String → H.State → Option ℕ × H.State
  pub kill : ℕ → H.State → H.State

-- `""` for no configuration yet
pub record Singbox : Type 0 where
  pub cfg : SingboxConfig
  pub process : Option ℕ
  pub running : Bool
  pub last_config : String
  pub managed : Managed

-- NewSingboxEngine
unfoldable pub begin : SingboxConfig → Singbox
unfolding with_defaults
begin cfg = record {
  cfg = with_defaults cfg;
  process = none;
  running = false;
  last_config = "";
  managed = [];
}

-- What the goroutine of restartLocked does once a process has ended.
unfoldable pub exited : ℕ → Singbox → Singbox
exited pid e = elim e.process [
  | none ↦ e
  | some current ↦ if current == pid then record e { running = false } else e
]

module _ (H : Host) (A : Addresses) (L : Links H A) (P : Processes H) where
  -- stopLocked
  unfoldable pub stop : Singbox → H.State → Singbox × H.State
  stop e s = elim e.process [
    | none ↦ (e, s)
    | some pid ↦ (record e { process = none; running = false }, P.kill pid s)
  ]

  started : Singbox → Option ℕ → H.State → Bool × Singbox × H.State
  started e none s = (false, e, s)
  started e (some pid) s = (true, record e { process = some pid; running = true }, s)

  -- The path that an installation gave is kept for the next restart.
  remembered : Option String → Singbox → H.State → Option String × Singbox × H.State
  remembered none e s = (none, e, s)
  remembered (some path) e s = (some path, record e { cfg = record e.cfg { bin_path = path } }, s)

  -- resolveBinLocked
  unfoldable pub resolve_bin : Singbox → H.State → Option String × Singbox × H.State
  unfolding remembered
  resolve_bin e s = elim (P.usable e.cfg.bin_path s) [
    | some path ↦ (some path, e, s)
    | none ↦ let (path, s') = P.ensure e.cfg.bin_path s in remembered path e s'
  ]

  resolved : Option String × Singbox × H.State → Bool × Singbox × H.State
  unfolding started
  resolved (none, e, s) = (false, e, s)
  resolved (some path, e, s) =
      let (process, s') = P.start path e.cfg.config_path s in started e process s'

  -- restartLocked
  unfoldable pub restart : Singbox → H.State → Bool × Singbox × H.State
  unfolding resolved resolve_bin stop
  restart e s = let (e', s') = stop e s in resolved (resolve_bin e' s')

  nat_one : Managed → Interface → H.State → H.State
  nat_one managed i s =
      let old = old_of i.name managed in
      reconcile_policy_routes H old.policy_routes i.policy_routes (reconcile_nat H A L old i s).1

  nat_off : Interface → H.State → H.State
  nat_off old s = (teardown_nat H A L old (remove_policy_routes H old.policy_routes s)).1

  -- applyNATLocked
  unfoldable pub apply_nat : Managed → List Interface → H.State → H.State
  unfolding nat_one nat_off
  apply_nat managed desired s =
      each nat_off (stale managed desired) (each (nat_one managed) (entries desired) s)

  -- From the restart on, once the file is written.
  pub applied : List Interface → String → Bool × Singbox × H.State → Bool × Singbox × H.State
  unfolding apply_nat
  applied desired text (ok, e, s) =
      let s' = if e.cfg.system then apply_nat e.managed desired s else s in
      if ok then (true, record e { last_config = text; managed = desired }, s') else (false, e, s)

  abbrev pub write_config : String → String → H.State → Bool × H.State
  write_config path text s =
      let (r, s') = write_file_atomic P.files path text s in
      (elim r [ inl e ↦ false | inr done ↦ true ], s')

  pub applied_text : List Interface → Option String → Singbox → H.State → Bool × Singbox × H.State
  unfolding applied restart
  applied_text desired none e s = (false, e, s)
  applied_text desired (some text) e s =
      let (written, s') = write_config e.cfg.config_path text s in
      if text == e.last_config && e.running
      then (true, e, s)
      else if written
      then applied desired text (restart e s')
      else (false, e, s')

  -- Apply
  unfoldable pub apply : List Interface → Singbox → H.State → Bool × Singbox × H.State
  unfolding applied_text render
  apply desired e s = applied_text desired (P.marshal (render e.cfg desired)) e s

  -- Close
  unfoldable pub close : Singbox → H.State → Singbox × H.State
  unfolding stop
  close e s =
      let s' =
        if e.cfg.system
        then each (λ old s. (teardown_nat H A L old s).1) (entries e.managed) s
        else s in
      stop e s'
