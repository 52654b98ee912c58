-- ===== src/Tests/Singbox.antt =====
-- engine, the sing-box engine: runs and witnesses.
use exnode.Base.Action.{Ends}
use exnode.Base.{
  ℕ, ◌≢◌, ◌==◌, string_eq, if◌then◌else◌, beq_true, String, Bool, true, false, ◌≡◌, refl, List, [],
  ◌∷◌, none, some,
}
use exnode.Text.{◌<>◌, trim_space, split}
use exnode.Host.Toy.{toy, Rules}
use exnode.Conf.{SingboxConfig}
use exnode.Storage.{Storage}
use exnode.Installer.Platform.{Platform}
use exnode.Engine.Rendered.{Endpoint, render, split_cidrs}
use exnode.Engine.Singbox.{
  begin, restart, resolve_bin, exited, Processes, Singbox, apply, with_defaults,
}
use exnode.Engine.Singbox.Written.{write_file_atomic}
use exnode.Engine.Singbox.Written.Kept.{Failed, Done, write_file_atomic_keeps}
use exnode.Engine.Singbox.Found.{Memory, installing, Resolved, resolve_bin_explained}
use exnode.Engine.Singbox.Revived.{
  Reached, new, applying, ending, IsSound, Reached-IsSound, exited_revives,
}
use exnode.Engine.Singbox.Settled.{apply_settles}
use exnode.Tests.Files.{FilesOf, storage, documented}
use exnode.Tests.Machine.{addresses, links, no_rules, home}

abbrev pub tags : List Endpoint → String
tags [] = "{}"
tags (e ∷ endpoints) = e.tag <> tags endpoints

-- Every write and every start succeeds.
abbrev pub files : Storage Rules String
files = record {
  dir = λ path. "/etc/exnode";
  mkdir_all = λ dir s. (true, s);
  write_file = λ path text s. (true, s);
  rename = λ from to s. (true, s);
  remove = λ path s. s;
}

abbrev pub processes : Processes toy
processes = record {
  marshal = λ r. some (tags r.endpoints);
  files = files;
  usable = λ path s. some "/usr/bin/sing-box";
  ensure = λ path s. (none, s);
  start = λ path config s. (some 41, s);
  kill = λ pid s. s;
}

abbrev pub blank : SingboxConfig
blank = record { bin_path = ""; config_path = ""; system = false; log_level = "" }

abbrev idle : Singbox
idle = begin blank

parts : split_cidrs "10.8.0.1/24, ,10.9.0.1/24 " ≡ "10.8.0.1/24" ∷ "10.9.0.1/24" ∷ []
unfolding split_cidrs trim_space split
parts = refl

up : (apply toy addresses links processes (home ∷ []) idle no_rules).0 ≡ true
unfolding apply begin render restart resolve_bin write_file_atomic with_defaults split_cidrs
    trim_space split
up = refl

abbrev once : Bool × Singbox × Rules
once = apply toy addresses links processes (home ∷ []) idle no_rules

apply_settles_example :
    apply toy addresses links processes (home ∷ []) once.1 once.2 ≡ (true, once.1, once.2)
apply_settles_example = apply_settles toy addresses links processes (home ∷ []) idle no_rules up

-- An engine whose process has the number 41, applied to the same interfaces again.
abbrev running : Singbox
running = record idle { process = some 41; running = true; last_config = "ep-wg0{}" }

exited_revives_example :
    let (ok, e, s) = apply toy addresses links processes (home ∷ []) (exited 41 running) no_rules in
    (ok ≡ true) × (e.process ≡ some 41) × (e.running ≡ true)
unfolding begin with_defaults write_file_atomic render split_cidrs trim_space split
exited_revives_example =
    exited_revives toy addresses links processes (home ∷ []) "ep-wg0{}" "/usr/bin/sing-box" 41 41
      running refl (λ s. refl) (λ s. refl) (λ s. refl) no_rules refl

abbrev life : Reached toy addresses links processes (exited 41 once.1)
life = ending 41 (applying (home ∷ []) no_rules (new blank))

Reached-IsSound_example : IsSound toy addresses links processes (exited 41 once.1)
Reached-IsSound_example = Reached-IsSound toy addresses links processes life

-- A machine without a program and without a network.
abbrev offline : Platform Rules
offline = record {
  Body = String;
  Blob = String;
  Binary = ℕ;
  size = λ n. n;
  goos = "linux";
  goarch = "amd64";
  env = λ name s. "";
  look_path = λ name s. none;
  stat = λ path s. none;
  request = λ url headers s. (none, s);
  read_all = λ n body. none;
  decode_tag = λ n body. none;
  open_archive = λ blob. none;
  storage = record {
    dir = λ path. "/usr/local/bin";
    mkdir_all = λ dir s. (true, s);
    write_file = λ path n s. (true, s);
    rename = λ from to s. (true, s);
    remove = λ path s. s;
  };
}

abbrev memory : Memory Rules
memory = record {
  recall = λ s. record { last_attempt = none; last_error = none };
  note = λ a s. s;
  clock = λ s. 1000000000;
}

resolve_bin_explained_example :
    Resolved toy addresses links offline memory processes idle no_rules
      (resolve_bin toy addresses links (installing toy offline memory processes) idle no_rules)
resolve_bin_explained_example =
    resolve_bin_explained toy addresses links offline memory processes idle no_rules

abbrev stored : FilesOf String
stored = λ path. if path == "/etc/exnode/sing-box.json" then some "{}" else none

apart : "/etc/exnode/config.yml" ≢ "/etc/exnode/sing-box.json" <> ".tmp"
apart = beq_true _ _ refl

write_file_atomic_keeps_example :
    Ends
      (Failed
        (storage "/etc/exnode" String)
        (documented "/etc/exnode" String)
        "/etc/exnode/sing-box.json"
        "ep-wg0{}"
        "/etc/exnode/config.yml"
        apart
        stored)
      (Done
        (storage "/etc/exnode" String)
        (documented "/etc/exnode" String)
        "/etc/exnode/sing-box.json"
        "ep-wg0{}"
        "/etc/exnode/config.yml"
        apart
        stored)
      (write_file_atomic
        (storage "/etc/exnode" String)
        "/etc/exnode/sing-box.json"
        "ep-wg0{}"
        stored)
write_file_atomic_keeps_example =
    write_file_atomic_keeps (storage "/etc/exnode" String) (documented "/etc/exnode" String)
      "/etc/exnode/sing-box.json" "ep-wg0{}" "/etc/exnode/config.yml" apart stored
