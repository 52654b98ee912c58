-- ===== src/Tests/Installer.antt =====
-- singbox: runs and witnesses, on files in memory and a server that always delivers one archive.
use exnode.Base.{
  ℕ, ◌*◌, String, true, false, ◌≡◌, refl, List, [], ◌∷◌, none, some, inr, string_eq, keep, beq_true,
}
use exnode.Base.Action.{Ends}
use exnode.Text.{trim_space, trim_right_of, split, has_prefix, trim_prefix}
use exnode.Tests.Files.{FilesOf, storage, documented}
use exnode.Installer.{no_options, asset_name, base, no_download}
use exnode.Installer.Platform.{Member, Stream, broken, next, Platform}
use exnode.Installer.Archive.{extract_binary, scan}
use exnode.Installer.Archive.First.{extract_binary_first}
use exnode.Installer.Install.{install, latest_version, put_program}
use exnode.Installer.Install.Kept.{install_keeps, Failed, Done}
use exnode.Installer.Ensure.{Attempts, ensure, usable, cooling}
use exnode.Installer.Ensure.Cooldown.{
  Call, installs, Cooled, last_failed, Explained, installs-Cooled, ensure-Explained,
}

-- A file is as long as its number.
abbrev Disk : Type 0
Disk = FilesOf ℕ

abbrev licence : Member ℕ
licence = record { regular = true; name = "sing-box-1.14.3/LICENSE"; read = λ n. some 1500 }

abbrev folder : Member ℕ
folder = record { regular = false; name = "sing-box/"; read = λ n. none }

abbrev program : Member ℕ
program = record {
  regular = true;
  name = "sing-box-1.14.3/sing-box";
  read = λ n. some (40 * 1048576);
}

abbrev archive : Stream ℕ
archive = next folder (next licence (next program broken))

abbrev platform : Platform Disk
platform = record {
  Body = String;
  Blob = String;
  Binary = ℕ;
  size = λ n. n;
  goos = "linux";
  goarch = "amd64";
  env = λ name s. "";
  look_path = λ name s. none;
  stat = λ path s. elim (s path) [ none ↦ none | some n ↦ some false ];
  request = λ url headers s. (some (200, url), s);
  read_all = λ n body. some body;
  decode_tag = λ n body. some "v1.14.3";
  open_archive = λ blob. some archive;
  storage = storage "/usr/local/bin" ℕ;
}

abbrev empty : Disk
empty = λ path. none

named : asset_name "v1.14.3" "linux" "amd64" ≡ "sing-box-1.14.3-linux-amd64.tar.gz"
unfolding asset_name trim_prefix has_prefix
named = refl

bases :
    (base "a/b/sing-box//" ≡ "sing-box") × (base "//" ≡ "/") × (base "" ≡ ".") × (base "b" ≡ "b")
unfolding base split trim_right_of
bases = (refl, refl, refl, refl)

found : extract_binary platform "" ≡ inr (40 * 1048576)
unfolding extract_binary scan base split trim_right_of
found = refl

put_there :
    (install platform "/opt/sing-box" no_options empty).1 "/opt/sing-box" ≡ some (40 * 1048576)
unfolding install latest_version extract_binary scan base split trim_right_of put_program asset_name
    trim_prefix has_prefix trim_space
put_there = refl

extract_binary_first_example : extract_binary platform "" ≡ inr (40 * 1048576)
unfolding keep base split trim_right_of
extract_binary_first_example = extract_binary_first platform ""

install_keeps_example :
    Ends
      (Failed platform
        (documented "/usr/local/bin" ℕ)
        (λ url headers s path. refl)
        "/opt/sing-box"
        "/opt/exnode"
        (beq_true "/opt/exnode" "/opt/sing-box.new" refl)
        empty)
      (Done platform
        (documented "/usr/local/bin" ℕ)
        (λ url headers s path. refl)
        "/opt/sing-box"
        "/opt/exnode"
        (beq_true "/opt/exnode" "/opt/sing-box.new" refl)
        empty)
      (install platform "/opt/sing-box" no_options empty)
install_keeps_example =
    install_keeps platform (documented "/usr/local/bin" ℕ) (λ url headers s path. refl)
      "/opt/sing-box" "/opt/exnode" (beq_true "/opt/exnode" "/opt/sing-box.new" refl) empty
      no_options

abbrev offline : Attempts
offline = record { last_attempt = some 1000000000; last_error = some no_download }

-- Half a minute and eleven minutes after the failure.
abbrev calls : List (Call platform)
calls =
    record {
      bin_path = "sing-box";
      opts = no_options;
      before = empty;
      now = 31000000000;
      locked = empty;
    }
    ∷ record {
      bin_path = "sing-box";
      opts = no_options;
      before = empty;
      now = 661000000000;
      locked = empty;
    }
    ∷ []

tried_once : installs platform calls offline ≡ (661000000000, false) ∷ []
unfolding ensure usable cooling trim_space has_prefix install latest_version extract_binary scan
    base split trim_right_of put_program asset_name trim_prefix
tried_once = refl

installs-Cooled_example : Cooled (last_failed offline) (installs platform calls offline)
installs-Cooled_example = installs-Cooled platform calls offline

abbrev call : Call platform
call = record {
  bin_path = "sing-box";
  opts = no_options;
  before = empty;
  now = 31000000000;
  locked = empty;
}

ensure-Explained_example :
    Explained platform call offline
      (ensure platform "sing-box" no_options empty 31000000000 offline empty)
ensure-Explained_example = ensure-Explained platform call offline
