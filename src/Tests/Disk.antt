-- ===== src/Tests/Disk.antt =====
-- A platform for the tests: files in memory, and a server that always delivers the same build.
use mathlib.Core.Path.{subst}
use exnode.Base.{
  ℕ, String, Bool, true, false, ◌≡◌, ◌≢◌, refl, sym, ap, some_eq, ◌∙◌, List, Option, none, some,
  if◌then◌else◌, ◌==◌, string_eq, beq_false, beq_refl,
}
use exnode.SelfUpdate.Platform.{Platform}
use exnode.SelfUpdate.Swap.{elf}
use exnode.SelfUpdate.Swap.Files.{Files}

pub record Build : Type 0 where
  pub size : ℕ
  pub magic : List ℕ
  pub runs : Bool

abbrev pub Disk : Type 0
Disk = String → Option Build

abbrev put : String → Option Build → Disk → Disk
put path file s = λ p. if p == path then file else s p

abbrev magic_of : Option Build → Option (List ℕ)
magic_of none = none
magic_of (some b) = some b.magic

abbrev answer_of : Option Build → Option String
answer_of none = none
answer_of (some b) = if b.runs then some "v1.10.0\n" else none

abbrev made : Option Build → Option String
made none = some "/usr/bin/.exnode-download-1"
made (some b) = none

abbrev pub build : Build
build = record { size = 20000000; magic = elf; runs = true }

abbrev pub platform : Platform
platform = record {
  State = Disk;
  Body = Build;
  goos = "linux";
  goarch = "amd64";
  repo = λ s. "";
  executable = λ s. some "/usr/bin/exnode";
  dir = λ path. "/usr/bin";
  get = λ url s. (some (200, build), s);
  create_temp = λ dir s. (made (s "/usr/bin/.exnode-download-1"), s);
  copy = λ limit body path s. (some body.size, put path (some body) s);
  read_magic = λ path s. magic_of (s path);
  remove = λ path s. put path none s;
  chmod = λ path s. (true, s);
  version_of = λ path s. (answer_of (s path), s);
  rename = λ from to s. (true, put to (s from) s);
  exec = λ path s. (false, s);
}

pub others :
    (path : String) (file : Option Build) (s : Disk) (other : String)
    → other ≢ path
    → put path file s other ≡ s other
others path file s other ne = rw (beq_false other path ne)

pub there : (path : String) (file : Option Build) (s : Disk) → put path file s path ≡ file
there path file s = rw (beq_refl path)

pub new_name :
    (s : Disk) (o : Option Build) {path : String}
    → s "/usr/bin/.exnode-download-1" ≡ o
    → made o ≡ some path
    → s path ≡ none
new_name s none e h = subst (λ p. s p ≡ none) (some_eq h) e
new_name s (some b) e h = cc

pub magic_read :
    (o : Option Build) {bytes : List ℕ} {file : Build}
    → magic_of o ≡ some bytes
    → o ≡ some file
    → file.magic ≡ bytes
magic_read none h k = cc
magic_read (some b) h k = sym (ap (λ (f : Build). f.magic) (some_eq k)) ∙ some_eq h

runs_flag : (b : Bool) {out : String} → (if b then some "v1.10.0\n" else none) ≡ some out → b ≡ true
runs_flag true h = refl
runs_flag false h = cc

pub runs_read :
    (o : Option Build) {out : String} {file : Build}
    → answer_of o ≡ some out
    → o ≡ some file
    → file.runs ≡ true
runs_read none h k = cc
runs_read (some b) h k = sym (ap (λ (f : Build). f.runs) (some_eq k)) ∙ runs_flag b.runs h

pub never : {A : Type 0} → true ≡ false → A
never h = cc

abbrev pub files : Files platform
files = record {
  File = Build;
  size = λ b. b.size;
  magic = λ b. b.magic;
  Runs = λ b. b.runs ≡ true;
  content = λ s path. s path;
  get_same = λ url s path. refl;
  temp_new = λ dir s h. new_name s (s "/usr/bin/.exnode-download-1") refl h;
  temp_others = λ dir s path h. h;
  copied = λ limit body path s h. (body, there path (some body) s, some_eq h);
  copy_others = λ limit body path s other ne. others path (some body) s other ne;
  magic_read = λ path s h k. magic_read (s path) h k;
  remove_others = λ path s other ne. others path none s other ne;
  chmod_same = λ path s other. refl;
  version_same = λ path s other. refl;
  version_runs = λ path s h k. runs_read (s path) h k;
  renamed = λ from to s h. there to (s from) s;
  rename_fails = λ from to s other h. never h;
  exec_same = λ path s other. refl;
}
