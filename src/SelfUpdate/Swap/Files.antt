-- ===== src/SelfUpdate/Swap/Files.antt =====
-- What the calls of the upgrade's platform do to files, as they are documented.
use exnode.Base.{ℕ, ◌≡◌, ◌≢◌, String, true, false, List, Option, none, some}
use exnode.SelfUpdate.Platform.{Platform}

-- The files of the platform, and what each call may change of them.
pub record Files (P : Platform) : Type 1 where
  pub File : Type 0
  pub size : File → ℕ
  pub magic : File → List ℕ
  -- The program answers to -version.
  pub Runs : File → Type 0
  pub content : P.State → String → Option File
  pub get_same :
      (url : String) (s : P.State) (path : String) → content (P.get url s).1 path ≡ content s path
  -- A temporary file is new.
  pub temp_new :
      (dir : String) (s : P.State) {path : String}
      → (P.create_temp dir s).0 ≡ some path
      → content s path ≡ none
  pub temp_others :
      (dir : String) (s : P.State) (path : String) {file : File}
      → content s path ≡ some file
      → content (P.create_temp dir s).1 path ≡ some file
  pub copied :
      (limit : ℕ) (body : P.Body) (path : String) (s : P.State) {written : ℕ}
      → (P.copy limit body path s).0 ≡ some written
      → (file : File) × (content (P.copy limit body path s).1 path ≡ some file)
        × (size file ≡ written)
  pub copy_others :
      (limit : ℕ) (body : P.Body) (path : String) (s : P.State) (other : String)
      → other ≢ path
      → content (P.copy limit body path s).1 other ≡ content s other
  pub magic_read :
      (path : String) (s : P.State) {bytes : List ℕ} {file : File}
      → P.read_magic path s ≡ some bytes
      → content s path ≡ some file
      → magic file ≡ bytes
  pub remove_others :
      (path : String) (s : P.State) (other : String)
      → other ≢ path
      → content (P.remove path s) other ≡ content s other
  pub chmod_same :
      (path : String) (s : P.State) (other : String)
      → content (P.chmod path s).1 other ≡ content s other
  pub version_same :
      (path : String) (s : P.State) (other : String)
      → content (P.version_of path s).1 other ≡ content s other
  pub version_runs :
      (path : String) (s : P.State) {out : String} {file : File}
      → (P.version_of path s).0 ≡ some out
      → content s path ≡ some file
      → Runs file
  pub renamed :
      (from to : String) (s : P.State)
      → (P.rename from to s).0 ≡ true
      → content (P.rename from to s).1 to ≡ content s from
  pub rename_fails :
      (from to : String) (s : P.State) (other : String)
      → (P.rename from to s).0 ≡ false
      → content (P.rename from to s).1 other ≡ content s other
  pub exec_same :
      (path : String) (s : P.State) (other : String)
      → content (P.exec path s).1 other ≡ content s other
