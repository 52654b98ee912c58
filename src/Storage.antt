-- ===== src/Storage.antt =====
-- Files written by way of a temporary file: what singbox/singbox.go and engine/singbox.go take from
-- os and filepath, over any state and any kind of contents, and what those calls are documented to do.
use exnode.Base.{String, Bool, true, false, ◌≡◌, ◌≢◌, Option, some}

pub record Storage (S B : Type 0) : Type 0 where
  -- filepath.Dir
  pub dir : String → String
  pub mkdir_all : String → S → Bool × S
  -- os.WriteFile, with a mode that is left out
  pub write_file : String → B → S → Bool × S
  pub rename : String → String → S → Bool × S
  pub remove : String → S → S

-- The files of the state, and what each call may change of them.
pub record Documented {S B : Type 0} (D : Storage S B) : Type 0 where
  pub content : S → String → Option B
  pub mkdir_same :
      (dir : String) (s : S) (path : String) → content (D.mkdir_all dir s).1 path ≡ content s path
  pub written :
      (path : String) (b : B) (s : S)
      → (D.write_file path b s).0 ≡ true
      → content (D.write_file path b s).1 path ≡ some b
  pub write_others :
      (path : String) (b : B) (s : S) (other : String)
      → other ≢ path
      → content (D.write_file path b s).1 other ≡ content s other
  pub renamed :
      (from to : String) (s : S)
      → (D.rename from to s).0 ≡ true
      → content (D.rename from to s).1 to ≡ content s from
  pub rename_fails :
      (from to : String) (s : S) (other : String)
      → (D.rename from to s).0 ≡ false
      → content (D.rename from to s).1 other ≡ content s other
  pub rename_others :
      (from to : String) (s : S) (other : String)
      → other ≢ from
      → other ≢ to
      → content (D.rename from to s).1 other ≡ content s other
  pub remove_others :
      (path : String) (s : S) (other : String)
      → other ≢ path
      → content (D.remove path s) other ≡ content s other
