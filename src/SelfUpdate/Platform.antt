-- ===== src/SelfUpdate/Platform.antt =====
-- What the self-upgrade takes from os, os/exec, net/http, runtime and syscall.
use exnode.Base.{ℕ, String, Bool, List, Option}

pub record Platform : Type 1 where
  pub State : Type 0
  -- The body of an HTTP response.
  pub Body : Type 0
  pub goos : String
  pub goarch : String
  -- os.Getenv("EXNODE_REPO")
  pub repo : State → String
  -- os.Executable, `none` on an error
  pub executable : State → Option String
  -- filepath.Dir
  pub dir : String → String
  -- client.Get: the status and the body, `none` on an error
  pub get : String → State → Option (ℕ × Body) × State
  -- os.CreateTemp in a directory
  pub create_temp : String → State → Option String × State
  -- io.Copy of at most so many bytes of a body into a file, and its Close: the bytes written, `none`
  -- where either fails
  pub copy : ℕ → Body → String → State → Option ℕ × State
  -- os.Open and io.ReadFull of four bytes
  pub read_magic : String → State → Option (List ℕ)
  pub remove : String → State → State
  pub chmod : String → State → Bool × State
  -- the output of the program with the argument -version, `none` where it fails
  pub version_of : String → State → Option String × State
  pub rename : String → String → State → Bool × State
  -- syscall.Exec: `true` stands for a call that does not return
  pub exec : String → State → Bool × State
