-- ===== src/Host.antt =====
-- The machine that the agent runs on, as the program sees it through os/exec and os: an interface,
-- with the loops that walk a list while the machine changes.
pub mod Iptables
pub mod Loops
pub mod Toy
use exnode.Base.{String, Bool, List, Option}

-- What `exec.Command(argv[0], argv[1:]...)` leaves: whether it exited with 0, what it wrote, and
-- the machine afterwards.
pub record Ran (S : Type 0) : Type 0 where
  pub ok : Bool
  pub stdout : String
  pub combined : String
  pub after : S

pub record Host : Type 1 where
  pub State : Type 0
  pub run : List String → State → Ran State
  -- os.ReadFile, `none` on an error
  pub read_file : String → State → Option String
  -- os.WriteFile
  pub write_file : String → String → State → Bool × State
