-- ===== src/Engine/Singbox/Written.antt =====
-- engine/singbox.go, writeFileAtomic: the configuration is written beside its file and moved over it.
pub mod Kept
use exnode.Base.{String, Bool, true, false, ◌⊎◌, inl, inr}
use exnode.Base.Action.{Action, try_call, ◌>>=◌, ◌>>◌}
use exnode.Text.{◌<>◌, is_nil}
use exnode.Storage.{Storage}

pub data WriteError : Type 0 where
  no_directory : WriteError
  not_written : WriteError
  not_moved : WriteError

module _ {S : Type 0} (D : Storage S String) where
  made : String → S → Bool × S
  made dir s = elim (is_nil dir) [ true ↦ (true, s) | false ↦ D.mkdir_all dir s ]

  make_dir : String → Action S WriteError (Unit {0})
  unfolding made
  make_dir path = try_call (made (D.dir path)) no_directory

  write : String → String → Action S WriteError (Unit {0})
  write tmp text = try_call (D.write_file tmp text) not_written

  move : String → String → Action S WriteError (Unit {0})
  move tmp path = try_call (D.rename tmp path) not_moved

  -- writeFileAtomic
  unfoldable pub write_file_atomic : String → String → Action S WriteError (Unit {0})
  unfolding make_dir write move
  write_file_atomic path text = do
    make_dir path
    write (path <> ".tmp") text
    move (path <> ".tmp") path
