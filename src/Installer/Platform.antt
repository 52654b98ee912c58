-- ===== src/Installer/Platform.antt =====
-- What the installer of sing-box takes from os, os/exec, net/http, runtime, encoding/json,
-- compress/gzip and archive/tar.
use exnode.Base.{ℕ, String, Bool, List, Option}
use exnode.Storage.{Storage}

-- A member of an archive: its header, and what io.ReadAll gives of it up to a limit, `none` on an
-- error.
pub record Member (Binary : Type 0) : Type 0 where
  pub regular : Bool
  pub name : String
  pub read : ℕ → Option Binary

-- What Next of a tar.Reader answers in turn, up to io.EOF or to the first error.
pub data Stream (Binary : Type 0) : Type 0 where
  eof : Stream Binary
  broken : Stream Binary
  next : Member Binary → Stream Binary → Stream Binary

pub record Platform (S : Type 0) : Type 1 where
  -- A response's body, what is read of it, and a program's bytes.
  pub Body : Type 0
  pub Blob : Type 0
  pub Binary : Type 0
  pub size : Binary → ℕ
  pub goos : String
  pub goarch : String
  -- os.Getenv
  pub env : String → S → String
  -- exec.LookPath, `none` on an error
  pub look_path : String → S → Option String
  -- os.Stat: whether it is a directory
  pub stat : String → S → Option Bool
  -- http.NewRequest with GET and these headers, and client.Do: the status and the body
  pub request : String → List (String × String) → S → Option (ℕ × Body) × S
  -- io.ReadAll of at most so many bytes
  pub read_all : ℕ → Body → Option Blob
  -- the tag_name of the JSON text in at most so many bytes
  pub decode_tag : ℕ → Body → Option String
  -- gzip.NewReader, `none` on an error, and tar.NewReader
  pub open_archive : Blob → Option (Stream Binary)
  pub storage : Storage S Binary
