-- ===== src/Installer.antt =====
-- singbox/singbox.go, the options and the errors, and the names of assets and of an archive's members.
pub mod Platform
pub mod Archive
pub mod Install
pub mod Ensure
use exnode.Base.{ℕ, ◌*◌, ◌-◌, String, Bool, List, [], ◌∷◌, Option, if◌then◌else◌, nat_beq}
use exnode.Text.{◌<>◌, is_nil, trim_prefix, trim_right_of, trim_left_of, split}

-- Options without the client; the empty text stands for a default
pub record Options : Type 0 where
  pub repo : String
  pub target : String
  pub api_base : String
  pub download_base : String

-- `singbox.Options{}`
abbrev pub no_options : Options
no_options = record { repo = ""; target = ""; api_base = ""; download_base = "" }

abbrev pub default_repo : String
default_repo = "SagerNet/sing-box"

abbrev pub default_target : String
default_target = "/usr/local/bin/sing-box"

abbrev pub max_asset_size : ℕ
max_asset_size = 200 * 1048576

-- `len(bin) < 1<<20` is refused
abbrev pub min_size : ℕ
min_size = 1048576

-- in nanoseconds
abbrev pub retry_after : ℕ
retry_after = 10 * 60 * 1000000000

-- The errors of latestVersion, of extractBinary and of install, without the wording of their texts.
pub data VersionError : Type 0 where
  no_answer : VersionError
  refused : ℕ → VersionError
  bad_release : VersionError
  no_tag : VersionError

pub data ArchiveError : Type 0 where
  not_gzip : ArchiveError
  bad_tar : ArchiveError
  unread : ArchiveError
  no_member : ArchiveError

pub data Failure : Type 0 where
  no_version : VersionError → Failure
  no_download : Failure
  http_status : ℕ → Failure
  cut_off : Failure
  not_extracted : ArchiveError → Failure
  too_small : ℕ → Failure
  no_directory : Failure
  not_written : Failure
  not_moved : Failure

abbrev pub or_default : String → String → String
or_default s default = if is_nil s then default else s

-- assetName
unfoldable pub asset_name : String → String → String → String
unfolding trim_prefix
asset_name version goos goarch =
    "sing-box-" <> trim_prefix version "v" <> "-" <> goos <> "-" <> goarch <> ".tar.gz"

-- filepath.Base: the last element of a path whose trailing slashes are taken off.
last_part : List String → String
last_part [] = ""
last_part (p ∷ []) = p
last_part (p ∷ q ∷ parts) = last_part (q ∷ parts)

unfoldable pub base : String → String
unfolding last_part
base path =
    let part = last_part (split (trim_right_of b'/' path) b'/') in
    if is_nil path then "." else if is_nil part then "/" else part
