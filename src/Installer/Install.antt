-- ===== src/Installer/Install.antt =====
-- singbox/singbox.go, latestVersion and install: a release is looked up, downloaded, unpacked and
-- put in place.
pub mod Kept
use exnode.Base.{
  ℕ, String, Bool, true, false, not, List, [], ◌∷◌, none, ◌⊎◌, inl, inr, if◌then◌else◌, ltb,
  nat_beq,
}
use exnode.Base.Action.{Action, pure, raise, gets, raise_if, or_raise, call, try_call, ◌>>=◌, ◌>>◌}
use exnode.Text.{◌<>◌, is_nil, trim_space, trim_right_of}
use exnode.Installer.{
  Options, default_repo, max_asset_size, min_size, or_default, VersionError, no_answer, refused,
  bad_release, no_tag, Failure, no_version, no_download, http_status, cut_off, not_extracted,
  too_small, no_directory, not_written, not_moved, asset_name,
}
use exnode.Installer.Platform.{Platform}
use exnode.Installer.Archive.{extract_binary}

module _ {S : Type 0} (P : Platform S) where
  abbrev asked_headers : List (String × String)
  asked_headers = ("Accept", "application/vnd.github+json") ∷ ("User-Agent", "exnode-agent") ∷ []

  tag_of : P.Body → Action S VersionError String
  tag_of body = do
    tag ← or_raise (P.decode_tag 1048576 body) bad_release
    raise_if (is_nil (trim_space tag)) no_tag
    pure tag

  released : ℕ × P.Body → Action S VersionError String
  unfolding tag_of
  released (status, body) = do raise_if (not (nat_beq status 200)) (refused status); tag_of body

  unfoldable pub latest_version : String → String → Action S VersionError String
  unfolding released
  latest_version api_base repo = do
    let url = trim_right_of b'/' api_base <> "/repos/" <> repo <> "/releases/latest"
    answer ← call (P.request url asked_headers) no_answer
    released answer

  -- The error of a step within another.
  abbrev lifted : {E A : Type 0} → (E → Failure) → (E ⊎ A) × S → (Failure ⊎ A) × S
  lifted wrap (inl e, s) = (inl (wrap e), s)
  lifted wrap (inr a, s) = (inr a, s)

  -- The version of the environment, or else the newest one.
  chosen_version : String → String → Action S Failure String
  unfolding latest_version
  chosen_version api_base repo s =
      let version = trim_space (P.env "SINGBOX_VERSION" s) in
      if is_nil version
      then lifted no_version (latest_version api_base repo s)
      else (inr version, s)

  downloaded : ℕ × P.Body → Action S Failure P.Blob
  downloaded (status, body) = do
    raise_if (not (nat_beq status 200)) (http_status status)
    or_raise (P.read_all max_asset_size body) cut_off

  download_blob : String → Action S Failure P.Blob
  unfolding downloaded
  download_blob url = do answer ← call (P.request url []) no_download; downloaded answer

  made : String → S → Bool × S
  made dir s = elim (is_nil dir) [ true ↦ (true, s) | false ↦ P.storage.mkdir_all dir s ]

  make_dir : String → Action S Failure (Unit {0})
  unfolding made
  make_dir target = try_call (made (P.storage.dir target)) no_directory

  write : String → P.Binary → Action S Failure (Unit {0})
  write tmp bin = try_call (P.storage.write_file tmp bin) not_written

  renamed : String → String → S → Bool × S
  renamed tmp target s =
      let (moved, s') = P.storage.rename tmp target s in
      (moved, if moved then s' else P.storage.remove tmp s')

  move : String → String → Action S Failure (Unit {0})
  unfolding renamed
  move tmp target = try_call (renamed tmp target) not_moved

  -- From the first os.MkdirAll on: the file is written beside the target and moved over it.
  unfoldable pub put_program : String → P.Binary → Action S Failure (Unit {0})
  unfolding make_dir write move
  put_program target bin = do
    make_dir target
    write (target <> ".new") bin
    move (target <> ".new") target

  chosen_repo : String → S → String
  unfolding trim_space
  chosen_repo repo s =
      or_default (trim_space repo) (or_default (trim_space (P.env "SINGBOX_REPO" s)) default_repo)

  release_url : String → String → String → String → String
  release_url download_base repo version name =
      download_base <> "/" <> repo <> "/releases/download/" <> version <> "/" <> name

  unpack : P.Blob → Action S Failure P.Binary
  unfolding extract_binary
  unpack blob s = lifted not_extracted (extract_binary P blob, s)

  -- From extractBinary on.
  unpack_to : String → P.Blob → Action S Failure (Unit {0})
  unfolding unpack put_program
  unpack_to target blob = do
    bin ← unpack blob
    raise_if (ltb (P.size bin) min_size) (too_small (P.size bin))
    put_program target bin

  fetch : String → String → String → Action S Failure P.Blob
  unfolding chosen_version download_blob release_url asset_name
  fetch api_base download_base repo = do
    version ← chosen_version api_base repo
    download_blob (release_url download_base repo version (asset_name version P.goos P.goarch))

  unfoldable pub install : String → Options → Action S Failure (Unit {0})
  unfolding fetch unpack_to chosen_repo trim_space
  install target opts = do
    let api_base = or_default (trim_space opts.api_base) "https://api.github.com"
    let download_base = or_default (trim_space opts.download_base) "https://github.com"
    repo ← gets (chosen_repo opts.repo)
    blob ← fetch api_base download_base repo
    unpack_to target blob
