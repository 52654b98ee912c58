-- ===== src/SelfUpdate/Swap.antt =====
-- selfupdate/selfupdate.go, the upgrade: the download, its checks, and the swap of the binary.
pub mod Files
pub mod Safe
use exnode.Base.{
  ℕ, ◌*◌, String, Bool, true, false, ◌&&◌, not, List, [], ◌∷◌, Option, none, some, ◌⊎◌, inl, inr,
  if◌then◌else◌, ◌==◌, string_eq, nat_eq, list_eq, ltb,
}
use exnode.Text.{◌<>◌, is_nil, trim_space, trim_right_of, trim_left_of}
use exnode.SelfUpdate.Platform.{Platform}

-- Order
pub record Order : Type 0 where
  pub version : String
  pub url : String

-- The errors of download and selfUpgrade, without the wording of their texts.
pub data Failure : Type 0 where
  no_binary : Failure
  no_answer : Failure
  bad_status : ℕ → Failure
  no_file : Failure
  not_written : Failure
  too_small : ℕ → Failure
  unreadable : Failure
  not_elf : Failure
  no_chmod : Failure
  does_not_run : Failure
  not_replaced : Failure
  not_executed : Failure

abbrev pub min_binary_size : ℕ
min_binary_size = 1048576

abbrev pub elf : List ℕ
elf = 0x7f ∷ 0x45 ∷ 0x4c ∷ 0x46 ∷ []

module _ (P : Platform) where
  -- checkExecutable, `none` for no error
  unfoldable pub check_executable : String → P.State → Option Failure
  check_executable path s = elim (P.read_magic path s) [
    | none ↦ some unreadable
    | some magic ↦ if P.goos == "linux" && not (magic == elf) then some not_elf else none
  ]

  -- The checks on what was written, from `if err != nil` on.
  pub checked_file : String → Option ℕ → P.State → (Failure ⊎ String) × P.State
  unfolding check_executable
  checked_file path none s = (inl not_written, P.remove path s)
  checked_file path (some written) s =
      if ltb written min_binary_size
      then (inl (too_small written), P.remove path s)
      else elim (check_executable path s) [
        | some failure ↦ (inl failure, P.remove path s)
        | none ↦ (inr path, s)
      ]

  pub save : P.Body → Option String → P.State → (Failure ⊎ String) × P.State
  unfolding checked_file
  save body none s = (inl no_file, s)
  save body (some path) s =
      let (written, s') = P.copy (min_binary_size * 200) body path s in checked_file path written s'

  pub answered : String → Option (ℕ × P.Body) → P.State → (Failure ⊎ String) × P.State
  unfolding save
  answered dir none s = (inl no_answer, s)
  answered dir (some (status, body)) s =
      let (temp, s') = P.create_temp dir s in
      if status == 200 then save body temp s' else (inl (bad_status status), s)

  -- The path of the file that was fetched, or why there is none.
  unfoldable pub download : String → String → P.State → (Failure ⊎ String) × P.State
  unfolding answered
  download url dir s = let (answer, s') = P.get url s in answered dir answer s'

  unfoldable pub asset_url : String → P.State → String
  asset_url version s =
      let repo = trim_left_of b'/' (trim_right_of b'/' (trim_space (P.repo s))) in
      "https://github.com/"
      <> (if is_nil repo then "nexpool/exnode" else repo)
      <> "/releases/download/"
      <> version
      <> "/exnode-"
      <> P.goos
      <> "-"
      <> P.goarch

  -- From the chmod on; the deferred os.Remove runs at each return.
  pub swap : String → String → P.State → Option Failure × P.State
  swap exe tmp s =
      let (executable, s₁) = P.chmod tmp s in
      let (version, s₂) = P.version_of tmp s₁ in
      let (renamed, s₃) = P.rename tmp exe s₂ in
      let (replaced, s₄) = P.exec exe s₃ in
      if not executable then (some no_chmod, P.remove tmp s₁) else elim version [
        | none ↦ (some does_not_run, P.remove tmp s₂)
        | some out ↦
            if not renamed
            then (some not_replaced, P.remove tmp s₃)
            else if not replaced
            then (some not_executed, P.remove tmp s₄)
            else (none, s₄)
      ]

  pub fetched : String → (Failure ⊎ String) × P.State → Option Failure × P.State
  unfolding swap
  fetched exe (inl failure, s) = (some failure, s)
  fetched exe (inr tmp, s) = swap exe tmp s

  pub located : Order → Option String → P.State → Option Failure × P.State
  unfolding fetched asset_url download
  located order none s = (some no_binary, s)
  located order (some exe) s =
      let url = trim_space order.url in
      fetched exe (download (if is_nil url then asset_url order.version s else url) (P.dir exe) s)

  -- `none` where the process was replaced and the call does not return
  unfoldable pub self_upgrade : Order → P.State → Option Failure × P.State
  unfolding located
  self_upgrade order s = located order (P.executable s) s
