-- ===== src/SelfUpdate/Attempt.antt =====
-- selfupdate/selfupdate.go, the orders: which are acted on and when, and the binary on disk that is
-- taken up.
pub mod Spacing
use exnode.Base.{
  ℕ, String, Bool, true, false, ◌&&◌, ◌||◌, not, List, [], ◌∷◌, Option, none, some, if◌then◌else◌,
  ◌==◌, string_eq,
}
use exnode.Base.Times.{too_soon}
use exnode.Base.Int.{ℤ}
use exnode.Text.{◌<>◌, is_nil, trim_space, format_nat, itoa}
use exnode.SelfUpdate.{newer_version, first_line}
use exnode.SelfUpdate.Platform.{Platform}
use exnode.SelfUpdate.Swap.{Order, Failure, self_upgrade}

-- The last failure: of an order without a URL, or of an attempt.
pub data UpgradeError : Type 0 where
  no_url : String → UpgradeError
  failed : String → Failure → UpgradeError

-- The variables of the package; `none` for the zero time and for no error.
pub record Upgrader : Type 0 where
  pub upgrading : Bool
  pub last_attempt : Option ℕ
  pub attempt_version : String
  pub error : Option UpgradeError

-- PendingError and ClearError
unfoldable pub pending_error : Upgrader → Option UpgradeError
pending_error u = u.error

unfoldable pub clear_error : Upgrader → Upgrader
clear_error u = record u { error = none }

-- What a call leaves. `tried` tells whether it came to an attempt, `replaced` that it does not
-- return because another build runs.
pub record Turn (S : Type 0) : Type 0 where
  pub tried : Bool
  pub replaced : Bool
  pub upgrader : Upgrader
  pub after : S

-- The last attempt for a version, where a new version starts with a clean slate.
unfoldable pub last_for : String → Upgrader → Option ℕ
last_for version u = if version == u.attempt_version then u.last_attempt else none

-- fileStamp, with the size and the time of the change that os.Stat gives, `none` on an error
unfoldable pub file_stamp : Option (ℕ × ℤ) → String
unfolding itoa format_nat
file_stamp none = ""
file_stamp (some (size, changed)) = format_nat size <> "-" <> itoa changed

module _ (P : Platform) where
  abbrev outcome : String → Upgrader → Option Failure × P.State → Turn P.State
  outcome version u (none, s) = record { tried = true; replaced = true; upgrader = u; after = s }
  outcome version u (some failure, s) = record {
    tried = true;
    replaced = false;
    upgrader = record u { error = some (failed version failure) };
    after = s;
  }

  -- From the lock on, at the time `now`.
  unfoldable pub attempt : Order → ℕ → Upgrader → P.State → Turn P.State
  unfolding last_for
  attempt order now u s =
      let last = last_for order.version u in
      let u' = record u { attempt_version = order.version; last_attempt = last } in
      if too_soon now last
      then record { tried = false; replaced = false; upgrader = u'; after = s }
      else outcome order.version (record u' { last_attempt = some now }) (self_upgrade P order s)

  unfoldable pub ordered : Order → String → ℕ → Upgrader → P.State → Turn P.State
  unfolding attempt
  ordered order current now u s =
      let nothing : Turn P.State = record {
        tried = false;
        replaced = false;
        upgrader = u;
        after = s;
      } in
      if is_nil (trim_space order.version) || not (newer_version order.version current)
      then nothing
      else if is_nil (trim_space order.url)
      then record nothing { upgrader = record u { error = some (no_url order.version) } }
      else if u.upgrading
      then nothing
      else attempt order now u s

  -- Maybe
  unfoldable pub maybe_upgrade : Option Order → String → ℕ → Upgrader → P.State → Turn P.State
  unfolding ordered
  maybe_upgrade none current now u s = record {
    tried = false;
    replaced = false;
    upgrader = u;
    after = s;
  }
  maybe_upgrade (some order) current now u s = ordered order current now u s

  taken_up : String → String → Option String → P.State → Bool × P.State
  taken_up exe current none s = (false, s)
  taken_up exe current (some out) s =
      let version = first_line out in
      if is_nil version || version == current || not (newer_version version current)
      then (false, s)
      else P.exec exe s

  -- adopt: whether the build on disk replaced this process
  unfoldable pub adopt : String → String → P.State → Bool × P.State
  unfolding taken_up
  adopt exe current s = let (out, s') = P.version_of exe s in taken_up exe current out s'

  -- One tick of Watch, with the stamps of the binary's file before and now.
  unfoldable pub watch_tick : String → String → String → String → P.State → Bool × P.State
  unfolding adopt
  watch_tick exe current stamp next s = if next == stamp then (false, s) else adopt exe current s

  -- Adopt, at the start
  unfoldable pub adopt_at_start : String → P.State → Bool × P.State
  unfolding adopt
  adopt_at_start current s = elim (P.executable s) [
    | none ↦ (false, s)
    | some exe ↦ if is_nil exe then (false, s) else adopt exe current s
  ]

  -- The loop of Watch over what os.Stat gives at its ticks, up to the cancellation.
  watched : String → String → String → List (Option (ℕ × ℤ)) → P.State → Bool × P.State
  unfolding watch_tick file_stamp
  watched exe current stamp [] s = (false, s)
  watched exe current stamp (st ∷ ticks) s =
      let next = file_stamp st in
      let (replaced, s') = watch_tick exe current stamp next s in
      let later = watched exe current next ticks s' in if replaced then (true, s') else later

  -- Watch, with what os.Stat gives at first
  unfoldable pub watch : String → Option (ℕ × ℤ) → List (Option (ℕ × ℤ)) → P.State → Bool × P.State
  unfolding watched file_stamp
  watch current first ticks s = elim (P.executable s) [
    | none ↦ (false, s)
    | some exe ↦ if is_nil exe then (false, s) else watched exe current (file_stamp first) ticks s
  ]
