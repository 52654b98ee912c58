-- ===== src/Installer/Ensure.antt =====
-- singbox/singbox.go, Usable and Ensure: a program that is there is used, and a failed installation
-- is not tried again at once.
pub mod Cooldown
use exnode.Base.{
  ℕ, ◌+◌, ◌-◌, ◌*◌, ◌/◌, String, Bool, true, false, Option, none, some, ◌⊎◌, inl, inr,
  if◌then◌else◌, ltb,
}
use exnode.Base.Times.{sooner}
use exnode.Text.{is_nil, trim_space, has_prefix}
use exnode.Installer.{Options, Failure, default_target, or_default, retry_after}
use exnode.Installer.Platform.{Platform}
use exnode.Installer.Install.{install}

-- The variables of the package; `none` for the zero time and for no error.
pub record Attempts : Type 0 where
  pub last_attempt : Option ℕ
  pub last_error : Option Failure

-- Ensure's errors: the last failure with the time that is left, to the second, or a new one.
pub data EnsureError : Type 0 where
  cooling_down : Failure → ℕ → EnsureError
  failed : Failure → EnsureError

abbrev pub second : ℕ
second = 1000000000

abbrev rounded : ℕ → ℕ
rounded d = (d + second / 2) / second * second

abbrev since : ℕ → Option ℕ → ℕ
since now none = now
since now (some last) = now - last

-- `lastErr != nil && time.Since(lastAttempt) < retryAfter`, with the error
unfoldable pub cooling : ℕ → Attempts → Option Failure
cooling now a = elim a.last_error [
  | none ↦ none
  | some e ↦ if sooner retry_after now a.last_attempt then some e else none
]

-- What a call leaves, and whether it came to an installation.
pub record Ensured (S : Type 0) : Type 0 where
  pub tried : Bool
  pub result : EnsureError ⊎ String
  pub attempts : Attempts
  pub after : S

module _ {S : Type 0} (P : Platform S) where
  -- Usable
  unfoldable pub usable : String → S → Option String
  unfolding trim_space has_prefix
  usable bin_path s =
      let name = or_default (trim_space bin_path) "sing-box" in
      elim (P.look_path name s) [
        | some path ↦ some path
        | none ↦
            if has_prefix name "/"
            then elim (P.stat name s) [
              | none ↦ none
              | some is_dir ↦ if is_dir then none else some name
            ]
            else none
      ]

  abbrev recorded : String → ℕ → (Failure ⊎ Unit {0}) × S → Ensured S
  recorded target now (inl e, s) = record {
    tried = true;
    result = inl (failed e);
    attempts = record { last_attempt = some now; last_error = some e };
    after = s;
  }
  recorded target now (inr done, s) = record {
    tried = true;
    result = inr target;
    attempts = record { last_attempt = some now; last_error = none };
    after = s;
  }

  abbrev skipped : EnsureError ⊎ String → Attempts → S → Ensured S
  skipped result a s = record { tried = false; result = result; attempts = a; after = s }

  installed : String → Options → ℕ → Attempts → S → Ensured S
  unfolding cooling install
  installed target opts now a s = elim (cooling now a) [
    | some e ↦ skipped (inl (cooling_down e (rounded (retry_after - since now a.last_attempt)))) a s
    | none ↦ recorded target now (install P target opts s)
  ]

  -- Ensure, where the machine is `before` at the call and `s` once the lock is free.
  unfoldable pub ensure : String → Options → S → ℕ → Attempts → S → Ensured S
  unfolding usable installed
  ensure bin_path opts before now a s =
      let target = or_default (trim_space opts.target) default_target in
      elim (usable bin_path before) [
        | some path ↦ skipped (inr path) a s
        | none ↦ elim (usable target s) [
          | some path ↦ skipped (inr path) a s
          | none ↦ elim (usable bin_path s) [
            | some path ↦ skipped (inr path) a s
            | none ↦ installed target opts now a s
          ]
        ]
      ]
