-- ===== src/Tests/SelfUpdate.antt =====
-- selfupdate: runs and witnesses.
use exnode.Base.{
  ℕ, ◌↔◌, String, true, false, ◌≡◌, refl, List, [], ◌∷◌, ◌++◌, none, some, ◌==◌, string_eq, nat_eq,
  list_eq, arith, if◌then◌else◌,
}
use exnode.Base.Times.{Spaced}
use exnode.SelfUpdate.Printed.{tag}
use exnode.SelfUpdate.Printed.Compared.{Greater, newer_version-tag}
use exnode.Text.{join, itoa, format_nat, is_nil, trim_space, trim_prefix, is_space, split}
use exnode.SelfUpdate.{above, read_number, version_parts, newer_parts, newer_version}
use exnode.SelfUpdate.Order.{newer_version_trans}
use exnode.SelfUpdate.Swap.{Order, self_upgrade, asset_url, download, check_executable}
use exnode.SelfUpdate.Swap.Safe.{self_upgrade-Safe, Safe}
use exnode.Base.Int.{pos}
use exnode.SelfUpdate.Attempt.{Upgrader, last_for, file_stamp, watch_tick, watch}
use exnode.SelfUpdate.Attempt.Spacing.{tries, attempts-Spaced, attempts_resume}
use exnode.Tests.Disk.{Disk, Build, build, platform, files}

newer_ten : newer_version "v1.10.0" "v1.9.3" ≡ true
unfolding newer_version version_parts newer_parts read_number above trim_space trim_prefix is_space
    split
newer_ten = refl

newer_nine : newer_version "v1.9.3" "1.9" ≡ true
unfolding newer_version version_parts newer_parts read_number above trim_space trim_prefix is_space
    split
newer_nine = refl

-- A part of 19 digits is beyond the ints and turns negative.
wrapped : newer_version "9999999999999999999" "1" ≡ false
unfolding newer_version version_parts newer_parts read_number above trim_space trim_prefix is_space
    split
wrapped = refl

abbrev worn : Build
worn = record build { size = 19000000 }

abbrev disk : Disk
disk path = if path == "/usr/bin/exnode" then some worn else none

abbrev idle : Upgrader
idle = record {
  upgrading = false;
  last_attempt = some 0;
  attempt_version = "v1.10.0";
  error = none;
}

abbrev ten : Order
ten = record { version = "v1.10.0"; url = "" }

-- The build is put in place and the re-exec fails.
upgraded : (self_upgrade platform ten disk).1 "/usr/bin/exnode" ≡ some build
unfolding self_upgrade download asset_url check_executable trim_space
upgraded = refl

self_upgrade-Safe_example :
    Safe platform files "/usr/bin/exnode" worn (self_upgrade platform ten disk).1
self_upgrade-Safe_example =
    self_upgrade-Safe platform files "/usr/bin/exnode" worn ten disk refl refl

newer_version_trans_example :
    (newer_version "v1.10.0" "1.9" ≡ true)
    × (newer_version "1.9" "v1.10.0" ≡ false)
    × (newer_version "v1.10.0" "v1.10.0" ≡ false)
newer_version_trans_example = newer_version_trans "v1.10.0" "v1.9.3" "1.9" newer_ten newer_nine

abbrev early : List (String × ℕ)
early = ("https://example.com/a", 15000000000) ∷ ("", 30000000000) ∷ []

attempts-Spaced_example :
    Spaced (last_for "v1.10.0" idle) (tries platform "v1.10.0" "v1.9.3" early idle disk)
attempts-Spaced_example = attempts-Spaced platform "v1.10.0" "v1.9.3" early idle disk

named : is_nil (trim_space "v1.10.0") ≡ false
unfolding trim_space
named = refl

place : is_nil (trim_space "https://example.com/a") ≡ false
unfolding trim_space
place = refl

last_idle : last_for "v1.10.0" idle ≡ some 0
unfolding last_for
last_idle = refl

attempts_resume_example :
    tries platform "v1.10.0" "v1.9.3"
      (early ++ ("https://example.com/a", 300000000000) ∷ [])
      idle
      disk
    ≡ 300000000000 ∷ []
attempts_resume_example =
    attempts_resume platform "v1.10.0" "v1.9.3" named newer_ten 0 early "https://example.com/a"
      300000000000 idle disk last_idle refl (ground arith, (ground arith, tt)) place (ground arith)

newer_version-tag_example :
    (newer_version (tag (1 ∷ 10 ∷ [])) (tag (1 ∷ 9 ∷ 3 ∷ [])) ≡ true)
    ↔ Greater (1 ∷ 10 ∷ []) (1 ∷ 9 ∷ 3 ∷ [])
newer_version-tag_example =
    newer_version-tag 1 (10 ∷ []) 1 (9 ∷ 3 ∷ []) (omega arith, (omega arith, tt))
      (omega arith, (omega arith, (omega arith, tt)))

tagged : tag (1 ∷ 10 ∷ 0 ∷ []) ≡ "v1.10.0"
unfolding join format_nat
tagged = refl

stamped : file_stamp (some (20000000, pos 1700000000)) ≡ "20000000-1700000000"
unfolding file_stamp itoa format_nat
stamped = refl

-- The file is the same at each tick, so the build on disk is not asked for its version.
unwatched :
    watch platform "v1.9.3" (some (7, pos 1)) (some (7, pos 1) ∷ some (7, pos 1) ∷ []) disk
    ≡ (false, disk)
unfolding watch watch_tick file_stamp itoa format_nat
unwatched = refl
