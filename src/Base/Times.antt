-- ===== src/Base/Times.antt =====
-- Events that keep a distance, in nanoseconds as Go's time.Duration counts.
use Prim.Native.Nat.{ℕ, ◌+◌, ◌-◌, ◌*◌, ◌≤◌}
use mathlib.Core.Path.{◌≡◌}
use mathlib.Core.Bool.{Bool, false}
use mathlib.Core.List.{List, [], ◌∷◌}
use mathlib.Core.Option.{Option, none, some}
use native.Mathlib.Omega.{arith}
use exnode.Base.Tests.{ltb}

abbrev pub five_minutes : ℕ
five_minutes = 5 * 60 * 1000000000

-- Whether there was a last time and `time.Since` of it is less than the distance.
abbrev pub sooner : ℕ → ℕ → Option ℕ → Bool
sooner distance now none = false
sooner distance now (some last) = ltb (now - last) distance

abbrev pub too_soon : ℕ → Option ℕ → Bool
too_soon = sooner five_minutes

-- Each time is at least five minutes after the one before it.
abbrev pub Spaced : Option ℕ → List ℕ → Type 0
Spaced last [] = Unit
Spaced none (t ∷ times) = Spaced (some t) times
Spaced (some last) (t ∷ times) = (last + five_minutes ≤ t) × Spaced (some t) times

pub Spaced-cons :
    (last : Option ℕ) (now : ℕ) (times : List ℕ)
    → too_soon now last ≡ false
    → Spaced (some now) times
    → Spaced last (now ∷ times)
Spaced-cons none now times h r = r
Spaced-cons (some last) now times h r = (ground arith, r)

pub Spaced-nil : (last : Option ℕ) → Spaced last []
Spaced-nil none = tt
Spaced-nil (some t) = tt
