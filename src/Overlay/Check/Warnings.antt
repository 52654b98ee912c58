-- ===== src/Overlay/Check/Warnings.antt =====
-- The self-check logs a problem at most once in five minutes.
use exnode.Base.{
  ℕ, String, false, ◌&&◌, ◌≡◌, List, [], ◌∷◌, if◌then◌else◌, ◌==◌, string_eq, beq_refl, beq→eq,
  Bool-cases, inl, inr,
}
use exnode.Base.Times.{too_soon, Spaced, Spaced-cons, Spaced-nil}
use exnode.Overlay.Check.{Seen, last_seen, warn_once}

-- A problem that comes up, by its key, and when.
abbrev Event : Type 0
Event = String × ℕ

-- The times at which the key's warning is logged in a run of events, in order.
abbrev pub logged : String → List Event → Seen → List ℕ
logged key [] seen = []
logged key ((k, now) ∷ events) seen =
    let (new, seen') = warn_once k now seen in
    let rest = logged key events seen' in if k == key && new then now ∷ rest else rest

last_seen_other :
    (key k : String) (now : ℕ) (seen : Seen)
    → (k == key) ≡ false
    → last_seen key (warn_once k now seen).1 ≡ last_seen key seen
unfolding warn_once
last_seen_other key k now seen h = elim (Bool-cases (too_soon now (last_seen k seen))) [
  | inl soon ↦ rw soon
  | inr late ↦ rw late (rw h)
]

again :
    (key : String) (now : ℕ) (events : List Event) (seen : Seen)
    → ((seen' : Seen) → Spaced (last_seen key seen') (logged key events seen'))
    → Spaced (last_seen key seen) (
        let (new, seen') = warn_once key now seen in
        let rest = logged key events seen' in if new then now ∷ rest else rest)
unfolding warn_once
again key now events seen ih = elim (Bool-cases (too_soon now (last_seen key seen))) [
  | inl soon ↦ rw soon (ih seen)
  | inr late ↦
      rw late (
        Spaced-cons (last_seen key seen) now _ late (rw (beq_refl key) at (ih ((key, now) ∷ seen))))
]

-- Whatever problems come up and whenever, the times at which one problem is logged lie at least five
-- minutes apart, also from the time at which it was last seen.
pub warn_once-Spaced :
    (key : String) (events : List Event) (seen : Seen)
    → Spaced (last_seen key seen) (logged key events seen)
warn_once-Spaced key [] seen = Spaced-nil (last_seen key seen)
warn_once-Spaced key ((k, now) ∷ events) seen = elim (Bool-cases (k == key)) [
  | inr other ↦ rw other (
      rw (← last_seen_other key k now seen other)
        (warn_once-Spaced key events (warn_once k now seen).1))
  | inl same ↦
      rw same (rw (beq→eq k key same) (again key now events seen (warn_once-Spaced key events)))
]
