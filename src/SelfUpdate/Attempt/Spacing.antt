-- ===== src/SelfUpdate/Attempt/Spacing.antt =====
-- The cooldown between attempts: no two come too close, and an order that is skipped does not push
-- the next attempt back.
use mathlib.Core.Path.{subst}
use exnode.Base.{
  sym, ◌∙◌, ap, if_true, if_false, ℕ, ◌+◌, ◌≤◌, ◌<◌, String, Bool, true, false, ◌||◌, not, ◌≡◌,
  refl, List, [], ◌∷◌, ◌++◌, Option, none, some, if◌then◌else◌, string_eq, beq_refl, Bool-cases,
  inl, inr, ◌⊎◌, arith, All,
}
use exnode.Base.Times.{too_soon, five_minutes, Spaced, Spaced-cons, Spaced-nil}
use exnode.Text.{is_nil, trim_space}
use exnode.SelfUpdate.{newer_version}
use exnode.SelfUpdate.Platform.{Platform}
use exnode.SelfUpdate.Swap.{Order, Failure, self_upgrade}
use exnode.SelfUpdate.Attempt.{
  UpgradeError, no_url, Upgrader, Turn, outcome, last_for, attempt, ordered, maybe_upgrade,
}

module _ (P : Platform) (version current : String) where
  abbrev order : String → Order
  order url = record { version = version; url = url }

  -- The times of the attempts in a run of orders of one version, by URL and time, until one succeeds.
  abbrev pub tries : List (String × ℕ) → Upgrader → P.State → List ℕ
  tries [] u s = []
  tries ((url, now) ∷ orders) u s =
      let turn = maybe_upgrade P (some (order url)) current now u s in
      let later = tries orders turn.upgrader turn.after in
      let rest : List ℕ = if turn.replaced then [] else later in
      if turn.tried then now ∷ rest else rest

  -- How a turn and the upgrader before it go together.
  abbrev Paced : ℕ → Upgrader → Turn P.State → Type 0
  Paced now u turn =
      ((turn.tried ≡ true)
        × (too_soon now (last_for version u) ≡ false)
        × (last_for version turn.upgrader ≡ some now))
      ⊎ ((turn.tried ≡ false)
          × (turn.replaced ≡ false)
          × (last_for version turn.upgrader ≡ last_for version u))

  settled : (u : Upgrader) → u.attempt_version ≡ version → last_for version u ≡ u.last_attempt
  unfolding last_for
  settled u h = rw h (rw (beq_refl version))

  outcome-Paced :
      (now : ℕ) (u u' : Upgrader) (result : Option Failure × P.State)
      → too_soon now (last_for version u) ≡ false
      → u'.attempt_version ≡ version
      → u'.last_attempt ≡ some now
      → Paced now u (outcome P version u' result)
  outcome-Paced now u u' (none, s) late same set = inl (refl, late, settled u' same ∙ set)
  outcome-Paced now u u' (some failure, s) late same set = inl (refl, late, settled _ same ∙ set)

  branch-Paced :
      (b : Bool) (now : ℕ) (u : Upgrader) (t t' : Turn P.State)
      → (b ≡ true → Paced now u t)
      → (b ≡ false → Paced now u t')
      → Paced now u (if b then t else t')
  branch-Paced true now u t t' h k = h refl
  branch-Paced false now u t t' h k = k refl

  attempt-Paced :
      (url : String) (now : ℕ) (u : Upgrader) (s : P.State)
      → Paced now u (attempt P (order url) now u s)
  unfolding attempt
  attempt-Paced url now u s =
      branch-Paced (too_soon now (last_for version u)) now u _ _
        (λ soon. inr (
          refl,
          refl,
          settled (record u { attempt_version = version; last_attempt = last_for version u }) refl,
        ))
        (λ late. outcome-Paced now u _ (self_upgrade P (order url) s) late refl refl)

  reported :
      (u : Upgrader) (e : Option UpgradeError)
      → last_for version (record u { error = e }) ≡ last_for version u
  unfolding last_for
  reported u e = refl

  ordered-Paced :
      (url : String) (now : ℕ) (u : Upgrader) (s : P.State)
      → Paced now u (maybe_upgrade P (some (order url)) current now u s)
  unfolding maybe_upgrade ordered
  ordered-Paced url now u s =
      branch-Paced (is_nil (trim_space version) || not (newer_version version current)) now u _ _
        (λ void. inr (refl, refl, refl))
        (λ fine.
          branch-Paced (is_nil (trim_space url)) now u _ _
            (λ lost. inr (refl, refl, reported u (some (no_url version))))
            (λ found.
              branch-Paced u.upgrading now u _ _ (λ busy. inr (refl, refl, refl))
                (λ free. attempt-Paced url now u s)))

  tries-Spaced :
      (now : ℕ) (u : Upgrader) (turn : Turn P.State) (later : List ℕ)
      → Paced now u turn
      → Spaced (last_for version turn.upgrader) later
      → Spaced (last_for version u) (
          let rest : List ℕ = if turn.replaced then [] else later in
          if turn.tried then now ∷ rest else rest)
  tries-Spaced now u turn later (inl (tried, late, last)) h = rw tried (
      Spaced-cons (last_for version u) now _ late (elim (Bool-cases turn.replaced) [
        | inl gone ↦ rw gone tt
        | inr here ↦ rw here (subst (λ l. Spaced l later) last h)
      ]))
  tries-Spaced now u turn later (inr (skipped, here, last)) h =
      rw skipped (rw here (subst (λ l. Spaced l later) last h))

  -- Whatever orders for one version come in and whenever, and whatever becomes of the attempts, the
  -- times at which an upgrade to that version is attempted lie at least five minutes apart, also from
  -- the last attempt for the version before.
  pub attempts-Spaced :
      (orders : List (String × ℕ)) (u : Upgrader) (s : P.State)
      → Spaced (last_for version u) (tries orders u s)
  attempts-Spaced [] u s = Spaced-nil (last_for version u)
  attempts-Spaced ((url, now) ∷ orders) u s =
      let turn = maybe_upgrade P (some (order url)) current now u s in
      tries-Spaced now u turn (tries orders turn.upgrader turn.after) (ordered-Paced url now u s)
        (attempts-Spaced orders turn.upgrader turn.after)

  -- An order that comes less than five minutes after `last`.
  abbrev pub Early : ℕ → String × ℕ → Type 0
  Early last (url, now) = now < last + five_minutes

  -- A turn without an attempt that leaves the time of the last one as it was.
  abbrev Skipped : Upgrader → Turn P.State → Type 0
  Skipped u turn =
      (turn.tried ≡ false)
      × (turn.replaced ≡ false)
      × (turn.upgrader.upgrading ≡ false)
      × (last_for version turn.upgrader ≡ last_for version u)

  module _ (named : is_nil (trim_space version) ≡ false)
      (newer : newer_version version current ≡ true) where
    ordered-attempt :
        (url : String) (now : ℕ) (u : Upgrader) (s : P.State)
        → is_nil (trim_space url) ≡ false
        → u.upgrading ≡ false
        → maybe_upgrade P (some (order url)) current now u s ≡ attempt P (order url) now u s
    unfolding maybe_upgrade ordered
    ordered-attempt url now u s found free =
        rw (named, newer, found) (if_false u.upgrading _ _ free)

    attempt_skips :
        (url : String) (now : ℕ) (u : Upgrader) (s : P.State)
        → too_soon now (last_for version u) ≡ true
        → attempt P (order url) now u s ≡ record {
          tried = false;
          replaced = false;
          upgrader = record u { attempt_version = version; last_attempt = last_for version u };
          after = s;
        }
    unfolding attempt
    attempt_skips url now u s soon = if_true _ _ _ soon

    outcome_tried :
        (u : Upgrader) (result : Option Failure × P.State)
        → (outcome P version u result).tried ≡ true
    outcome_tried u (none, s) = refl
    outcome_tried u (some failure, s) = refl

    attempt_tries :
        (url : String) (now : ℕ) (u : Upgrader) (s : P.State)
        → too_soon now (last_for version u) ≡ false
        → (attempt P (order url) now u s).tried ≡ true
    unfolding attempt
    attempt_tries url now u s late =
        ap (λ (t : Turn P.State). t.tried) (if_false _ _ _ late)
        ∙ outcome_tried _ (self_upgrade P (order url) s)

    either_nil : (b : Bool) → if◌then◌else◌ {A = List ℕ} b [] [] ≡ []
    either_nil true = refl
    either_nil false = refl

    passed : (last now : ℕ) → last + five_minutes ≤ now → too_soon now (some last) ≡ false
    passed last now h = ground arith

    early_soon : (last now : ℕ) → now < last + five_minutes → too_soon now (some last) ≡ true
    early_soon last now h = ground arith

    -- An order that comes early is skipped, whatever it says.
    ordered_lost :
        (url : String) (now : ℕ) (u : Upgrader) (s : P.State)
        → is_nil (trim_space url) ≡ true
        → u.upgrading ≡ false
        → Skipped u (maybe_upgrade P (some (order url)) current now u s)
    unfolding maybe_upgrade ordered
    ordered_lost url now u s lost free =
        rw (named, newer, lost) (refl, refl, free, reported u (some (no_url version)))

    ordered_skips :
        (url : String) (now : ℕ) (u : Upgrader) (s : P.State)
        → u.upgrading ≡ false
        → too_soon now (last_for version u) ≡ true
        → Skipped u (maybe_upgrade P (some (order url)) current now u s)
    ordered_skips url now u s free soon = elim (Bool-cases (is_nil (trim_space url))) [
      | inl lost ↦ ordered_lost url now u s lost free
      | inr found ↦
          subst (Skipped u)
            (sym (ordered-attempt url now u s found free ∙ attempt_skips url now u s soon))
            (refl, refl, free, settled _ refl)
    ]

    -- Where the version is newer than the running one and no upgrade is under way: orders that come
    -- within five minutes of the last attempt are skipped, however many there are, whether or not
    -- they name a place to download from, and the first order after that time that names one is acted
    -- on. So skipped orders never put off the next attempt.
    pub attempts_resume :
        (last : ℕ) (early : List (String × ℕ)) (url : String) (now : ℕ) (u : Upgrader) (s : P.State)
        → last_for version u ≡ some last
        → u.upgrading ≡ false
        → All (Early last) early
        → is_nil (trim_space url) ≡ false
        → last + five_minutes ≤ now
        → tries (early ++ (url, now) ∷ []) u s ≡ now ∷ []
    attempts_resume last [] url now u s set free h found late =
        let go = ordered-attempt url now u s found free in
        let tried : (attempt P (order url) now u s).tried ≡ true =
          attempt_tries url now u s (ap (too_soon now) set ∙ passed last now late) in
        rw (go, tried) (ap (◌∷◌ now) (either_nil (attempt P (order url) now u s).replaced))
    attempts_resume last ((url', t) ∷ early) url now u s set free (soon, h) found late =
        let turn = maybe_upgrade P (some (order url')) current t u s in
        let (skipped, stays, free', same) =
          ordered_skips url' t u s free (ap (too_soon t) set ∙ early_soon last t soon) in
        rw (skipped, stays)
          (attempts_resume last early url now turn.upgrader turn.after (same ∙ set) free' h found
            late)
