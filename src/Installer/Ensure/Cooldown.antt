-- ===== src/Installer/Ensure/Cooldown.antt =====
-- Failed installations of sing-box: how far apart they are, and what Ensure reports of them.
use mathlib.Core.Path.{subst}
use exnode.Base.{
  ℕ, ◌+◌, ◌≤◌, ◌<◌, ◌≡◌, refl, ap, String, Bool, true, false, List, [], ◌∷◌, Option, none, some,
  ◌⊎◌, inl, inr, if◌then◌else◌, Option-cases, Bool-cases, arith,
}
use exnode.Base.Times.{sooner}
use exnode.Text.{trim_space}
use exnode.Installer.{Options, Failure, default_target, or_default, retry_after}
use exnode.Installer.Platform.{Platform}
use exnode.Installer.Install.{install}
use exnode.Installer.Ensure.{
  Attempts, EnsureError, cooling_down, failed, cooling, Ensured, usable, recorded, skipped,
  installed, ensure,
}

-- The time of the last attempt, if it failed.
abbrev pub last_failed : Attempts → Option ℕ
last_failed a = elim a.last_error [ none ↦ none | some e ↦ a.last_attempt ]

abbrev pub is_failed : EnsureError ⊎ String → Bool
is_failed (inl e) = true
is_failed (inr path) = false

abbrev pub Waited : Option ℕ → ℕ → Type 0
Waited none now = Unit
Waited (some last) now = last + retry_after ≤ now

-- Attempts by time and whether they failed: after a failure, the next one waits.
abbrev pub Cooled : Option ℕ → List (ℕ × Bool) → Type 0
Cooled last [] = Unit
Cooled last ((now, bad) ∷ later) = Waited last now × Cooled (if bad then some now else none) later

abbrev pub target_of : Options → String
target_of opts = or_default (trim_space opts.target) default_target

module _ {S : Type 0} (P : Platform S) where
  -- A call with what it finds: the machine at its start and under the lock, and the time.
  pub record Call : Type 0 where
    pub bin_path : String
    pub opts : Options
    pub before : S
    pub now : ℕ
    pub locked : S

  abbrev answer : Call → Attempts → Ensured S
  answer c a = ensure P c.bin_path c.opts c.before c.now a c.locked

  -- The attempts in a run of calls.
  abbrev pub installs : List Call → Attempts → List (ℕ × Bool)
  installs [] a = []
  installs (c ∷ calls) a =
      let e = answer c a in
      let later = installs calls e.attempts in
      if e.tried then (c.now, is_failed e.result) ∷ later else later

  -- How a call and the variables before it go together.
  abbrev Paced : ℕ → Attempts → Ensured S → Type 0
  Paced now a e =
      ((e.tried ≡ false) × (e.attempts ≡ a))
      ⊎ ((e.tried ≡ true)
          × Waited (last_failed a) now
          × (last_failed e.attempts ≡ (if is_failed e.result then some now else none)))

  recorded-Paced :
      (target : String) (now : ℕ) (a : Attempts) (r : (Failure ⊎ Unit {0}) × S)
      → Waited (last_failed a) now
      → Paced now a (recorded P target now r)
  recorded-Paced target now a (inl e, s) late = inr (refl, late, refl)
  recorded-Paced target now a (inr done, s) late = inr (refl, late, refl)

  waited : (last : Option ℕ) (now : ℕ) → sooner retry_after now last ≡ false → Waited last now
  waited none now h = tt
  waited (some last) now h = ground arith

  -- What `cooling` tells: the failure that is waited for, and since when, or that none is.
  abbrev Cooling : ℕ → Option ℕ → Option Failure → Option Failure → Type 0
  Cooling now last error none = Waited (elim error [ none ↦ none | some e ↦ last ]) now
  Cooling now last error (some f) =
      (error ≡ some f) × ((t : ℕ) × (last ≡ some t) × (now < t + retry_after))

  soon :
      (last : Option ℕ) (now : ℕ)
      → sooner retry_after now last ≡ true
      → (t : ℕ) × (last ≡ some t) × (now < t + retry_after)
  soon none now h = cc
  soon (some t) now h = (t, refl, ground arith)

  cooling_lem :
      (now : ℕ) (last : Option ℕ) (error : Option Failure)
      → Cooling now last error (cooling now (record { last_attempt = last; last_error = error }))
  unfolding cooling
  cooling_lem now last none = tt
  cooling_lem now last (some f) = elim (Bool-cases (sooner retry_after now last)) [
    | inl busy ↦ rw (cooling, busy) (refl, soon last now busy)
    | inr free ↦ rw (cooling, free) (waited last now free)
  ]

  abbrev pub Found : Call → String → Type 0
  Found c path =
      (usable P c.bin_path c.before ≡ some path)
      ⊎ (usable P (target_of c.opts) c.locked ≡ some path)
      ⊎ (usable P c.bin_path c.locked ≡ some path)

  abbrev pub Nothing : Call → Type 0
  Nothing c =
      (usable P c.bin_path c.before ≡ none)
      × (usable P (target_of c.opts) c.locked ≡ none)
      × (usable P c.bin_path c.locked ≡ none)

  -- The ways that a call goes.
  ensure-cases :
      (Q : Ensured S → Type 0) (c : Call) (a : Attempts)
      → ((path : String) → Found c path → Q (skipped P (inr path) a c.locked))
      → ((f : Failure) (left : ℕ)
          → Nothing c
          → cooling c.now a ≡ some f
          → Q (skipped P (inl (cooling_down f left)) a c.locked))
      → (Nothing c
          → cooling c.now a ≡ none
          → Q (recorded P (target_of c.opts) c.now (install P (target_of c.opts) c.opts c.locked)))
      → Q (answer c a)
  unfolding ensure installed
  ensure-cases Q c a found busy free = elim (Option-cases (usable P c.bin_path c.before)) [
    | inr (path, first) ↦ rw (ensure, first) (found path (inl first))
    | inl absent ↦
        rw (ensure, absent)
          (elim (Option-cases (usable P (target_of c.opts) c.locked)) [
            | inr (path, second) ↦ rw (ensure, second) (found path (inr (inl second)))
            | inl missing ↦
                rw (ensure, missing)
                  (elim (Option-cases (usable P c.bin_path c.locked)) [
                    | inr (path, third) ↦ rw (ensure, third) (found path (inr (inr third)))
                    | inl gone ↦
                        rw (ensure, gone)
                          (let nothing : Nothing c = (absent, missing, gone) in
                            elim (Option-cases (cooling c.now a)) [
                              | inl now_free ↦ rw (installed, now_free) (free nothing now_free)
                              | inr (f, cools) ↦ rw (installed, cools) (busy f _ nothing cools)
                            ])
                  ])
          ])
  ]

  ensure-Paced : (c : Call) (a : Attempts) → Paced c.now a (answer c a)
  ensure-Paced c a =
      ensure-cases (Paced c.now a) c a (λ path found. inl (refl, refl))
        (λ f left nothing busy. inl (refl, refl))
        (λ nothing free.
          recorded-Paced (target_of c.opts) c.now a (install P (target_of c.opts) c.opts c.locked) (
            subst (Cooling c.now a.last_attempt a.last_error) free
              (cooling_lem c.now a.last_attempt a.last_error)))

  step-Cooled :
      (now : ℕ) (a : Attempts) (e : Ensured S) (later : List (ℕ × Bool))
      → Paced now a e
      → Cooled (last_failed e.attempts) later
      → Cooled (last_failed a) (if e.tried then (now, is_failed e.result) ∷ later else later)
  step-Cooled now a e later (inl (idle, same)) h =
      rw idle (subst (λ b. Cooled (last_failed b) later) same h)
  step-Cooled now a e later (inr (tried, late, next)) h =
      rw tried (late, subst (λ l. Cooled l later) next h)

  -- Whatever calls of Ensure come in and whatever each of them finds on the machine: after an
  -- installation that failed, the next one is attempted ten minutes later at the earliest.
  pub installs-Cooled :
      (calls : List Call) (a : Attempts) → Cooled (last_failed a) (installs calls a)
  installs-Cooled [] a = tt
  installs-Cooled (c ∷ calls) a =
      let e = answer c a in
      step-Cooled c.now a e (installs calls e.attempts) (ensure-Paced c a)
        (installs-Cooled calls e.attempts)

  -- What a result of Ensure says of the call.
  abbrev pub Explained : Call → Attempts → Ensured S → Type 0
  Explained c a e = elim e.result [
    | inr path ↦
        Found c path
        ⊎ (Nothing c
            × (path ≡ target_of c.opts)
            × ((install P path c.opts c.locked).0 ≡ inr tt)
            × (e.attempts.last_error ≡ none))
    | inl error ↦ Nothing c × elim error [
      | cooling_down f left ↦
          (a.last_error ≡ some f)
          × ((last : ℕ) × (a.last_attempt ≡ some last) × (c.now < last + retry_after))
          × (e.attempts ≡ a)
          × (e.after ≡ c.locked)
      | failed f ↦
          ((install P (target_of c.opts) c.opts c.locked).0 ≡ inl f)
          × (e.attempts.last_error ≡ some f)
          × (e.attempts.last_attempt ≡ some c.now)
    ]
  ]

  recorded-Explained :
      (c : Call) (a : Attempts) (r : (Failure ⊎ Unit {0}) × S)
      → Nothing c
      → install P (target_of c.opts) c.opts c.locked ≡ r
      → Explained c a (recorded P (target_of c.opts) c.now r)
  recorded-Explained c a (inl f, s) nothing run = (nothing, (ap (λ x. x.0) run, refl, refl))
  recorded-Explained c a (inr done, s) nothing run = inr (nothing, refl, ap (λ x. x.0) run, refl)

  -- Ensure returns a path that it found usable, or the target once an installation went well, and
  -- then there is no error to remember. It fails only where nothing usable is found: with the
  -- error of the last installation while that is less than ten minutes ago, where nothing is done
  -- at all, or with the error of the installation that it tried, which is remembered with the time.
  pub ensure-Explained : (c : Call) (a : Attempts) → Explained c a (answer c a)
  ensure-Explained c a =
      ensure-cases (Explained c a) c a (λ path found. inl found)
        (λ f left nothing busy.
          let (error, since) =
            subst (Cooling c.now a.last_attempt a.last_error) busy
              (cooling_lem c.now a.last_attempt a.last_error) in
          (nothing, (error, since, refl, refl)))
        (λ nothing free. recorded-Explained c a _ nothing refl)
