-- ===== src/Base/Action.antt =====
-- Steps that change a state and may fail, for `do`: the state comes back from a failure too, since
-- what was done stays done.
use mathlib.Core.Path.{◌≡◌, refl}
use mathlib.Core.Bool.{Bool, true, false}
use mathlib.Core.Logic.{◌⊎◌, inl, inr}
use mathlib.Core.Option.{Option, none, some}
use exnode.Base.Tests.{Bool-cases, Option-cases}

abbrev pub Action : Type 0 → Type 0 → Type 0 → Type 0
Action S E A = S → (E ⊎ A) × S

module _ {S E : Type 0} where
  abbrev pub pure : {A : Type 0} → A → Action S E A
  pure a s = (inr a, s)

  abbrev pub raise : {A : Type 0} → E → Action S E A
  raise e s = (inl e, s)

  abbrev pub gets : {A : Type 0} → (S → A) → Action S E A
  gets f s = (inr (f s), s)

  abbrev pub raise_if : Bool → E → Action S E (Unit {0})
  raise_if true e s = (inl e, s)
  raise_if false e s = (inr tt, s)

  abbrev pub or_raise : {A : Type 0} → Option A → E → Action S E A
  or_raise none e s = (inl e, s)
  or_raise (some a) e s = (inr a, s)

  -- A call of the machine that may fail, with the error that stands for its failure.
  abbrev pub call : {A : Type 0} → (S → Option A × S) → E → Action S E A
  call m e s = let (r, s') = m s in elim r [ none ↦ (inl e, s') | some a ↦ (inr a, s') ]

  abbrev pub try_call : (S → Bool × S) → E → Action S E (Unit {0})
  try_call m e s = let (r, s') = m s in elim r [ true ↦ (inr tt, s') | false ↦ (inl e, s') ]

  infixl 5 ◌>>=◌ ◌>>◌
  abbrev pub ◌>>=◌ : {A B : Type 0} → Action S E A → (A → Action S E B) → Action S E B
  ◌>>=◌ m f s = let (r, s') = m s in elim r [ inl e ↦ (inl e, s') | inr a ↦ f a s' ]

  abbrev pub ◌>>◌ : {B : Type 0} → Action S E (Unit {0}) → Action S E B → Action S E B
  m >> k = m >>= λ _. k

  -- How a step ends: what holds of an error and of a result, with the state left.
  abbrev pub Ends : {A : Type 0} → (E → S → Type 0) → (A → S → Type 0) → (E ⊎ A) × S → Type 0
  Ends Failed Done (inl e, s) = Failed e s
  Ends Failed Done (inr a, s) = Done a s

  module _ {A B : Type 0} (Failed : E → S → Type 0) (Middle : A → S → Type 0)
      (Done : B → S → Type 0) where
    ends :
        (f : A → Action S E B) (r : (E ⊎ A) × S)
        → Ends Failed Middle r
        → ((a : A) (s : S) → Middle a s → Ends Failed Done (f a s))
        → Ends Failed Done (elim r.0 [ inl e ↦ (inl e, r.1) | inr a ↦ f a r.1 ])
    ends f (inl e, s) h k = h
    ends f (inr a, s) h k = k a s h

    -- The rule of a sequence: the second step may start from what the first one establishes.
    pub >>=-Ends :
        (m : Action S E A) (f : A → Action S E B) (s : S)
        → Ends Failed Middle (m s)
        → ((a : A) (s' : S) → Middle a s' → Ends Failed Done (f a s'))
        → Ends Failed Done ((m >>= f) s)
    >>=-Ends m f s = ends f (m s)

  pub weaker-Ends :
      {A : Type 0} (Failed Failed' : E → S → Type 0) (Done Done' : A → S → Type 0) (r : (E ⊎ A) × S)
      → Ends Failed Done r
      → ((e : E) (s : S) → Failed e s → Failed' e s)
      → ((a : A) (s : S) → Done a s → Done' a s)
      → Ends Failed' Done' r
  weaker-Ends Failed Failed' Done Done' (inl e, s) h f d = f e s h
  weaker-Ends Failed Failed' Done Done' (inr a, s) h f d = d a s h

  module _ {A : Type 0} (Failed : E → S → Type 0) (Done : A → S → Type 0) where
    pub call-Ends :
        (m : S → Option A × S) (e : E) (s : S)
        → ((m s).0 ≡ none → Failed e (m s).1)
        → ((a : A) → (m s).0 ≡ some a → Done a (m s).1)
        → Ends Failed Done (call m e s)
    call-Ends m e s h k = elim (Option-cases (m s).0) [
      | inl missing ↦ rw (call, missing) (h missing)
      | inr (a, found) ↦ rw (call, found) (k a found)
    ]

  module _ (Failed : E → S → Type 0) (Done : Unit {0} → S → Type 0) where
    pub try_call-Ends :
        (m : S → Bool × S) (e : E) (s : S)
        → ((m s).0 ≡ false → Failed e (m s).1)
        → ((m s).0 ≡ true → Done tt (m s).1)
        → Ends Failed Done (try_call m e s)
    try_call-Ends m e s h k = elim (Bool-cases (m s).0) [
      | inl good ↦ rw (try_call, good) (k good)
      | inr bad ↦ rw (try_call, bad) (h bad)
    ]

    pub raise_if-Ends :
        (b : Bool) (e : E) (s : S)
        → (b ≡ true → Failed e s)
        → (b ≡ false → Done tt s)
        → Ends Failed Done (raise_if b e s)
    raise_if-Ends true e s h k = h refl
    raise_if-Ends false e s h k = k refl

  module _ {B : Type 0} where
    -- A test leaves what the rest leaves of the same state.
    pub raise_if-Same :
        (b : Bool) (e : E) (m : Action S E B) (s : S) → (m s).1 ≡ s → ((raise_if b e >> m) s).1 ≡ s
    raise_if-Same true e m s h = refl
    raise_if-Same false e m s h = h

    pub or_raise-Same :
        {A : Type 0} (o : Option A) (e : E) (f : A → Action S E B) (s : S)
        → ((a : A) → (f a s).1 ≡ s)
        → ((or_raise o e >>= f) s).1 ≡ s
    or_raise-Same none e f s h = refl
    or_raise-Same (some a) e f s h = h a

    after_call :
        {A : Type 0} (o : Option A) (e : E) (f : A → Action S E B) (s : S)
        → ((a : A) → (f a s).1 ≡ s)
        → (let (r, s') : (E ⊎ A) × S = elim o [ none ↦ (inl e, s) | some a ↦ (inr a, s) ] in
            elim r as (λ _. (E ⊎ B) × S) [ inl e ↦ (inl e, s') | inr a ↦ f a s' ]).1
          ≡ s
    after_call none e f s h = refl
    after_call (some a) e f s h = h a

    -- A call whose result is only looked at leaves what the call leaves.
    pub call_looked_at :
        {A : Type 0} (m : S → Option A × S) (e : E) (f : A → Action S E B) (s : S)
        → ((a : A) (s' : S) → (f a s').1 ≡ s')
        → ((call m e >>= f) s).1 ≡ (m s).1
    call_looked_at m e f s h = after_call (m s).0 e f (m s).1 (λ a. h a (m s).1)

  pub or_raise_same : {A : Type 0} (o : Option A) (e : E) (s : S) → (or_raise o e s).1 ≡ s
  or_raise_same none e s = refl
  or_raise_same (some a) e s = refl
