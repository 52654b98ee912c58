-- ===== src/Overlay/Plan.antt =====
-- What Plan and staleRoutes select.
use mathlib.Core.Path.{subst}
use text.Mathlib.TextEquality.{eq_iff}
use exnode.Base.{
  true, sym, ◌↔◌, ◌⊎◌, ◌++◌, ◌==◌, ||_false, &&_true, not-true, beq→eq, eq→beq, String, Bool, false,
  ◌&&◌, ◌||◌, not, ◌≡◌, refl, ap, ◌∙◌, List, [], ◌∷◌, none, some, keep, contains, contains-keep,
  contains-append, string_eq, arith, Bool-cases, inl, inr,
}
use exnode.Text.{is_nil}
use exnode.Overlay.{Config, has_name, names, plan, stale_routes, stale_of, wanted}

nil_of_eq : (s t : String) → s ≡ t → is_nil s ≡ is_nil t
nil_of_eq s t p = ap is_nil p

contains-named :
    (cs : List Config) (name : String)
    → contains (names (keep has_name cs)) name ≡ (not (is_nil name) && contains (names cs) name)
unfolding contains keep
contains-named [] name = ground arith
contains-named (c ∷ cs) name = elim (Bool-cases (is_nil c.name)) [
  | inr has ↦
      rw has (ground (arith, contains-named cs name, nil_of_eq c.name name, eq_iff c.name name))
  | inl lacks ↦
      rw lacks (ground (arith, contains-named cs name, nil_of_eq c.name name, eq_iff c.name name))
]

flip : (a b : Bool) → (not a && b) ≡ (b && not a)
flip a b = ground arith

selects : (a b c : Bool) → (not (not a && c) && (not a && b)) ≡ (not a && b && not c)
selects a b c = ground arith

-- A name is to be deleted exactly if it is not empty, a link of the old set has it and no link of
-- the new set has it; and the links to put in place are exactly the new ones that have a name.
pub plan_splits :
    (prev next : List Config) (name : String)
    → (contains (plan prev next).0 name
        ≡ (not (is_nil name) && contains (names prev) name && not (contains (names next) name)))
      × ((plan prev next).1 ≡ keep has_name next)
unfolding plan
plan_splits prev next name = (
  rw contains-keep (
      rw (contains-named next name, contains-named prev name)
        (selects (is_nil name) (contains (names prev) name) (contains (names next) name))),
  refl,
)

-- The last link of the name in the list.
abbrev pub LastOf : String → List Config → Config → Type 0
LastOf name links d =
    (before : List Config) × (after : List Config) × (links ≡ before ++ d ∷ after)
    × (d.name ≡ name)
    × (contains (names after) name ≡ false)

wanted-cases :
    (links : List Config) (name : String)
    → ((contains (names links) name ≡ false) × (wanted links name ≡ none))
      ⊎ ((d : Config) × LastOf name links d × (wanted links name ≡ some d.routes))
unfolding wanted contains
wanted-cases [] name = inl (refl, refl)
wanted-cases (c ∷ links) name = elim (wanted-cases links name) [
  | inr (d, (before, after, eq, named, gone), found) ↦
      inr (d, (c ∷ before, after, ap (◌∷◌ c) eq, named, gone), rw found refl)
  | inl (gone, none_yet) ↦ elim (Bool-cases (c.name == name)) [
    | inl at ↦ inr (c, ([], links, refl, beq→eq c.name name at, gone), rw (none_yet, at) refl)
    | inr away ↦ inl (rw (away, gone) refl, rw (none_yet, away) refl)
  ]
]

wanted-absent :
    (links : List Config) (name : String)
    → contains (names links) name ≡ false
    → wanted links name ≡ none
unfolding wanted contains
wanted-absent [] name h = refl
wanted-absent (c ∷ links) name h =
    let (away, rest) = ||_false (c.name == name) (contains (names links) name) h in
    rw (wanted-absent links name rest, away) refl

wanted-last :
    (before after : List Config) (d : Config) (name : String)
    → d.name ≡ name
    → contains (names after) name ≡ false
    → wanted (before ++ d ∷ after) name ≡ some d.routes
unfolding wanted
wanted-last [] after d name named gone =
    rw (wanted-absent after name gone, eq→beq d.name name named) refl
wanted-last (c ∷ before) after d name named gone =
    rw (wanted-last before after d name named gone) refl

-- A link of the old set has the route, and the last link of its name in the new set, of which there is
-- one, has not.
abbrev pub Dropped : List Config → List Config → String → Type 0
Dropped prev next r =
    (front : List Config) × (c : Config) × (back : List Config) × (d : Config) × (prev
      ≡ front ++ c ∷ back)
    × LastOf c.name next d
    × (contains c.routes r ≡ true)
    × (contains d.routes r ≡ false)

stale_of-lacks :
    (old new : List String) (r : String)
    → contains (stale_of old (some new)) r ≡ (contains old r && not (contains new r))
stale_of-lacks old new r = rw contains-keep (flip (contains new r) (contains old r))

either : (a b : Bool) → (a || b) ≡ true → (a ≡ true) ⊎ (b ≡ true)
either true b h = inl refl
either false b h = inr h

stale-Dropped :
    (prev next : List Config) (r : String)
    → contains (stale_routes prev next) r ≡ true
    → Dropped prev next r
unfolding stale_routes contains
stale-Dropped [] next r h = cc
stale-Dropped (c ∷ prev) next r h =
    elim (either (contains (stale_of c.routes (wanted next c.name)) r)
      (contains (stale_routes prev next) r)
      (sym (contains-append (stale_of c.routes (wanted next c.name)) (stale_routes prev next) r)
        ∙ h)) [
          | inr later ↦
              let (front, c', back, d, eq, last, has, lacks) = stale-Dropped prev next r later in
              (c ∷ front, c', back, d, ap (◌∷◌ c) eq, last, has, lacks)
          | inl here ↦ elim (wanted-cases next c.name) [
            | inl (gone, none_wanted) ↦ let lost : false ≡ true = rw none_wanted at here in cc
            | inr (d, last, found) ↦
                let (has, lacks) = &&_true (contains c.routes r) (not (contains d.routes r)) (
                  sym (stale_of-lacks c.routes d.routes r)
                  ∙ ap (λ w. contains (stale_of c.routes w) r) (sym found)
                  ∙ here) in
                ([], c, prev, d, refl, last, has, not-true (contains d.routes r) lacks)
          ]
        ]

Dropped-stale :
    (front back next : List Config) (c d : Config) (r : String)
    → wanted next c.name ≡ some d.routes
    → contains c.routes r ≡ true
    → contains d.routes r ≡ false
    → contains (stale_routes (front ++ c ∷ back) next) r ≡ true
unfolding stale_routes contains
Dropped-stale [] back next c d r found has lacks =
    contains-append (stale_of c.routes (wanted next c.name)) (stale_routes back next) r
    ∙ ground (
      arith,
      ap (λ w. contains (stale_of c.routes w) r) found,
      stale_of-lacks c.routes d.routes r,
      has,
      lacks,
    )
Dropped-stale (f ∷ front) back next c d r found has lacks =
    contains-append (stale_of f.routes (wanted next f.name)) (stale_routes (front ++ c ∷ back) next)
      r
    ∙ ground (arith, Dropped-stale front back next c d r found has lacks)

-- staleRoutes lists a route for deletion exactly if a link of the old set, whose name a link of the
-- new set has, had it, and the last link of that name in the new set has it not.
pub stale_routes_exact :
    (prev next : List Config) (r : String)
    → (contains (stale_routes prev next) r ≡ true) ↔ Dropped prev next r
stale_routes_exact prev next r = (
  stale-Dropped prev next r,
  λ (front, c, back, d, eq, (before, after, split, named, gone), has, lacks).
      subst (λ ls. contains (stale_routes ls next) r ≡ true) (sym eq)
        (Dropped-stale front back next c d r
          (ap (λ ls. wanted ls c.name) split ∙ wanted-last before after d c.name named gone) has
          lacks),
)
