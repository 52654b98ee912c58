-- ===== src/Engine/Managed.antt =====
-- The interfaces that the kernel engine removes.
use text.Mathlib.TextEquality.{eq_iff}
use exnode.Base.{
  contains_of_eq, String, ◌&&◌, not, ◌≡◌, refl, ap, ◌∙◌, List, [], ◌∷◌, contains, string_eq,
  Bool-cases, inl, inr, arith,
}
use exnode.Wg.{Interface}
use exnode.Engine.{Managed, interface_names, entries, stale_in, stale}

entries_names :
    (managed : Managed) (name : String)
    → contains (interface_names (entries managed)) name ≡ contains (interface_names managed) name
unfolding entries contains
entries_names [] name = refl
entries_names (i ∷ managed) name = elim (Bool-cases (contains (interface_names managed) i.name)) [
  | inl later ↦ rw later (
      ground (
        arith,
        entries_names managed name,
        later,
        contains_of_eq (interface_names managed) i.name name,
        eq_iff i.name name,
      ))
  | inr last ↦ rw last (ground (arith, entries_names managed name))
]

stale_names :
    (desired : List String) (managed : List Interface) (name : String)
    → contains (interface_names (stale_in desired managed)) name
      ≡ (contains (interface_names managed) name && not (contains desired name))
unfolding stale_in contains
stale_names desired [] name = refl
stale_names desired (i ∷ managed) name = elim (Bool-cases (contains desired i.name)) [
  | inl kept ↦ rw kept (
      ground (
        arith,
        stale_names desired managed name,
        kept,
        contains_of_eq desired i.name name,
        eq_iff i.name name,
      ))
  | inr gone ↦ rw gone (
      ground (
        arith,
        stale_names desired managed name,
        gone,
        contains_of_eq desired i.name name,
        eq_iff i.name name,
      ))
]

pub stale_removed :
    (managed : Managed) (desired : List Interface) (name : String)
    → contains (interface_names (stale managed desired)) name
      ≡ (contains (interface_names managed) name && not (contains (interface_names desired) name))
unfolding stale
stale_removed managed desired name =
    stale_names (interface_names desired) (entries managed) name
    ∙ ap (λ b. b && not (contains (interface_names desired) name)) (entries_names managed name)
