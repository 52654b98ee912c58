-- ===== src/Wg/Policy/Verbs.antt =====
-- The command that takes a policy line away is the one that puts it in place, but for its verb.
use exnode.Base.{
  String, Bool, true, false, ◌||◌, ◌≡◌, refl, ap, List, [], ◌∷◌, Bool-cases, inl, inr,
  if◌then◌else◌, ◌==◌, string_eq,
}
use exnode.Wg.Policy.{swap_verb}

abbrev is_verb : String → Bool
is_verb f = f == "add" || f == "del"

-- The fields of a line that has a verb: those in front, the verb, and those behind.
abbrev verbless : List String → Bool
verbless [] = true
verbless (f ∷ rest) = if is_verb f then false else verbless rest

-- A verb forced on a line replaces whatever verb was forced before: the command that deletes a line
-- is found from the one that adds it, and back, for each of the two verbs.
swap_verb-swap_verb :
    (f : List String) (v w : String)
    → is_verb w ≡ true
    → swap_verb v (swap_verb w f) ≡ swap_verb v f
unfolding swap_verb
swap_verb-swap_verb [] v w h = refl
swap_verb-swap_verb (f ∷ rest) v w h = elim (Bool-cases (is_verb f)) [
  | inl verb ↦ rw verb (rw h)
  | inr other ↦ rw other (rw other (ap (◌∷◌ f) (swap_verb-swap_verb rest v w h)))
]
