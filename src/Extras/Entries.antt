-- ===== src/Extras/Entries.antt =====
-- extras/extras.go, applyNAT: the custom NAT entries that it leaves on the machine.
use exnode.Base.{◌++◌, Option, contains, String, true, ◌≡◌, List, [], ◌∷◌, string_eq, list_eq}
use exnode.Host.{Host}
use exnode.Wg.Rules.Effect.{RuleMap}
use exnode.Wg.Rules.Effect.Settled.{Unused, Settled}
use exnode.Extras.Spellings.{Spellings}
use exnode.Extras.Asked.{asked, wanted}

-- All argument lists that the lines of a history ask for.
abbrev pub ever : List (List String) → List (List String)
ever [] = []
ever (lines ∷ history) = wanted lines ++ ever history

module _ (read : List String → Option (List String)) (every : List (List String))
    (base : RuleMap) where
  -- The lines ask for argument lists of the history only, and none of their rules was there at first.
  abbrev Fit : List String → Type 0
  Fit lines =
      Unused base (asked read lines)
      × ((a : List String) → contains (wanted lines) a ≡ true → contains every a ≡ true)
