-- ===== src/Wg/Rules/Effect/Settled.antt =====
-- Configurations that follow one another: of the rules that the current one asks for there is one
-- copy, whatever came before it.
use exnode.Base.{true, ◌≡◌, List, [], ◌∷◌, All, if◌then◌else◌}
use exnode.Wg.Rules.{Rule}
use exnode.Wg.Rules.Effect.{RuleMap}
use exnode.Wg.Rules.Effect.Copies.{copies, among}

-- None of the rules is there.
abbrev pub Unused : RuleMap → List Rule → Type 0
Unused base rs = (x : Rule) → among rs x ≡ true → copies x base ≡ 0

-- Of the rules that are asked for there is one copy, and of every other rule as many as at first.
abbrev pub Settled : RuleMap → List Rule → RuleMap → Type 0
Settled base rs m = (x : Rule) → copies x m ≡ (if among rs x then 1 else copies x base)

module _ {X : Type 0} where
  abbrev pub latest : X → List X → X
  latest current [] = current
  latest current (next ∷ later) = latest next later

  -- A machine brought from each configuration to the next.
  abbrev pub follow : {S : Type 0} → (X → X → S → S) → X → List X → S → S
  follow step current [] s = s
  follow step current (next ∷ later) s = follow step next later (step current next s)

  -- A step that settles the machine for its new configuration, where both are fit, settles it over
  -- any sequence of fit ones.
  module _ {S : Type 0} (rules : S → RuleMap) (asked : X → List Rule) (Fit : X → Type 0)
      (step : X → X → S → S) (base : RuleMap)
      (settles : (prev next : X) (s : S)
        → Fit prev
        → Fit next
        → Settled base (asked prev) (rules s)
        → Settled base (asked next) (rules (step prev next s))) where
    pub follow-Settled :
        (current : X) (later : List X) (s : S)
        → Fit current
        → All Fit later
        → Settled base (asked current) (rules s)
        → Settled base (asked (latest current later)) (rules (follow step current later s))
    follow-Settled current [] s fit all settled = settled
    follow-Settled current (next ∷ later) s fit (fit', all) settled =
        follow-Settled next later (step current next s) fit' all
          (settles current next s fit fit' settled)
