-- ===== src/Overlay/Commands/Specs.antt =====
-- ruleSpec reads the rules that `iptables -S` prints.
use exnode.Base.{String, true, ◌≡◌, refl, ap, ◌∙◌, List, [], ◌∷◌, all}
use exnode.Text.{join, is_space}
use exnode.Text.Fields.{fields, is_word, fields-join}
use exnode.Overlay.Commands.{rule_spec, spec_of}

spec_of_rule : (chain : String) (ws : List String) → spec_of ("-A" ∷ chain ∷ ws) ≡ join ws " "
unfolding spec_of join
spec_of_rule chain [] = refl
spec_of_rule chain (w ∷ ws) = refl

-- For a line `-A CHAIN RULE` of words, ruleSpec gives the rule without its chain, and splitting that
-- text again, as dedupeRules does for its deletion, gives back the words of the rule.
pub rule_spec_line :
    (chain : String) (ws : List String)
    → is_word chain ≡ true
    → all is_word ws ≡ true
    → (rule_spec (join ("-A" ∷ chain ∷ ws) " ") ≡ join ws " ")
      × (fields (rule_spec (join ("-A" ∷ chain ∷ ws) " ")) ≡ ws)
unfolding rule_spec is_space
rule_spec_line chain ws h k =
    let line = fields-join ("-A" ∷ chain ∷ ws) (rw (h, k)) in
    let spec = ap spec_of line ∙ spec_of_rule chain ws in (spec, ap fields spec ∙ fields-join ws k)
