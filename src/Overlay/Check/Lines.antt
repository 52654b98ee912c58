-- ===== src/Overlay/Check/Lines.antt =====
-- overlay/overlay.go, ruleSpec and the counts of dedupeRules: what they make of the lines of
-- `iptables -S`.
use exnode.Base.{
  ◌+◌, String, Bool, true, ◌&&◌, not, ◌≡◌, refl, ap, List, [], ◌∷◌, ◌++◌, ◌==◌, string_eq, list_eq,
  contains, Bool-cases, inl, inr, &&_true, eq→beq, arith, all, map,
}
use exnode.Text.{join, is_nil}
use exnode.Text.Fields.{all_words, is_word, fields, fields-join, join_beq, fields_words}
use exnode.Wg.Rules.{Rule}
use exnode.Wg.Rules.Effect.Copies.{count}
use exnode.Overlay.Commands.{rule_spec, spec_of}
use exnode.Overlay.Commands.Specs.{rule_spec_line}
use exnode.Overlay.Check.{bump, count_rules}
use exnode.Overlay.Check.Counts.{Counts, lines_of}

-- The line of `iptables -S` for a rule of the chain.
abbrev pub line_of : String → List String → String
line_of chain args = join ("-A" ∷ chain ∷ args) " "

pub lines_of-rules :
    (chain : String) (rules : List (List String)) (a : List String)
    → is_word chain ≡ true
    → all_words rules ≡ true
    → all is_word a ≡ true
    → lines_of (join a " ") (map (line_of chain) rules) ≡ count a rules
unfolding all_words
lines_of-rules chain [] a c h k = refl
lines_of-rules chain (r ∷ rules) a c h k =
    let (here, rest) = &&_true (all is_word r) (all_words rules) h in
    rw
      (
        (rule_spec_line chain r c here).0,
        join_beq r a here k,
        lines_of-rules chain rules a c rest k,
      )
      refl

pub lines_of-append :
    (k : String) (xs ys : List String) → lines_of k (xs ++ ys) ≡ lines_of k xs + lines_of k ys
lines_of-append k [] ys = ground arith
lines_of-append k (x ∷ xs) ys = ground (arith, lines_of-append k xs ys)

-- What an entry's key is: the words of a rule, joined.
abbrev pub joined : String → Bool
joined k = join (fields k) " " == k

abbrev pub all_joined : Counts → Bool
all_joined [] = true
all_joined ((k, n) ∷ counts) = joined k && all_joined counts

joined-join : (ws : List String) → all is_word ws ≡ true → joined (join ws " ") ≡ true
joined-join ws h =
    eq→beq (join (fields (join ws " ")) " ") (join ws " ") (ap (λ f. join f " ") (fields-join ws h))

joined-spec_of : (ws : List String) → all is_word ws ≡ true → joined (spec_of ws) ≡ true
unfolding spec_of join
joined-spec_of [] h = joined-join [] refl
joined-spec_of (a ∷ []) h = joined-join [] refl
joined-spec_of (a ∷ b ∷ []) h = joined-join [] refl
joined-spec_of (a ∷ b ∷ f ∷ rest) h =
    let (_, h') = &&_true (is_word a) (all is_word (b ∷ f ∷ rest)) h in
    let (_, words) = &&_true (is_word b) (all is_word (f ∷ rest)) h' in
    elim (Bool-cases (a == "-A")) [
      | inl rule ↦ rw rule (joined-join (f ∷ rest) words)
      | inr other ↦ rw other (joined-join [] refl)
    ]

joined-rule_spec : (line : String) → joined (rule_spec line) ≡ true
unfolding rule_spec
joined-rule_spec line = joined-spec_of (fields line) (fields_words line)

all_joined-bump :
    (s : String) (counts : Counts)
    → joined s ≡ true
    → all_joined counts ≡ true
    → all_joined (bump s counts) ≡ true
unfolding bump
all_joined-bump s [] h k = rw h refl
all_joined-bump s ((j, n) ∷ counts) h k = ground (arith, all_joined-bump s counts)

pub all_joined-count_rules :
    (keep_set lines : List String) → all_joined (count_rules keep_set lines) ≡ true
unfolding count_rules
all_joined-count_rules keep_set [] = refl
all_joined-count_rules keep_set (line ∷ lines) =
    let ih = all_joined-count_rules keep_set lines in
    let more =
      all_joined-bump (rule_spec line) (count_rules keep_set lines) (joined-rule_spec line) ih in
    elim (Bool-cases (not (is_nil (rule_spec line)) && contains keep_set (rule_spec line))) [
      | inl counted ↦ rw counted more
      | inr passed ↦ rw passed ih
    ]

abbrev pub in_chain : String → List String → Rule
in_chain chain args = record { table = ""; chain = chain; args = args }
