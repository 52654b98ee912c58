-- ===== src/Extras/Parsed.antt =====
-- What the parsers of the custom lines accept.
use mathlib.Core.Path.{subst}
use exnode.Base.{
  beq_true, ◌⊎◌, ◌≢◌, some_eq, ap, ◌≢◌, String, Bool, true, false, ◌&&◌, ◌||◌, not, ◌≡◌, refl, List,
  [], ◌∷◌, Option, none, some, inl, inr, if◌then◌else◌, ◌==◌, string_eq, nat_eq, list_eq, arith,
  All, all, contains, Bool-cases, &&_true,
}
use exnode.Text.Fields.{fields, is_word, fields_words}
use exnode.Extras.{
  nat_words, nat_argv, parse_nat_line, allowed, good_target, nat_prefixes, strip_prefix, rule_words,
  rule_argv, parse_rule_line, rule_prefixes, if_lookup, starts_from,
}

-- Options with their values, written out.
abbrev pub flat : List (String × String) → List String
flat [] = []
flat ((k, v) ∷ ps) = k ∷ v ∷ flat ps

-- An option of a NAT line: one of the list, and a jump goes to MASQUERADE or SNAT.
abbrev pub NatOption : String × String → Type 0
NatOption (k, v) = (contains allowed k ≡ true) × ((k ≢ "-j") ⊎ (good_target v ≡ true))

implied : (a b : Bool) → (not a || b) ≡ true → a ≡ true → b ≡ true
implied a b h p = ground arith

jump_checked :
    (k v : String) → (not (k == "-j") || good_target v) ≡ true → (k ≢ "-j") ⊎ (good_target v ≡ true)
jump_checked k v h = elim (Bool-cases (k == "-j")) [
  | inl jump ↦ inr (implied (k == "-j") (good_target v) h jump)
  | inr other ↦ inl (beq_true k "-j" other)
]

nat_options :
    (f : List String)
    → nat_words f ≡ true
    → (ps : List (String × String)) × (f ≡ flat ps) × All NatOption ps
unfolding nat_words
nat_options [] h = ([], refl, tt)
nat_options (k ∷ []) h = cc
nat_options (k ∷ v ∷ rest) h =
    let (first, others) =
      &&_true (contains allowed k && (not (k == "-j") || good_target v)) (nat_words rest) h in
    let (known, jump) = &&_true (contains allowed k) (not (k == "-j") || good_target v) first in
    let (ps, eq, good) = nat_options rest others in
    ((k, v) ∷ ps, ap (λ r. k ∷ v ∷ r) eq, ((known, jump_checked k v jump), good))

nat_argv-some :
    (f args : List String)
    → nat_argv f ≡ some args
    → (f ≡ args) × (nat_words args ≡ true) × (args ≢ [])
unfolding nat_argv
nat_argv-some [] args = λ h. cc
nat_argv-some (w ∷ rest) args = elim (Bool-cases (nat_words (w ∷ rest))) [
  | inl good ↦ rw good (λ h. (cc, subst (λ f. nat_words f ≡ true) (some_eq h) good, λ e. cc (h, e)))
  | inr bad ↦ rw bad (λ h. cc)
]

-- What ParseNATLine accepts is a row of options with one value each, at least one: every option is
-- one of the twelve of the list, a `-j` has MASQUERADE or SNAT, in any case of letters, for its
-- value, and no word is empty or holds white space.
pub parse_nat_line_safe :
    (line : String) {args : List String}
    → parse_nat_line line ≡ some args
    → (ps : List (String × String)) × (args ≡ flat ps)
      × All NatOption ps
      × (all is_word args ≡ true)
      × (args ≢ [])
unfolding parse_nat_line
parse_nat_line_safe line {args = args} h =
    let (same, good, full) = nat_argv-some (fields (strip_prefix line nat_prefixes)) args h in
    let (ps, eq, safe) = nat_options args good in
    (
      ps,
      eq,
      safe,
      subst (λ f. all is_word f ≡ true) same (fields_words (strip_prefix line nat_prefixes)),
      full,
    )

-- An option of an ip rule.
abbrev pub RuleOption : String × String → Type 0
RuleOption (k, v) = (k == "from" || k == "to" || k == "lookup" || k == "priority") ≡ true

abbrev pub keys : List (String × String) → List String
keys [] = []
keys ((k, v) ∷ ps) = k ∷ keys ps

tested :
    {A : Type 0} (t : Bool) {later : Option A} {b : A}
    → (if t then later else none) ≡ some b
    → (t ≡ true) × (later ≡ some b)
tested true h = (refl, h)
tested false h = cc

rule_options :
    (f : List String) (found : Bool) {has_lookup : Bool}
    → rule_words f found ≡ some has_lookup
    → (ps : List (String × String)) × (f ≡ flat ps)
      × All RuleOption ps
      × (has_lookup ≡ (found || contains (keys ps) "lookup"))
unfolding rule_words contains
rule_options [] found {has_lookup = b} h =
    let same = some_eq h in ([], refl, tt, ground (arith, same))
rule_options (k ∷ []) found h = cc
rule_options (k ∷ v ∷ rest) found {has_lookup = b} h =
    let (key, later) = tested (k == "from" || k == "to" || k == "lookup" || k == "priority") h in
    let (ps, eq, good, has) = rule_options rest (found || k == "lookup") later in
    ((k, v) ∷ ps, ap (λ r. k ∷ v ∷ r) eq, (key, good), ground (arith, has))

looked :
    (f : List String) (r : Option Bool) {args : List String}
    → if_lookup f r ≡ some args
    → (f ≡ args) × (r ≡ some true)
looked f none = λ h. cc
looked f (some true) = λ h. (cc, refl)
looked f (some false) = λ h. cc

rule_argv-some :
    (f : List String) {args : List String}
    → rule_argv f ≡ some args
    → (f ≡ args) × (starts_from args ≡ true) × (rule_words args false ≡ some true)
unfolding rule_argv
rule_argv-some f h =
    let (starts, later) = tested (starts_from f) h in
    let (same, found) = looked f (rule_words f false) later in
    (
      same,
      subst (λ args. starts_from args ≡ true) same starts,
      subst (λ args. rule_words args false ≡ some true) same found,
    )

-- What ParseRuleLine accepts is a row of options with one value each: the first one is `from`,
-- every one is `from`, `to`, `lookup` or `priority`, there is a `lookup` among them, and no word is
-- empty or holds white space.
pub parse_rule_line_safe :
    (line : String) {args : List String}
    → parse_rule_line line ≡ some args
    → (ps : List (String × String)) × (args ≡ flat ps)
      × All RuleOption ps
      × (starts_from args ≡ true)
      × (contains (keys ps) "lookup" ≡ true)
      × (all is_word args ≡ true)
unfolding parse_rule_line
parse_rule_line_safe line {args = args} h =
    let (same, starts, found) = rule_argv-some (fields (strip_prefix line rule_prefixes)) h in
    let (ps, eq, good, has) = rule_options args false found in
    (
      ps,
      eq,
      good,
      starts,
      cc,
      subst (λ f. all is_word f ≡ true) same (fields_words (strip_prefix line rule_prefixes)),
    )
