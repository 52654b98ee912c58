-- ===== src/Overlay/Check/Counts.antt =====
-- overlay/overlay.go, dedupeRules: the counts of the rules that are to be single.
use exnode.Base.{
  ℕ, suc, ◌+◌, ◌-◌, String, true, false, ◌&&◌, ◌||◌, not, ◌≡◌, refl, ap, ◌∙◌, List, [], ◌∷◌,
  if◌then◌else◌, ◌==◌, string_eq, list_eq, contains, Bool-cases, inl, inr, &&_true, beq→eq,
  beq_true, arith, no_dups,
}
use exnode.Text.{is_nil}
use exnode.Overlay.Commands.{rule_spec}
use exnode.Overlay.Check.{bump, count_rules}

abbrev pub Counts : Type 0
Counts = List (String × ℕ)

abbrev keys : Counts → List String
keys [] = []
keys ((k, n) ∷ counts) = k ∷ keys counts

-- The count of a key, 0 if there is none.
abbrev tally : String → Counts → ℕ
tally spec [] = 0
tally spec ((k, n) ∷ counts) = if k == spec then n else tally spec counts

-- What the loop takes away of a key, over all entries.
abbrev pub surplus : String → Counts → ℕ
surplus spec [] = 0
surplus spec ((k, n) ∷ counts) =
    if k == spec then (n - 1) + surplus spec counts else surplus spec counts

tally-bump :
    (s k : String) (counts : Counts)
    → tally k (bump s counts) ≡ (if s == k then tally k counts + 1 else tally k counts)
unfolding bump
tally-bump s k [] = elim (Bool-cases (s == k)) [ inl eq ↦ rw eq refl | inr differ ↦ rw differ refl ]
tally-bump s k ((j, n) ∷ counts) = elim (Bool-cases (j == s)) [
  | inl at ↦ let same = ap (λ t. t == k) (beq→eq j s at) in rw at (ground (arith, same))
  | inr away ↦
      let apart = beq_true j s away in
      rw away (
        ground
          (arith, tally-bump s k counts, string_eq.equals_iff j k, string_eq.equals_iff s k, apart))
]

contains-bump :
    (s k : String) (counts : Counts)
    → contains (keys (bump s counts)) k ≡ (s == k || contains (keys counts) k)
unfolding bump contains
contains-bump s k [] = ground arith
contains-bump s k ((j, n) ∷ counts) = elim (Bool-cases (j == s)) [
  | inl at ↦ let same = ap (λ t. t == k) (beq→eq j s at) in rw at (ground (arith, same))
  | inr away ↦ rw away (ground (arith, contains-bump s k counts))
]

no_dups-bump :
    (s : String) (counts : Counts)
    → no_dups (keys counts) ≡ true
    → no_dups (keys (bump s counts)) ≡ true
unfolding bump contains
no_dups-bump s [] h = refl
no_dups-bump s ((j, n) ∷ counts) h = elim (Bool-cases (j == s)) [
  | inl at ↦ rw at h
  | inr away ↦ rw away (
      ground (
        arith,
        contains-bump s j counts,
        no_dups-bump s counts,
        string_eq.equals_iff s j,
        string_eq.equals_iff j s,
      ))
]

surplus-absent :
    (k : String) (counts : Counts) → contains (keys counts) k ≡ false → surplus k counts ≡ 0
unfolding contains
surplus-absent k [] h = refl
surplus-absent k ((j, n) ∷ counts) h = ground (arith, surplus-absent k counts)

-- Of a key that stands once in the counts, all copies but one are taken away.
pub surplus-tally :
    (k : String) (counts : Counts)
    → no_dups (keys counts) ≡ true
    → surplus k counts ≡ tally k counts - 1
unfolding contains
surplus-tally k [] h = refl
surplus-tally k ((j, n) ∷ counts) h = elim (Bool-cases (j == k)) [
  | inl at ↦
      let (new, rest) = &&_true (not (contains (keys counts) j)) (no_dups (keys counts)) h in
      let key = ap (contains (keys counts)) (beq→eq j k at) in
      ground (arith, surplus-absent k counts, key, new, at)
  | inr away ↦ ground (arith, surplus-tally k counts)
]

pub no_dups-count_rules :
    (keep_set lines : List String) → no_dups (keys (count_rules keep_set lines)) ≡ true
unfolding count_rules
no_dups-count_rules keep_set [] = refl
no_dups-count_rules keep_set (line ∷ lines) =
    elim (Bool-cases (not (is_nil (rule_spec line)) && contains keep_set (rule_spec line))) [
      | inl counted ↦ rw counted (
          no_dups-bump (rule_spec line) (count_rules keep_set lines)
            (no_dups-count_rules keep_set lines))
      | inr passed ↦ rw passed (no_dups-count_rules keep_set lines)
    ]

-- How many lines document the rule.
abbrev pub lines_of : String → List String → ℕ
lines_of k [] = 0
lines_of k (line ∷ lines) = if rule_spec line == k then suc (lines_of k lines) else lines_of k lines

tally_one :
    (spec k : String) (keep_set : List String) (counts : Counts)
    → is_nil k ≡ false
    → tally k (if not (is_nil spec) && contains keep_set spec then bump spec counts else counts)
      ≡ (if spec == k && contains keep_set k then tally k counts + 1 else tally k counts)
tally_one spec k keep_set counts solid = elim (Bool-cases (spec == k)) [
  | inl at ↦
      let same = beq→eq spec k at in
      let full = ap is_nil same in
      let kept = ap (contains keep_set) same in
      ground (arith, full, kept, tally-bump spec k counts, at, solid)
  | inr away ↦ ground (arith, tally-bump spec k counts, away)
]

pub tally-count_rules :
    (keep_set lines : List String) (k : String)
    → is_nil k ≡ false
    → tally k (count_rules keep_set lines) ≡ (if contains keep_set k then lines_of k lines else 0)
unfolding count_rules
tally-count_rules keep_set [] k solid = ground arith
tally-count_rules keep_set (line ∷ lines) k solid =
    tally_one (rule_spec line) k keep_set (count_rules keep_set lines) solid
    ∙ ground (arith, tally-count_rules keep_set lines k solid)
