-- ===== src/Wg/Policy/Subnets.antt =====
-- wg/policy.go: the FORWARD rules of the subnets that a text names, and of those that it names no more.
use exnode.Base.{
  String, Bool, true, false, ◌||◌, not, ◌≡◌, refl, List, [], ◌∷◌, ◌==◌, string_eq, list_eq,
  contains, keep, is_empty, Bool-cases, inl, inr, beq→eq, arith,
}
use exnode.Text.{split, trim_space}
use exnode.Wg.Rules.{Rule}
use exnode.Wg.Rules.Effect.Copies.{among}
use exnode.Wg.Policy.{
  policy_lines, policy_from_subnets, from_lines, kept_lines, policy_forward_rules,
}

-- The FORWARD rules of a text's subnets.
abbrev pub forwards : String → List Rule
forwards text = policy_forward_rules (policy_from_subnets text)

-- The subnets that only the old text names.
abbrev pub stale : String → String → List String
stale old_text new_text =
    keep (λ sub. not (contains (policy_from_subnets new_text) sub)) (policy_from_subnets old_text)

no_subnets :
    (lines : List String) → is_empty lines ≡ true → policy_forward_rules (from_lines lines) ≡ []
unfolding from_lines policy_forward_rules
no_subnets [] h = refl
no_subnets (ln ∷ lines) h = ground arith

pub no_lines : (text : String) → is_empty (policy_lines text) ≡ true → forwards text ≡ []
unfolding policy_from_subnets
no_lines text h = no_subnets (policy_lines text) h

pub no_text : forwards "" ≡ []
unfolding policy_lines kept_lines split trim_space
no_text = no_lines "" refl

-- The rule is one of the subnet's, in either direction.
abbrev of_subnet : String → Rule → Bool
unfolding policy_forward_rules
of_subnet s x = among (policy_forward_rules (s ∷ [])) x

among-cons :
    (s : String) (subs : List String) (x : Rule)
    → among (policy_forward_rules (s ∷ subs)) x
      ≡ (of_subnet s x || among (policy_forward_rules subs) x)
unfolding policy_forward_rules of_subnet
among-cons s subs x = ground arith

among_listed :
    (subs : List String) (s : String) (x : Rule)
    → contains subs s ≡ true
    → of_subnet s x ≡ true
    → among (policy_forward_rules subs) x ≡ true
unfolding contains
among_listed [] s x here h = ground arith
among_listed (y ∷ subs) s x here h = elim (Bool-cases (y == s)) [
  | inl eq ↦ rw (among-cons y subs x, beq→eq y s eq, h) refl
  | inr other ↦ ground (arith, among-cons y subs x, among_listed subs s x (rw other at here) h)
]

-- A rule of an old subnet is one of the stale or one of the new ones.
pub among_split :
    (old new : List String) (x : Rule)
    → among (policy_forward_rules old) x ≡ true
    → among (policy_forward_rules (keep (λ sub. not (contains new sub)) old)) x ≡ false
    → among (policy_forward_rules new) x ≡ true
unfolding keep
among_split [] new x h k = cc
among_split (s ∷ old) new x h k = elim (Bool-cases (contains new s)) [
  | inl here ↦ ground (arith, among-cons s old x, among_listed new s x here, among_split old new x)
  | inr gone ↦ ground (
    arith,
    among-cons s old x,
    among-cons s (keep (λ sub. not (contains new sub)) old) x,
    among_split old new x,
  )
]

pub among-keep :
    (p : String → Bool) (subs : List String) (x : Rule)
    → among (policy_forward_rules (keep p subs)) x ≡ true
    → among (policy_forward_rules subs) x ≡ true
unfolding keep
among-keep p [] x = λ h. h
among-keep p (s ∷ subs) x = elim (Bool-cases (p s)) [
  | inl kept ↦
      rw kept
        λ h. ground (arith, among-cons s subs x, among-cons s (keep p subs) x, among-keep p subs x)
  | inr dropped ↦ rw dropped λ h. ground (arith, among-cons s subs x, among-keep p subs x)
]
