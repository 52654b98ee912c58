-- ===== src/Extras/Asked.antt =====
-- extras/extras.go, applyNAT: the NAT entries that lines ask for, and those that go when they change.
use exnode.Base.{
  ◌||◌, Option, none, some, false, eq→beq, beq_refl, String, Bool, true, ◌&&◌, not, ◌≡◌, refl, ap,
  ◌∙◌, List, [], ◌∷◌, ◌==◌, string_eq, list_eq, contains, Bool-cases, inl, inr, &&_true, beq→eq,
  arith, all, Option-cases, list_beq_iff,
}
use exnode.Text.{join}
use exnode.Text.Fields.{all_words, join_beq, is_word}
use exnode.Wg.Rules.{Rule}
use exnode.Wg.Rules.Effect.Copies.{among}
use exnode.Extras.{parse_nat_line, normalize_lines}
use exnode.Extras.Parsed.{parse_nat_line_safe}
use exnode.Extras.Spellings.{spells, OneSpelling}
use exnode.Extras.Apply.{accepted, desired, undesired}

-- The argument lists of the entries that the lines ask for.
abbrev pub wanted : List String → List (List String)
wanted lines = accepted parse_nat_line (normalize_lines lines)

abbrev pub entry : List String → Rule
entry args = record { table = "nat"; chain = "POSTROUTING"; args = args }

-- The argument lists of the old entries that the new lines do not ask for.
abbrev pub obsolete : List String → List String → List (List String)
obsolete prev next = undesired (desired (wanted next)) (wanted prev)

accepted_words : (lines : List String) → all_words (accepted parse_nat_line lines) ≡ true
unfolding all_words accepted
accepted_words [] = refl
accepted_words (line ∷ lines) = elim (Option-cases (parse_nat_line line)) [
  | inl bad ↦ rw (bad, accepted) (accepted_words lines)
  | inr (args, good) ↦
      let (_, _, _, words, _) = parse_nat_line_safe line good in
      rw (good, accepted) (rw words (accepted_words lines))
]

contains-desired :
    (wants : List (List String)) (a : List String)
    → all_words wants ≡ true
    → all is_word a ≡ true
    → contains (desired wants) (join a " ") ≡ contains wants a
unfolding all_words contains desired
contains-desired [] a h k = refl
contains-desired (w ∷ wants) a h k =
    let (here, rest) = &&_true (all is_word w) (all_words wants) h in
    rw (join_beq w a here k, contains-desired wants a rest k) refl

abbrev in_nat : Rule → Bool
in_nat x = "nat" == x.table && "POSTROUTING" == x.chain

module _ (read : List String → Option (List String)) where
  -- The rules that the argument lists stand for, but for those that iptables refuses.
  unfoldable pub meant : List (List String) → List Rule
  meant [] = []
  meant (a ∷ wants) =
      let rest = meant wants in elim (read a) [ none ↦ rest | some r ↦ entry r ∷ rest ]

  -- One of the argument lists stands for the rule.
  abbrev named : List (List String) → List String → Bool
  named [] b = false
  named (a ∷ wants) b = spells read a b || named wants b

  among-meant :
      (wants : List (List String)) (x : Rule)
      → among (meant wants) x ≡ (in_nat x && named wants x.args)
  unfolding meant
  among-meant [] x = ground arith
  among-meant (w ∷ wants) x = elim (Option-cases (read w)) [
    | inl refused ↦
        let nothing =
          ap (λ (o : Option (List String)). elim o [ none ↦ false | some r ↦ r == x.args ])
            refused in
        rw (refused, meant) (among-meant wants x ∙ ground (arith, nothing))
    | inr (r, good) ↦
        rw (good, meant)
          (ground (arith, among-meant wants x, list_beq_iff r x.args, list_beq_iff x.args r))
  ]

  named_here :
      (wants : List (List String)) (a b : List String)
      → contains wants a ≡ true
      → spells read a b ≡ true
      → named wants b ≡ true
  unfolding contains
  named_here [] a b here h = ground arith
  named_here (w ∷ wants) a b here h = elim (Bool-cases (w == a)) [
    | inl eq ↦ ground (arith, ap (λ v. spells read v b) (beq→eq w a eq), h)
    | inr other ↦ ground (arith, named_here wants a b (rw other at here) h)
  ]

  -- A rule that the new lists name is named by the old argument list itself, where that stands for it.
  same_spelling :
      (wants : List (List String)) (a b : List String)
      → ((w : List String) → contains wants w ≡ true → spells read w b ≡ true → w ≡ a)
      → named wants b ≡ true
      → contains wants a ≡ true
  unfolding contains
  same_spelling [] a b one h = ground arith
  same_spelling (w ∷ wants) a b one h = elim (Bool-cases (spells read w b)) [
    | inl here ↦ ground (arith, eq→beq w a (one w (rw (beq_refl w) refl) here))
    | inr other ↦
        ground (arith, same_spelling wants a b (λ v k. one v (ground (arith, k))) (rw other at h))
  ]

  named-undesired :
      (wants olds : List (List String)) (b : List String)
      → all_words wants ≡ true
      → all_words olds ≡ true
      → ((o w : List String)
          → contains olds o ≡ true
          → contains wants w ≡ true
          → spells read w b ≡ true
          → spells read o b ≡ true
          → w ≡ o)
      → named (undesired (desired wants) olds) b ≡ (not (named wants b) && named olds b)
  unfolding contains undesired all_words
  named-undesired wants [] b h k one = ground arith
  named-undesired wants (o ∷ olds) b h k one =
      let (words, rest) = &&_true (all is_word o) (all_words olds) k in
      let key = contains-desired wants o h words in
      let ih =
        named-undesired wants olds b h rest (λ o' w in_olds. one o' w (ground (arith, in_olds))) in
      elim (Bool-cases (spells read o b)) [
        | inr other ↦ elim (Bool-cases (contains wants o)) [
          | inl kept ↦ rw (key, kept) (ground (arith, ih, other))
          | inr gone ↦ rw (key, gone) (ground (arith, ih, other))
        ]
        | inl here ↦ elim (Bool-cases (contains wants o)) [
          | inl kept ↦ rw (key, kept) (ground (arith, ih, named_here wants o b kept here, here))
          | inr gone ↦
              rw (key, gone)
                (ground (
                  arith,
                  here,
                  gone,
                  same_spelling wants o b
                      (λ w in_wants at. one o w (rw (beq_refl o) refl) in_wants at here),
                ))
        ]
      ]

  -- The rules that the lines ask for.
  abbrev pub asked : List String → List Rule
  asked lines = meant (wanted lines)

  -- The rules that go are those of the old lines that the new ones do not ask for, where no rule has
  -- two spellings among the lines.
  pub among-obsolete :
      (every : List (List String)) (prev next : List String) (x : Rule)
      → OneSpelling read every
      → ((a : List String) → contains (wanted prev) a ≡ true → contains every a ≡ true)
      → ((a : List String) → contains (wanted next) a ≡ true → contains every a ≡ true)
      → among (meant (obsolete prev next)) x ≡ (not (among (asked next) x) && among (asked prev) x)
  among-obsolete every prev next x one in_prev in_next =
      rw
        (
          among-meant (obsolete prev next) x,
          among-meant (wanted next) x,
          among-meant (wanted prev) x,
          named-undesired (wanted next) (wanted prev) x.args (accepted_words (normalize_lines next))
              (accepted_words (normalize_lines prev))
              (λ o w a b c d. one w o x.args (in_next w b) (in_prev o a) c d),
        )
        (ground arith)
