-- ===== src/Overlay/Check/Deduped.antt =====
-- overlay/overlay.go, dedupeRules: how many copies of each rule it leaves.
use exnode.Base.{
  ℕ, zero, suc, ◌-◌, String, Bool, true, false, ◌&&◌, ◌≡◌, refl, sym, ap, ◌∙◌, List, [], ◌∷◌, ◌++◌,
  if◌then◌else◌, ◌==◌, string_eq, list_eq, contains, Bool-cases, inl, inr, &&_true, beq→eq, eq→beq,
  beq_refl, beq_false, beq_true, arith, all, map, ltb,
}
use exnode.Text.{join, split, is_nil}
use exnode.Text.Fields.{all_words, is_word, fields, fields-join}
use exnode.Host.{Host}
use exnode.Host.Iptables.{Iptables, Reliable}
use exnode.Wg.Rules.Effect.{ran}
use exnode.Wg.Rules.Effect.Undo.{same}
use exnode.Wg.Rules.Effect.Copies.{count, copies}
use exnode.Wg.Rules.Effect.Cleared.{drop-elsewhere, drop, copies-drop}
use exnode.Overlay.Commands.{rule_spec, spec_of}
use exnode.Overlay.Check.{count_rules, drop_copies, drop_all, dedupe_rules}
use exnode.Overlay.Check.Counts.{
  Counts, surplus, surplus-tally, tally-count_rules, no_dups-count_rules, lines_of,
}
use exnode.Overlay.Check.Lines.{
  joined, all_joined, all_joined-count_rules, line_of, lines_of-rules, lines_of-append, in_chain,
}

-- What is left of `n` copies, if the rule is to be single.
left_one :
    (single : Bool) (n : ℕ)
    → n - ((if single then n else 0) - 1) ≡ (if single && ltb 1 n then 1 else n)
left_one single n = ground arith

not_empty : (k : String) → is_nil k ≡ false → ("" == k) ≡ false
not_empty k full = beq_false "" k (λ p. let lost : true ≡ false = ap is_nil p ∙ full in cc)

no_spec_empty : rule_spec "" ≡ ""
unfolding rule_spec spec_of fields
no_spec_empty = refl

-- What `iptables -S CHAIN` does, as documented, on a machine in a state: it prints the policy of the
-- chain and a line of words for each of its rules, and changes none.
pub record Listed (H : Host) (ipt : Iptables H) (chain : String) (s : H.State) : Type 0 where
  pub shown_ok : (H.run ("iptables" ∷ "-S" ∷ chain ∷ []) s).ok ≡ true
  pub shown_same :
      (t c : String)
      → ipt.rules (H.run ("iptables" ∷ "-S" ∷ chain ∷ []) s).after t c ≡ ipt.rules s t c
  pub policy : String
  pub target : String
  pub policy_words : fields policy ≡ "-P" ∷ chain ∷ target ∷ []
  pub shown :
      split (H.run ("iptables" ∷ "-S" ∷ chain ∷ []) s).stdout b'\n'
      ≡ policy ∷ map (line_of chain) (ipt.rules s "" chain) ++ "" ∷ []
  pub worded : all_words (ipt.rules s "" chain) ≡ true

no_spec :
    (line chain target : String) → fields line ≡ "-P" ∷ chain ∷ target ∷ [] → rule_spec line ≡ ""
unfolding rule_spec spec_of
no_spec line chain target h = rw h refl

module _ (H : Host) (ipt : Iptables H) (rel : Reliable H ipt) (chain : String) where
  drop_copies-drop :
      (spec : String) (rounds : ℕ) (s : H.State)
      → (drop_copies H chain spec rounds s).1 ≡ drop H ipt rounds (in_chain chain (fields spec)) s
  unfolding drop_copies
  drop_copies-drop spec zero s = refl
  drop_copies-drop spec (suc rounds) s =
      let r = ran H ipt "-D" (in_chain chain (fields spec)) s in
      elim (Bool-cases r.ok) [
        | inl ok ↦ rw ok (drop_copies-drop spec rounds r.after)
        | inr failed ↦ rw failed refl
      ]

  keyed :
      (k : String) (a : List String)
      → joined k ≡ true
      → all is_word a ≡ true
      → (a == fields k) ≡ (k == join a " ")
  keyed k a h words = elim (Bool-cases (k == join a " ")) [
    | inl eq ↦
        eq→beq a (fields k) (sym (ap fields (beq→eq k (join a " ") eq) ∙ fields-join a words))
        ∙ sym eq
    | inr differ ↦
        beq_false a (fields k) (λ p.
          beq_true k (join a " ") differ
            (sym (beq→eq (join (fields k) " ") k h) ∙ ap (λ f. join f " ") (sym p)))
        ∙ sym differ
  ]

  same_key :
      (k : String) (a : List String)
      → joined k ≡ true
      → all is_word a ≡ true
      → same (in_chain chain (fields k)) (in_chain chain a) ≡ (k == join a " ")
  same_key k a h words = rw (beq_refl chain) (keyed k a h words)

  copies-drop_all :
      (counts : Counts) (a : List String) (s : H.State)
      → all_joined counts ≡ true
      → all is_word a ≡ true
      → copies (in_chain chain a) (ipt.rules (drop_all H chain counts s).1)
        ≡ copies (in_chain chain a) (ipt.rules s) - surplus (join a " ") counts
  unfolding drop_all
  copies-drop_all [] a s h words = ground arith
  copies-drop_all ((k, n) ∷ counts) a s h words =
      let (key, rest) = &&_true (joined k) (all_joined counts) h in
      let s' = (drop_copies H chain k (n - 1) s).1 in
      let once =
        ap (λ t. copies (in_chain chain a) (ipt.rules t)) (drop_copies-drop k (n - 1) s)
        ∙ copies-drop H ipt rel (n - 1) (in_chain chain (fields k)) (in_chain chain a) s in
      let later = copies-drop_all counts a s' rest words in
      let alike = same_key k a key words in
      elim (Bool-cases (k == join a " ")) [
        | inl at ↦
            let one =
              once
              ∙ ap
                  (λ t.
                    if t
                    then copies (in_chain chain a) (ipt.rules s) - (n - 1)
                    else copies (in_chain chain a) (ipt.rules s))
                  (alike ∙ at) in
            rw (later, one, at) (omega arith)
        | inr away ↦
            let none =
              once
              ∙ ap
                  (λ t.
                    if t
                    then copies (in_chain chain a) (ipt.rules s) - (n - 1)
                    else copies (in_chain chain a) (ipt.rules s))
                  (alike ∙ away) in
            rw (later, none, away) refl
      ]

  drop_all-elsewhere :
      (counts : Counts) (s : H.State) (t c : String)
      → ("" == t && chain == c) ≡ false
      → ipt.rules (drop_all H chain counts s).1 t c ≡ ipt.rules s t c
  unfolding drop_all
  drop_all-elsewhere [] s t c away = refl
  drop_all-elsewhere ((k, n) ∷ counts) s t c away =
      drop_all-elsewhere counts (drop_copies H chain k (n - 1) s).1 t c away
      ∙ ap (λ t'. ipt.rules t' t c) (drop_copies-drop k (n - 1) s)
      ∙ drop-elsewhere H ipt (n - 1) (in_chain chain (fields k)) s t c away

  lines_of-listed :
      (s : H.State) (a : List String)
      → is_word chain ≡ true
      → (listed : Listed H ipt chain s) → all is_word a ≡ true
      → is_nil (join a " ") ≡ false
      → lines_of (join a " ") (split (H.run ("iptables" ∷ "-S" ∷ chain ∷ []) s).stdout b'\n')
        ≡ count a (ipt.rules s "" chain)
  lines_of-listed s a word listed words full =
      let k = join a " " in
      let rules = map (line_of chain) (ipt.rules s "" chain) in
      let first =
        ap (λ t. t == k) (no_spec listed.policy chain listed.target listed.policy_words)
        ∙ not_empty k full in
      let last = ap (λ t. t == k) no_spec_empty ∙ not_empty k full in
      let those = lines_of-rules chain (ipt.rules s "" chain) a word listed.worded words in
      rw (listed.shown, first, lines_of-append k rules ("" ∷ []), those, last) (omega arith)

  -- On a machine where iptables fails only for the documented reasons and `iptables -S` shows the
  -- chain, whose name is a word: of every rule of the chain, a row of words, at least one, that is to
  -- be kept single, dedupeRules leaves one copy where there were several; it keeps the copies of the
  -- other rules of the chain, and any other chain.
  pub dedupe_rules_leaves_one :
      (keep_set : List String) (s : H.State) (a : List String) (t c : String)
      → is_word chain ≡ true
      → Listed H ipt chain s
      → all is_word a ≡ true
      → is_nil (join a " ") ≡ false
      → ("" == t && chain == c) ≡ false
      → (count a (ipt.rules (dedupe_rules H chain keep_set s).1 "" chain) ≡ (
          if contains keep_set (join a " ") && ltb 1 (count a (ipt.rules s "" chain))
          then 1
          else count a (ipt.rules s "" chain)))
        × (ipt.rules (dedupe_rules H chain keep_set s).1 t c ≡ ipt.rules s t c)
  unfolding dedupe_rules copies contains
  dedupe_rules_leaves_one [] s a t c word listed words full away = (refl, refl)
  dedupe_rules_leaves_one (k ∷ ks) s a t c word listed words full away =
      let r = H.run ("iptables" ∷ "-S" ∷ chain ∷ []) s in
      let key = join a " " in
      let lines = split r.stdout b'\n' in
      let counts = count_rules (k ∷ ks) lines in
      let dropped =
        copies-drop_all counts a r.after (all_joined-count_rules (k ∷ ks) lines) words in
      let before = ap (count a) (listed.shown_same "" chain) in
      let gone =
        surplus-tally key counts (no_dups-count_rules (k ∷ ks) lines)
        ∙ ap (λ n. n - 1)
            (tally-count_rules (k ∷ ks) lines key full
              ∙ ap (λ n. if contains (k ∷ ks) key then n else 0)
                  (lines_of-listed s a word listed words full)) in
      rw listed.shown_ok (
        dropped
            ∙ ap (λ n. n - surplus key counts) before
            ∙ ap (λ n. count a (ipt.rules s "" chain) - n) gone
            ∙ left_one (contains (k ∷ ks) key) (count a (ipt.rules s "" chain)),
        drop_all-elsewhere counts r.after t c away ∙ listed.shown_same t c,
      )
