-- ===== src/Extras/Called.antt =====
-- extras/extras.go, the loops of applyNAT: what they do to the rules of the machine.
use exnode.Base.{
  ◌++◌, none, some, Option-cases, erase, ℕ, zero, suc, ◌≤◌, String, true, ◌≡◌, refl, sym, ap, ◌∙◌,
  List, [], ◌∷◌, string_eq, list_eq, Bool-cases, inl, inr,
}
use mathlib.Core.Path.{subst, fun_ext}
use exnode.Host.{Host}
use exnode.Host.Loops.{each}
use exnode.Wg.Rules.Effect.{
  added_all, added, removed, present, replaced_at, added_absent, added-present,
}
use exnode.Wg.Rules.Effect.Copies.{copies}
use exnode.Wg.Rules.Effect.Counted.{
  cleared, cleared_all, Few, Few-cleared, copies_zero, copies-removed, cleared-absent,
  cleared-removed,
}
use exnode.Extras.Apply.{add_nat, drop_copies}
use exnode.Extras.Spellings.{Spellings, nat_command}
use exnode.Extras.Asked.{meant, entry}

module _ (H : Host) (M : Spellings H) where
  abbrev chain : H.State → List (List String)
  chain s = M.rules s "nat" "POSTROUTING"

  rules-checked :
      (a : List String) (s : H.State) → M.rules (H.run (nat_command "-C" a) s).after ≡ M.rules s
  rules-checked a s = fun_ext λ t. fun_ext λ c. M.check_same a s t c

  -- An entry is added unless its rule is there.
  rules-add_nat :
      (a : List String) (s : H.State) {r : List String}
      → M.read a ≡ some r
      → M.rules (add_nat H a s) ≡ added (entry r) (M.rules s)
  unfolding add_nat present
  rules-add_nat a s {r = r} good =
      let s' = (H.run (nat_command "-C" a) s).after in
      let same = rules-checked a s in
      elim (Bool-cases (present (M.rules s) (entry r))) [
        | inl here ↦
            rw (M.check_ok a s good ∙ here) (same ∙ sym (added-present (entry r) (M.rules s) here))
        | inr gone ↦ rw (M.check_ok a s good ∙ gone) (
            (fun_ext λ t. fun_ext λ c.
              M.append a s' t c good
              ∙ replaced_at (entry r) (λ l. l ++ r ∷ []) (M.rules s') t c
              ∙ added_absent (entry r) (M.rules s') t c (ap (λ m. present m (entry r)) same ∙ gone))
            ∙ ap (added (entry r)) same)
      ]

  -- One that iptables refuses changes nothing.
  rules-add_nat_refused :
      (a : List String) (s : H.State) → M.read a ≡ none → M.rules (add_nat H a s) ≡ M.rules s
  unfolding add_nat
  rules-add_nat_refused a s bad =
      let s' = (H.run (nat_command "-C" a) s).after in
      rw (M.refused a s bad).0 (
        (fun_ext λ t. fun_ext λ c. M.append_failed a s' t c (M.refused a s' bad).1)
        ∙ rules-checked a s)

  pub rules-add_all :
      (wants : List (List String)) (s : H.State)
      → M.rules (each (add_nat H) wants s) ≡ added_all (meant M.read wants) (M.rules s)
  unfolding each meant
  rules-add_all [] s = refl
  rules-add_all (w ∷ wants) s = elim (Option-cases (M.read w)) [
    | inl bad ↦
        rw (bad, meant)
          (rules-add_all wants (add_nat H w s)
            ∙ ap (added_all (meant M.read wants)) (rules-add_nat_refused w s bad))
    | inr (r, good) ↦
        rw (good, meant)
          (rules-add_all wants (add_nat H w s)
            ∙ ap (added_all (meant M.read wants)) (rules-add_nat w s good))
  ]

  abbrev pub delete_argv : List String → List String
  delete_argv args = "iptables" ∷ "-t" ∷ "nat" ∷ "-D" ∷ "POSTROUTING" ∷ args

  rules-delete :
      (a : List String) (s : H.State) {r : List String}
      → M.read a ≡ some r
      → present (M.rules s) (entry r) ≡ true
      → M.rules (H.run (delete_argv a) s).after ≡ removed (entry r) (M.rules s)
  unfolding removed present
  rules-delete a s {r = r} good here =
      fun_ext λ t.
        fun_ext λ c. M.delete a s t c good here ∙ replaced_at (entry r) (erase r) (M.rules s) t c

  -- As many rounds as there are copies take all of them out.
  rules-drop_copies :
      (rounds : ℕ) (a : List String) (s : H.State) {r : List String}
      → M.read a ≡ some r
      → copies (entry r) (M.rules s) ≤ rounds
      → M.rules (drop_copies H rounds (delete_argv a) s) ≡ cleared (entry r) (M.rules s)
  unfolding drop_copies present
  rules-drop_copies zero a s {r = r} good few =
      sym (cleared-absent (entry r) (M.rules s) (copies_zero (entry r) (M.rules s) few))
  rules-drop_copies (suc rounds) a s {r = r} good few =
      elim (Bool-cases (present (M.rules s) (entry r))) [
        | inl here ↦
            let out = rules-delete a s good here in
            rw (M.delete_ok a s good ∙ here) (
              rules-drop_copies rounds a (H.run (delete_argv a) s).after good
                (rw out (copies-removed (entry r) (M.rules s) rounds few here))
              ∙ ap (cleared (entry r)) out
              ∙ cleared-removed (entry r) (M.rules s))
        | inr gone ↦
            let failed = M.delete_ok a s good ∙ gone in
            rw failed (
              (fun_ext λ t. fun_ext λ c. M.delete_failed a s t c failed)
              ∙ sym (cleared-absent (entry r) (M.rules s) gone))
      ]

  rules-drop_refused :
      (rounds : ℕ) (a : List String) (s : H.State)
      → M.read a ≡ none
      → M.rules (drop_copies H rounds (delete_argv a) s) ≡ M.rules s
  unfolding drop_copies
  rules-drop_refused zero a s bad = refl
  rules-drop_refused (suc rounds) a s bad =
      let failed = (M.refused a s bad).2 in
      rw failed (fun_ext λ t. fun_ext λ c. M.delete_failed a s t c failed)

  pub rules-drop_all :
      (gone : List (List String)) (s : H.State)
      → Few (meant M.read gone) (M.rules s)
      → M.rules (each (λ args. drop_copies H 8 (delete_argv args)) gone s)
        ≡ cleared_all (meant M.read gone) (M.rules s)
  unfolding each meant
  rules-drop_all [] s = λ few. refl
  rules-drop_all (g ∷ gone) s = elim (Option-cases (M.read g)) [
    | inl bad ↦
        let same = rules-drop_refused 8 g s bad in
        rw (bad, meant)
          λ few.
            rules-drop_all gone (drop_copies H 8 (delete_argv g) s)
              (subst (Few (meant M.read gone)) (sym same) few)
            ∙ ap (cleared_all (meant M.read gone)) same
    | inr (r, good) ↦
        rw (good, meant)
          λ (few, rest).
            let once = rules-drop_copies 8 g s good few in
            rules-drop_all gone (drop_copies H 8 (delete_argv g) s) (
              subst (Few (meant M.read gone)) (sym once)
                (Few-cleared (entry r) (meant M.read gone) (M.rules s) rest))
            ∙ ap (cleared_all (meant M.read gone)) once
  ]
