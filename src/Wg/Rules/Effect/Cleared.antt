-- ===== src/Wg/Rules/Effect/Cleared.antt =====
-- Rules deleted until the deletion fails: every copy goes.
use mathlib.Core.Path.{fun_ext}
use exnode.Base.{
  String, false, arith, if◌then◌else◌, ◌-◌, ℕ, zero, suc, ◌≤◌, true, false, ◌≡◌, refl, ap, sym, ◌∙◌,
  Bool-cases, inl, inr, if◌then◌else◌, string_eq, list_eq,
}
use exnode.Host.{Host}
use exnode.Host.Iptables.{Iptables, Reliable}
use exnode.Wg.Rules.{Rule}
use exnode.Wg.Rules.Effect.{is_at, present, rules-delete, ran}
use exnode.Wg.Rules.Effect.Undo.{same}
use exnode.Wg.Rules.Effect.Copies.{copies-removed-same, copies-removed_other, copies-absent, copies}
use exnode.Wg.Rules.Effect.Counted.{
  cleared, cleared-absent, cleared-removed, copies-removed, copies_zero,
}

module _ (H : Host) (ipt : Iptables H) where
  -- A loop of deletions that ends at the first failure, and after the given rounds at the latest.
  abbrev pub drop : ℕ → Rule → H.State → H.State
  drop zero r s = s
  drop (suc rounds) r s =
      let more = drop rounds r (ran H ipt "-D" r s).after in
      if (ran H ipt "-D" r s).ok then more else (ran H ipt "-D" r s).after

  rules-elsewhere :
      (r : Rule) (s : H.State) (t c : String)
      → is_at r t c ≡ false
      → ipt.rules (ran H ipt "-D" r s).after t c ≡ ipt.rules s t c
  rules-elsewhere r s t c away =
      rw (ipt.delete r.table r.chain r.args s t c, away)
        (elim (Bool-cases (ran H ipt "-D" r s).ok) [
          | inl ok ↦ rw ok refl
          | inr failed ↦ rw failed refl
        ])

  pub drop-elsewhere :
      (rounds : ℕ) (r : Rule) (s : H.State) (t c : String)
      → is_at r t c ≡ false
      → ipt.rules (drop rounds r s) t c ≡ ipt.rules s t c
  drop-elsewhere zero r s t c away = refl
  drop-elsewhere (suc rounds) r s t c away = elim (Bool-cases (ran H ipt "-D" r s).ok) [
    | inl ok ↦
        rw ok (
          drop-elsewhere rounds r (ran H ipt "-D" r s).after t c away
          ∙ rules-elsewhere r s t c away)
    | inr failed ↦ rw failed (rules-elsewhere r s t c away)
  ]

module _ (H : Host) (ipt : Iptables H) (rel : Reliable H ipt) where
  present_deletes :
      (r : Rule) (s : H.State) → present (ipt.rules s) r ≡ true → (ran H ipt "-D" r s).ok ≡ true
  unfolding present
  present_deletes r s here = rel.delete_ok r.table r.chain r.args s here

  absent_fails :
      (r : Rule) (s : H.State) → present (ipt.rules s) r ≡ false → (ran H ipt "-D" r s).ok ≡ false
  unfolding present
  absent_fails r s gone = ipt.delete_absent r.table r.chain r.args s gone

  rules-failed :
      (r : Rule) (s : H.State)
      → (ran H ipt "-D" r s).ok ≡ false
      → ipt.rules (ran H ipt "-D" r s).after ≡ ipt.rules s
  rules-failed r s failed =
      fun_ext λ t. fun_ext λ c. rw (ipt.delete r.table r.chain r.args s t c, failed)

  -- With at least as many rounds as copies, the loop of deletions takes out every copy of the rule
  -- and nothing else.
  pub rules-drop :
      (rounds : ℕ) (r : Rule) (s : H.State)
      → copies r (ipt.rules s) ≤ rounds
      → ipt.rules (drop H ipt rounds r s) ≡ cleared r (ipt.rules s)
  rules-drop zero r s h = sym (cleared-absent r (ipt.rules s) (copies_zero r (ipt.rules s) h))
  rules-drop (suc rounds) r s h = elim (Bool-cases (present (ipt.rules s) r)) [
    | inl here ↦
        let ok = present_deletes r s here in
        rw ok (
          rules-drop rounds r (ran H ipt "-D" r s).after
            (rw (rules-delete H ipt r s ok) (copies-removed r (ipt.rules s) rounds h here))
          ∙ ap (cleared r) (rules-delete H ipt r s ok)
          ∙ cleared-removed r (ipt.rules s))
    | inr gone ↦
        let failed = absent_fails r s gone in
        rw failed (rules-failed r s failed ∙ sym (cleared-absent r (ipt.rules s) gone))
  ]

  -- Each round takes out one copy, as long as there is one.
  pub copies-drop :
      (rounds : ℕ) (r x : Rule) (s : H.State)
      → copies x (ipt.rules (drop H ipt rounds r s))
        ≡ (if same r x then copies x (ipt.rules s) - rounds else copies x (ipt.rules s))
  copies-drop zero r x s = ground arith
  copies-drop (suc rounds) r x s = elim (Bool-cases (present (ipt.rules s) r)) [
    | inl here ↦
        let ok = present_deletes r s here in
        let once = ap (copies x) (rules-delete H ipt r s ok) in
        let ih = copies-drop rounds r x (ran H ipt "-D" r s).after in
        rw ok (elim (Bool-cases (same r x)) [
          | inl alike ↦ ground (arith, ih, once, copies-removed-same r x (ipt.rules s) alike)
          | inr differ ↦ ground (arith, ih, once, copies-removed_other r x (ipt.rules s) differ)
        ])
    | inr gone ↦
        let failed = absent_fails r s gone in
        let kept = ap (copies x) (rules-failed r s failed) in
        rw failed (elim (Bool-cases (same r x)) [
          | inl alike ↦ ground (arith, kept, copies-absent r x (ipt.rules s) alike gone)
          | inr differ ↦ rw differ kept
        ])
  ]
