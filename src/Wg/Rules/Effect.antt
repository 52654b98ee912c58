-- ===== src/Wg/Rules/Effect.antt =====
-- What ensureRule and deleteRule do to the rules of a machine whose iptables behaves as documented:
-- they implement adding a missing rule at the end of its chain and taking the first copy of one out.
pub mod Sequence
pub mod Undo
pub mod Copies
pub mod Cleared
pub mod Counted
pub mod Settled
pub mod Reliably
use mathlib.Core.Path.{fun_ext, subst}
use exnode.Base.{
  String, Bool, true, false, ◌&&◌, ◌≡◌, refl, ap, List, [], ◌∷◌, ◌++◌, if◌then◌else◌, ◌==◌,
  string_eq, list_eq, contains, erase, Bool-cases, inl, inr, arith, beq→eq, &&_true, sym, ◌∙◌,
}
use exnode.Text.{is_nil}
use exnode.Host.{Ran, Host}
use exnode.Host.Loops.{each_ok, each_all}
use exnode.Host.Iptables.{command, replaced, Iptables}
use exnode.Wg.Rules.{Rule, iptables_args, ensure_rule, delete_rule}

-- The rules of every table's chain.
abbrev pub RuleMap : Type 0
RuleMap = String → String → List (List String)

abbrev pub is_at : Rule → String → String → Bool
is_at r t c = r.table == t && r.chain == c

abbrev pub add : List String → List (List String) → List (List String)
add a l = if contains l a then l else l ++ a ∷ []

unfoldable pub added : Rule → RuleMap → RuleMap
added r m t c = if is_at r t c then add r.args (m t c) else m t c

unfoldable pub removed : Rule → RuleMap → RuleMap
removed r m t c = if is_at r t c then erase r.args (m t c) else m t c

abbrev pub added_all : List Rule → RuleMap → RuleMap
added_all [] m = m
added_all (r ∷ rs) m = added_all rs (added r m)

abbrev pub removed_all : List Rule → RuleMap → RuleMap
removed_all [] m = m
removed_all (r ∷ rs) m = removed_all rs (removed r m)

unfoldable pub present : RuleMap → Rule → Bool
present m r = contains (m r.table r.chain) r.args

pub iptables_args-command :
    (action : String) (r : Rule)
    → "iptables" ∷ iptables_args action r ≡ command action r.table r.chain r.args
unfolding iptables_args
iptables_args-command action r = by_table r.table
  where
    by_table :
        (t : String)
        → "iptables"
            ∷ ((if is_nil t then [] else "-t" ∷ t ∷ []) ++ ((action ∷ r.chain ∷ []) ++ r.args))
          ≡ command action t r.chain r.args
    by_table String.[] = refl
    by_table (String.◌∷◌ x t) = refl

pub erase_absent : (a : List String) (l : List (List String)) → contains l a ≡ false → erase a l ≡ l
unfolding erase contains
erase_absent a [] h = refl
erase_absent a (x ∷ l) h = ground (arith, erase_absent a l)

pub at_place :
    (r : Rule) (m : RuleMap) (t c : String) → is_at r t c ≡ true → m r.table r.chain ≡ m t c
at_place r m t c here =
    let (et, ec) = &&_true (r.table == t) (r.chain == c) here in
    cc (beq→eq r.table t et, beq→eq r.chain c ec)

-- A chain's new list is what `f` makes of the old one.
pub replaced_at :
    (r : Rule) (f : List (List String) → List (List String)) (m : RuleMap) (t c : String)
    → replaced r.table r.chain (f (m r.table r.chain)) m t c
      ≡ (if is_at r t c then f (m t c) else m t c)
replaced_at r f m t c = elim (Bool-cases (is_at r t c)) [
  | inl here ↦ simp here (ap f (at_place r m t c here))
  | inr away ↦ rw away
]

pub added_absent :
    (r : Rule) (m : RuleMap) (t c : String)
    → present m r ≡ false
    → (if is_at r t c then m t c ++ r.args ∷ [] else m t c) ≡ added r m t c
unfolding added present
added_absent r m t c absent = elim (Bool-cases (is_at r t c)) [
  | inl here ↦ simp here (rw (← at_place r m t c here) (rw absent))
  | inr away ↦ rw away
]

pub added-present : (r : Rule) (m : RuleMap) → present m r ≡ true → added r m ≡ m
unfolding added present
added-present r m here = fun_ext λ t. fun_ext λ c. elim (Bool-cases (is_at r t c)) [
  | inl at ↦ simp at (rw (← at_place r m t c at) (rw here))
  | inr away ↦ rw away
]

pub removed_absent : (r : Rule) (m : RuleMap) → present m r ≡ false → removed r m ≡ m
unfolding removed present
removed_absent r m gone = fun_ext λ t. fun_ext λ c. elim (Bool-cases (is_at r t c)) [
  | inl at ↦ simp at (rw (← at_place r m t c at) (erase_absent r.args (m r.table r.chain) gone))
  | inr away ↦ rw away
]

module _ (H : Host) (ipt : Iptables H) where
  abbrev pub ran : String → Rule → H.State → Ran H.State
  ran action r s = H.run (command action r.table r.chain r.args) s

  abbrev pub checked : Rule → H.State → H.State
  checked r s = (ran "-C" r s).after

  pub rules-checked : (r : Rule) (s : H.State) → ipt.rules (checked r s) ≡ ipt.rules s
  rules-checked r s = fun_ext λ t. fun_ext λ c. ipt.check_same r.table r.chain r.args s t c

  rules-append :
      (r : Rule) (s : H.State)
      → (ran "-A" r s).ok ≡ true
      → present (ipt.rules s) r ≡ false
      → ipt.rules (ran "-A" r s).after ≡ added r (ipt.rules s)
  rules-append r s ok absent = fun_ext λ t. fun_ext λ c.
      rw (ipt.append r.table r.chain r.args s t c, ok)
        (replaced_at r (λ l. l ++ r.args ∷ []) (ipt.rules s) t c
          ∙ added_absent r (ipt.rules s) t c absent)

  pub rules-delete :
      (r : Rule) (s : H.State)
      → (ran "-D" r s).ok ≡ true
      → ipt.rules (ran "-D" r s).after ≡ removed r (ipt.rules s)
  unfolding removed
  rules-delete r s ok = fun_ext λ t. fun_ext λ c.
      rw (ipt.delete r.table r.chain r.args s t c, ok)
        (replaced_at r (erase r.args) (ipt.rules s) t c)

  pub ensure_rule_lem :
      (r : Rule) (s : H.State)
      → ensure_rule H r s ≡ (
          if present (ipt.rules s) r
          then (true, checked r s)
          else ((ran "-A" r (checked r s)).ok, (ran "-A" r (checked r s)).after))
  unfolding ensure_rule present
  ensure_rule_lem r s =
      rw (iptables_args-command "-C" r, iptables_args-command "-A" r)
        (rw (ipt.check_ok r.table r.chain r.args s))

  pub delete_rule_lem :
      (r : Rule) (s : H.State)
      → delete_rule H r s ≡ (
          if present (ipt.rules s) r
          then ((ran "-D" r (checked r s)).ok, (ran "-D" r (checked r s)).after)
          else (true, checked r s))
  unfolding delete_rule present
  delete_rule_lem r s =
      rw (iptables_args-command "-C" r, iptables_args-command "-D" r)
        (rw (ipt.check_ok r.table r.chain r.args s))

  -- When ensureRule returns no error, the rule has been added to the rules, at the end of its chain,
  -- if it was not there, and nothing else has changed.
  pub rules-ensure_rule :
      (r : Rule) (s : H.State)
      → (ensure_rule H r s).0 ≡ true
      → ipt.rules (ensure_rule H r s).1 ≡ added r (ipt.rules s)
  rules-ensure_rule r s = elim (Bool-cases (present (ipt.rules s) r)) [
    | inl here ↦
        rw (ensure_rule_lem r s, here)
          λ _. rules-checked r s ∙ sym (added-present r (ipt.rules s) here)
    | inr gone ↦
        rw (ensure_rule_lem r s, gone)
          λ ok.
            rules-append r (checked r s) ok (ap (λ m. present m r) (rules-checked r s) ∙ gone)
            ∙ ap (added r) (rules-checked r s)
  ]

  pub rules-delete_rule :
      (r : Rule) (s : H.State)
      → (delete_rule H r s).0 ≡ true
      → ipt.rules (delete_rule H r s).1 ≡ removed r (ipt.rules s)
  rules-delete_rule r s = elim (Bool-cases (present (ipt.rules s) r)) [
    | inl here ↦
        rw (delete_rule_lem r s, here)
          λ ok. rules-delete r (checked r s) ok ∙ ap (removed r) (rules-checked r s)
    | inr gone ↦
        rw (delete_rule_lem r s, gone)
          λ _. rules-checked r s ∙ sym (removed_absent r (ipt.rules s) gone)
  ]
