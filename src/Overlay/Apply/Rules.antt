-- ===== src/Overlay/Apply/Rules.antt =====
-- Rules put in front of their chains, as firewallAllow and forwardAllow do, as maps of the rules.
use mathlib.Core.Path.{fun_ext}
use exnode.Base.{
  String, Bool, true, false, ◌≡◌, refl, ap, ◌∙◌, List, [], ◌∷◌, ◌++◌, Bool-cases, inl, inr, &&_true,
  if◌then◌else◌, string_eq, list_eq, contains, arith, beq_refl, map,
}
use exnode.Wg.Rules.{Rule}
use exnode.Wg.Rules.Effect.{RuleMap, is_at, at_place, present}
use exnode.Wg.Rules.Effect.Sequence.{all_present}
use exnode.Overlay.Apply.{accept}

-- The rule that accepts what a match spec of a chain of the filter table describes.
abbrev pub accepting : String → List String → Rule
accepting chain spec = record { table = ""; chain = chain; args = spec ++ accept }

-- The rule put in front of its chain, unless it is there.
unfoldable pub fronted : Rule → RuleMap → RuleMap
fronted r m t c =
    if is_at r t c then (if contains (m t c) r.args then m t c else r.args ∷ m t c) else m t c

pub fronted-present : (r : Rule) (m : RuleMap) → present m r ≡ true → fronted r m ≡ m
unfolding fronted present
fronted-present r m here = fun_ext λ t. fun_ext λ c. elim (Bool-cases (is_at r t c)) [
  | inl at ↦ simp at (rw (← at_place r m t c at) (rw here))
  | inr away ↦ rw away
]

pub fronted-absent :
    (r : Rule) (m : RuleMap) (t c : String)
    → present m r ≡ false
    → (if is_at r t c then r.args ∷ m t c else m t c) ≡ fronted r m t c
unfolding fronted present
fronted-absent r m t c gone = elim (Bool-cases (is_at r t c)) [
  | inl at ↦ simp at (rw (← at_place r m t c at) (rw gone))
  | inr away ↦ rw away
]

present-fronted_self : (r : Rule) (m : RuleMap) → present (fronted r m) r ≡ true
unfolding fronted present contains
present-fronted_self r m =
    rw (beq_refl r.table, beq_refl r.chain)
      (elim (Bool-cases (contains (m r.table r.chain) r.args)) [
        | inl old ↦ rw old old
        | inr new ↦ rw new (rw (beq_refl r.args))
      ])

present-fronted : (r x : Rule) (m : RuleMap) → present m x ≡ true → present (fronted r m) x ≡ true
unfolding fronted present contains
present-fronted r x m h = elim (Bool-cases (is_at r x.table x.chain)) [
  | inr away ↦ rw away h
  | inl at ↦ rw at (elim (Bool-cases (contains (m x.table x.chain) r.args)) [
    | inl old ↦ rw old h
    | inr new ↦ rw new (ground (arith))
  ])
]

abbrev pub fronted_all : String → List (List String) → RuleMap → RuleMap
fronted_all chain [] m = m
fronted_all chain (spec ∷ specs) m = fronted_all chain specs (fronted (accepting chain spec) m)

abbrev pub accepted : String → List (List String) → RuleMap → Bool
accepted chain specs m = all_present m (map (accepting chain) specs)

present-fronted_all :
    (chain : String) (specs : List (List String)) (x : Rule) (m : RuleMap)
    → present m x ≡ true
    → present (fronted_all chain specs m) x ≡ true
present-fronted_all chain [] x m h = h
present-fronted_all chain (spec ∷ specs) x m h =
    present-fronted_all chain specs x (fronted (accepting chain spec) m)
      (present-fronted (accepting chain spec) x m h)

pub accepted-fronted_all :
    (chain : String) (specs : List (List String)) (m : RuleMap)
    → accepted chain specs (fronted_all chain specs m) ≡ true
accepted-fronted_all chain [] m = refl
accepted-fronted_all chain (spec ∷ specs) m =
    let r = accepting chain spec in
    rw (present-fronted_all chain specs r (fronted r m) (present-fronted_self r m))
      (accepted-fronted_all chain specs (fronted r m))

-- Other rules put in front keep what is accepted.
pub accepted-kept :
    (chain : String) (specs : List (List String)) (other : String) (more : List (List String))
    (m : RuleMap)
    → accepted other more m ≡ true
    → accepted other more (fronted_all chain specs m) ≡ true
accepted-kept chain specs other [] m h = refl
accepted-kept chain specs other (spec ∷ more) m h =
    let r = accepting other spec in
    let (here, rest) = &&_true (present m r) (accepted other more m) h in
    rw (present-fronted_all chain specs r m here) (accepted-kept chain specs other more m rest)

pub fronted_all_same :
    (chain : String) (specs : List (List String)) (m : RuleMap)
    → accepted chain specs m ≡ true
    → fronted_all chain specs m ≡ m
fronted_all_same chain [] m h = refl
fronted_all_same chain (spec ∷ specs) m h =
    let r = accepting chain spec in
    let (here, rest) = &&_true (present m r) (accepted chain specs m) h in
    ap (fronted_all chain specs) (fronted-present r m here) ∙ fronted_all_same chain specs m rest
