-- ===== src/Engine/Removed.antt =====
-- engine/kernel.go, Apply on the machine's links: those that were managed and are desired no more go,
-- and the others stay.
use exnode.Base.{
  String, Bool, true, false, ◌&&◌, not, ◌≡◌, refl, sym, ap, ◌∙◌, List, [], ◌∷◌, Option, none, some,
  ◌==◌, string_eq, contains, all, Bool-cases, Option-cases, inl, inr, arith, &&_true, ||_false,
}
use exnode.Host.{Host}
use exnode.Host.Loops.{each}
use exnode.Wg.{Interface}
use exnode.Wg.Network.{Addresses, Links}
use exnode.Wg.Nat.{reconcile_nat, teardown_nat}
use exnode.Wg.Policy.{remove_policy_routes}
use exnode.Wg.Device.{Formats}
use exnode.Wg.Kernel.{Kernel, reconcile}
use exnode.Wg.Kernel.LinkTable.{LinkTable}
use exnode.Wg.Kernel.Made.{remove_link-links, reconcile-links}
use exnode.Engine.{
  Managed, interface_names, old_of, find, entries, stale, stale_in, apply, apply_one, remove_one,
}
use exnode.Engine.Managed.{stale_removed}
use exnode.Engine.Untouched.{
  only_routing, no_policy, nat_torn_same, nat_reconciled_same, policy_removed_same,
  policy_reconciled_same,
}

-- Every interface's policy is about rules and routes.
unfoldable pub all_routing : List Interface → Bool
all_routing ifaces = all (λ i. only_routing i.policy_routes) ifaces

-- No interface, or one with such a policy.
abbrev is_routing : Option Interface → Bool
is_routing none = true
is_routing (some i) = only_routing i.policy_routes

find-routing :
    (name : String) (managed : Managed)
    → all_routing managed ≡ true
    → is_routing (find name managed) ≡ true
unfolding find all_routing
find-routing name [] h = refl
find-routing name (i ∷ managed) h = elim (Option-cases (find name managed)) [
  | inr (j, later) ↦ rw later (ground (arith, find-routing name managed, later, h))
  | inl last ↦ rw last (elim (Bool-cases (i.name == name)) [
    | inl here ↦ rw here (ground (arith, h))
    | inr other ↦ rw other refl
  ])
]

old_of-routing :
    (name : String) (managed : Managed)
    → all_routing managed ≡ true
    → only_routing (old_of name managed).policy_routes ≡ true
old_of-routing name managed h = elim (Option-cases (find name managed)) [
  | inl lost ↦ rw (lost, old_of) no_policy
  | inr (i, found) ↦ rw (found, old_of) (ap is_routing (sym found) ∙ find-routing name managed h)
]

stale_in-routing :
    (desired : List String) (managed : List Interface)
    → all_routing managed ≡ true
    → all_routing (stale_in desired managed) ≡ true
unfolding stale_in all_routing
stale_in-routing desired [] h = refl
stale_in-routing desired (i ∷ managed) h = ground (arith, stale_in-routing desired managed, h)

entries-routing :
    (managed : Managed) → all_routing managed ≡ true → all_routing (entries managed) ≡ true
unfolding entries all_routing
entries-routing [] h = refl
entries-routing (i ∷ managed) h = ground (arith, entries-routing managed, h)

stale-routing :
    (desired : List Interface) (managed : Managed)
    → all_routing managed ≡ true
    → all_routing (stale managed desired) ≡ true
unfolding stale
stale-routing desired managed h =
    stale_in-routing (interface_names desired) (entries managed) (entries-routing managed h)

module _ (H : Host) (A : Addresses) (L : Links H A) (F : Formats) (K : Kernel H F)
    (T : LinkTable H F K) where
  module _ (t : String) where
    abbrev linked : H.State → Bool
    linked s = K.link_by_name t s

    remove_one-links :
        (old : Interface)
        → only_routing old.policy_routes ≡ true
        → (s : H.State) → linked (remove_one H A L F K old s) ≡ (linked s && not (old.name == t))
    unfolding remove_one
    remove_one-links old h s =
        let s₁ = remove_policy_routes H old.policy_routes s in
        let s₂ = (teardown_nat H A L old s₁).1 in
        remove_link-links H F K T t old.name s₂
        ∙ ap (λ b. b && not (old.name == t))
            (nat_torn_same H F K T t A L old s₁
              ∙ policy_removed_same H F K T t old.policy_routes h s)

    remove_all-links :
        (gone : List Interface)
        → all_routing gone ≡ true
        → (s : H.State)
        → linked (each (remove_one H A L F K) gone s)
          ≡ (linked s && not (contains (interface_names gone) t))
    unfolding each all_routing contains
    remove_all-links [] h s = ground arith
    remove_all-links (i ∷ gone) h s =
        let (first, rest) = &&_true (only_routing i.policy_routes) (all_routing gone) h in
        ground
          (arith, remove_one-links i first s, remove_all-links gone rest (remove_one H A L F K i s))

    apply_one-links :
        (managed : Managed)
        → all_routing managed ≡ true
        → (i : Interface) → only_routing i.policy_routes ≡ true
        → (s : H.State) → linked (apply_one H A L F K managed i s) ≡ linked (reconcile H F K i s).1
    unfolding apply_one
    apply_one-links managed h i h' s =
        let old = old_of i.name managed in
        let s₁ = (reconcile H F K i s).1 in
        policy_reconciled_same H F K T t old.policy_routes i.policy_routes
          (old_of-routing i.name managed h) h' (reconcile_nat H A L old i s₁).1
        ∙ nat_reconciled_same H F K T t A L old i s₁

    apply_all-others :
        (managed : Managed)
        → all_routing managed ≡ true
        → (desired : List Interface) → all_routing desired ≡ true
        → contains (interface_names desired) t ≡ false
        → (s : H.State) → linked (each (apply_one H A L F K managed) desired s) ≡ linked s
    unfolding each all_routing contains
    apply_all-others managed h [] h' apart s = refl
    apply_all-others managed h (i ∷ desired) h' apart s =
        let (first, rest) = &&_true (only_routing i.policy_routes) (all_routing desired) h' in
        ground (
          arith,
          apply_one-links managed h i first s,
          reconcile-links H F K T t i s,
          apart,
          apply_all-others managed h desired rest
              (||_false (i.name == t) (contains (interface_names desired) t) apart).1
              (apply_one H A L F K managed i s),
        )

    apply_all-stay :
        (managed : Managed)
        → all_routing managed ≡ true
        → (desired : List Interface) → all_routing desired ≡ true
        → (s : H.State) → linked s ≡ true
        → linked (each (apply_one H A L F K managed) desired s) ≡ true
    unfolding each all_routing
    apply_all-stay managed h [] h' s here = here
    apply_all-stay managed h (i ∷ desired) h' s here =
        let (first, rest) = &&_true (only_routing i.policy_routes) (all_routing desired) h' in
        apply_all-stay managed h desired rest (apply_one H A L F K managed i s)
          (ground (arith, apply_one-links managed h i first s, reconcile-links H F K T t i s, here))

  -- Where links behave as LinkTable says, and every policy line that is an `ip` command is about rules
  -- or routes, Apply removes exactly the links that it managed and that are desired no more: after it,
  -- the link of a name that is not desired stands if it stood before and was not managed, and the link
  -- of a desired name that stood before still stands.
  pub apply_removes :
      (desired : List Interface) (managed : Managed) (s : H.State) (name kept : String)
      → all_routing desired ≡ true
      → all_routing managed ≡ true
      → contains (interface_names desired) name ≡ false
      → contains (interface_names desired) kept ≡ true
      → K.link_by_name kept s ≡ true
      → (let (ok, next, after) = apply H A L F K desired managed s in
          (K.link_by_name name after
            ≡ (K.link_by_name name s && not (contains (interface_names managed) name)))
          × (K.link_by_name kept after ≡ true))
  unfolding apply
  apply_removes desired managed s name kept h h' apart wanted here =
      let s₁ = each (apply_one H A L F K managed) desired s in
      let routing = stale-routing desired managed h' in
      (
        remove_all-links name (stale managed desired) routing s₁
            ∙ ground (
              arith,
              apply_all-others name managed h' desired h apart s,
              stale_removed managed desired name,
              apart,
            ),
        remove_all-links kept (stale managed desired) routing s₁
            ∙ ground (
              arith,
              apply_all-stay kept managed h' desired h s here,
              stale_removed managed desired kept,
              wanted,
            ),
      )
