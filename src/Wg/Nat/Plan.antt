-- ===== src/Wg/Nat/Plan.antt =====
-- The rules that SetupNAT and TeardownNAT compute for an interface are distinct.
use exnode.Base.{
  String, true, false, not, ◌≡◌, refl, List, [], ◌∷◌, ◌++◌, some, map, Bool-cases, inl, inr,
  &&_true, ||_false, false_of_implies, not-true, ◌==◌, string_eq, list_eq, contains,
  contains-append, no_dups, no_dups-concat, arith, Option-cases,
}
use exnode.Text.{is_nil, trim_space, split}
use exnode.Wg.{Interface}
use exnode.Wg.Network.{Addresses}
use exnode.Wg.Rules.Effect.Undo.{apart, distinct}
use exnode.Wg.Nat.{
  post_rule, forward_rules, nat_rules, subnet_for, custom_sources, or_tunnel, nat_sources,
}

grown :
    (seen custom : List String) (norm : String)
    → ((x : String) → contains custom x ≡ true → contains seen x ≡ true)
    → (x : String) → contains (custom ++ norm ∷ []) x ≡ true
    → contains (norm ∷ seen) x ≡ true
unfolding contains
grown seen custom norm sub x h = ground (arith, contains-append custom (norm ∷ []) x, sub x)

module _ (A : Addresses) where
  custom_sources-no_dups :
      (parts seen custom : List String) {out : List String}
      → no_dups custom ≡ true
      → ((x : String) → contains custom x ≡ true → contains seen x ≡ true)
      → custom_sources A parts seen custom ≡ some out
      → no_dups out ≡ true
  unfolding custom_sources
  custom_sources-no_dups [] seen custom d sub = λ h. ground arith
  custom_sources-no_dups (raw ∷ parts) seen custom d sub =
      elim (Bool-cases (is_nil (trim_space raw))) [
        | inl blank ↦ rw (blank, custom_sources) (custom_sources-no_dups parts seen custom d sub)
        | inr text ↦
            rw (text, custom_sources)
              (elim (Option-cases (subnet_for A (trim_space raw))) [
                | inl bad ↦ rw (bad, custom_sources) (λ h. cc)
                | inr (norm, good) ↦
                    rw (good, custom_sources)
                      (elim (Bool-cases (contains seen norm)) [
                        | inl old ↦
                            rw (old, custom_sources)
                              (custom_sources-no_dups parts seen custom d sub)
                        | inr new ↦
                            rw (new, custom_sources)
                              (custom_sources-no_dups parts (norm ∷ seen) (custom ++ norm ∷ [])
                                (no_dups-concat custom norm d (
                                  false_of_implies (contains custom norm) (contains seen norm)
                                    (sub norm) new))
                                (grown seen custom norm sub))
                      ])
              ])
      ]

  or_tunnel-no_dups :
      (iface : Interface) (custom : List String) {out : List String}
      → no_dups custom ≡ true
      → or_tunnel A iface custom ≡ some out
      → no_dups out ≡ true
  unfolding contains
  or_tunnel-no_dups iface (c ∷ custom) d = λ h. ground arith
  or_tunnel-no_dups iface [] d = elim (Option-cases (subnet_for A iface.address)) [
    | inl bad ↦ rw (bad, or_tunnel) (λ h. cc)
    | inr (subnet, good) ↦ rw (good, or_tunnel) (λ h. ground (arith))
  ]

  -- The networks that are masqueraded are distinct.
  pub nat_sources-no_dups :
      (iface : Interface) {out : List String} → nat_sources A iface ≡ some out → no_dups out ≡ true
  unfolding nat_sources
  nat_sources-no_dups iface =
      elim (Option-cases (custom_sources A (split iface.nat_subnets b',') [] [])) [
        | inl bad ↦ rw (bad, nat_sources) (λ h. cc)
        | inr (custom, good) ↦
            rw (good, nat_sources)
              (or_tunnel-no_dups iface custom
                (custom_sources-no_dups (split iface.nat_subnets b',') [] [] refl (λ x h. h) good))
      ]

module _ (egress snat_ip : String) where
  post_rules-apart :
      (s : String) (subnets : List String) (device : String)
      → contains subnets s ≡ false
      → apart
          (post_rule egress snat_ip s)
          (map (post_rule egress snat_ip) subnets ++ forward_rules device egress)
        ≡ true
  unfolding post_rule forward_rules contains
  post_rules-apart s [] device h = refl
  post_rules-apart s (t ∷ subnets) device h =
      let (ne, rest) = ||_false (t == s) (contains subnets s) h in
      rw (ne, post_rules-apart s subnets device rest)

  -- The rules of an interface with distinct networks are distinct.
  pub nat_rules-distinct :
      (subnets : List String) (device : String)
      → no_dups subnets ≡ true
      → distinct (nat_rules subnets device egress snat_ip) ≡ true
  unfolding nat_rules forward_rules
  nat_rules-distinct [] device h = ground arith
  nat_rules-distinct (s ∷ subnets) device h =
      let (new, rest) = &&_true (not (contains subnets s)) (no_dups subnets) h in
      rw (post_rules-apart s subnets device (not-true (contains subnets s) new))
        (nat_rules-distinct subnets device rest)
