-- ===== src/Overlay/Apply/Forget.antt =====
-- Removing a link takes every copy of its firewall rules away.
use mathlib.Core.Path.{fun_ext}
use exnode.Base.{
  ℕ, zero, suc, ◌≤◌, String, false, ◌≡◌, refl, ap, ◌∙◌, List, [], ◌∷◌, string_eq, list_eq, arith,
}
use exnode.Text.{is_nil}
use exnode.Host.{Host}
use exnode.Host.Loops.{each}
use exnode.Host.Iptables.{Iptables, Reliable}
use exnode.Wg.Rules.{Rule}
use exnode.Wg.Rules.Effect.{ran}
use exnode.Wg.Rules.Effect.Copies.{copies}
use exnode.Wg.Rules.Effect.Counted.{cleared, cleared_all, Few, copies-cleared}
use exnode.Wg.Rules.Effect.Cleared.{drop, rules-drop}
use exnode.Overlay.Apply.Rules.{accepting}
use exnode.Overlay.Commands.{forward_specs}
use exnode.Overlay.Apply.{forget, remove, ip}

-- The three rules that name a link.
abbrev pub link_rules : String → List Rule
link_rules name =
    accepting "INPUT" ("-i" ∷ name ∷ [])
    ∷ accepting "FORWARD" ("-i" ∷ name ∷ [])
    ∷ accepting "FORWARD" ("-o" ∷ name ∷ [])
    ∷ []

module _ (H : Host) (ipt : Iptables H) (rel : Reliable H ipt) where
  forget-drop :
      (rounds : ℕ) (chain : String) (spec : List String) (s : H.State)
      → forget H rounds chain spec s ≡ drop H ipt rounds (accepting chain spec) s
  unfolding forget
  forget-drop zero chain spec s = refl
  forget-drop (suc rounds) chain spec s =
      rw (forget-drop rounds chain spec (ran H ipt "-D" (accepting chain spec) s).after)

  rules-forget :
      (rounds : ℕ) (chain : String) (spec : List String) (s : H.State)
      → copies (accepting chain spec) (ipt.rules s) ≤ rounds
      → ipt.rules (forget H rounds chain spec s) ≡ cleared (accepting chain spec) (ipt.rules s)
  rules-forget rounds chain spec s few =
      ap ipt.rules (forget-drop rounds chain spec s)
      ∙ rules-drop H ipt rel rounds (accepting chain spec) s few

  rules-ip : (args : List String) (s : H.State) → ipt.rules (ip H args s).1 ≡ ipt.rules s
  unfolding ip
  rules-ip args s = fun_ext λ t. fun_ext λ c. ipt.ip_same args s t c

  -- Where iptables fails only for the documented reasons, and no more than eight copies of each rule
  -- that names the link have piled up, Remove of a link with a name takes all of them out and
  -- changes no other rule.
  pub rules-remove :
      (name : String) (s : H.State)
      → is_nil name ≡ false
      → Few (link_rules name) (ipt.rules s)
      → ipt.rules (remove H name s) ≡ cleared_all (link_rules name) (ipt.rules s)
  unfolding remove forward_specs each
  rules-remove name s named (a, (b, (c, _))) =
      let i : List String = "-i" ∷ name ∷ [] in
      let o : List String = "-o" ∷ name ∷ [] in
      let r₁ = accepting "INPUT" i in
      let r₂ = accepting "FORWARD" i in
      let r₃ = accepting "FORWARD" o in
      let m = ipt.rules s in
      let s₁ = forget H 8 "INPUT" i s in
      let s₂ = forget H 8 "FORWARD" i s₁ in
      let s₃ = forget H 8 "FORWARD" o s₂ in
      let e₁ = rules-forget 8 "INPUT" i s a in
      let e₂ =
        rules-forget 8 "FORWARD" i s₁ (rw e₁ (omega (arith, copies-cleared r₂ r₁ m)))
        ∙ ap (cleared r₂) e₁ in
      let e₃ =
        rules-forget 8 "FORWARD" o s₂
          (rw e₂ (omega (arith, copies-cleared r₃ r₂ (cleared r₁ m), copies-cleared r₃ r₁ m)))
        ∙ ap (cleared r₃) e₂ in
      rw named (rules-ip ("link" ∷ "del" ∷ name ∷ []) s₃ ∙ e₃)
