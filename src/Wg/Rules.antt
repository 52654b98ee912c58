-- ===== src/Wg/Rules.antt =====
-- wg/nat.go: one iptables rule, and how it is put in place and taken away.
pub mod Effect
use exnode.Base.{String, Bool, true, ◌≡◌, List, [], ◌∷◌, ◌++◌, if◌then◌else◌}
use exnode.Text.{is_nil}
use exnode.Host.{Host}

pub record Rule : Type 0 where
  pub table : String
  pub chain : String
  pub args : List String

unfoldable pub iptables_args : String → Rule → List String
iptables_args action r =
    (if is_nil r.table then [] else "-t" ∷ r.table ∷ []) ++ ((action ∷ r.chain ∷ []) ++ r.args)

module _ (H : Host) where
  -- runIptables; `true` is no error.
  unfoldable pub run_iptables : List String → H.State → Bool × H.State
  run_iptables args s = let r = H.run ("iptables" ∷ args) s in (r.ok, r.after)

  unfoldable pub ensure_rule : Rule → H.State → Bool × H.State
  unfolding run_iptables
  ensure_rule r s =
      let (present, s') = run_iptables (iptables_args "-C" r) s in
      if present then (true, s') else run_iptables (iptables_args "-A" r) s'

  unfoldable pub delete_rule : Rule → H.State → Bool × H.State
  unfolding run_iptables
  delete_rule r s =
      let (present, s') = run_iptables (iptables_args "-C" r) s in
      if present then run_iptables (iptables_args "-D" r) s' else (true, s')
