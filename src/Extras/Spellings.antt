-- ===== src/Extras/Spellings.antt =====
-- What extras/extras.go relies on of iptables for the chain of its NAT entries: its documented
-- behaviour, with the several spellings that it knows for one rule.
use exnode.Base.{
  String, Bool, true, false, ◌≡◌, List, [], ◌∷◌, ◌++◌, Option, none, some, string_eq, list_eq,
  contains, erase, ◌==◌,
}
use exnode.Host.{Host}
use exnode.Host.Iptables.{command, replaced}

-- The arguments in which iptables is called for one entry.
abbrev pub nat_command : String → List String → List String
nat_command action args = command action "nat" "POSTROUTING" args

abbrev pub changed_chain :
    List (List String)
    → (String → String → List (List String))
    → String
    → String
    → List (List String)
changed_chain = replaced "nat" "POSTROUTING"

-- A machine whose iptables reads the arguments of an entry as a rule, which it keeps in a spelling of
-- its own: `--source` is `-s`, `--destination` is `-d`, and so on. It fails only for the documented
-- reasons: arguments that it cannot read, and a rule that is not there.
pub record Spellings (H : Host) : Type 1 where
  -- the rules of a table's chain, in order, in the spelling of iptables
  pub rules : H.State → String → String → List (List String)
  -- the rule that the arguments stand for, `none` for arguments that are refused
  pub read : List String → Option (List String)
  pub refused :
      (a : List String) (s : H.State)
      → read a ≡ none
      → ((H.run (nat_command "-C" a) s).ok ≡ false)
        × ((H.run (nat_command "-A" a) s).ok ≡ false)
        × ((H.run (nat_command "-D" a) s).ok ≡ false)
  -- `-C` exits with 0 exactly if the rule is there, and changes nothing
  pub check_ok :
      {b : List String} (a : List String) (s : H.State)
      → read a ≡ some b
      → (H.run (nat_command "-C" a) s).ok ≡ contains (rules s "nat" "POSTROUTING") b
  pub check_same :
      (a : List String) (s : H.State) (t c : String)
      → rules (H.run (nat_command "-C" a) s).after t c ≡ rules s t c
  -- `-A` puts the rule last, and `-D` takes the first copy out
  pub append_ok :
      {b : List String} (a : List String) (s : H.State)
      → read a ≡ some b
      → (H.run (nat_command "-A" a) s).ok ≡ true
  pub append :
      {b : List String} (a : List String) (s : H.State) (t c : String)
      → read a ≡ some b
      → rules (H.run (nat_command "-A" a) s).after t c
        ≡ changed_chain (rules s "nat" "POSTROUTING" ++ b ∷ []) (rules s) t c
  pub delete_ok :
      {b : List String} (a : List String) (s : H.State)
      → read a ≡ some b
      → (H.run (nat_command "-D" a) s).ok ≡ contains (rules s "nat" "POSTROUTING") b
  pub delete :
      {b : List String} (a : List String) (s : H.State) (t c : String)
      → read a ≡ some b
      → contains (rules s "nat" "POSTROUTING") b ≡ true
      → rules (H.run (nat_command "-D" a) s).after t c
        ≡ changed_chain (erase b (rules s "nat" "POSTROUTING")) (rules s) t c
  -- with another exit status than 0 the two leave the rules alone
  pub append_failed :
      (a : List String) (s : H.State) (t c : String)
      → (H.run (nat_command "-A" a) s).ok ≡ false
      → rules (H.run (nat_command "-A" a) s).after t c ≡ rules s t c
  pub delete_failed :
      (a : List String) (s : H.State) (t c : String)
      → (H.run (nat_command "-D" a) s).ok ≡ false
      → rules (H.run (nat_command "-D" a) s).after t c ≡ rules s t c

-- The arguments stand for the rule.
abbrev pub spells : (List String → Option (List String)) → List String → List String → Bool
spells read a b = elim (read a) [ none ↦ false | some r ↦ r == b ]

-- No two argument lists of the list are spellings of one rule.
abbrev pub OneSpelling : (List String → Option (List String)) → List (List String) → Type 0
OneSpelling read l =
    (a a' b : List String)
    → contains l a ≡ true
    → contains l a' ≡ true
    → spells read a b ≡ true
    → spells read a' b ≡ true
    → a ≡ a'
