-- ===== src/Host/Iptables.antt =====
-- What the program relies on of the iptables command: its documented behaviour on rules of a chain,
-- which are told apart by their arguments as the agent writes them, in one spelling for a rule. Where
-- the arguments are an operator's, of whatever spelling, Extras.Spellings takes the place of this.
use exnode.Base.{
  String, ◌&&◌, true, false, ◌≡◌, List, [], ◌∷◌, ◌++◌, if◌then◌else◌, ◌==◌, string_eq, list_eq,
  contains, erase,
}
use exnode.Text.{is_nil}
use exnode.Host.{Host}

-- `iptables [-t TABLE] ACTION CHAIN ARGS`; the empty table stands for no `-t`, the filter table.
abbrev pub command : String → String → String → List String → List String
command action table chain args =
    "iptables"
    ∷ (if is_nil table then action ∷ chain ∷ args else "-t" ∷ table ∷ action ∷ chain ∷ args)

-- The rules of a chain, when one chain of one table has been given new ones.
abbrev pub replaced :
    String
    → String
    → List (List String)
    → (String → String → List (List String))
    → String
    → String
    → List (List String)
replaced table chain new old t c = if table == t && chain == c then new else old t c

pub record Iptables (H : Host) : Type 1 where
  -- the rules of a table's chain, in order, each as its match and target arguments
  pub rules : H.State → String → String → List (List String)
  -- `-C` exits with 0 exactly if the rule is there, and changes nothing
  pub check_ok :
      (t c : String) (a : List String) (s : H.State)
      → (H.run (command "-C" t c a) s).ok ≡ contains (rules s t c) a
  pub check_same :
      (t c : String) (a : List String) (s : H.State) (t' c' : String)
      → rules (H.run (command "-C" t c a) s).after t' c' ≡ rules s t' c'
  -- `-A` puts the rule last, `-I` first, and `-D` takes the first copy out; with another exit
  -- status than 0 they leave the rules alone
  pub append :
      (t c : String) (a : List String) (s : H.State) (t' c' : String)
      → rules (H.run (command "-A" t c a) s).after t' c' ≡ (
          if (H.run (command "-A" t c a) s).ok
          then replaced t c (rules s t c ++ a ∷ []) (rules s) t' c'
          else rules s t' c')
  pub insert :
      (t c : String) (a : List String) (s : H.State) (t' c' : String)
      → rules (H.run (command "-I" t c a) s).after t' c' ≡ (
          if (H.run (command "-I" t c a) s).ok
          then replaced t c (a ∷ rules s t c) (rules s) t' c'
          else rules s t' c')
  pub delete :
      (t c : String) (a : List String) (s : H.State) (t' c' : String)
      → rules (H.run (command "-D" t c a) s).after t' c' ≡ (
          if (H.run (command "-D" t c a) s).ok
          then replaced t c (erase a (rules s t c)) (rules s) t' c'
          else rules s t' c')
  -- `-D` of a rule that is not there fails
  pub delete_absent :
      (t c : String) (a : List String) (s : H.State)
      → contains (rules s t c) a ≡ false
      → (H.run (command "-D" t c a) s).ok ≡ false
  -- the ip command and the files under /proc have no part in the rules
  pub ip_same :
      (args : List String) (s : H.State) (t c : String)
      → rules (H.run ("ip" ∷ args) s).after t c ≡ rules s t c
  pub write_same :
      (path text : String) (s : H.State) (t c : String)
      → rules (H.write_file path text s).1 t c ≡ rules s t c

-- A machine on which a command of iptables fails only for the documented reason: a rule can always
-- be added, and a rule that is there can always be deleted.
pub record Reliable (H : Host) (ipt : Iptables H) : Type 0 where
  pub append_ok :
      (t c : String) (a : List String) (s : H.State) → (H.run (command "-A" t c a) s).ok ≡ true
  pub insert_ok :
      (t c : String) (a : List String) (s : H.State) → (H.run (command "-I" t c a) s).ok ≡ true
  pub delete_ok :
      (t c : String) (a : List String) (s : H.State)
      → contains (ipt.rules s t c) a ≡ true
      → (H.run (command "-D" t c a) s).ok ≡ true
