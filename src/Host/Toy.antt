-- ===== src/Host/Toy.antt =====
-- A machine with the rules of iptables and nothing else, on which the assumptions hold.
use exnode.Base.{
  String, Bool, true, false, ◌≡◌, refl, List, [], ◌∷◌, ◌++◌, none, if◌then◌else◌, ◌==◌, string_eq,
  list_eq, contains, erase, Bool-cases, inl, inr,
}
use exnode.Text.{◌<>◌, join}
use exnode.Host.{Ran, Host}
use exnode.Host.Iptables.{command, replaced, Iptables, Reliable}

abbrev pub Rules : Type 0
Rules = String → String → List (List String)

abbrev ran : Bool → Rules → Ran Rules
ran ok s = record { ok = ok; stdout = ""; combined = ""; after = s }

-- What `-S` prints of a chain: its policy, and a line for each rule.
listing : String → List (List String) → String
listing chain [] = ""
listing chain (a ∷ rules) = join ("-A" ∷ chain ∷ a) " " <> "\n" <> listing chain rules

unfoldable pub show_chain : String → List (List String) → String
unfolding listing
show_chain chain rules = "-P " <> chain <> " ACCEPT\n" <> listing chain rules

abbrev act : String → List String → Rules → Ran Rules
act t (action ∷ c ∷ a) s =
    if action == "-C"
    then ran (contains (s t c) a) s
    else if action == "-A"
    then ran true (replaced t c (s t c ++ a ∷ []) s)
    else if action == "-I"
    then ran true (replaced t c (a ∷ s t c) s)
    else if action == "-S"
    then record { ok = true; stdout = show_chain c (s t c); combined = ""; after = s }
    else if action == "-D"
    then (if contains (s t c) a then ran true (replaced t c (erase a (s t c)) s) else ran false s)
    else ran false s
act t _ s = ran false s

abbrev iptables : List String → Rules → Ran Rules
iptables (flag ∷ t ∷ args) s = if flag == "-t" then act t args s else act "" (flag ∷ t ∷ args) s
iptables args s = ran false s

abbrev toy_run : List String → Rules → Ran Rules
toy_run (name ∷ args) s = if name == "iptables" then iptables args s else ran true s
toy_run [] s = ran false s

abbrev pub toy : Host
toy = record {
  State = Rules;
  run = toy_run;
  read_file = λ path s. none;
  write_file = λ path text s. (true, s);
}

module _ (action : String) (not_flag : (action == "-t") ≡ false) where
  toy_command :
      (t c : String) (a : List String) (s : Rules)
      → toy_run (command action t c a) s ≡ act t (action ∷ c ∷ a) s
  toy_command String.[] c a s = rw not_flag
  toy_command (String.◌∷◌ x t) c a s = refl

pub toy_check :
    (t c : String) (a : List String) (s : Rules)
    → toy_run (command "-C" t c a) s ≡ ran (contains (s t c) a) s
toy_check t c a s = toy_command "-C" refl t c a s

pub toy_append :
    (t c : String) (a : List String) (s : Rules)
    → toy_run (command "-A" t c a) s ≡ ran true (replaced t c (s t c ++ a ∷ []) s)
toy_append t c a s = toy_command "-A" refl t c a s

pub toy_insert :
    (t c : String) (a : List String) (s : Rules)
    → toy_run (command "-I" t c a) s ≡ ran true (replaced t c (a ∷ s t c) s)
toy_insert t c a s = toy_command "-I" refl t c a s

pub toy_delete :
    (t c : String) (a : List String) (s : Rules)
    → toy_run (command "-D" t c a) s
      ≡ (if contains (s t c) a then ran true (replaced t c (erase a (s t c)) s) else ran false s)
toy_delete t c a s = toy_command "-D" refl t c a s

pub toy_delete_rules :
    (t c : String) (a : List String) (s : Rules) (t' c' : String)
    → (toy_run (command "-D" t c a) s).after t' c' ≡ (
        if (toy_run (command "-D" t c a) s).ok
        then replaced t c (erase a (s t c)) s t' c'
        else s t' c')
toy_delete_rules t c a s t' c' = elim (Bool-cases (contains (s t c) a)) [
  | inl here ↦ rw (toy_delete t c a s) (rw here)
  | inr gone ↦ rw (toy_delete t c a s) (rw gone)
]

abbrev pub toy_iptables : Iptables toy
toy_iptables = record {
  rules = λ s. s;
  check_ok = λ t c a s. rw (toy_check t c a s);
  check_same = λ t c a s t' c'. rw (toy_check t c a s);
  append = λ t c a s t' c'. rw (toy_append t c a s);
  insert = λ t c a s t' c'. rw (toy_insert t c a s);
  delete = toy_delete_rules;
  delete_absent = λ t c a s gone. rw (toy_delete t c a s) (rw gone);
  ip_same = λ args s t c. refl;
  write_same = λ path text s t c. refl;
}

pub toy-Reliable : Reliable toy toy_iptables
toy-Reliable = record {
  append_ok = λ t c a s. rw (toy_append t c a s);
  insert_ok = λ t c a s. rw (toy_insert t c a s);
  delete_ok = λ t c a s here. rw (toy_delete t c a s) (rw here);
}
