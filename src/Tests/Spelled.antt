-- ===== src/Tests/Spelled.antt =====
-- A machine whose iptables knows four options by two names each.
use exnode.Base.{
  String, Bool, true, false, ◌≡◌, refl, ap, ◌∙◌, List, [], ◌∷◌, ◌++◌, none, some, some_eq, map,
  if◌then◌else◌, ◌==◌, string_eq, list_eq, contains, erase,
}
use exnode.Host.{Ran, Host}
use exnode.Host.Iptables.{replaced}
use exnode.Host.Toy.{toy, Rules}
use exnode.Extras.Spellings.{Spellings, nat_command}

abbrev pub short : String → String
short w =
    if w == "--source"
    then "-s"
    else if w == "--destination"
    then "-d"
    else if w == "--out-interface"
    then "-o"
    else if w == "--protocol"
    then "-p"
    else w

abbrev pub fluent : Host
fluent = record toy { run = λ argv s. toy.run (map short argv) s }

pub respelled : (a : List String) {r : List String} → some (map short a) ≡ some r → map short a ≡ r
respelled a h = some_eq h

pub never : (a : List String) {X : Type 0} → some (map short a) ≡ none → X
never a h = cc

pub untrue : {X : Type 0} → true ≡ false → X
untrue h = cc

delete_by :
    (here : Bool) (s s' : Rules) (t c : String)
    → let r : Ran Rules =
        if here
        then record { ok = true; stdout = ""; combined = ""; after = s' }
        else record { ok = false; stdout = ""; combined = ""; after = s } in
      (r.ok ≡ here) × (here ≡ true → r.after t c ≡ s' t c) × (r.ok ≡ false → r.after t c ≡ s t c)
delete_by true s s' t c = (refl, λ h. refl, λ h. cc)
delete_by false s s' t c = (refl, λ h. cc, λ h. refl)

abbrev pub out : List String → Rules → Rules
out r s = replaced "nat" "POSTROUTING" (erase r (s "nat" "POSTROUTING")) s

pub deleted :
    (a : List String) (s : Rules) (t c : String)
    → let r = fluent.run (nat_command "-D" a) s in
      let here = contains (s "nat" "POSTROUTING") (map short a) in
      (r.ok ≡ here)
      × (here ≡ true → r.after t c ≡ out (map short a) s t c)
      × (r.ok ≡ false → r.after t c ≡ s t c)
deleted a s t c =
    delete_by (contains (s "nat" "POSTROUTING") (map short a)) s (out (map short a) s) t c

abbrev pub spellings : Spellings fluent
spellings = record {
  rules = λ s. s;
  read = λ a. some (map short a);
  refused = λ a s h. never a h;
  check_ok = λ a s h. ap (contains (s "nat" "POSTROUTING")) (respelled a h);
  check_same = λ a s t c. refl;
  append_ok = λ a s h. refl;
  append = λ a s t c h.
      ap (λ r. replaced "nat" "POSTROUTING" (s "nat" "POSTROUTING" ++ r ∷ []) s t c)
        (respelled a h);
  delete_ok =
      λ a s h. (deleted a s "" "").0 ∙ ap (contains (s "nat" "POSTROUTING")) (respelled a h);
  delete = λ a s t c h here.
      (deleted a s t c).1 (ap (contains (s "nat" "POSTROUTING")) (respelled a h) ∙ here)
      ∙ ap (λ r. out r s t c) (respelled a h);
  append_failed = λ a s t c h. untrue h;
  delete_failed = λ a s t c. (deleted a s t c).2;
}
