-- ===== src/Tests/Removed.antt =====
-- engine/kernel.go, Apply on the machine's links: a run and a witness.
use exnode.Base.{
  String, true, false, ◌&&◌, ◌||◌, not, ◌≡◌, refl, List, [], ◌∷◌, none, some, keep, contains,
  string_eq, ◌==◌, Bool-cases, inl, inr, arith, sym, beq→eq,
}
use exnode.Host.{Host}
use exnode.Text.{trim_space, split, has_prefix, is_space}
use exnode.Text.Fields.{fields}
use exnode.Wg.{Interface}
use exnode.Wg.Policy.{policy_lines}
use exnode.Wg.Network.{Links}
use exnode.Wg.Kernel.{Kernel}
use exnode.Wg.Kernel.LinkTable.{LinkTable}
use exnode.Engine.{interface_names, apply}
use exnode.Engine.Untouched.{only_routing, no_policy}
use exnode.Engine.Removed.{all_routing, apply_removes}
use exnode.Tests.Engine.{formats}
use exnode.Tests.Machine.{addresses, uplink, home}

-- A machine with names of links and nothing else.
abbrev linked : Host
linked = record {
  State = List String;
  run = λ args s. record { ok = true; stdout = ""; combined = ""; after = s };
  read_file = λ path s. none;
  write_file = λ path text s. (true, s);
}

abbrev routes : Links linked addresses
routes = record {
  view = λ s. uplink;
  iptables_same = λ args s. refl;
  write_same = λ path text s. refl;
}

abbrev without : String → List String → List String
without name s = keep (λ n. not (name == n)) s

contains-without :
    (name : String) (s : List String) (t : String)
    → contains (without name s) t ≡ (contains s t && not (name == t))
unfolding contains keep
contains-without name [] t = refl
contains-without name (n ∷ s) t = elim (Bool-cases (name == n)) [
  | inl gone ↦ rw (gone, sym (beq→eq name n gone)) (ground (arith, contains-without name s t))
  | inr stays ↦ rw stays (elim (Bool-cases (n == t)) [
    | inl here ↦ rw (here, sym (beq→eq n t here), stays) refl
    | inr other ↦ rw other (contains-without name s t)
  ])
]

abbrev kernel : Kernel linked formats
kernel = record {
  link_by_name = λ name s. contains s name;
  link_add = λ name mtu s. (true, name ∷ s);
  link_del = λ name s. (true, without name s);
  addr_replace = λ name addr s. (true, s);
  link_set_up = λ name s. (true, s);
  client = λ s. true;
  configure_device = λ name key port s. (true, s);
  configure_peers = λ name configs s. (true, s);
  device = λ name s. some [];
}

added :
    (name : String) (s : List String) (t : String)
    → contains (name ∷ s) t ≡ (contains s t || name == t)
unfolding contains
added name s t = ground arith

abbrev table : LinkTable linked formats kernel
table = record {
  added = λ name mtu s t. added name s t;
  deleted = λ name s t here. contains-without name s t;
  addr_same = λ name a s t. refl;
  up_same = λ name s t. refl;
  device_same = λ name key port s t. refl;
  peers_same = λ name configs s t. refl;
  iptables_same = λ args s t. refl;
  ip_same = λ object args s t h. refl;
  write_same = λ path text s t. refl;
}

abbrev guest : Interface
guest = record home { name = "wg1"; policy_routes = "ip rule add from 10.9.0.0/24 table 7" }

all_routes : all_routing (home ∷ guest ∷ []) ≡ true
unfolding all_routing only_routing policy_lines contains fields is_space trim_space has_prefix split
all_routes = refl

one_routes : all_routing (home ∷ []) ≡ true
unfolding all_routing
one_routes = ground (arith, no_policy)

not_wanted : contains (interface_names (home ∷ [])) "wg1" ≡ false
unfolding contains
not_wanted = refl

wanted : contains (interface_names (home ∷ [])) "wg0" ≡ true
unfolding contains
wanted = refl

abbrev before : List String
before = "wg0" ∷ "wg1" ∷ []

stands : contains before "wg0" ≡ true
unfolding contains
stands = refl

apply_removes_example :
    (let (ok, next, after) =
        apply linked addresses routes formats kernel (home ∷ []) (home ∷ guest ∷ []) before in
      (contains after "wg1" ≡ (contains before "wg1" && not (contains before "wg1")))
      × (contains after "wg0" ≡ true))
apply_removes_example =
    apply_removes linked addresses routes formats kernel table (home ∷ []) (home ∷ guest ∷ [])
      before "wg1" "wg0" one_routes all_routes not_wanted wanted stands
