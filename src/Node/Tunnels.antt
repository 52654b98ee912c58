-- ===== src/Node/Tunnels.antt =====
-- The overlay links that a sync asks for.
use mathlib.Core.Path.{ap₂}
use text.Mathlib.TextEquality.{eq_iff}
use exnode.Base.{
  is_empty, none, some, Option, if◌then◌else◌, false, String, Bool, true, ◌&&◌, ◌||◌, not, ◌≡◌,
  refl, ap, ◌∙◌, List, [], ◌∷◌, ◌++◌, all, any, contains, keep-all, contains-append, ◌==◌,
  string_eq, Bool-cases, inl, inr, arith,
}
use exnode.Text.{is_nil}
use exnode.Overlay.{Config, names, has_name, plan}
use exnode.Panel.{Tunnel, Device}
use exnode.Node.{tunnels_of, configs_of, overlay_configs}

-- A tunnel by its name.
abbrev pub called : String → Tunnel → Bool
called name t = t.name == name

all-append :
    (p : Config → Bool) (xs ys : List Config)
    → all p xs ≡ true
    → all p ys ≡ true
    → all p (xs ++ ys) ≡ true
all-append p [] ys h k = k
all-append p (x ∷ xs) ys h k = ground (arith, all-append p xs ys)

names-append : (xs ys : List Config) → names (xs ++ ys) ≡ names xs ++ names ys
names-append [] ys = refl
names-append (x ∷ xs) ys = ap (◌∷◌ x.name) (names-append xs ys)

named_configs : (d : Device) (tunnels : List Tunnel) → all has_name (configs_of d tunnels) ≡ true
unfolding configs_of
named_configs d [] = refl
named_configs d (t ∷ tunnels) = elim (Bool-cases (is_nil t.name)) [
  | inl blank ↦ rw blank (named_configs d tunnels)
  | inr named ↦ rw named (rw named (named_configs d tunnels))
]

pub named_all : (devices : List Device) → all has_name (overlay_configs devices) ≡ true
unfolding overlay_configs
named_all [] = refl
named_all (d ∷ devices) =
    all-append has_name (configs_of d (tunnels_of d)) (overlay_configs devices)
      (named_configs d (tunnels_of d)) (named_all devices)

nil_of_eq : (s t : String) → s ≡ t → is_nil s ≡ is_nil t
nil_of_eq s t p = ap is_nil p

configs_exact :
    (d : Device) (tunnels : List Tunnel) (name : String)
    → contains (names (configs_of d tunnels)) name
      ≡ (not (is_nil name) && any (called name) tunnels)
unfolding configs_of contains
configs_exact d [] name = ground arith
configs_exact d (t ∷ tunnels) name = elim (Bool-cases (is_nil t.name)) [
  | inl blank ↦
      rw blank
        (ground (arith, configs_exact d tunnels name, nil_of_eq t.name name, eq_iff t.name name))
  | inr named ↦
      rw named
        (ground (arith, configs_exact d tunnels name, nil_of_eq t.name name, eq_iff t.name name))
]

distributes : (n a b : Bool) → ((n && a) || (n && b)) ≡ (n && (a || b))
distributes n a b = ground arith

all_exact :
    (devices : List Device) (name : String)
    → contains (names (overlay_configs devices)) name
      ≡ (not (is_nil name) && any (λ d. any (called name) (tunnels_of d)) devices)
unfolding overlay_configs contains
all_exact [] name = ground arith
all_exact (d ∷ devices) name =
    ap (λ l. contains l name) (names-append (configs_of d (tunnels_of d)) (overlay_configs devices))
    ∙ contains-append (names (configs_of d (tunnels_of d))) (names (overlay_configs devices)) name
    ∙ ap₂ ◌||◌ (configs_exact d (tunnels_of d) name) (all_exact devices name)
    ∙ distributes (not (is_nil name)) _ _

-- The panel asks for a tunnel of the name on the device: its list has one, or the list is empty and
-- the field of older panels is such a tunnel.
abbrev pub offers : String → Device → Bool
offers name d =
    any (called name) d.tunnels
    || (is_empty d.tunnels && elim d.vxlan [ none ↦ false | some t ↦ called name t ])

any-tunnels_of : (name : String) (d : Device) → any (called name) (tunnels_of d) ≡ offers name d
unfolding tunnels_of
any-tunnels_of name d = by_fields d.tunnels d.vxlan
  where
    by_fields :
        (tunnels : List Tunnel) (old : Option Tunnel)
        → any
            (called name)
            (if is_empty tunnels then elim old [ none ↦ [] | some t ↦ t ∷ [] ] else tunnels)
          ≡ (any (called name) tunnels
              || (is_empty tunnels && elim old [ none ↦ false | some t ↦ called name t ]))
    by_fields [] none = refl
    by_fields [] (some t) = ground arith
    by_fields (t ∷ tunnels) old = ground arith

any-offers :
    (name : String) (devices : List Device)
    → any (λ d. any (called name) (tunnels_of d)) devices ≡ any (offers name) devices
any-offers name [] = refl
any-offers name (d ∷ devices) = rw (any-tunnels_of name d, any-offers name devices) refl

-- A name other than "" is that of an overlay link exactly where a device of the panel has a tunnel
-- of that name, in its list or, where the list is empty, in the field of older panels; and every
-- overlay link of a sync has a name, so the plan puts all of them in place.
pub overlay_configs_exact :
    (devices : List Device) (prev : List Config) (name : String)
    → (contains (names (overlay_configs devices)) name
        ≡ (not (is_nil name) && any (offers name) devices))
      × ((plan prev (overlay_configs devices)).1 ≡ overlay_configs devices)
unfolding plan
overlay_configs_exact devices prev name = (
  all_exact devices name ∙ ap (◌&&◌ (not (is_nil name))) (any-offers name devices),
  keep-all has_name (overlay_configs devices) (named_all devices),
)
