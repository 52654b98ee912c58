-- ===== src/Main/Paths.antt =====
-- The configurations of sing-box do not clash: each panel's controller renders to a file of its own.
use text.Mathlib.TextLemmas.{append_cancel_left, append_cancel_right}
use exnode.Base.{
  ℕ, ◌≡◌, refl, sym, ap, ◌∙◌, String, true, List, [], ◌∷◌, map, contains, no_dups, ◌==◌, nat_eq,
  string_eq, beq_refl, beq_false, beq_true, beq→eq, Bool-cases, inl, inr,
}
use exnode.Text.{◌<>◌, is_nil, format_nat}
use exnode.Text.Decimal.{format_nat_inj}
use exnode.Conf.{SingboxConfig, PanelConfig, Conf, singbox_config}
use exnode.Main.{controllers}

abbrev node_path : ℕ → String
node_path node_id = "/etc/exnode/sing-box-node" <> format_nat node_id <> ".json"

node_path_inj : (m n : ℕ) → node_path m ≡ node_path n → m ≡ n
node_path_inj m n h = format_nat_inj m n (
    append_cancel_right (format_nat m) (format_nat n) ".json"
      (append_cancel_left "/etc/exnode/sing-box-node" _ _ h))

path_beq : (m n : ℕ) → (node_path m == node_path n) ≡ (m == n)
path_beq m n = elim (Bool-cases (m == n)) [
  | inl same ↦ rw (beq→eq m n same) (beq_refl (node_path n) ∙ sym (beq_refl n))
  | inr other ↦
      beq_false (node_path m) (node_path n) (λ p. beq_true m n other (node_path_inj m n p))
      ∙ sym other
]

abbrev pub node_ids : Conf → List ℕ
node_ids c = map (λ p. p.node_id) c.nodes

abbrev pub config_paths : List (PanelConfig × SingboxConfig) → List String
config_paths = map (λ start. start.1.config_path)

contains-paths :
    (ids : List ℕ) (n : ℕ) → contains (map node_path ids) (node_path n) ≡ contains ids n
unfolding contains
contains-paths [] n = refl
contains-paths (m ∷ ids) n = rw (path_beq m n, contains-paths ids n) refl

no_dups-map : (ids : List ℕ) → no_dups (map node_path ids) ≡ no_dups ids
no_dups-map [] = refl
no_dups-map (n ∷ ids) = rw (contains-paths ids n, no_dups-map ids) refl

paths_of :
    (c : Conf) (nodes : List PanelConfig)
    → is_nil c.engine.singbox.config_path ≡ true
    → config_paths (map (λ p. (p, singbox_config c p.node_id)) nodes)
      ≡ map node_path (map (λ p. p.node_id) nodes)
unfolding singbox_config
paths_of c [] unset = refl
paths_of c (p ∷ nodes) unset = rw unset (ap (◌∷◌ (node_path p.node_id)) (paths_of c nodes unset))

-- Panels with different node ids: where the configuration names no file for sing-box, no two of
-- their controllers render to the same file.
pub config_paths_distinct :
    (c : Conf)
    → is_nil c.engine.singbox.config_path ≡ true
    → no_dups (node_ids c) ≡ true
    → no_dups (config_paths (controllers c)) ≡ true
unfolding controllers
config_paths_distinct c unset distinct =
    ap no_dups (paths_of c c.nodes unset) ∙ no_dups-map (node_ids c) ∙ distinct
