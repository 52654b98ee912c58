-- ===== src/Text/Fields.antt =====
-- strings.Fields, and the round trip of `fields` and `join`.
use Prim.Native.Char.{Char}
use text.Mathlib.TextLemmas.{nil-append, cons-append, append-nil}
use exnode.Base.{
  String, ◌≡◌, refl, sym, ap, ◌∙◌, Bool, true, false, ◌&&◌, not, List, [], ◌∷◌, if◌then◌else◌, all,
  &&_true, not-true, ◌==◌, string_eq, list_eq, Bool-cases, inl, inr, beq→eq, eq→beq, beq_true,
  beq_false,
}
use exnode.Text.{◌<>◌, is_blank, is_space, is_nil, join}

-- A finished word joins the words behind it, unless it is empty.
abbrev pub emit : String → List String → List String
emit w ws = if is_nil w then ws else w ∷ ws

abbrev extend : Bool → Char → String × List String → String × List String
extend true c r = ("", emit r.0 r.1)
extend false c r = (String.◌∷◌ c r.0, r.1)

-- The word that a text begins with, and the words behind it.
pub scan : String → String × List String
scan String.[] = ("", [])
scan (String.◌∷◌ c s) = extend (is_blank c) c (scan s)

unfoldable pub fields : String → List String
unfolding scan is_space
fields s = emit (scan s).0 (scan s).1

-- No character of a word is white space.
abbrev pub solid : String → Bool
solid String.[] = true
solid (String.◌∷◌ c s) = not (is_blank c) && solid s

abbrev pub is_word : String → Bool
is_word w = not (is_nil w) && solid w

emit_words :
    (w : String) (ws : List String)
    → solid w ≡ true
    → all is_word ws ≡ true
    → all is_word (emit w ws) ≡ true
emit_words String.[] ws h k = k
emit_words (String.◌∷◌ c s) ws h k = rw (h, k)

extend_words :
    (b : Bool) (c : Char) (r : String × List String)
    → is_blank c ≡ b
    → solid r.0 ≡ true
    → all is_word r.1 ≡ true
    → (solid (extend b c r).0 ≡ true) × (all is_word (extend b c r).1 ≡ true)
extend_words true c r e h k = (refl, emit_words r.0 r.1 h k)
extend_words false c r e h k = (rw (e, h), k)

scan_words : (s : String) → (solid (scan s).0 ≡ true) × (all is_word (scan s).1 ≡ true)
unfolding scan
scan_words String.[] = (refl, refl)
scan_words (String.◌∷◌ c s) =
    extend_words (is_blank c) c (scan s) refl (scan_words s).0 (scan_words s).1

-- The fields of a text are words: not empty, and without white space.
pub fields_words : (s : String) → all is_word (fields s) ≡ true
unfolding fields
fields_words s = emit_words (scan s).0 (scan s).1 (scan_words s).0 (scan_words s).1

scan_blank : (c : Char) (s : String) → is_blank c ≡ true → scan (String.◌∷◌ c s) ≡ ("", fields s)
unfolding scan fields
scan_blank c s h = rw h

scan-solid : (w s : String) → solid w ≡ true → scan (w <> s) ≡ (w <> (scan s).0, (scan s).1)
unfolding scan
scan-solid String.[] s h = simp nil-append
scan-solid (String.◌∷◌ c w) s h =
    let (light, rest) = &&_true (not (is_blank c)) (solid w) h in
    simp (cons-append, not-true (is_blank c) light, scan-solid w s rest)

scan-word : (w : String) → solid w ≡ true → scan w ≡ (w, [])
unfolding scan
scan-word w h = ap scan (sym (append-nil w)) ∙ scan-solid w "" h ∙ ap (λ t. (t, [])) (append-nil w)

emit_word : (w : String) (ws : List String) → is_word w ≡ true → emit w ws ≡ w ∷ ws
emit_word String.[] ws h = cc
emit_word (String.◌∷◌ c w) ws h = refl

abbrev space : Char
space = Char.char 32 tt

scan_space : (s : String) → scan (" " <> s) ≡ ("", fields s)
unfolding is_space
scan_space s =
    ap scan (cons-append space "" s ∙ ap (String.◌∷◌ space) (nil-append s))
    ∙ scan_blank space s refl

fields_word : (w s : String) → is_word w ≡ true → fields (w <> " " <> s) ≡ w ∷ fields s
unfolding fields
fields_word w s h =
    let solid_w = (&&_true (not (is_nil w)) (solid w) h).1 in
    simp (scan-solid w (" " <> s) solid_w, scan_space, append-nil) (emit_word w (fields s) h)

-- Words joined by a space are the fields of the text: `strings.Join(words, " ")` loses nothing.
pub fields-join : (ws : List String) → all is_word ws ≡ true → fields (join ws " ") ≡ ws
unfolding fields join
fields-join [] h = refl
fields-join (w ∷ []) h =
    let word = (&&_true (is_word w) true h).0 in
    rw (scan-word w (&&_true (not (is_nil w)) (solid w) word).1) (emit_word w [] word)
fields-join (w ∷ v ∷ ws) h =
    let (word, rest) = &&_true (is_word w) (all is_word (v ∷ ws)) h in
    fields_word w (join (v ∷ ws) " ") word ∙ ap (◌∷◌ w) (fields-join (v ∷ ws) rest)

-- Lists of words are told apart by their text.
pub join_beq :
    (v w : List String)
    → all is_word v ≡ true
    → all is_word w ≡ true
    → (join v " " == join w " ") ≡ (v == w)
join_beq v w h k = elim (Bool-cases (v == w)) [
  | inl eq ↦ eq→beq (join v " ") (join w " ") (ap (λ f. join f " ") (beq→eq v w eq)) ∙ sym eq
  | inr differ ↦
      beq_false (join v " ") (join w " ")
        (λ p. beq_true v w differ (sym (fields-join v h) ∙ ap fields p ∙ fields-join w k))
      ∙ sym differ
]

-- Rules, each as its words.
unfoldable pub all_words : List (List String) → Bool
all_words [] = true
all_words (args ∷ more) = all is_word args && all_words more
