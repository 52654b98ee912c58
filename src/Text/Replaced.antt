-- ===== src/Text/Replaced.antt =====
-- What strings.ReplaceAll leaves of a text where it puts a mark in brackets in its place.
use Prim.Native.Char.{Char, code}
use Prim.Native.String.{count}
use text.Mathlib.TextLemmas.{nil-append, cons-append, append_assoc}
use exnode.Base.{
  ℕ, zero, suc, ◌-◌, String, Bool, true, false, ◌&&◌, ◌||◌, not, ◌≡◌, refl, sym, ap, ◌∙◌, nat_beq,
  if_false, Bool-cases, inl, inr, arith,
}
use exnode.Text.{◌<>◌, is_nil, has_prefix, has_infix, replace_from, replace_all}

abbrev pub lacks : ℕ → String → Bool
lacks k String.[] = true
lacks k (String.◌∷◌ c s) = not (nat_beq (code c) k) && lacks k s

module _ (m : Char) where
  other_front :
      (rest h : String)
      → lacks (code m) h ≡ true
      → is_nil h ≡ false
      → has_prefix (String.◌∷◌ m rest) h ≡ false
  unfolding has_prefix
  other_front rest String.[] free full = cc
  other_front rest (String.◌∷◌ d h) free full = ground arith

  -- A text that lacks a character and stands at the front of a text with one stands before it.
  prefix_before :
      (w rest h : String)
      → lacks (code m) h ≡ true
      → has_prefix (w <> String.◌∷◌ m rest) h ≡ has_prefix w h
  unfolding has_prefix
  prefix_before w rest String.[] free = refl
  prefix_before String.[] rest (String.◌∷◌ d h) free =
      rw (nil-append (String.◌∷◌ m rest)) (other_front rest (String.◌∷◌ d h) free refl)
  prefix_before (String.◌∷◌ c w) rest (String.◌∷◌ d h) free =
      rw (cons-append c w (String.◌∷◌ m rest)) (ground (arith, prefix_before w rest h))

  pub infix_apart :
      (w rest h : String)
      → lacks (code m) h ≡ true
      → is_nil h ≡ false
      → has_infix (w <> String.◌∷◌ m rest) h ≡ (has_infix w h || has_infix rest h)
  unfolding has_infix
  infix_apart String.[] rest h free full =
      rw (nil-append (String.◌∷◌ m rest), other_front rest h free full, full) refl
  infix_apart (String.◌∷◌ c w) rest h free full =
      let front =
        ap (λ t. has_prefix t h) (sym (cons-append c w (String.◌∷◌ m rest)))
        ∙ prefix_before (String.◌∷◌ c w) rest h free in
      rw (cons-append c w (String.◌∷◌ m rest)) (ground (arith, infix_apart w rest h free full))

-- A text in brackets, put in the place of another one.
module _ (o c : Char) (w new h : String)
    (shape : (rest : String) → new <> rest ≡ String.◌∷◌ o (w <> String.◌∷◌ c rest))
    (no_open : lacks (code o) h ≡ true) (no_close : lacks (code c) h ≡ true) where
  -- Where a text without the bracket stands in the outcome, it stood in the original.
  prefix_kept :
      (s g : String)
      → lacks (code o) g ≡ true
      → has_prefix s g ≡ false
      → has_prefix (replace_from zero s h new) g ≡ false
  unfolding has_prefix replace_from
  prefix_kept s String.[] free h = cc
  prefix_kept String.[] (String.◌∷◌ d g) free h = refl
  prefix_kept (String.◌∷◌ a s) (String.◌∷◌ d g) free none_there =
      elim (Bool-cases (has_prefix (String.◌∷◌ a s) h)) [
        | inl hit ↦
            rw (hit, shape (replace_from (count h - 1) s h new))
              (other_front o _ (String.◌∷◌ d g) free refl)
        | inr miss ↦ rw miss (ground (arith, prefix_kept s g))
      ]

  kept_on :
      (a : Char) (s : String)
      → has_prefix (String.◌∷◌ a s) h ≡ false
      → has_prefix (String.◌∷◌ a (replace_from zero s h new)) h ≡ false
  unfolding replace_from
  kept_on a s miss =
      ap (λ t. has_prefix t h) (sym (if_false (has_prefix (String.◌∷◌ a s) h) _ _ miss))
      ∙ prefix_kept (String.◌∷◌ a s) h no_open miss

  scrubbed :
      (skip : ℕ) (s : String)
      → is_nil h ≡ false
      → has_infix w h ≡ false
      → has_infix (replace_from skip s h new) h ≡ false
  unfolding has_infix replace_from
  scrubbed skip String.[] full outside = full
  scrubbed (suc k) (String.◌∷◌ a s) full outside = scrubbed k s full outside
  scrubbed zero (String.◌∷◌ a s) full outside = elim (Bool-cases (has_prefix (String.◌∷◌ a s) h)) [
    | inl hit ↦
        let rest = replace_from (count h - 1) s h new in
        rw (hit, shape rest)
          (ground (
            arith,
            other_front o (w <> String.◌∷◌ c rest) h no_open full,
            infix_apart c w rest h no_close full,
            scrubbed (count h - 1) s full outside,
          ))
    | inr miss ↦ rw miss (ground (arith, kept_on a s miss, scrubbed zero s full outside))
  ]

-- The mark that panel/client.go puts in the place of what it hides.
pub panel_mark :
    (rest : String) → "[panel]" <> rest ≡ String.◌∷◌ "[" ("panel" <> String.◌∷◌ "]" rest)
panel_mark rest =
    cons-append "[" "panel]" rest
    ∙ ap (String.◌∷◌ "[") (
        append_assoc "panel" "]" rest
        ∙ ap (◌<>◌ "panel") (cons-append "]" "" rest ∙ ap (String.◌∷◌ "]") (nil-append rest)))

-- No occurrence of a text is left once all are replaced by the mark, unless brackets stand in it or
-- it stands in the mark.
pub has_infix-replace_all :
    (s h : String)
    → is_nil h ≡ false
    → lacks b'[' h ≡ true
    → lacks b']' h ≡ true
    → has_infix "panel" h ≡ false
    → has_infix (replace_all s h "[panel]") h ≡ false
unfolding replace_all
has_infix-replace_all s h full no_open no_close outside =
    scrubbed "[" "]" "panel" "[panel]" h panel_mark no_open no_close zero s full outside
