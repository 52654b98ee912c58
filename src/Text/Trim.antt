-- ===== src/Text/Trim.antt =====
-- strings.TrimSpace, HasPrefix and TrimPrefix on a text that begins with a known word.
use Prim.Native.Char.{Char, code}
use Prim.Native.String.{count}
use text.Mathlib.TextLemmas.{nil-append, cons-append, length-cons}
use exnode.Base.{
  String, true, false, not, ◌≡◌, refl, ap, ◌∙◌, &&_true, not-true, nat_beq, nat_eq, beq_refl,
}
use exnode.Text.{
  is_blank, is_nil, trim_left, trim_right, trim_space, trim_prefix, has_prefix, drop_chars,
  put_kept, ◌<>◌,
}
use exnode.Text.Fields.{solid}

put_solid : (c : Char) (s : String) → is_blank c ≡ false → put_kept c s ≡ String.◌∷◌ c s
put_solid c String.[] h = rw h
put_solid c (String.◌∷◌ d s) h = refl

trim_right-concat :
    (w t : String) → solid w ≡ true → trim_right t ≡ t → trim_right (w <> t) ≡ w <> t
unfolding trim_right
trim_right-concat String.[] t h k = rw (nil-append t) k
trim_right-concat (String.◌∷◌ c w) t h k =
    let (mark, rest) = &&_true (not (is_blank c)) (solid w) h in
    rw (cons-append c w t) (
      ap (put_kept c) (trim_right-concat w t rest k)
      ∙ put_solid c (w <> t) (not-true (is_blank c) mark))

pub trim_right_cons :
    (c : Char) (s : String)
    → is_nil s ≡ false
    → trim_right s ≡ s
    → trim_right (String.◌∷◌ c s) ≡ String.◌∷◌ c s
unfolding trim_right
trim_right_cons c String.[] n h = cc
trim_right_cons c (String.◌∷◌ d s) n h = ap (put_kept c) h

trim_left-concat : (w t : String) → solid w ≡ true → is_nil w ≡ false → trim_left (w <> t) ≡ w <> t
unfolding trim_left
trim_left-concat String.[] t h n = cc
trim_left-concat (String.◌∷◌ c w) t h n =
    let (mark, rest) = &&_true (not (is_blank c)) (solid w) h in
    rw (cons-append c w t) (rw (not-true (is_blank c) mark))

-- A text that begins with a word and has no white space at its end.
pub trim_space-concat :
    (w t : String)
    → solid w ≡ true
    → is_nil w ≡ false
    → trim_right t ≡ t
    → trim_space (w <> t) ≡ w <> t
unfolding trim_space
trim_space-concat w t h n k = ap trim_right (trim_left-concat w t h n) ∙ trim_right-concat w t h k

code_same : (c : Char) → nat_beq (code c) (code c) ≡ true
code_same c = beq_refl (code c)

pub has_prefix-concat : (p s : String) → has_prefix (p <> s) p ≡ true
unfolding has_prefix
has_prefix-concat String.[] s = refl
has_prefix-concat (String.◌∷◌ c p) s =
    rw (cons-append c p s) (rw (code_same c) (has_prefix-concat p s))

drop-concat : (p s : String) → drop_chars (count p) (p <> s) ≡ s
drop-concat String.[] s = nil-append s
drop-concat (String.◌∷◌ c p) s = rw (length-cons c p, cons-append c p s) (drop-concat p s)

pub trim_prefix-concat : (p s : String) → trim_prefix (p <> s) p ≡ s
unfolding trim_prefix
trim_prefix-concat p s = rw (has_prefix-concat p s) (drop-concat p s)
