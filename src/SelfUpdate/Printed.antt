-- ===== src/SelfUpdate/Printed.antt =====
-- Versions as releases are tagged, `v` and numbers with dots: they are read back.
pub mod Compared
use Prim.Native.Char.{Char, code}
use Prim.Native.String
use Prim.Native.String.{char_at}
use text.Mathlib.TextLemmas.{nil-append, cons-append, append-nil, append_assoc}
use exnode.Base.{
  ℕ, zero, suc, ◌+◌, ◌-◌, ◌*◌, ◌/◌, ◌%◌, ◌<◌, ◌≤◌, String, Bool, true, false, ◌&&◌, ◌||◌, not, List,
  [], ◌∷◌, ◌≡◌, ◌↔◌, ◌⊎◌, inl, inr, refl, sym, ap, ◌∙◌, map, All, if◌then◌else◌, if_false, if_true,
  beq_false, eq→beq, ltb, leb, nat_beq, nat_eq, ◌==◌, beq_refl, beq→eq, Bool-cases, ltb→lt, ltb→le,
  lt→ltb, &&_true, arith,
}
use exnode.Text.{
  ◌<>◌, is_nil, is_blank, is_space, digits, format_nat, join, split, split_scan, trim_right,
  trim_space, trim_prefix,
}
use exnode.Text.Decimal.{digit}
use exnode.Text.Fields.{solid}
use exnode.Text.Trim.{trim_space-concat, trim_prefix-concat}
use exnode.SelfUpdate.{
  int_values, above, decide, read_number, numbers, version_parts, newer_parts, newer_version,
}

-- Digits only.
abbrev numeric : String → Bool
numeric String.[] = true
numeric (String.◌∷◌ c s) = (leb 48 (code c) && leb (code c) 57) && numeric s

is_digit_char :
    (c : Char) (d : ℕ) → code c ≡ 48 + d → d < 10 → (leb 48 (code c) && leb (code c) 57) ≡ true
is_digit_char c d e h = ground arith

numeric_cons :
    (c : Char) (d : ℕ) (out : String)
    → code c ≡ 48 + d
    → d < 10
    → numeric out ≡ true
    → numeric (String.◌∷◌ c out) ≡ true
numeric_cons c d out e h k = rw (is_digit_char c d e h) k

numeric-digits :
    (fuel n : ℕ) (out : String) → numeric out ≡ true → numeric (digits fuel n out) ≡ true
unfolding digits
numeric-digits zero n out h = h
numeric-digits (suc fuel) n out h =
    let c = char_at "0123456789" (n % 10) in
    let more_digits = numeric_cons c (n % 10) out (digit (n % 10) (omega arith)) (omega arith) h in
    elim (Bool-cases (ltb n 10)) [
      | inl last ↦ rw last more_digits
      | inr more ↦ rw more (numeric-digits fuel (n / 10) (String.◌∷◌ c out) more_digits)
    ]

in_range :
    (c : Char) (d : ℕ) → code c ≡ 48 + d → d < 10 → (ltb (code c) 48 || ltb 57 (code c)) ≡ false
in_range c d e h = ground arith

read_digit :
    (n d : ℕ) (c : Char) (out : String)
    → code c ≡ 48 + d
    → d < 10
    → n * 10 + d < int_values
    → read_number n (String.◌∷◌ c out) ≡ read_number (n * 10 + d) out
unfolding read_number
read_digit n d c out e h k = rw (in_range c d e h) (ap (λ m. read_number m out) (omega arith))

read_number-digits :
    (fuel n : ℕ) (out : String)
    → n < fuel
    → n < int_values
    → read_number 0 (digits fuel n out) ≡ read_number n out
unfolding digits
read_number-digits zero n out h k = omega arith
read_number-digits (suc fuel) n out h k =
    let c = char_at "0123456789" (n % 10) in
    let d = digit (n % 10) (omega arith) in
    elim (Bool-cases (ltb n 10)) [
      | inl last ↦
          let below = ltb→lt n 10 last in
          rw last (
            read_digit 0 (n % 10) c out d (omega arith) (omega arith)
            ∙ ap (λ m. read_number m out) (omega arith))
      | inr more ↦
          let above = ltb→le n 10 more in
          rw more (
            read_number-digits fuel (n / 10) (String.◌∷◌ c out) (omega arith) (omega arith)
            ∙ read_digit (n / 10) (n % 10) c out d (omega arith) (omega arith)
            ∙ ap (λ m. read_number m out) (omega arith))
    ]

numeric-format_nat : (n : ℕ) → numeric (format_nat n) ≡ true
unfolding format_nat
numeric-format_nat n = numeric-digits (suc n) n "" refl

read_number-format_nat : (n : ℕ) → n < int_values → read_number 0 (format_nat n) ≡ n
unfolding format_nat read_number
read_number-format_nat n h = read_number-digits (suc n) n "" (omega arith) h

digit_solid : (c : Char) → (leb 48 (code c) && leb (code c) 57) ≡ true → is_blank c ≡ false
unfolding is_space
digit_solid c h = ground arith

numeric-solid : (s : String) → numeric s ≡ true → solid s ≡ true
numeric-solid String.[] h = refl
numeric-solid (String.◌∷◌ c s) h =
    let (here, rest) = &&_true (leb 48 (code c) && leb (code c) 57) (numeric s) h in
    rw (digit_solid c here) (numeric-solid s rest)

no_dot : (c : Char) → (leb 48 (code c) && leb (code c) 57) ≡ true → nat_beq (code c) b'.' ≡ false
no_dot c h = ground arith

split_scan-numeric : (w : String) → numeric w ≡ true → split_scan b'.' w ≡ (w, [])
unfolding split_scan
split_scan-numeric String.[] h = refl
split_scan-numeric (String.◌∷◌ c w) h =
    let (here, rest) = &&_true (leb 48 (code c) && leb (code c) 57) (numeric w) h in
    rw (no_dot c here, split_scan-numeric w rest) refl

split_scan-concat :
    (w t : String) → numeric w ≡ true → split_scan b'.' (w <> "." <> t) ≡ (w, split t b'.')
unfolding split_scan split
split_scan-concat String.[] t h =
    rw (nil-append ("." <> t), cons-append "." "" t, nil-append t) refl
split_scan-concat (String.◌∷◌ c w) t h =
    let (here, rest) = &&_true (leb 48 (code c) && leb (code c) 57) (numeric w) h in
    rw (cons-append c w ("." <> t)) (rw (no_dot c here, split_scan-concat w t rest) refl)

abbrev pub dotted : List ℕ → String
dotted xs = join (map format_nat xs) "."

split-dotted : (x : ℕ) (xs : List ℕ) → split (dotted (x ∷ xs)) b'.' ≡ map format_nat (x ∷ xs)
unfolding join split
split-dotted x [] =
    ap (λ (r : String × List String). r.0 ∷ r.1)
      (split_scan-numeric (format_nat x) (numeric-format_nat x))
split-dotted x (y ∷ xs) =
    ap (λ (r : String × List String). r.0 ∷ r.1)
      (split_scan-concat (format_nat x) (dotted (y ∷ xs)) (numeric-format_nat x))
    ∙ ap (◌∷◌ (format_nat x)) (split-dotted y xs)

solid-concat : (s t : String) → solid s ≡ true → solid t ≡ true → solid (s <> t) ≡ true
solid-concat String.[] t h k = rw (nil-append t) k
solid-concat (String.◌∷◌ c s) t h k =
    let (here, rest) = &&_true (not (is_blank c)) (solid s) h in
    rw (cons-append c s t) (rw here (solid-concat s t rest k))

solid-dotted : (xs : List ℕ) → solid (dotted xs) ≡ true
unfolding join is_space
solid-dotted [] = refl
solid-dotted (x ∷ []) = numeric-solid (format_nat x) (numeric-format_nat x)
solid-dotted (x ∷ y ∷ xs) =
    solid-concat (format_nat x) ("." <> dotted (y ∷ xs))
      (numeric-solid (format_nat x) (numeric-format_nat x))
      (solid-concat "." (dotted (y ∷ xs)) refl (solid-dotted (y ∷ xs)))

full-digits : (fuel n : ℕ) (out : String) → is_nil out ≡ false → is_nil (digits fuel n out) ≡ false
unfolding digits
full-digits zero n out h = h
full-digits (suc fuel) n out h = elim (Bool-cases (ltb n 10)) [
  | inl last ↦ rw last refl
  | inr more ↦ rw more (full-digits fuel (n / 10) _ refl)
]

full-format_nat : (n : ℕ) → is_nil (format_nat n) ≡ false
unfolding format_nat digits
full-format_nat n = elim (Bool-cases (ltb n 10)) [
  | inl last ↦ rw last refl
  | inr more ↦ rw more (full-digits n (n / 10) _ refl)
]

full-concat : (s t : String) → is_nil s ≡ false → is_nil (s <> t) ≡ false
full-concat String.[] t h = cc
full-concat (String.◌∷◌ c s) t h = rw (cons-append c s t) refl

full-dotted : (x : ℕ) (xs : List ℕ) → is_nil (dotted (x ∷ xs)) ≡ false
unfolding join
full-dotted x [] = full-format_nat x
full-dotted x (y ∷ xs) = full-concat (format_nat x) _ (full-format_nat x)

trimmed : (s : String) → solid s ≡ true → is_nil s ≡ false → trim_space s ≡ s
unfolding trim_right
trimmed s h full =
    ap trim_space (sym (append-nil s)) ∙ trim_space-concat s "" h full refl ∙ append-nil s

numbers-dotted : (xs : List ℕ) → All (λ x. x < int_values) xs → numbers (map format_nat xs) ≡ xs
unfolding numbers
numbers-dotted [] h = refl
numbers-dotted (x ∷ xs) (h, k) = rw (read_number-format_nat x h, numbers-dotted xs k) refl

-- The tag of a release.
abbrev pub tag : List ℕ → String
tag xs = "v" <> dotted xs

untagged :
    (x : ℕ) (xs : List ℕ)
    → trim_space (trim_prefix (trim_space (tag (x ∷ xs))) "v") ≡ dotted (x ∷ xs)
unfolding is_space
untagged x xs =
    let ws = dotted (x ∷ xs) in
    let solid_ws = solid-dotted (x ∷ xs) in
    ap (λ t. trim_space (trim_prefix t "v"))
      (trimmed ("v" <> ws) (solid-concat "v" ws refl solid_ws) (full-concat "v" ws refl))
    ∙ ap trim_space (trim_prefix-concat "v" ws)
    ∙ trimmed ws solid_ws (full-dotted x xs)

pub version_parts-tag :
    (x : ℕ) (xs : List ℕ)
    → All (λ n. n < int_values) (x ∷ xs)
    → version_parts (tag (x ∷ xs)) ≡ x ∷ xs
unfolding version_parts
version_parts-tag x xs h =
    ap (λ v. if is_nil v then [] else numbers (split v b'.')) (untagged x xs)
    ∙ if_false _ _ _ (full-dotted x xs)
    ∙ ap numbers (split-dotted x xs)
    ∙ numbers-dotted (x ∷ xs) h
