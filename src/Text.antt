-- ===== src/Text.antt =====
-- Go's `strings` and `strconv` functions that the program calls, over texts as their code points.
pub mod Fields
pub mod Decimal
pub mod Trim
pub mod Replaced
use Prim.Native.Char.{Char, code}
use Prim.Native.String
use Prim.Native.String.{char_at, count}
use exnode.Base.{
  ℕ, zero, suc, ◌-◌, ◌+◌, ◌/◌, ◌%◌, String, Bool, true, false, ◌&&◌, ◌||◌, List, [], ◌∷◌, ltb, leb,
  nat_beq, if◌then◌else◌,
}
use exnode.Base.Int.{ℤ, pos, negsuc}

infixr 65 ◌<>◌
abbrev pub ◌<>◌ : String → String → String
s <> t = String.◌++◌ s t

-- unicode.IsSpace
unfoldable pub is_space : ℕ → Bool
is_space n =
    nat_beq n 0x20
    || (leb 0x9 n && leb n 0xd)
    || nat_beq n 0x85
    || nat_beq n 0xa0
    || nat_beq n 0x1680
    || (leb 0x2000 n && leb n 0x200a)
    || nat_beq n 0x2028
    || nat_beq n 0x2029
    || nat_beq n 0x202f
    || nat_beq n 0x205f
    || nat_beq n 0x3000

abbrev pub is_blank : Char → Bool
is_blank c = is_space (code c)

-- `s == ""`
abbrev pub is_nil : String → Bool
is_nil String.[] = true
is_nil (String.◌∷◌ c s) = false

pub trim_left : String → String
trim_left String.[] = ""
trim_left (String.◌∷◌ c s) = let rest = trim_left s in if is_blank c then rest else String.◌∷◌ c s

abbrev pub put_kept : Char → String → String
put_kept c String.[] = if is_blank c then "" else String.◌∷◌ c ""
put_kept c (String.◌∷◌ d t) = String.◌∷◌ c (String.◌∷◌ d t)

unfoldable pub trim_right : String → String
trim_right String.[] = ""
trim_right (String.◌∷◌ c s) = put_kept c (trim_right s)

-- strings.TrimSpace
unfoldable pub trim_space : String → String
unfolding trim_left trim_right is_space
trim_space s = trim_right (trim_left s)

-- strings.HasPrefix
unfoldable pub has_prefix : String → String → Bool
has_prefix s String.[] = true
has_prefix String.[] (String.◌∷◌ d p) = false
has_prefix (String.◌∷◌ c s) (String.◌∷◌ d p) = nat_beq (code c) (code d) && has_prefix s p

abbrev pub drop_chars : ℕ → String → String
drop_chars zero s = s
drop_chars (suc n) String.[] = ""
drop_chars (suc n) (String.◌∷◌ c s) = drop_chars n s

-- strings.TrimPrefix
unfoldable pub trim_prefix : String → String → String
unfolding has_prefix
trim_prefix s p = if has_prefix s p then drop_chars (count p) s else s

-- strings.Contains
unfoldable pub has_infix : String → String → Bool
unfolding has_prefix
has_infix String.[] t = is_nil t
has_infix (String.◌∷◌ c s) t = has_prefix (String.◌∷◌ c s) t || has_infix s t

-- strings.ReplaceAll for a nonempty `old`: the first argument counts the characters of a match
-- that are still to be skipped.
pub replace_from : ℕ → String → String → String → String
replace_from skip String.[] old new = ""
replace_from (suc k) (String.◌∷◌ c s) old new = replace_from k s old new
replace_from zero (String.◌∷◌ c s) old new =
    let hit = new <> replace_from (count old - 1) s old new in
    let miss = String.◌∷◌ c (replace_from zero s old new) in
    if has_prefix (String.◌∷◌ c s) old then hit else miss

unfoldable pub replace_all : String → String → String → String
unfolding replace_from has_prefix
replace_all s old new = replace_from zero s old new

-- strings.Join
unfoldable pub join : List String → String → String
join [] sep = ""
join (w ∷ []) sep = w
join (w ∷ v ∷ ws) sep = w <> sep <> join (v ∷ ws) sep

-- strings.Split by a separator of one character
unfoldable pub split_scan : ℕ → String → String × List String
split_scan sep String.[] = ("", [])
split_scan sep (String.◌∷◌ c s) =
    let (w, ws) = split_scan sep s in
    if nat_beq (code c) sep then ("", w ∷ ws) else (String.◌∷◌ c w, ws)

unfoldable pub split : String → ℕ → List String
unfolding split_scan
split s sep = let (w, ws) = split_scan sep s in w ∷ ws

-- strings.TrimRight by one character
unfoldable pub trim_right_of : ℕ → String → String
trim_right_of k String.[] = ""
trim_right_of k (String.◌∷◌ c s) =
    let rest = trim_right_of k s in
    if is_nil rest && nat_beq (code c) k then "" else String.◌∷◌ c rest

pub trim_left_of : ℕ → String → String
trim_left_of k String.[] = ""
trim_left_of k (String.◌∷◌ c s) =
    let rest = trim_left_of k s in if nat_beq (code c) k then rest else String.◌∷◌ c s

-- strconv.Itoa: one digit, with a leading one for what is left
unfoldable pub digits : ℕ → ℕ → String → String
digits zero n out = out
digits (suc fuel) n out =
    let out' = String.◌∷◌ (char_at "0123456789" (n % 10)) out in
    let more = digits fuel (n / 10) out' in if ltb n 10 then out' else more

-- a number has no more digits than its value plus one
unfoldable pub format_nat : ℕ → String
unfolding digits
format_nat n = digits (suc n) n ""

unfoldable pub itoa : ℤ → String
unfolding format_nat
itoa (pos n) = format_nat n
itoa (negsuc n) = "-" <> format_nat (suc n)

-- The code points of strings.ToUpper, as far as they can be ASCII: besides a to z only U+0131 and
-- U+017F have an upper case below U+0080.
pub upper_code : ℕ → ℕ
upper_code n =
    if leb b'a' n && leb n b'z'
    then n - 32
    else if nat_beq n 0x131
    then b'I'
    else if nat_beq n 0x17f
    then b'S'
    else n

unfoldable pub upper_codes : String → List ℕ
unfolding upper_code
upper_codes String.[] = []
upper_codes (String.◌∷◌ c s) = upper_code (code c) ∷ upper_codes s

-- The same of strings.ToLower: besides A to Z only U+0130 and U+212A have a lower case below U+0080.
pub lower_code : ℕ → ℕ
lower_code n =
    if leb b'A' n && leb n b'Z'
    then n + 32
    else if nat_beq n 0x130
    then b'i'
    else if nat_beq n 0x212a
    then b'k'
    else n

unfoldable pub lower_codes : String → List ℕ
unfolding lower_code
lower_codes String.[] = []
lower_codes (String.◌∷◌ c s) = lower_code (code c) ∷ lower_codes s

abbrev pub codes : String → List ℕ
codes String.[] = []
codes (String.◌∷◌ c s) = code c ∷ codes s
