-- ===== src/SelfUpdate.antt =====
-- selfupdate/selfupdate.go, the versions: how a version text is read and which of two is newer.
pub mod Order
pub mod Printed
pub mod Platform
pub mod Swap
pub mod Attempt
use Prim.Native.Char.{code}
use exnode.Base.{
  ℕ, ◌+◌, ◌*◌, ◌-◌, ◌%◌, String, Bool, true, false, ◌&&◌, ◌||◌, not, List, [], ◌∷◌, if◌then◌else◌,
  ◌==◌, string_eq, nat_eq, ltb, leb,
}
use exnode.Text.{is_nil, trim_space, trim_prefix, split}

-- `int` has 64 bits: a number of a version is its value modulo 2 ^ 64.
abbrev pub int_values : ℕ
int_values = 18446744073709551616

abbrev int_half : ℕ
int_half = 9223372036854775808

-- `x > y` of two ints: as they wrap around, the upper half of the values is negative.
unfoldable pub above : ℕ → ℕ → Bool
above x y = ltb ((y + int_half) % int_values) ((x + int_half) % int_values)

-- The loop over the runes of one part, from the number read so far.
unfoldable pub read_number : ℕ → String → ℕ
read_number n String.[] = n
read_number n (String.◌∷◌ r rest) =
    let more = read_number ((n * 10 + (code r - 48)) % int_values) rest in
    if ltb (code r) 48 || ltb 57 (code r) then n else more

numbers : List String → List ℕ
numbers [] = []
numbers (part ∷ parts) = read_number 0 part ∷ numbers parts

-- versionParts
unfoldable pub version_parts : String → List ℕ
unfolding numbers
version_parts text =
    let v = trim_space (trim_prefix (trim_space text) "v") in
    if is_nil v then [] else numbers (split v b'.')

-- One turn of the loop: the first difference decides, and a part that is missing is 0.
abbrev pub decide : ℕ → ℕ → Bool → Bool
decide x y later = if x == y then later else above x y

unfoldable pub newer_parts : List ℕ → List ℕ → Bool
newer_parts [] [] = false
newer_parts (x ∷ xs) [] = decide x 0 (newer_parts xs [])
newer_parts [] (y ∷ ys) = decide 0 y (newer_parts [] ys)
newer_parts (x ∷ xs) (y ∷ ys) = decide x y (newer_parts xs ys)

unfoldable pub newer_version : String → String → Bool
newer_version a b = newer_parts (version_parts a) (version_parts b)

line_end : String → String
line_end String.[] = ""
line_end (String.◌∷◌ c rest) =
    let more = line_end rest in if code c == 10 then "" else String.◌∷◌ c more

-- firstLine
unfoldable pub first_line : String → String
unfolding line_end
first_line s = trim_space (line_end s)
