-- ===== src/Base/Strings.antt =====
-- `String` and `&str` as lists of code points, with the methods of the standard library that the
-- code calls. `len` counts UTF-8 bytes. Comparing code points orders texts as comparing bytes does.
mod Words
mod Collapse
mod Trim
use Prim.Native.Nat.{ℕ, ◌+◌, ◌-◌}
use Prim.Native.Char.{code}
use Prim.Native.String.{String}
use mathlib.Core.Bool.{Bool, true, false, ◌&&◌, ◌||◌}
use mathlib.Core.List.{List, [], ◌∷◌, map}
use opencord_server.Base.Test.{ltb, leb, nat_eqb, if◌then◌else◌}
unfoldable pub use Words.{
  is_whitespace, trim_start, trim_end, trim, split_whitespace, join_words, collapse,
}
pub use Collapse.{collapse_idem}
pub use Trim.{trim_idem}

abbrev pub Text : Type 0
Text = List ℕ

-- A UUID, as the 128-bit number that it stands for: the code compares and orders them, no more.
abbrev pub Uuid : Type 0
Uuid = ℕ

-- A literal.
abbrev pub text : String → Text
text String.[] = []
text (String.◌∷◌ c s) = code c ∷ text s

abbrev pub is_empty : Text → Bool
is_empty [] = true
is_empty (_ ∷ _) = false

-- The UTF-8 bytes of one code point.
abbrev pub utf8_width : ℕ → ℕ
utf8_width c = if ltb c 0x80 then 1 else if ltb c 0x800 then 2 else if ltb c 0x10000 then 3 else 4

-- `str::len`
unfoldable pub len : Text → ℕ
len [] = 0
len (c ∷ s) = utf8_width c + len s

-- `str::starts_with`
unfoldable pub starts_with : Text → Text → Bool
starts_with s [] = true
starts_with [] (_ ∷ _) = false
starts_with (c ∷ s) (p ∷ ps) = nat_eqb c p && starts_with s ps

-- `char::to_ascii_lowercase` and `str::to_ascii_lowercase`, and the upper ones.
unfoldable pub ascii_lower : ℕ → ℕ
ascii_lower c = if leb b'A' c && leb c b'Z' then c + 32 else c

abbrev pub to_ascii_lowercase : Text → Text
to_ascii_lowercase = map ascii_lower

unfoldable pub ascii_upper : ℕ → ℕ
ascii_upper c = if leb b'a' c && leb c b'z' then c - 32 else c

abbrev pub to_ascii_uppercase : Text → Text
to_ascii_uppercase = map ascii_upper

unfoldable pub is_ascii_digit : ℕ → Bool
is_ascii_digit c = leb b'0' c && leb c b'9'

unfoldable pub is_ascii_alphanumeric : ℕ → Bool
unfolding is_ascii_digit
is_ascii_alphanumeric c = is_ascii_digit c || leb b'a' c && leb c b'z' || leb b'A' c && leb c b'Z'

-- `str <= str`: the lexicographic order.
unfoldable pub text_leb : Text → Text → Bool
text_leb [] _ = true
text_leb (_ ∷ _) [] = false
text_leb (x ∷ xs) (y ∷ ys) = ltb x y || nat_eqb x y && text_leb xs ys

-- `str < str`
unfoldable pub text_ltb : Text → Text → Bool
text_ltb _ [] = false
text_ltb [] (_ ∷ _) = true
text_ltb (x ∷ xs) (y ∷ ys) = ltb x y || nat_eqb x y && text_ltb xs ys
