-- ===== src/Text.antt =====
-- Text as a list of Unicode code points, and the `str` methods of Rust's standard library that
-- the program calls. Bytes are numbers below 256; the two meet in Text/Utf8.
pub mod Utf8
pub mod Trim
pub mod Split
use Prim.Native.Char.{code}
use weiterleitung.Prelude.{
  ℕ, ◌+◌, ◌-◌, ◌≡◌, ◌↔◌, refl, Bool, true, false, ◌&&◌, ◌||◌, not, List, [], ◌∷◌, ◌++◌, Option,
  none, some, String, arith, ltb, leb, ◌==◌, if◌then◌else◌, map, any, all, length,
}

abbrev pub Text : Type 0
Text = List ℕ

abbrev pub Bytes : Type 0
Bytes = List ℕ

-- The code points of a literal.
abbrev pub lit : String → Text
lit String.[] = []
lit (String.◌∷◌ c s) = code c ∷ lit s

-- `==` on text.
unfoldable pub eq_text : Text → Text → Bool
eq_text [] [] = true
eq_text (a ∷ s) (b ∷ t) = a == b && eq_text s t
eq_text _ _ = false

pub eq_text_iff : (s t : Text) → (eq_text s t ≡ true) ↔ (s ≡ t)
unfolding eq_text
eq_text_iff (a ∷ s) (b ∷ t) = ground (arith, eq_text_iff s t)
eq_text_iff _ _ = ground arith

pub eq_text_refl : (s : Text) → eq_text s s ≡ true
eq_text_refl s = (eq_text_iff s s).1 refl

-- `char::is_whitespace`: the code points with the property White_Space.
unfoldable pub is_whitespace : ℕ → Bool
is_whitespace c =
    (leb 9 c && leb c 13)
    || c == 0x20
    || c == 0x85
    || c == 0xA0
    || c == 0x1680
    || (leb 0x2000 c && leb c 0x200A)
    || c == 0x2028
    || c == 0x2029
    || c == 0x202F
    || c == 0x205F
    || c == 0x3000

unfoldable pub is_ascii : ℕ → Bool
is_ascii c = ltb c 128

unfoldable pub is_ascii_alphanumeric : ℕ → Bool
is_ascii_alphanumeric c =
    (leb b'0' c && leb c b'9') || (leb b'A' c && leb c b'Z') || (leb b'a' c && leb c b'z')

unfoldable pub to_ascii_lowercase : ℕ → ℕ
to_ascii_lowercase c = if leb b'A' c && leb c b'Z' then c + 32 else c

unfoldable pub to_ascii_uppercase : ℕ → ℕ
to_ascii_uppercase c = if leb b'a' c && leb c b'z' then c - 32 else c

unfoldable pub eq_ignore_ascii_case : Text → Text → Bool
unfolding eq_text to_ascii_lowercase
eq_ignore_ascii_case s t = eq_text (map to_ascii_lowercase s) (map to_ascii_lowercase t)

-- `str::len` counts the bytes of the UTF-8 form.
unfoldable pub len_utf8 : ℕ → ℕ
len_utf8 c = if ltb c 0x80 then 1 else if ltb c 0x800 then 2 else if ltb c 0x10000 then 3 else 4

unfoldable pub byte_len : Text → ℕ
unfolding len_utf8
byte_len [] = 0
byte_len (c ∷ s) = len_utf8 c + byte_len s

unfoldable pub contains_char : ℕ → Text → Bool
unfolding any
contains_char d = any (λ c. c == d)

unfoldable pub starts_with_char : ℕ → Text → Bool
starts_with_char d [] = false
starts_with_char d (c ∷ s) = c == d

unfoldable pub ends_with_char : ℕ → Text → Bool
ends_with_char d [] = false
ends_with_char d (c ∷ []) = c == d
ends_with_char d (c ∷ e ∷ s) = ends_with_char d (e ∷ s)

-- `replace` of one character by a text.
unfoldable pub replace_char : ℕ → Text → Text → Text
replace_char d by [] = []
replace_char d by (c ∷ s) = (if c == d then by else c ∷ []) ++ replace_char d by s

-- `contains("..")` for a character given twice.
unfoldable pub contains_twice : ℕ → Text → Bool
unfolding starts_with_char
contains_twice d [] = false
contains_twice d (c ∷ s) = (c == d && starts_with_char d s) || contains_twice d s

abbrev pub one_later : Option ℕ → Option ℕ
one_later none = none
one_later (some n) = some (n + 1)

-- The index of the first `d`. Where the program slices at it, the characters before the index
-- are counted here and the bytes there; no slice separates the two.
unfoldable pub find_char : ℕ → Text → Option ℕ
find_char d [] = none
find_char d (c ∷ s) = if c == d then some 0 else one_later (find_char d s)

unfoldable pub strip_prefix_char : ℕ → Text → Option Text
strip_prefix_char d [] = none
strip_prefix_char d (c ∷ s) = if c == d then some s else none

-- What the standard library's Unicode tables give: `str::to_lowercase`, documented to agree with
-- `to_ascii_lowercase` on ASCII text. The tables themselves are generated code.
pub record Unicode : Type 0 where
  pub to_lowercase : Text → Text
  pub to_lowercase_ascii :
      (s : Text) → all is_ascii s ≡ true → to_lowercase s ≡ map to_ascii_lowercase s
