-- ===== src/Common/Texts.antt =====
-- Texts as lists of Unicode code points, and what the source asks of `str` and `char`.
use Prim.Native.Nat.{ℕ, ◌+◌, ◌/◌, ◌%◌}
use Prim.Native.Char.{code}
use Prim.Native.String.{String}
use mathlib.Core.Bool.{Bool, true, false, ◌&&◌, ◌||◌}
use mathlib.Core.List.{List, [], ◌∷◌, ◌++◌, map}
use native.Mathlib.Decide.{ℕ_discrete}
use semantic_engine.Common.Tests.{holds, ltb, leb, ◌==◌, if◌then◌else◌}

abbrev pub Text : Type 0
Text = List ℕ

-- A literal as a text.
abbrev pub text_of : String → Text
text_of String.[] = []
text_of (String.◌∷◌ c s) = code c ∷ text_of s

unfoldable pub Text-discrete : Discrete Text
Text-discrete = hlevel ℕ_discrete

infix 50 ◌=t◌
abbrev pub ◌=t◌ : Text → Text → Bool
a =t b = holds (Text-discrete a b)

-- The bytes of a character in UTF-8, and `str::len`.
abbrev pub len_utf8 : ℕ → ℕ
len_utf8 c = if ltb c 0x80 then 1 else if ltb c 0x800 then 2 else if ltb c 0x10000 then 3 else 4

abbrev pub byte_len : Text → ℕ
byte_len [] = 0
byte_len (c ∷ s) = len_utf8 c + byte_len s

-- `str::as_bytes`: the characters in UTF-8.
abbrev pub encode_utf8 : ℕ → List ℕ
encode_utf8 c =
    if ltb c 0x80
    then c ∷ []
    else if ltb c 0x800
    then (0xc0 + c / 64) ∷ (0x80 + c % 64) ∷ []
    else if ltb c 0x10000
    then (0xe0 + c / 4096) ∷ (0x80 + c / 64 % 64) ∷ (0x80 + c % 64) ∷ []
    else (0xf0 + c / 262144) ∷ (0x80 + c / 4096 % 64) ∷ (0x80 + c / 64 % 64) ∷ (0x80 + c % 64) ∷ []

abbrev pub as_bytes : Text → List ℕ
as_bytes [] = []
as_bytes (c ∷ s) = encode_utf8 c ++ as_bytes s

abbrev pub is_ascii_digit : ℕ → Bool
is_ascii_digit c = leb b'0' c && leb c b'9'

abbrev pub is_ascii_lowercase : ℕ → Bool
is_ascii_lowercase c = leb b'a' c && leb c b'z'

abbrev pub is_ascii_uppercase : ℕ → Bool
is_ascii_uppercase c = leb b'A' c && leb c b'Z'

abbrev pub is_ascii_alphanumeric : ℕ → Bool
is_ascii_alphanumeric c = is_ascii_digit c || is_ascii_lowercase c || is_ascii_uppercase c

abbrev pub is_ascii_hexdigit : ℕ → Bool
is_ascii_hexdigit c = is_ascii_digit c || (leb b'a' c && leb c b'f') || (leb b'A' c && leb c b'F')

-- `char::is_control`: the general category Cc.
abbrev pub is_control : ℕ → Bool
is_control c = ltb c 0x20 || (leb 0x7f c && leb c 0x9f)

abbrev pub ascii_lower : ℕ → ℕ
ascii_lower c = if is_ascii_uppercase c then c + 32 else c

abbrev pub to_ascii_lowercase : Text → Text
to_ascii_lowercase = map ascii_lower

abbrev pub is_nil : Text → Bool
is_nil [] = true
is_nil (c ∷ s) = false

-- `str::trim` by a test for white space: its front, its end, and both.
abbrev pub trim_start : (ℕ → Bool) → Text → Text
trim_start white [] = []
trim_start white (c ∷ s) = if white c then trim_start white s else c ∷ s

abbrev pub trim_end : (ℕ → Bool) → Text → Text
trim_end white [] = []
trim_end white (c ∷ s) =
    let rest = trim_end white s in if white c && is_nil rest then [] else c ∷ rest

abbrev pub trim : (ℕ → Bool) → Text → Text
trim white s = trim_end white (trim_start white s)

-- `str::starts_with` and `str::contains` of a text
abbrev pub starts_with : Text → Text → Bool
starts_with s [] = true
starts_with [] (p ∷ pattern) = false
starts_with (c ∷ s) (p ∷ pattern) = c == p && starts_with s pattern

abbrev pub contains : Text → Text → Bool
contains pattern [] = is_nil pattern
contains pattern (c ∷ s) = starts_with (c ∷ s) pattern || contains pattern s

-- `str::ends_with`, and `str::split` by a character
abbrev pub ends_with : Text → Text → Bool
ends_with [] pattern = is_nil pattern
ends_with (c ∷ s) pattern = (c ∷ s) =t pattern || ends_with s pattern

abbrev pub push_part : ℕ → List Text → List Text
push_part c [] = (c ∷ []) ∷ []
push_part c (part ∷ parts) = (c ∷ part) ∷ parts

abbrev pub split : ℕ → Text → List Text
split separator [] = [] ∷ []
split separator (c ∷ s) =
    let parts = split separator s in if c == separator then [] ∷ parts else push_part c parts

-- The order of texts: code points compare as their UTF-8 bytes do.
abbrev pub text_le : Text → Text → Bool
text_le [] b = true
text_le (x ∷ a) [] = false
text_le (x ∷ a) (y ∷ b) = ltb x y || (x == y && text_le a b)
