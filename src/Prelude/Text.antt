-- ===== src/Prelude/Text.antt =====
-- Text two ways: the native `String` where the program only compares or joins whole texts, and a
-- list of code points where it walks them.
use Prim.Native.Nat.{ℕ}
use Prim.Native.Char.{Char, code}
use Prim.Native.String.{String}
use mathlib.Core.Path.{◌≡◌, refl}
use native.Mathlib.Omega.{arith}
use mathlib.Core.Option.{some, none}
use mathlib.Core.Bool.{Bool, true, false, ◌&&◌, ◌||◌}
use mathlib.Core.List.{List, [], ◌∷◌}
use betting_processing_go.Prelude.Tests.{leb, ◌==◌, if◌then◌else◌}
pub mod Trim
pub use text.Mathlib.Text.{◌==◌ as str_eq, find?}
pub use text.Mathlib.TextEquality.{eq_iff}
pub use Prim.Native.String.{◌++◌ as str_append}

abbrev pub Text : Type 0
Text = List ℕ

-- The code points of a text.
abbrev pub codes : String → Text
codes String.[] = []
codes (String.◌∷◌ c s) = code c ∷ codes s

-- strings.Contains
unfoldable pub str_contains : String → String → Bool
str_contains s part = elim (find? s part) [ some i ↦ true | none ↦ false ]

-- unicode.IsSpace
unfoldable pub is_space : ℕ → Bool
is_space c =
    (leb 0x09 c && leb c 0x0d)
    || c == 0x20
    || c == 0x85
    || c == 0xa0
    || c == 0x1680
    || (leb 0x2000 c && leb c 0x200a)
    || c == 0x2028
    || c == 0x2029
    || c == 0x202f
    || c == 0x205f
    || c == 0x3000

-- strings.TrimSpace, on code points.
unfoldable pub trim_left : Text → Text
trim_left [] = []
trim_left (c ∷ s) = let rest = trim_left s in if is_space c then rest else c ∷ s

-- Drops `c` only where nothing but spaces follows it.
unfoldable pub keep_unless_blank : ℕ → Text → Text
keep_unless_blank c [] = if is_space c then [] else c ∷ []
keep_unless_blank c (d ∷ s) = c ∷ d ∷ s

unfoldable pub trim_right : Text → Text
trim_right [] = []
trim_right (c ∷ s) = keep_unless_blank c (trim_right s)

unfoldable pub trim_space : Text → Text
unfolding trim_left trim_right keep_unless_blank is_space
trim_space s = trim_right (trim_left s)

-- strings.TrimSpace, on a native text.
unfoldable pub trim_string_left : String → String
trim_string_left String.[] = String.[]
trim_string_left (String.◌∷◌ c s) =
    let rest = trim_string_left s in if is_space (code c) then rest else String.◌∷◌ c s

unfoldable pub keep_char_unless_blank : Char → String → String
keep_char_unless_blank c String.[] = if is_space (code c) then "" else String.◌∷◌ c String.[]
keep_char_unless_blank c (String.◌∷◌ d s) = String.◌∷◌ c (String.◌∷◌ d s)

unfoldable pub trim_string_right : String → String
trim_string_right String.[] = String.[]
trim_string_right (String.◌∷◌ c s) = keep_char_unless_blank c (trim_string_right s)

unfoldable pub trim_string : String → String
trim_string s = trim_string_right (trim_string_left s)
