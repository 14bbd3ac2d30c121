-- ===== src/Prelude/Text/Trim.antt =====
-- Trimming a text that is trimmed.
use Prim.Native.Char.{Char, code}
use Prim.Native.String.{String}
use mathlib.Core.Path.{◌≡◌, refl, ap}
use mathlib.Core.Bool.{false}
use mathlib.Core.Logic.{inl, inr}
use betting_processing_go.Prelude.Tests.{Bool-cases}
use betting_processing_go.Prelude.Text.{
  is_space, trim_string_left, keep_char_unless_blank, trim_string_right, trim_string,
}

-- A text that is empty or begins with no space.
abbrev Begins : String → Type 0
Begins String.[] = Unit
Begins (String.◌∷◌ c s) = is_space (code c) ≡ false

trim_string_left-Begins : (s : String) → Begins (trim_string_left s)
unfolding trim_string_left
trim_string_left-Begins String.[] = tt
trim_string_left-Begins (String.◌∷◌ c s) = elim (Bool-cases (is_space (code c))) [
  | inl blank ↦ rw blank (trim_string_left-Begins s)
  | inr visible ↦ rw visible visible
]

left_of_Begins : (s : String) → Begins s → trim_string_left s ≡ s
unfolding trim_string_left
left_of_Begins String.[] h = refl
left_of_Begins (String.◌∷◌ c s) h = rw h

keep-Begins :
    (c : Char) (s : String) → is_space (code c) ≡ false → Begins (keep_char_unless_blank c s)
unfolding keep_char_unless_blank
keep-Begins c String.[] h = rw h h
keep-Begins c (String.◌∷◌ d s) h = h

right-Begins : (s : String) → Begins s → Begins (trim_string_right s)
unfolding trim_string_right
right-Begins String.[] h = tt
right-Begins (String.◌∷◌ c s) h = keep-Begins c (trim_string_right s) h

right-keep :
    (c : Char) (s : String)
    → trim_string_right s ≡ s
    → trim_string_right (keep_char_unless_blank c s) ≡ keep_char_unless_blank c s
unfolding trim_string_right keep_char_unless_blank
right-keep c String.[] h = elim (Bool-cases (is_space (code c))) [
  | inl blank ↦ rw blank
  | inr visible ↦ rw (visible, visible)
]
right-keep c (String.◌∷◌ d s) h = ap (keep_char_unless_blank c) h

right-right : (s : String) → trim_string_right (trim_string_right s) ≡ trim_string_right s
unfolding trim_string_right
right-right String.[] = refl
right-right (String.◌∷◌ c s) = right-keep c (trim_string_right s) (right-right s)

pub trim_string_idem : (s : String) → trim_string (trim_string s) ≡ trim_string s
unfolding trim_string
trim_string_idem s =
    rw (left_of_Begins _ (right-Begins _ (trim_string_left-Begins s))) (right-right _)
