-- ===== src/Middleware/Base64.antt =====
-- base64.RawURLEncoding.DecodeString of package encoding/base64, which auth.go uses: six bits for a
-- character, no padding, line breaks are skipped, and bits that are left over are dropped.
use betting_processing_go.Prelude.{
  ℕ, ◌+◌, ◌-◌, ◌*◌, ◌/◌, ◌%◌, ◌&&◌, ◌||◌, Option, none, some, List, [], ◌∷◌, leb, ◌==◌,
  if◌then◌else◌,
}
use betting_processing_go.Prelude.Text.{Text}

unfoldable pub sextet : ℕ → Option ℕ
sextet c =
    if leb b'A' c && leb c b'Z'
    then some (c - b'A')
    else if leb b'a' c && leb c b'z'
    then some (c - b'a' + 26)
    else if leb b'0' c && leb c b'9'
    then some (c - b'0' + 52)
    else if c == b'-'
    then some 62
    else if c == b'_'
    then some 63
    else none

unfoldable pub cons_sextet : Option ℕ → Option (List ℕ) → Option (List ℕ)
cons_sextet none rest = none
cons_sextet (some a) none = none
cons_sextet (some a) (some rest) = some (a ∷ rest)

unfoldable pub sextets : Text → Option (List ℕ)
unfolding sextet cons_sextet
sextets [] = some []
sextets (c ∷ s) =
    let rest = sextets s in if c == 0x0a || c == 0x0d then rest else cons_sextet (sextet c) rest

unfoldable pub cons_bytes : ℕ → ℕ → ℕ → Option (List ℕ) → Option (List ℕ)
cons_bytes a b c none = none
cons_bytes a b c (some rest) = some (a ∷ b ∷ c ∷ rest)

unfoldable pub bytes_of : List ℕ → Option (List ℕ)
unfolding cons_bytes
bytes_of [] = some []
bytes_of (a ∷ []) = none
bytes_of (a ∷ b ∷ []) = some ((a * 4 + b / 16) ∷ [])
bytes_of (a ∷ b ∷ c ∷ []) = some ((a * 4 + b / 16) ∷ (b % 16 * 16 + c / 4) ∷ [])
bytes_of (a ∷ b ∷ c ∷ d ∷ rest) =
    cons_bytes (a * 4 + b / 16) (b % 16 * 16 + c / 4) (c % 4 * 64 + d) (bytes_of rest)

unfoldable pub bytes_or_none : Option (List ℕ) → Option (List ℕ)
unfolding bytes_of
bytes_or_none none = none
bytes_or_none (some s) = bytes_of s

unfoldable pub decode_base64 : Text → Option (List ℕ)
unfolding sextets bytes_or_none
decode_base64 s = bytes_or_none (sextets s)
