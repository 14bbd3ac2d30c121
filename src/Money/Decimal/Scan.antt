-- ===== src/Money/Decimal/Scan.antt =====
-- What the scanning helpers of the parser do on digits and points: trimming, the searches for
-- characters, `split`, and the two digit readers.
use betting_processing_go.Prelude.{
  ℕ, ◌+◌, ◌-◌, ◌*◌, ◌^◌, ◌≤◌, ◌≡◌, ◌≢◌, refl, ap, ◌∙◌, true, false, none, some, [], ◌∷◌, ◌++◌, ltb,
  All, arith, if◌then◌else◌,
}
use betting_processing_go.Prelude.Text.{
  Text, codes, is_space, trim_left, keep_unless_blank, trim_right, trim_space,
}
use betting_processing_go.Money.Parse.{
  text_eq, contains_any, all_digits, parse_uint_from, is_scientific,
}

abbrev pub IsDigit : ℕ → Type 0
IsDigit c = (b'0' ≤ c) × (c ≤ b'9')

-- The number that digits spell behind `n`.
abbrev pub value : ℕ → Text → ℕ
value n [] = n
value n (c ∷ s) = value (n * 10 + (c - b'0')) s

-- A digit or the point.
abbrev pub IsPlain : ℕ → Type 0
IsPlain c = (b'.' ≤ c) × (c ≤ b'9') × (c ≢ b'/')

pub All-digits→All : (s : Text) → all_digits s ≡ true → All IsDigit s
unfolding all_digits
All-digits→All [] h = tt
All-digits→All (c ∷ s) h = ground (arith, All-digits→All s)

pub All→all_digits : (s : Text) → All IsDigit s → all_digits s ≡ true
unfolding all_digits
All→all_digits [] h = refl
All→all_digits (c ∷ s) (hc, hs) = ground (arith, All→all_digits s hs)

pub All-IsPlain : (s : Text) → All IsDigit s → All IsPlain s
All-IsPlain [] h = tt
All-IsPlain (c ∷ s) (hc, hs) = ((omega arith, omega arith, omega arith), All-IsPlain s hs)

pub All-append-IsPlain : (s t : Text) → All IsPlain s → All IsPlain t → All IsPlain (s ++ t)
All-append-IsPlain [] t hs ht = ht
All-append-IsPlain (c ∷ s) t (hc, hs) ht = (hc, All-append-IsPlain s t hs ht)

plain_not_space : (c : ℕ) → IsPlain c → is_space c ≡ false
unfolding is_space
plain_not_space c h = ground arith

trim_left_plain : (s : Text) → All IsPlain s → trim_left s ≡ s
unfolding trim_left
trim_left_plain [] h = refl
trim_left_plain (c ∷ s) (hc, hs) = ground (arith, plain_not_space c hc)

trim_right_plain : (s : Text) → All IsPlain s → trim_right s ≡ s
unfolding trim_right keep_unless_blank
trim_right_plain [] h = refl
trim_right_plain (c ∷ []) (hc, hs) = ground (arith, plain_not_space c hc)
trim_right_plain (c ∷ d ∷ s) (hc, hs) = rw (trim_right_plain (d ∷ s) hs)

pub trim_space_plain : (s : Text) → All IsPlain s → trim_space s ≡ s
trim_space_plain s h =
    unfold trim_space in ap trim_right (trim_left_plain s h) ∙ trim_right_plain s h

pub text_eq_refl : (s : Text) → text_eq s s ≡ true
unfolding text_eq
text_eq_refl [] = refl
text_eq_refl (c ∷ s) = ground (arith, text_eq_refl s)

pub text_eq_sound : (s t : Text) → text_eq s t ≡ true → s ≡ t
unfolding text_eq
text_eq_sound [] [] h = refl
text_eq_sound [] (d ∷ t) h = cc
text_eq_sound (c ∷ s) [] h = cc
text_eq_sound (c ∷ s) (d ∷ t) h = ground (arith, text_eq_sound s t)

pub lacks_separators :
    (s : Text)
    → All IsPlain s
    → (contains_any s (codes "eE+") ≡ false)
      × (contains_any s (codes ", ") ≡ false)
      × (contains_any s (codes "\t\r\n") ≡ false)
unfolding contains_any
lacks_separators [] h = (refl, refl, refl)
lacks_separators (c ∷ s) (hc, hs) = ground (arith, lacks_separators s hs)

pub not_scientific : (s : Text) → All IsPlain s → is_scientific s ≡ false
unfolding is_scientific text_eq
not_scientific [] h = unfold contains_any in refl
not_scientific (c ∷ s) h = ground (arith, lacks_separators (c ∷ s) h)

pub le-value : (s : Text) (n : ℕ) → n ≤ value n s
le-value [] n = omega arith
le-value (c ∷ s) n = omega (arith, le-value s (n * 10 + (c - b'0')))

-- Reading digits gives their value if a uint64 holds it, and the range error above.
pub parse_uint_from-value :
    (s : Text) (n : ℕ)
    → n ≤ 2 ^ 64 - 1
    → parse_uint_from n s ≡ (if ltb (2 ^ 64 - 1) (value n s) then none else some (value n s))
unfolding parse_uint_from
parse_uint_from-value [] n h = ground arith
parse_uint_from-value (c ∷ s) n h =
    let m = n * 10 + (c - b'0') in ground (arith, parse_uint_from-value s m, le-value s m)
