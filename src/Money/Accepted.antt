-- ===== src/Money/Accepted.antt =====
-- What ParseMoney accepts.
use betting_processing_go.Prelude.{
  ℕ, ◌+◌, ◌-◌, ◌*◌, ◌^◌, ◌≤◌, ◌<◌, ◌≡◌, ◌≢◌, ◌⊎◌, refl, sym, subst, true, List, [], ◌∷◌, ◌++◌, All,
  Bool-cases, inl, inr, arith,
}
use betting_processing_go.Prelude.Text.{Text, eq_iff}
use betting_processing_go.Prelude.Int.{pos}
use betting_processing_go.Errors.{Error, Result, ok, err}
use betting_processing_go.Money.Defs.{Money, Currency, brl, valid}
use betting_processing_go.Money.Parse.{
  text_eq, split, is_digits, byte_len, parse_minor, parse_parts, check_input, parse_money,
}
use betting_processing_go.Money.Decimal.{
  Denotes, units, tenths, cents, bounded, parse_uint-value, combine_exact, parse_minor_one,
  parse_minor_two,
}
use betting_processing_go.Money.Decimal.Scan.{IsDigit, value, All-digits→All}
use betting_processing_go.Money.Decimal.Split.{join, join-split}

is_digits→All : (w : Text) → is_digits w ≡ true → (w ≢ []) × All IsDigit w
unfolding is_digits
is_digits→All [] h = cc
is_digits→All (c ∷ w) h = (cc, All-digits→All (c ∷ w) h)

-- One or two digits stand behind the point.
abbrev IsMinor : Text → ℕ → Type 0
IsMinor [] k = ⊥
IsMinor (d ∷ []) k = IsDigit d × (k ≡ (d - b'0') * 10)
IsMinor (d ∷ e ∷ []) k = IsDigit d × IsDigit e × (k ≡ (d - b'0') * 10 + (e - b'0'))
IsMinor (d ∷ e ∷ g ∷ f) k = ⊥

too_long : (d e g : ℕ) (f : Text) → 2 < byte_len (d ∷ e ∷ g ∷ f)
unfolding byte_len
too_long d e g f = ground arith

parse_minor_sound : (f : Text) (k : ℕ) → parse_minor f ≡ ok k → IsMinor f k
unfolding parse_minor text_eq
parse_minor_sound [] k h = cc
parse_minor_sound (d ∷ []) k h = elim (Bool-cases (is_digits (d ∷ []))) [
  | inl yes_digits ↦
      (let digit = (is_digits→All _ yes_digits).1.0 in
        (digit, ground (arith, parse_minor_one d digit)))
  | inr other ↦ ground arith
]
parse_minor_sound (d ∷ e ∷ []) k h = elim (Bool-cases (is_digits (d ∷ e ∷ []))) [
  | inl yes_digits ↦
      (let (hd, rest) = (is_digits→All _ yes_digits).1 in
        (hd, rest.0, ground (arith, parse_minor_two d e hd rest.0)))
  | inr other ↦ ground arith
]
parse_minor_sound (d ∷ e ∷ g ∷ f) k h = ground (arith, too_long d e g f)

-- An accepted text is an amount, and the result its value, which an int64 holds.
abbrev pub Accepts : Text → Currency → Money → Type 0
Accepts s c m =
    (n : ℕ) × Denotes s n
    × (n ≤ 2 ^ 63 - 1)
    × (c ≡ brl)
    × (m ≡ record { amount = pos n; currency = brl })

bounded_sound : (s : Text) (n : ℕ) (m : Money) → Denotes s n → bounded n ≡ ok m → Accepts s brl m
bounded_sound s n m d h = (n, d, ground arith, refl, ground arith)

or_brl : (s : Text) (c : Currency) → check_input s c ≡ ok tt → c ≡ brl
unfolding check_input valid
or_brl s c h = ground (arith, eq_iff c brl)

whole_sound : (w : Text) (m : Money) → parse_parts (w ∷ []) brl ≡ ok m → Accepts w brl m
unfolding parse_parts
whole_sound w m h = elim (Bool-cases (is_digits w)) [
  | inl digits_only ↦
      (let (ne, all_digit) = is_digits→All w digits_only in
        bounded_sound w (value 0 w * 100) m (units w ne all_digit)
          (ground (arith, parse_uint-value w, combine_exact (value 0 w) 0)))
  | inr other ↦ absurd (ground arith)
]

minor_Denotes :
    (w f : Text) (k : ℕ)
    → w ≢ []
    → All IsDigit w
    → IsMinor f k
    → Denotes (w ++ b'.' ∷ f) (value 0 w * 100 + k) × (k < 100)
minor_Denotes w [] k ne hw h = absurd h
minor_Denotes w (d ∷ []) k ne hw (hd, e) = (rw e (tenths w d ne hw hd), omega arith)
minor_Denotes w (d ∷ c ∷ []) k ne hw (hd, hc, e) = (rw e (cents w d c ne hw hd hc), omega arith)
minor_Denotes w (d ∷ c ∷ g ∷ f) k ne hw h = absurd h

Result-cases : {A : Type 0} (r : Result A) → ((a : A) × (r ≡ ok a)) ⊎ ((e : Error) × (r ≡ err e))
Result-cases (ok a) = inl (a, refl)
Result-cases (err e) = inr (e, refl)

two_sound :
    (w f : Text) (m : Money) → parse_parts (w ∷ f ∷ []) brl ≡ ok m → Accepts (w ++ b'.' ∷ f) brl m
unfolding parse_parts
two_sound w f m h = elim (Bool-cases (is_digits w)) [
  | inl digits_only ↦ elim (Result-cases (parse_minor f)) [
    | inl (k, e) ↦
        (let (ne, all_digit) = is_digits→All w digits_only in
          let (d, small) = minor_Denotes w f k ne all_digit (parse_minor_sound f k e) in
          bounded_sound (w ++ b'.' ∷ f) (value 0 w * 100 + k) m d
            (ground (arith, parse_uint-value w, combine_exact (value 0 w) k small)))
    | inr (x, e) ↦ absurd (ground (arith, parse_uint-value w))
  ]
  | inr other ↦ absurd (ground arith)
]

parts_sound :
    (ps : List Text) (m : Money) → parse_parts ps brl ≡ ok m → Accepts (join b'.' ps) brl m
parts_sound [] m h = unfold parse_parts in absurd (cc)
parts_sound (w ∷ []) m h = whole_sound w m h
parts_sound (w ∷ f ∷ []) m h = two_sound w f m h
parts_sound (w ∷ f ∷ g ∷ ps) m h = unfold parse_parts in absurd (cc)

split_sound : (s : Text) (m : Money) → parse_parts (split b'.' s) brl ≡ ok m → Accepts s brl m
split_sound s m h =
    subst (λ t. Accepts t brl m) (join-split b'.' s) (parts_sound (split b'.' s) m h)

-- Past the first refusals the currency is the supported one and the parts decide.
past_check :
    (s : Text) (c : Currency) (m : Money)
    → parse_money s c ≡ ok m
    → (check_input s c ≡ ok tt) × (parse_parts (split b'.' s) c ≡ ok m)
unfolding parse_money
past_check s c m h = ground arith

-- A text that is parsed without an error is an amount of the grammar in the supported currency, and
-- the result is its exact value, which an int64 holds.
pub parse_money_sound :
    (s : Text) (c : Currency) {m : Money} → parse_money s c ≡ ok m → Accepts s c m
parse_money_sound s c {m} h =
    let (checked, parts) = past_check s c m h in
    subst (λ d. parse_parts (split b'.' s) d ≡ ok m → Accepts s d m) (sym (or_brl s c checked))
      (split_sound s m) parts
