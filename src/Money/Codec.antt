-- ===== src/Money/Codec.antt =====
-- Printing an amount and parsing it again, and the JSON codec built from the two.
use betting_processing_go.Prelude.{
  ℕ, zero, suc, ◌+◌, ◌-◌, ◌*◌, ◌/◌, ◌%◌, ◌^◌, ◌≤◌, ◌<◌, ◌≡◌, ◌≢◌, refl, subst, not, [], ◌∷◌, ◌++◌,
  All, arith, if◌then◌else◌,
}
use betting_processing_go.Prelude.Text.{Text, eq_iff}
use betting_processing_go.Prelude.Int.{ℤ, pos, negsuc}
use betting_processing_go.Prelude.Int64.{IsInt64}
use betting_processing_go.Errors.{ok, MoneyError, money_err, ◌>>=◌}
use betting_processing_go.Money.Defs.{Money, Currency, brl, valid, is_negative}
use betting_processing_go.Money.Parse.{parse_money}
use betting_processing_go.Money.Print.{
  digits, decimal, two_digits, print_units, print_money, marshal_json, unmarshal_json,
}
use betting_processing_go.Money.Decimal.{Denotes, cents, parse_money_complete}
use betting_processing_go.Money.Decimal.Scan.{IsDigit, value}

to_uint64-pos : (n : ℕ) → n ≤ 2 ^ 63 - 1 → n % 2 ^ 64 ≡ n
to_uint64-pos n h = omega arith

-- The rounds of the printer put before `out` the digits that spell `n`, whatever is read behind them.
digits-value : (fuel n : ℕ) (out : Text) → n ≤ fuel → value 0 (digits fuel n out) ≡ value n out
unfolding digits
digits-value zero n out h = let e : n ≡ 0 = omega arith in rw e
digits-value (suc fuel) n out h = ground (arith, digits-value fuel (n / 10) ((b'0' + n % 10) ∷ out))

digits-All : (fuel n : ℕ) (out : Text) → All IsDigit out → All IsDigit (digits fuel n out)
unfolding digits
digits-All zero n out h = h
digits-All (suc fuel) n out h = ground (arith, digits-All fuel (n / 10) ((b'0' + n % 10) ∷ out))

digits-ne-nil : (fuel n : ℕ) (out : Text) → out ≢ [] → digits fuel n out ≢ []
unfolding digits
digits-ne-nil zero n out h = h
digits-ne-nil (suc fuel) n out h =
    ground (arith, digits-ne-nil fuel (n / 10) ((b'0' + n % 10) ∷ out))

-- The digits of a positive number are not empty.
digits-pos : (fuel n : ℕ) → 0 < n → n ≤ fuel → digits fuel n [] ≢ []
unfolding digits
digits-pos zero n p h = absurd (omega arith)
digits-pos (suc fuel) n p h = ground (arith, digits-ne-nil fuel (n / 10) ((b'0' + n % 10) ∷ []))

decimal-Number : (n : ℕ) → (decimal n ≢ []) × All IsDigit (decimal n) × (value 0 (decimal n) ≡ n)
unfolding decimal
decimal-Number n = ground (arith, digits-pos n n, digits-All n n [], digits-value n n [])

digits-zero : (fuel : ℕ) (out : Text) → digits fuel 0 out ≡ out
unfolding digits
digits-zero zero out = refl
digits-zero (suc fuel) out = refl

digits-one :
    (fuel n : ℕ) (out : Text)
    → 0 < n
    → n < 10
    → n ≤ fuel
    → digits fuel n out ≡ (b'0' + n % 10) ∷ out
unfolding digits
digits-one zero n out p h f = absurd (omega arith)
digits-one (suc fuel) n out p h f =
    let e : n / 10 ≡ 0 = omega arith in ground (arith, digits-zero fuel ((b'0' + n % 10) ∷ out))

digits-two :
    (fuel n : ℕ)
    → 10 ≤ n
    → n < 100
    → n ≤ fuel
    → digits fuel n [] ≡ (b'0' + n / 10) ∷ (b'0' + n % 10) ∷ []
unfolding digits
digits-two zero n p h f = absurd (omega arith)
digits-two (suc fuel) n p h f =
    let e : n / 10 % 10 ≡ n / 10 = omega arith in
    ground (arith, digits-one fuel (n / 10) ((b'0' + n % 10) ∷ []))

-- Below a hundred `%02d` prints the two digits.
two_digits-pair : (n : ℕ) → n < 100 → two_digits n ≡ (b'0' + n / 10) ∷ (b'0' + n % 10) ∷ []
unfolding two_digits decimal
two_digits-pair n h = ground (arith, digits-one n n [], digits-two n n)

-- What String prints of a magnitude is an amount of the grammar with that value.
pub print_units-Denotes : (n : ℕ) → Denotes (print_units n) n
unfolding print_units
print_units-Denotes n =
    let (ne, all_digit, e) = decimal-Number (n / 100) in
    let pair = two_digits-pair (n % 100) (omega arith) in
    let d = b'0' + n % 100 / 10 in
    let u = b'0' + n % 100 % 10 in
    let shown =
      cents (decimal (n / 100)) d u ne all_digit (omega arith, omega arith)
        (omega arith, omega arith) in
    let total : value 0 (decimal (n / 100)) * 100 + ((d - b'0') * 10 + (u - b'0')) ≡ n =
      rw e (omega arith) in
    subst (λ k. Denotes (decimal (n / 100) ++ b'.' ∷ two_digits (n % 100)) k) total (rw pair shown)

print_money-pos :
    (n : ℕ) (c : Currency)
    → n ≤ 2 ^ 63 - 1
    → print_money (record { amount = pos n; currency = c }) ≡ print_units n
unfolding print_money
print_money-pos n c h = ground (arith, to_uint64-pos n h)

-- Parsing what String prints gives the amount back, for every amount that is zero or more in the
-- supported currency.
pub parse-print :
    (n : ℕ)
    → n ≤ 2 ^ 63 - 1
    → let m : Money = record { amount = pos n; currency = brl } in
      parse_money (print_money m) brl ≡ ok m
parse-print n h =
    rw (print_money-pos n brl h, parse_money_complete _ n (print_units-Denotes n)) (ground arith)

codec_at :
    (z : ℤ) (c : Currency)
    → IsInt64 z
    → let m : Money = record { amount = z; currency = c } in
      (marshal_json m >>= unmarshal_json) ≡ (
        if not (valid c)
        then money_err MoneyError.unsupported_currency
        else if is_negative m
        then money_err MoneyError.negative_external
        else ok m)
unfolding marshal_json unmarshal_json valid is_negative
codec_at (negsuc n) c h = ground arith
codec_at (pos n) c h = ground (arith, eq_iff c brl, parse-print n h.0)

-- JSON carries an amount through unchanged, and is refused exactly for an unsupported currency or a
-- negative amount.
pub unmarshal-marshal :
    (m : Money)
    → IsInt64 m.amount
    → (marshal_json m >>= unmarshal_json) ≡ (
        if not (valid m.currency)
        then money_err MoneyError.unsupported_currency
        else if is_negative m
        then money_err MoneyError.negative_external
        else ok m)
unmarshal-marshal m h = codec_at m.amount m.currency h
