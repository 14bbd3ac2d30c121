-- ===== src/Money/Tests.antt =====
-- Tests of the amounts, and the theorems at concrete inputs.
use betting_processing_go.Prelude.{◌-◌, ◌^◌, ◌≡◌, refl, not, ◌&&◌, arith, if◌then◌else◌}
use betting_processing_go.Prelude.Text.{codes, str_eq}
use betting_processing_go.Prelude.Int.{pos, negsuc, ◌+ℤ◌, ◌-ℤ◌, eqb_ℤ}
use betting_processing_go.Prelude.Int64.{min_int64, add64, sub64, neg64, wrap64}
use betting_processing_go.Errors.{ok, MoneyError, money_err, ◌>>=◌}
use betting_processing_go.Money.{
  Money, brl, add, subtract, negate, valid, is_negative, parse_money, print_money, print_units,
  decimal, two_digits, marshal_json, unmarshal_json, check_input, parse_parts, split, text_eq,
  contains_any, starts_with_char, is_digits, byte_len, parse_uint, new_money,
}
use betting_processing_go.Prelude.Text.{trim_space, is_space}
use betting_processing_go.Money.Arithmetic.{exact, add-exact, subtract-exact, negate-negate}
use betting_processing_go.Money.Decimal.{cents, bounded, parse_money_complete}
use betting_processing_go.Money.Accepted.{Accepts, parse_money_sound}
use betting_processing_go.Money.Codec.{parse-print, unmarshal-marshal}

abbrev ten : Money
ten = record { amount = pos 1000; currency = brl }

abbrev owed : Money
owed = record { amount = negsuc 249; currency = brl }

-- "10.5" is a thousand and fifty minor units.
parse_ten_fifty : parse_money (codes "10.5") brl ≡ ok (record { amount = pos 1050; currency = brl })
unfolding parse_money check_input trim_space text_eq contains_any starts_with_char split is_digits
    byte_len parse_uint parse_parts valid new_money is_space
parse_ten_fifty = refl

-- The bound of an int64, and one above it.
parse_bound :
    (parse_money (codes "92233720368547758.07") brl
      ≡ ok (record { amount = pos (2 ^ 63 - 1); currency = brl }))
    × (parse_money (codes "92233720368547758.08") brl ≡ money_err MoneyError.overflow)
unfolding parse_money check_input trim_space text_eq contains_any starts_with_char split is_digits
    byte_len parse_uint parse_parts valid new_money is_space
parse_bound = (refl, refl)

-- Refusals, each with its own error.
parse_refusals :
    (parse_money (codes "1.234") brl ≡ money_err MoneyError.scale_exceeded)
    × (parse_money (codes "-1") brl ≡ money_err MoneyError.negative_external)
    × (parse_money (codes "1e5") brl ≡ money_err MoneyError.scientific_notation)
    × (parse_money (codes " 1") brl ≡ money_err MoneyError.invalid_money)
    × (parse_money (codes "1.2.3") brl ≡ money_err MoneyError.invalid_money)
    × (parse_money (codes "1") "USD" ≡ money_err MoneyError.unsupported_currency)
unfolding parse_money check_input trim_space text_eq contains_any starts_with_char split is_digits
    byte_len parse_uint parse_parts valid new_money is_space
parse_refusals = (refl, refl, refl, refl, refl, refl)

print_owed : print_money owed ≡ codes "-2.50"
unfolding print_money print_units decimal two_digits neg64 add64 sub64 wrap64 ◌+ℤ◌ ◌-ℤ◌
print_owed = refl

parse_money_sound_example :
    Accepts (codes "10.5") brl (record { amount = pos 1050; currency = brl })
parse_money_sound_example = parse_money_sound (codes "10.5") brl parse_ten_fifty

parse_money_complete_example : parse_money (codes "7.25") brl ≡ bounded 725
parse_money_complete_example =
    parse_money_complete (codes "7.25") 725
      (cents (codes "7") b'2' b'5' (cc) (omega arith) (omega arith) (omega arith))

parse-print_example : parse_money (print_money ten) brl ≡ ok ten
parse-print_example = parse-print 1000 (omega arith)

unmarshal-marshal_example : (marshal_json owed >>= unmarshal_json) ≡ (
    if not (valid brl)
    then money_err MoneyError.unsupported_currency
    else if is_negative owed
    then money_err MoneyError.negative_external
    else ok owed)
unmarshal-marshal_example = unmarshal-marshal owed (omega arith)

add-exact_example : add ten owed ≡ exact (str_eq brl brl) (pos 1000 +ℤ negsuc 249) ten
add-exact_example = add-exact ten owed (omega arith) (omega arith)

subtract-exact_example : subtract owed ten ≡ (
    if str_eq brl brl && eqb_ℤ (pos 1000) min_int64
    then money_err MoneyError.overflow
    else exact (str_eq brl brl) (negsuc 249 -ℤ pos 1000) owed)
subtract-exact_example = subtract-exact owed ten (omega arith) (omega arith)

negate-negate_example :
    if eqb_ℤ (negsuc 249) min_int64
    then negate owed ≡ money_err MoneyError.overflow
    else (negate owed >>= negate) ≡ ok owed
negate-negate_example = negate-negate owed (omega arith)

add-ten-owed : add ten owed ≡ ok (record { amount = pos 750; currency = brl })
unfolding add add64 sub64 wrap64 ◌+ℤ◌ ◌-ℤ◌
add-ten-owed = refl
