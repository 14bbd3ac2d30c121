-- ===== src/Money/Parse.antt =====
-- ParseMoney. The input is a list of code points, since the code walks it; `len` counts UTF-8 bytes.
use betting_processing_go.Prelude.{
  ℕ, ◌+◌, ◌-◌, ◌*◌, ◌/◌, ◌%◌, ◌^◌, Bool, true, false, not, ◌&&◌, ◌||◌, Option, none, some, List, [],
  ◌∷◌, ◌++◌, ltb, ◌==◌, any, if◌then◌else◌,
}
use betting_processing_go.Prelude.Text.{Text, codes, trim_space}
use betting_processing_go.Prelude.Int64.{of_uint64}
use betting_processing_go.Errors.{Result, ok, MoneyError, Sentinel, money_err, fail_if, ◌>>◌, ◌>>=◌}
use betting_processing_go.Money.Defs.{Currency, Money, valid, new_money}

-- `==` of two strings.
unfoldable pub text_eq : Text → Text → Bool
text_eq [] [] = true
text_eq [] (d ∷ t) = false
text_eq (c ∷ s) [] = false
text_eq (c ∷ s) (d ∷ t) = c == d && text_eq s t

-- strings.ContainsAny
unfoldable pub contains_any : Text → Text → Bool
contains_any s chars = any (λ c. any (λ d. c == d) chars) s

-- strings.HasPrefix for a prefix of one character
unfoldable pub starts_with_char : ℕ → Text → Bool
starts_with_char c [] = false
starts_with_char c (d ∷ s) = d == c

unfoldable pub push_front : ℕ → List Text → List Text
push_front c [] = (c ∷ []) ∷ []
push_front c (p ∷ ps) = (c ∷ p) ∷ ps

-- strings.Split for a separator of one character
unfoldable pub split : ℕ → Text → List Text
unfolding push_front
split sep [] = [] ∷ []
split sep (c ∷ s) = let rest = split sep s in if c == sep then [] ∷ rest else push_front c rest

-- `len` of a string: its bytes in UTF-8.
unfoldable pub char_len : ℕ → ℕ
char_len c = if ltb c 0x80 then 1 else if ltb c 0x800 then 2 else if ltb c 0x10000 then 3 else 4

unfoldable pub byte_len : Text → ℕ
unfolding char_len
byte_len [] = 0
byte_len (c ∷ s) = char_len c + byte_len s

unfoldable pub is_digit : ℕ → Bool
is_digit c = not (ltb c b'0' || ltb b'9' c)

unfoldable pub all_digits : Text → Bool
unfolding is_digit
all_digits [] = true
all_digits (c ∷ s) = is_digit c && all_digits s

unfoldable pub is_digits : Text → Bool
unfolding all_digits
is_digits [] = false
is_digits (c ∷ s) = all_digits (c ∷ s)

-- strconv.ParseUint(s, 10, 64) on a text of digits; `none` is its range error.
unfoldable pub parse_uint_from : ℕ → Text → Option ℕ
parse_uint_from n [] = some n
parse_uint_from n (c ∷ s) =
    let m = n * 10 + (c - b'0') in
    let rest = parse_uint_from m s in if ltb (2 ^ 64 - 1) m then none else rest

unfoldable pub parse_uint : Text → Option ℕ
unfolding parse_uint_from
parse_uint s = parse_uint_from 0 s

-- The names that the parser takes for numbers in scientific notation, with its `eE+` test.
unfoldable pub is_scientific : Text → Bool
is_scientific input =
    text_eq input (codes "NaN")
    || text_eq input (codes "Inf")
    || text_eq input (codes "Infinity")
    || text_eq input (codes "INF")
    || text_eq input (codes "INFINITY")
    || contains_any input (codes "eE+")

abbrev pub or_overflow : Option ℕ → MoneyError → Result ℕ
or_overflow none e = money_err e
or_overflow (some n) e = ok n

-- The minor units: `minorPart += "0"` for one digit, then ParseUint.
unfoldable pub parse_minor : Text → Result ℕ
parse_minor minor_part = do
  fail_if (text_eq minor_part []) (Sentinel.money MoneyError.invalid_money)
  fail_if (ltb 2 (byte_len minor_part)) (Sentinel.money MoneyError.scale_exceeded)
  fail_if (not (is_digits minor_part)) (Sentinel.money MoneyError.invalid_money)
  or_overflow
      (parse_uint (if byte_len minor_part == 1 then minor_part ++ b'0' ∷ [] else minor_part))
      MoneyError.invalid_money

abbrev pub max_whole : ℕ
max_whole = (2 ^ 63 - 1) / 100

abbrev pub max_minor : ℕ
max_minor = (2 ^ 63 - 1) % 100

-- `int64(whole*100+minor)` behind the bound, in uint64.
unfoldable pub combine : ℕ → ℕ → Currency → Result Money
combine whole minor currency = do
  fail_if (ltb max_whole whole || (whole == max_whole && ltb max_minor minor))
      (Sentinel.money MoneyError.overflow)
  new_money (of_uint64 ((whole * 100 + minor) % 2 ^ 64)) currency

-- The whole part, the minor part if there is a point, and no third part.
unfoldable pub parse_parts : List Text → Currency → Result Money
unfolding parse_minor combine
parse_parts [] currency = money_err MoneyError.invalid_money
parse_parts (whole_part ∷ []) currency = do
  fail_if (not (is_digits whole_part)) (Sentinel.money MoneyError.invalid_money)
  whole ← or_overflow (parse_uint whole_part) MoneyError.overflow
  combine whole 0 currency
parse_parts (whole_part ∷ minor_part ∷ []) currency = do
  fail_if (not (is_digits whole_part)) (Sentinel.money MoneyError.invalid_money)
  whole ← or_overflow (parse_uint whole_part) MoneyError.overflow
  minor ← parse_minor minor_part
  combine whole minor currency
parse_parts (_ ∷ _ ∷ _ ∷ _) currency = money_err MoneyError.invalid_money

-- The refusals before the text is split, in their order.
unfoldable pub check_input : Text → Currency → Result (Unit {0})
unfolding is_scientific
check_input input currency = do
  fail_if (not (valid currency)) (Sentinel.money MoneyError.unsupported_currency)
  fail_if (text_eq input []) (Sentinel.money MoneyError.invalid_money)
  fail_if (not (text_eq (trim_space input) input)) (Sentinel.money MoneyError.invalid_money)
  fail_if (is_scientific input) (Sentinel.money MoneyError.scientific_notation)
  fail_if (contains_any input (codes ", ") || contains_any input (codes "\t\r\n"))
      (Sentinel.money MoneyError.invalid_money)
  fail_if (starts_with_char b'-' input) (Sentinel.money MoneyError.negative_external)

unfoldable pub parse_money : Text → Currency → Result Money
unfolding check_input parse_parts
parse_money input currency = do check_input input currency; parse_parts (split b'.' input) currency
