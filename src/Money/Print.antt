-- ===== src/Money/Print.antt =====
-- Money.String, MarshalJSON and UnmarshalJSON. The JSON encoder itself is not modelled: a marshalled
-- amount is the struct of two texts that the code hands to it.
use betting_processing_go.Prelude.{
  ℕ, zero, suc, ◌+◌, ◌/◌, ◌%◌, ◌^◌, not, [], ◌∷◌, ◌++◌, ltb, ◌==◌, if◌then◌else◌,
}
use betting_processing_go.Prelude.Text.{Text}
use betting_processing_go.Prelude.Int.{pos, ltb_ℤ}
use betting_processing_go.Prelude.Int64.{to_uint64, add64, neg64}
use betting_processing_go.Errors.{Result, ok, MoneyError, Sentinel, fail_if, ◌>>◌}
use betting_processing_go.Money.Defs.{Currency, Money, valid, is_negative}
use betting_processing_go.Money.Parse.{parse_money}

-- The digits of `n` before `out`; `n` rounds are enough.
unfoldable pub digits : ℕ → ℕ → Text → Text
digits zero n out = out
digits (suc fuel) n out =
    let more = digits fuel (n / 10) ((b'0' + n % 10) ∷ out) in if n == 0 then out else more

-- `%d` of a uint64
unfoldable pub decimal : ℕ → Text
unfolding digits
decimal n = if n == 0 then b'0' ∷ [] else digits n n []

-- `%02d` of a uint64
unfoldable pub two_digits : ℕ → Text
unfolding decimal
two_digits n = if ltb n 10 then b'0' ∷ decimal n else decimal n

unfoldable pub print_units : ℕ → Text
print_units units = decimal (units / 100) ++ (b'.' ∷ two_digits (units % 100))

-- Money.String: the magnitude of a negative amount is `uint64(-(m.amount + 1)) + 1`.
unfoldable pub print_money : Money → Text
print_money m =
    if ltb_ℤ m.amount (pos 0)
    then b'-' ∷ print_units ((to_uint64 (neg64 (add64 m.amount (pos 1))) + 1) % 2 ^ 64)
    else print_units (to_uint64 m.amount)

-- The struct of the JSON codec.
pub record RawMoney : Type 0 where
  pub amount : Text
  pub currency : Currency

unfoldable pub marshal_json : Money → Result RawMoney
marshal_json m = do
  fail_if (not (valid m.currency)) (Sentinel.money MoneyError.unsupported_currency)
  fail_if (is_negative m) (Sentinel.money MoneyError.negative_external)
  ok (record { amount = print_money m; currency = m.currency })

unfoldable pub unmarshal_json : RawMoney → Result Money
unmarshal_json raw = parse_money raw.amount raw.currency
