-- ===== src/Money/Defs.antt =====
-- `Money` and its arithmetic. A string type such as `Currency` is a native text.
use betting_processing_go.Prelude.{String, Bool, not, ◌&&◌, if◌then◌else◌}
use betting_processing_go.Prelude.Text.{str_eq}
use betting_processing_go.Prelude.Int.{ℤ, pos, negsuc, ltb_ℤ, eqb_ℤ}
use betting_processing_go.Prelude.Int64.{max_int64, min_int64, add64, sub64, neg64}
use betting_processing_go.Errors.{Result, ok, MoneyError, Sentinel, money_err, fail_if, ◌>>◌}

abbrev pub Currency : Type 0
Currency = String

abbrev pub brl : Currency
brl = "BRL"

pub record Money : Type 0 where
  pub amount : ℤ  -- int64
  pub currency : Currency

-- `Money{}`
abbrev pub no_money : Money
no_money = record { amount = pos 0; currency = "" }

-- `Currency.Valid`
unfoldable pub valid : Currency → Bool
valid c = str_eq c brl

unfoldable pub new_money : ℤ → Currency → Result Money
unfolding valid
new_money amount currency =
    if not (valid currency)
    then money_err MoneyError.unsupported_currency
    else ok (record { amount = amount; currency = currency })

unfoldable pub zero_money : Currency → Result Money
unfolding new_money
zero_money currency = new_money (pos 0) currency

unfoldable pub is_zero : Money → Bool
is_zero m = eqb_ℤ m.amount (pos 0)

unfoldable pub is_negative : Money → Bool
is_negative m = ltb_ℤ m.amount (pos 0)

unfoldable pub check_currency : Money → Money → Result (Unit {0})
check_currency m other =
    fail_if (not (str_eq m.currency other.currency)) (Sentinel.money MoneyError.currency_mismatch)

unfoldable pub add : Money → Money → Result Money
unfolding check_currency
add m other = do
  check_currency m other
  fail_if (ltb_ℤ (pos 0) other.amount && ltb_ℤ (sub64 max_int64 other.amount) m.amount)
      (Sentinel.money MoneyError.overflow)
  fail_if (ltb_ℤ other.amount (pos 0) && ltb_ℤ m.amount (sub64 min_int64 other.amount))
      (Sentinel.money MoneyError.overflow)
  ok (record { amount = add64 m.amount other.amount; currency = m.currency })

unfoldable pub subtract : Money → Money → Result Money
unfolding check_currency add
subtract m other = do
  check_currency m other
  fail_if (eqb_ℤ other.amount min_int64) (Sentinel.money MoneyError.overflow)
  add m (record { amount = neg64 other.amount; currency = other.currency })

unfoldable pub negate : Money → Result Money
negate m = do
  fail_if (eqb_ℤ m.amount min_int64) (Sentinel.money MoneyError.overflow)
  ok (record { amount = neg64 m.amount; currency = m.currency })

unfoldable pub compare_money : Money → Money → Result ℤ
unfolding check_currency
compare_money m other = do
  check_currency m other
  ok (
      if ltb_ℤ m.amount other.amount
      then negsuc 0
      else if ltb_ℤ other.amount m.amount
      then pos 1
      else pos 0)
