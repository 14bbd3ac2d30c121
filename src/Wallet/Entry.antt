-- ===== src/Wallet/Entry.antt =====
-- ledger_entry.go.
use betting_processing_go.Prelude.{String, Bool, true, false, not, ◌||◌, ◌==◌}
use betting_processing_go.Prelude.Text.{str_eq}
use betting_processing_go.Prelude.Int.{pos, eqb_ℤ}
use betting_processing_go.Errors.{Result, ok, WalletError, Sentinel, fail_if, ◌>>◌, ◌>>=◌}
use betting_processing_go.Money.{
  Money, Currency, no_money, is_zero, is_negative, add, subtract, compare_money,
}
use betting_processing_go.Wallet.Defs.{Time}

-- A `Direction` is a string: one of the two constants, or any other text.
pub data Direction : Type 0 where
  debit credit : Direction
  other_direction : String → Direction

pub record LedgerEntry : Type 0 where
  pub id : String
  pub wallet_id : String
  pub transaction_id : String
  pub direction : Direction
  pub amount : Money
  pub currency : Currency
  pub balance_before : Money
  pub balance_after : Money
  pub created_at : Time

unfoldable pub is_direction : Direction → Bool
is_direction Direction.debit = true
is_direction Direction.credit = true
is_direction (Direction.other_direction s) = false

-- `expectedAfter`
unfoldable pub expected_after : Direction → Money → Money → Result Money
expected_after Direction.credit before amount = add before amount
expected_after Direction.debit before amount = subtract before amount
expected_after (Direction.other_direction s) before amount = ok no_money

-- The checks that both constructors make on the amounts.
unfoldable pub check_amounts : Money → Money → Money → Result (Unit {0})
check_amounts amount before after = do
  fail_if (is_negative amount || is_zero amount)
      (Sentinel.wallet WalletError.positive_amount_required)
  fail_if (is_negative before || is_negative after) (Sentinel.wallet WalletError.negative_balance)
  fail_if
      (not (str_eq amount.currency before.currency) || not (str_eq amount.currency after.currency))
      (Sentinel.wallet WalletError.currency_mismatch)

unfoldable pub check_math : Direction → Money → Money → Money → Result (Unit {0})
unfolding expected_after
check_math direction amount before after = do
  expected ← expected_after direction before amount
  cmp ← compare_money expected after
  fail_if (not (eqb_ℤ cmp (pos 0))) (Sentinel.wallet WalletError.ledger_math_invalid)

unfoldable pub new_ledger_entry :
    Time → String → String → String → Direction → Money → Money → Money → Result LedgerEntry
unfolding is_direction check_amounts check_math
new_ledger_entry now id wallet_id transaction_id direction amount before after = do
  fail_if (str_eq wallet_id "" || str_eq transaction_id "")
      (Sentinel.wallet WalletError.invalid_ledger_entry)
  fail_if (not (is_direction direction)) (Sentinel.wallet WalletError.invalid_ledger_entry)
  check_amounts amount before after
  check_math direction amount before after
  ok (record {
    id = id;
    wallet_id = wallet_id;
    transaction_id = transaction_id;
    direction = direction;
    amount = amount;
    currency = amount.currency;
    balance_before = before;
    balance_after = after;
    created_at = now;
  })

unfoldable pub rehydrate_ledger_entry :
    String → String → String → Direction → Money → Money → Money → Time → Result LedgerEntry
unfolding is_direction check_amounts check_math
rehydrate_ledger_entry id wallet_id transaction_id direction amount before after created_at = do
  fail_if (str_eq id "" || str_eq wallet_id "" || str_eq transaction_id "")
      (Sentinel.wallet WalletError.invalid_ledger_entry)
  fail_if (not (is_direction direction)) (Sentinel.wallet WalletError.invalid_ledger_entry)
  check_amounts amount before after
  fail_if (created_at == 0) (Sentinel.wallet WalletError.invalid_wallet_timestamp)
  check_math direction amount before after
  ok (record {
    id = id;
    wallet_id = wallet_id;
    transaction_id = transaction_id;
    direction = direction;
    amount = amount;
    currency = amount.currency;
    balance_before = before;
    balance_after = after;
    created_at = created_at;
  })
