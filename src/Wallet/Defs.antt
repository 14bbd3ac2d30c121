-- ===== src/Wallet/Defs.antt =====
-- wallet.go. The lock of a wallet makes each method one step; a method that changes the wallet
-- returns the new one, and the wallet is unchanged where it returns an error.
use betting_processing_go.Prelude.{ℕ, String, Bool, false, not, ◌||◌, ltb, ◌==◌, if◌then◌else◌}
use betting_processing_go.Prelude.Text.{str_eq, trim_string}
use betting_processing_go.Prelude.Int.{ℤ, pos, ltb_ℤ}
use betting_processing_go.Prelude.Int64.{add64}
use betting_processing_go.Errors.{
  Result, ok, err, WalletError, Sentinel, fail_if, wrapping, ◌>>◌, ◌>>=◌,
}
use betting_processing_go.Money.{
  Money, Currency, brl, is_zero, is_negative, add, subtract, compare_money,
}

-- time.Time as the instant's distance from Go's zero time, which is 0.
abbrev pub Time : Type 0
Time = ℕ

pub record Wallet : Type 0 where
  pub id : String
  pub player_id : String
  pub provider_id : String
  pub currency : Currency
  pub balance : Money
  pub version : ℤ  -- int64
  pub created_at : Time
  pub updated_at : Time

abbrev pub initial_wallet_version : ℤ
initial_wallet_version = pos 1

-- The checks of the three names, which both constructors make after trimming them.
unfoldable pub check_names : String → String → String → Result (Unit {0})
check_names id player_id provider_id = do
  fail_if (str_eq id "") (Sentinel.wallet WalletError.invalid_wallet_id)
  fail_if (str_eq player_id "") (Sentinel.wallet WalletError.invalid_player_id)
  fail_if (str_eq provider_id "") (Sentinel.wallet WalletError.invalid_provider_id)

unfoldable pub new_wallet : Time → String → String → String → Money → Result Wallet
unfolding check_names
new_wallet now raw_id raw_player_id raw_provider_id initial_balance = do
  let id = trim_string raw_id
  let player_id = trim_string raw_player_id
  let provider_id = trim_string raw_provider_id
  check_names id player_id provider_id
  fail_if (not (str_eq initial_balance.currency brl)) (Sentinel.wallet WalletError.invalid_currency)
  fail_if (is_negative initial_balance) (Sentinel.wallet WalletError.negative_balance)
  ok (record {
    id = id;
    player_id = player_id;
    provider_id = provider_id;
    currency = brl;
    balance = initial_balance;
    version = initial_wallet_version;
    created_at = now;
    updated_at = now;
  })

-- The parameters of RehydrateWallet are the fields of the wallet.
unfoldable pub rehydrate_wallet : Wallet → Result Wallet
unfolding check_names
rehydrate_wallet w = do
  let id = trim_string w.id
  let player_id = trim_string w.player_id
  let provider_id = trim_string w.provider_id
  check_names id player_id provider_id
  fail_if (not (str_eq w.currency brl)) (Sentinel.wallet WalletError.invalid_currency)
  fail_if (not (str_eq w.balance.currency w.currency))
      (Sentinel.wallet WalletError.currency_mismatch)
  fail_if (is_negative w.balance) (Sentinel.wallet WalletError.negative_balance)
  fail_if (not (ltb_ℤ (pos 0) w.version)) (Sentinel.wallet WalletError.invalid_wallet_version)
  fail_if (w.created_at == 0 || w.updated_at == 0)
      (Sentinel.wallet WalletError.invalid_wallet_timestamp)
  fail_if (ltb w.updated_at w.created_at) (Sentinel.wallet WalletError.invalid_wallet_timestamp)
  ok (record {
    id = id;
    player_id = player_id;
    provider_id = provider_id;
    currency = w.currency;
    balance = w.balance;
    version = w.version;
    created_at = w.created_at;
    updated_at = w.updated_at;
  })

-- `cmp >= 0` of a comparison that may fail
at_least : Result ℤ → Bool
at_least (ok cmp) = not (ltb_ℤ cmp (pos 0))
at_least (err e) = false

unfoldable pub can_debit : Wallet → Money → Bool
unfolding at_least
can_debit w amount =
    if not (str_eq amount.currency w.currency)
    then false
    else if is_negative amount || is_zero amount
    then false
    else at_least (compare_money w.balance amount)

pub record BalanceChange : Type 0 where
  pub balance_before : Money
  pub balance_after : Money
  pub new_version : ℤ

-- The last lines of Debit and Credit: the new balance, the next version and the time.
unfoldable pub changed : Time → Wallet → Money → Wallet × BalanceChange
changed now w new_balance =
    let version = add64 w.version (pos 1) in
    (
      record w { balance = new_balance; version = version; updated_at = now },
      record { balance_before = w.balance; balance_after = new_balance; new_version = version },
    )

unfoldable pub debit_wallet : Time → Money → Wallet → Result (Wallet × BalanceChange)
debit_wallet now amount w = do
  fail_if (not (str_eq amount.currency w.currency)) (Sentinel.wallet WalletError.currency_mismatch)
  fail_if (is_negative amount || is_zero amount)
      (Sentinel.wallet WalletError.positive_amount_required)
  fail_if (not (can_debit w amount)) (Sentinel.wallet WalletError.insufficient_balance)
  new_balance ← wrapping "subtract balance" (subtract w.balance amount)
  ok (changed now w new_balance)

unfoldable pub credit_wallet : Time → Money → Wallet → Result (Wallet × BalanceChange)
credit_wallet now amount w = do
  fail_if (not (str_eq amount.currency w.currency)) (Sentinel.wallet WalletError.currency_mismatch)
  fail_if (is_negative amount || is_zero amount)
      (Sentinel.wallet WalletError.positive_amount_required)
  new_balance ← wrapping "add balance" (add w.balance amount)
  ok (changed now w new_balance)
