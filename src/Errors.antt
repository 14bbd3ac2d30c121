-- ===== src/Errors.antt =====
-- The error values of internal/money/errors.go, internal/wallet/errors.go and
-- internal/wagertransaction/errors.go, Go's wrapping of errors, and results that may be an error.
use betting_processing_go.Prelude.{String, Bool, true, false, ◌||◌}

pub data MoneyError : Type 0 where
  invalid_money invalid_currency currency_mismatch negative_external overflow : MoneyError
  scale_exceeded scientific_notation unsupported_currency : MoneyError

pub data WalletError : Type 0 where
  invalid_wallet_id invalid_player_id invalid_provider_id invalid_currency : WalletError
  currency_mismatch negative_balance insufficient_balance positive_amount_required : WalletError
  invalid_wallet_version invalid_wallet_timestamp invalid_ledger_entry : WalletError
  ledger_math_invalid wallet_not_found duplicate_wallet concurrent_update : WalletError

pub data WagerError : Type 0 where
  invalid_transaction_id invalid_provider invalid_external_id invalid_idempotency_key : WagerError
  invalid_wallet_id invalid_player_id invalid_transaction_type invalid_money : WagerError
  opening_rejected positive_amount_required zero_amount_required : WagerError
  invalid_state_transition transaction_not_found payload_conflict : WagerError
  insufficient_balance reference_not_found reference_not_successful : WagerError
  double_reversal provider_mismatch player_mismatch wallet_mismatch : WagerError
  currency_mismatch round_mismatch reversal_value_mismatch : WagerError
  idempotent_duplicate external_id_reuse : WagerError

-- The values of the `errors.New` variables.
pub data Sentinel : Type 0 where
  money : MoneyError → Sentinel
  wallet : WalletError → Sentinel
  wager : WagerError → Sentinel

-- An error and what it wraps: `wrap p e` is `fmt.Errorf("p: %w", e)`, `wrap_both` is "%w: %w",
-- `annotate` is "%w: %v", whose second part is text only, and `external` is an error of the
-- database driver with its text.
pub data Error : Type 0 where
  sentinel : Sentinel → Error
  wrap : String → Error → Error
  wrap_both : Error → Error → Error
  annotate : Error → Error → Error
  external : String → Error

unfoldable pub sentinel_discrete : Discrete Sentinel
sentinel_discrete = hlevel

pub data Result (A : Type 0) : Type 0 where
  ok : A → Result A
  err : Error → Result A

abbrev pub money_err : {A : Type 0} → MoneyError → Result A
money_err e = err (Error.sentinel (Sentinel.money e))

abbrev pub wallet_err : {A : Type 0} → WalletError → Result A
wallet_err e = err (Error.sentinel (Sentinel.wallet e))

abbrev pub wager_err : {A : Type 0} → WagerError → Result A
wager_err e = err (Error.sentinel (Sentinel.wager e))

-- `if err != nil { return fmt.Errorf("p: %w", err) }`
abbrev pub wrapping : {A : Type 0} → String → Result A → Result A
wrapping p (ok a) = ok a
wrapping p (err e) = err (Error.wrap p e)

infixl 5 ◌>>=◌ ◌>>◌
abbrev pub ◌>>=◌ : {A B : Type 0} → Result A → (A → Result B) → Result B
ok a >>= f = f a
err e >>= f = err e

abbrev pub ◌>>◌ : {B : Type 0} → Result (Unit {0}) → Result B → Result B
m >> k = m >>= λ _. k

-- `if b { return e }`
abbrev pub fail_if : Bool → Sentinel → Result (Unit {0})
fail_if true e = err (Error.sentinel e)
fail_if false e = ok tt

-- `a == b` of two error variables
unfoldable pub same_sentinel : Sentinel → Sentinel → Bool
unfolding sentinel_discrete
same_sentinel a b = elim (sentinel_discrete a b) [ Dec.yes p ↦ true | Dec.no n ↦ false ]

-- errors.Is
unfoldable pub errors_is : Sentinel → Error → Bool
unfolding same_sentinel
errors_is s (Error.sentinel t) = same_sentinel t s
errors_is s (Error.wrap p e) = errors_is s e
errors_is s (Error.wrap_both e f) = errors_is s e || errors_is s f
errors_is s (Error.annotate e f) = errors_is s e
errors_is s (Error.external text) = false
