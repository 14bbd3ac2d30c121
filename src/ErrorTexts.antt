-- ===== src/ErrorTexts.antt =====
-- The texts of the error variables, and the message of an error.
use betting_processing_go.Prelude.{String}
use betting_processing_go.Prelude.Text.{str_append}
use betting_processing_go.Errors.{MoneyError, WalletError, WagerError, Sentinel, Error}

unfoldable pub money_text : MoneyError → String
money_text MoneyError.invalid_money = "invalid money"
money_text MoneyError.invalid_currency = "invalid currency"
money_text MoneyError.currency_mismatch = "currency mismatch"
money_text MoneyError.negative_external = "negative external amount"
money_text MoneyError.overflow = "money overflow"
money_text MoneyError.scale_exceeded = "scale exceeds two decimal places"
money_text MoneyError.scientific_notation = "scientific notation is not allowed"
money_text MoneyError.unsupported_currency = "unsupported currency"

unfoldable pub wallet_text : WalletError → String
wallet_text WalletError.invalid_wallet_id = "invalid_wallet_id"
wallet_text WalletError.invalid_player_id = "invalid_player_id"
wallet_text WalletError.invalid_provider_id = "invalid_provider_id"
wallet_text WalletError.invalid_currency = "invalid_currency"
wallet_text WalletError.currency_mismatch = "currency_mismatch"
wallet_text WalletError.negative_balance = "negative_balance"
wallet_text WalletError.insufficient_balance = "insufficient_balance"
wallet_text WalletError.positive_amount_required = "positive_amount_required"
wallet_text WalletError.invalid_wallet_version = "invalid_wallet_version"
wallet_text WalletError.invalid_wallet_timestamp = "invalid_wallet_timestamp"
wallet_text WalletError.invalid_ledger_entry = "invalid_ledger_entry"
wallet_text WalletError.ledger_math_invalid = "ledger_math_invalid"
wallet_text WalletError.wallet_not_found = "wallet_not_found"
wallet_text WalletError.duplicate_wallet = "duplicate_wallet"
wallet_text WalletError.concurrent_update = "concurrent_update"

unfoldable pub wager_text : WagerError → String
wager_text WagerError.invalid_transaction_id = "invalid_transaction_id"
wager_text WagerError.invalid_provider = "invalid_provider"
wager_text WagerError.invalid_external_id = "invalid_external_id"
wager_text WagerError.invalid_idempotency_key = "invalid_idempotency_key"
wager_text WagerError.invalid_wallet_id = "invalid_wallet_id"
wager_text WagerError.invalid_player_id = "invalid_player_id"
wager_text WagerError.invalid_transaction_type = "invalid_transaction_type"
wager_text WagerError.invalid_money = "invalid_money"
wager_text WagerError.opening_rejected = "opening_rejected_external"
wager_text WagerError.positive_amount_required = "positive_amount_required"
wager_text WagerError.zero_amount_required = "zero_amount_required"
wager_text WagerError.invalid_state_transition = "invalid_state_transition"
wager_text WagerError.transaction_not_found = "transaction_not_found"
wager_text WagerError.payload_conflict = "payload_conflict"
wager_text WagerError.insufficient_balance = "insufficient_balance"
wager_text WagerError.reference_not_found = "reference_not_found"
wager_text WagerError.reference_not_successful = "reference_not_successful"
wager_text WagerError.double_reversal = "double_reversal"
wager_text WagerError.provider_mismatch = "provider_mismatch"
wager_text WagerError.player_mismatch = "player_mismatch"
wager_text WagerError.wallet_mismatch = "wallet_mismatch"
wager_text WagerError.currency_mismatch = "currency_mismatch"
wager_text WagerError.round_mismatch = "round_mismatch"
wager_text WagerError.reversal_value_mismatch = "reversal_value_mismatch"
wager_text WagerError.idempotent_duplicate = "idempotent_duplicate"
wager_text WagerError.external_id_reuse = "external_id_reuse"

unfoldable pub sentinel_text : Sentinel → String
unfolding money_text wallet_text wager_text
sentinel_text (Sentinel.money e) = money_text e
sentinel_text (Sentinel.wallet e) = wallet_text e
sentinel_text (Sentinel.wager e) = wager_text e

-- `err.Error()`
unfoldable pub error_text : Error → String
unfolding sentinel_text
error_text (Error.sentinel s) = sentinel_text s
error_text (Error.wrap p e) = str_append p (str_append ": " (error_text e))
error_text (Error.wrap_both e f) = str_append (error_text e) (str_append ": " (error_text f))
error_text (Error.annotate e f) = str_append (error_text e) (str_append ": " (error_text f))
error_text (Error.external text) = text
