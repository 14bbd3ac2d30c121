-- ===== src/Handlers/Transactions.antt =====
-- wager_transaction_handler.go.
use betting_processing_go.Prelude.{
  ℕ, String, Bool, true, false, not, ◌&&◌, ◌||◌, Option, none, some, if◌then◌else◌,
}
use betting_processing_go.Prelude.Text.{str_eq}
use betting_processing_go.Errors.{
  Error, Result, ok, err, WagerError, WalletError, Sentinel, errors_is,
}
use betting_processing_go.ErrorTexts.{error_text}
use betting_processing_go.Wallet.{Wallet}
use betting_processing_go.Wager.{Transaction, TransactionStatus, pending, pending_reference}
use betting_processing_go.Store.{
  Env, Action, lift, attempt, find_transaction, find_by_external_id, ◌>>=◌,
}
use betting_processing_go.WalletService.{get_wallet}
use betting_processing_go.WagerService.{
  Request, MoneyDto, Digest, ProcessResult, process_transaction,
}
use betting_processing_go.Handlers.Responses.{
  failure, bare_failure, response_body, transaction_body, Reply, reply_of, write_json, view_money,
  is_blank, unless_refused, foreign_to, TransactionView,
}

-- The header, the decoded body or `none` where it is no JSON object, and the provider of the context.
pub record WagerTransactionRequest : Type 0 where
  pub provider_id : String
  pub external_transaction_id : String
  pub player_id : String
  pub wallet_id : String
  pub round_id : String
  pub game_id : String
  pub kind : String
  pub money : MoneyDto
  pub reference_external_id : String

unfoldable pub lacks_fields : WagerTransactionRequest → Bool
lacks_fields req =
    is_blank req.provider_id
    || (is_blank req.external_transaction_id
        || (is_blank req.player_id || (is_blank req.wallet_id || is_blank req.kind)))

-- The owner of the wallet.
unfoldable pub check_owner : String → Result Wallet → Option Reply
check_owner provider_id (err e) =
    some (reply_of 422 (failure "wallet_not_found" "wallet not found"))
check_owner provider_id (ok w) =
    if str_eq w.provider_id provider_id
    then none
    else some (reply_of 403 (failure "provider_mismatch" "wallet belongs to another provider"))

unfoldable pub check_provider :
    Env → Option String → WagerTransactionRequest → Action (Option Reply)
unfolding check_owner
check_provider env none req = lift (ok none)
check_provider env (some provider_id) req =
    if str_eq req.provider_id provider_id
    then (do
      found ← attempt (get_wallet env req.wallet_id)
      lift (ok (check_owner provider_id found)))
    else lift (
        ok (
          some (
            reply_of 403 (
              failure "provider_mismatch"
                "providerId in body does not match authenticated provider"))))

-- The default currency, and the amount of a LOSS.
unfoldable pub default_money : String → MoneyDto → MoneyDto
default_money kind money = record {
  amount = if str_eq kind "LOSS" then "0.00" else money.amount;
  currency = if str_eq money.currency "" then "BRL" else money.currency;
}

-- svcReq
unfoldable pub service_request : WagerTransactionRequest → Request
unfolding default_money
service_request req = record {
  provider_id = req.provider_id;
  external_transaction_id = req.external_transaction_id;
  player_id = req.player_id;
  wallet_id = req.wallet_id;
  round_id = req.round_id;
  game_id = req.game_id;
  kind = req.kind;
  money = default_money req.kind req.money;
  reference_external_id = req.reference_external_id;
  idempotency_key = "";
}

-- The switch on the error.
unfoldable pub error_reply : Error → Reply
error_reply e =
    if errors_is (Sentinel.wager WagerError.payload_conflict) e
    then reply_of 409 (failure "payload_conflict" "idempotency key reused with different payload")
    else if errors_is (Sentinel.wager WagerError.opening_rejected) e
    then reply_of 400 (failure "invalid_kind" "OPENING is reserved for internal wallet creation")
    else if errors_is (Sentinel.wager WagerError.invalid_money) e
    then reply_of 400 (failure "invalid_money" (error_text e))
    else if errors_is (Sentinel.wager WagerError.invalid_transaction_type) e
    then reply_of 400 (failure "invalid_kind" "kind must be BET, WIN, LOSS, REFUND, or ROLLBACK")
    else if errors_is (Sentinel.wallet WalletError.insufficient_balance) e
    then reply_of 422 (failure "insufficient_balance" "wallet does not have sufficient balance")
    else if errors_is (Sentinel.wallet WalletError.concurrent_update) e
    then reply_of 503 (failure "concurrent_update" "optimistic lock conflict, retry")
    else reply_of 500 (failure "internal_error" "processing failed")

unfoldable pub is_waiting : TransactionStatus → Bool
is_waiting pending = true
is_waiting pending_reference = true
is_waiting _ = false

unfoldable pub status_of : ProcessResult → ℕ
unfolding is_waiting
status_of result =
    if is_waiting result.status then 202 else if result.idempotent_replay then 200 else 201

unfoldable pub process_reply : Result ProcessResult → Reply
unfolding error_reply status_of
process_reply (err e) = error_reply e
process_reply (ok result) = reply_of (status_of result) (
    response_body (record {
      transaction_id = result.transaction_id;
      status = result.status;
      balance = view_money result.balance;
      idempotent_replay = result.idempotent_replay;
    }))

-- The check on the amount, the call of the service and its reply.
unfoldable pub submit : Env → Digest → String → WagerTransactionRequest → Action Reply
unfolding service_request process_reply
submit env digest idempotency_key req =
    if not (str_eq req.kind "LOSS") && (is_blank req.money.amount || is_blank req.money.currency)
    then write_json 400 (
        failure "invalid_money"
          "money.amount and money.currency are required for non-LOSS transactions")
    else (do
      outcome ← attempt (process_transaction env digest (service_request req) idempotency_key "")
      lift (ok (process_reply outcome)))

unfoldable pub create_decoded :
    Env → Digest → String → Option String → Option WagerTransactionRequest → Action Reply
unfolding lacks_fields check_provider submit
create_decoded env digest idempotency_key provider none =
    write_json 400 (failure "invalid_json" "body must be a valid JSON object")
create_decoded env digest idempotency_key provider (some req) =
    if lacks_fields req
    then write_json 400 (
        failure "invalid_request"
          "providerId, externalTransactionId, playerId, walletId, and kind are required")
    else (do
      refusal ← check_provider env provider req
      unless_refused refusal (submit env digest idempotency_key req))

-- Create: the Idempotency-Key header, the provider of the context and the decoded body, `none` where it
-- is no JSON object.
unfoldable pub create_transaction :
    Env → Digest → String → Option String → Option WagerTransactionRequest → Action Reply
unfolding create_decoded
create_transaction env digest idempotency_key provider body =
    if is_blank idempotency_key
    then write_json 400 (failure "missing_idempotency_key" "Idempotency-Key header is required")
    else create_decoded env digest idempotency_key provider body

unfoldable pub view_transaction : Transaction → TransactionView
view_transaction tx = record {
  id = tx.id;
  origin = tx.origin;
  external_transaction_id = tx.external_id;
  provider_id = tx.provider;
  wallet_id = tx.wallet_id;
  player_id = tx.player_id;
  round_id = tx.round_id;
  game_id = tx.game_id;
  kind = tx.transaction_type;
  amount = view_money tx.amount;
  external_reference_id = tx.external_reference;
  internal_reference_id = tx.internal_reference;
  status = tx.status;
  failure_code = tx.failure_code;
}

unfoldable pub transaction_failure : Error → Reply
transaction_failure e =
    if errors_is (Sentinel.wager WagerError.transaction_not_found) e
    then reply_of 404 (bare_failure "transaction_not_found")
    else reply_of 500 (bare_failure "internal_error")

unfoldable pub transaction_reply : Option String → Result Transaction → Reply
unfolding transaction_failure view_transaction
transaction_reply provider (err e) = transaction_failure e
transaction_reply provider (ok tx) =
    if foreign_to provider tx.provider
    then reply_of 403 (failure "provider_mismatch" "transaction belongs to another provider")
    else reply_of 200 (transaction_body (view_transaction tx))

-- Get
unfoldable pub get_transaction : Env → Option String → String → Action Reply
unfolding transaction_reply
get_transaction env provider id =
    if is_blank id then write_json 400 (bare_failure "invalid_transaction_id") else (do
      found ← attempt (find_transaction env id)
      lift (ok (transaction_reply provider found)))

-- GetByProviderAndExternalID; the provider of the path comes after that of the context.
unfoldable pub get_by_external_id : Env → Option String → String → String → Action Reply
unfolding transaction_reply
get_by_external_id env provider provider_id external_id =
    if is_blank provider_id || is_blank external_id
    then write_json 400 (bare_failure "invalid_parameters")
    else if foreign_to provider provider_id
    then write_json 403
        (failure "provider_mismatch" "providerId in URL does not match authenticated provider")
    else (do
      found ← attempt (find_by_external_id env provider_id external_id)
      lift (ok (transaction_reply none found)))
