-- ===== src/WagerService/Process.antt =====
-- ProcessTransaction and handleReplay, and the payload hash of internal/domain/idempotency.go. `digest`
-- is the hexadecimal SHA-256 of the JSON text of a map, given by its pairs in the order of their keys.
use betting_processing_go.Prelude.{
  String, Bool, true, false, not, ◌&&◌, Option, none, some, List, [], ◌∷◌, if◌then◌else◌,
}
use betting_processing_go.Prelude.Text.{str_eq, str_append, codes}
use betting_processing_go.Errors.{
  Error, Result, ok, err, WagerError, Sentinel, wager_err, same_sentinel, errors_is,
}
use betting_processing_go.Money.{Money, parse_money}
use betting_processing_go.Wager.{
  Transaction, TransactionType, opening, bet, win, loss, refund, rollback, other_type, to_type,
  valid_type, ExternalInput, new_external_transaction,
}
use betting_processing_go.Store.{
  Env, Action, lift, map_err, attempt, read_clock, find_by_idempotency_key,
  external_transaction_exists, ◌>>=◌, ◌>>◌,
}
use betting_processing_go.WagerService.Steps.{ProcessResult, get_wallet_balance}
use betting_processing_go.WagerService.Kinds.{
  process_bet, process_win, process_loss, process_refund, process_rollback,
}

pub record MoneyDto : Type 0 where
  pub amount : String
  pub currency : String

pub record Request : Type 0 where
  pub provider_id : String
  pub external_transaction_id : String
  pub player_id : String
  pub wallet_id : String
  pub round_id : String
  pub game_id : String
  pub kind : String
  pub money : MoneyDto
  pub reference_external_id : String
  pub idempotency_key : String

abbrev pub Digest : Type 0
Digest = List (String × String) → String

-- The map that ComputePayloadHash marshals.
unfoldable pub payload_fields : Request → List (String × String)
payload_fields req =
    ("amount", req.money.amount)
    ∷ ("currency", req.money.currency)
    ∷ ("externalId", req.external_transaction_id)
    ∷ ("gameId", req.game_id)
    ∷ ("kind", req.kind)
    ∷ ("playerId", req.player_id)
    ∷ ("providerId", req.provider_id)
    ∷ (if str_eq req.reference_external_id ""
        then ("roundId", req.round_id) ∷ ("walletId", req.wallet_id) ∷ []
        else ("referenceExternalTransactionId", req.reference_external_id)
          ∷ ("roundId", req.round_id)
          ∷ ("walletId", req.wallet_id)
          ∷ [])

-- ComputePayloadHash
unfoldable pub compute_payload_hash : Digest → Request → String
unfolding payload_fields
compute_payload_hash digest req = digest (payload_fields req)

unfoldable pub replayed_balance : Env → Transaction → Option Money → Action Money
replayed_balance env existing (some m) = lift (ok m)
replayed_balance env existing none = get_wallet_balance env existing.wallet_id

-- handleReplay
unfoldable pub handle_replay : Env → Transaction → Action ProcessResult
unfolding replayed_balance
handle_replay env existing = do
  balance ← replayed_balance env existing existing.result_balance
  lift (
      ok (record {
        transaction_id = existing.id;
        status = existing.status;
        balance = balance;
        idempotent_replay = true;
      }))

-- The argument, else the request's own key, else one made of the provider and the external id.
unfoldable pub choose_key : Request → String → String
choose_key req key =
    if not (str_eq key "")
    then key
    else if not (str_eq req.idempotency_key "")
    then req.idempotency_key
    else str_append (str_append req.provider_id ":") req.external_transaction_id

-- `err == ErrTransactionNotFound`, the error itself and not what it wraps
unfoldable pub equals_not_found : Error → Bool
equals_not_found (Error.sentinel s) =
    same_sentinel s (Sentinel.wager WagerError.transaction_not_found)
equals_not_found _ = false

unfoldable pub external_input : Digest → Request → String → Money → ExternalInput
unfolding compute_payload_hash
external_input digest req key amount = record {
  id = "";
  provider = req.provider_id;
  external_id = req.external_transaction_id;
  idempotency_key = key;
  payload_hash = compute_payload_hash digest req;
  wallet_id = req.wallet_id;
  player_id = req.player_id;
  round_id = req.round_id;
  game_id = req.game_id;
  transaction_type = to_type req.kind;
  amount = amount;
  external_reference = req.reference_external_id;
}

-- The switch on the kind.
unfoldable pub dispatch :
    Env → Request → Money → String → Transaction → TransactionType → Action ProcessResult
dispatch env req amount message_id tx bet = process_bet env tx amount message_id
dispatch env req amount message_id tx win =
    process_win env tx req.provider_id req.reference_external_id amount message_id
dispatch env req amount message_id tx loss = process_loss env tx message_id
dispatch env req amount message_id tx refund =
    process_refund env tx req.provider_id req.reference_external_id amount message_id
dispatch env req amount message_id tx rollback =
    process_rollback env tx req.provider_id req.reference_external_id amount message_id
dispatch env req amount message_id tx opening = lift (wager_err WagerError.invalid_transaction_type)
dispatch env req amount message_id tx (other_type s) =
    lift (wager_err WagerError.invalid_transaction_type)

unfoldable pub after_duplicate : Env → Error → Result Transaction → Action ProcessResult
unfolding handle_replay
after_duplicate env e (ok existing) = handle_replay env existing
after_duplicate env e (err f) = lift (err e)

-- A duplicate that another request put in meanwhile is replayed.
unfoldable pub replay_duplicate : Env → Request → String → Error → Action ProcessResult
unfolding after_duplicate
replay_duplicate env req key e =
    if errors_is (Sentinel.wager WagerError.idempotent_duplicate) e
    then (do
      found ← attempt (find_by_idempotency_key env req.provider_id key)
      after_duplicate env e found)
    else lift (err e)

unfoldable pub finish : Env → Request → String → Result ProcessResult → Action ProcessResult
unfolding replay_duplicate
finish env req key (ok r) = lift (ok r)
finish env req key (err e) = replay_duplicate env req key e

-- `fmt.Errorf("%w: %v", ErrInvalidMoney, err)`
unfoldable pub annotated : {A : Type 0} → Result A → Result A
annotated (ok a) = ok a
annotated (err e) =
    err (Error.annotate (Error.sentinel (Sentinel.wager WagerError.invalid_money)) e)

unfoldable pub parse_amount : Request → Result Money
unfolding annotated
parse_amount req = annotated (parse_money (codes req.money.amount) req.money.currency)

-- A key that has not been seen.
unfoldable pub process_new : Env → Digest → Request → String → String → Action ProcessResult
unfolding external_input dispatch finish parse_amount
process_new env digest req key message_id = do
  reused ←
      map_err (Error.wrap "check external id")
        (external_transaction_exists env req.provider_id req.external_transaction_id key)
  lift (if reused then wager_err WagerError.external_id_reuse else ok tt)
  lift (
      if valid_type (to_type req.kind)
      then ok tt
      else wager_err WagerError.invalid_transaction_type)
  amount ← lift (parse_amount req)
  now ← read_clock env
  tx ← lift (new_external_transaction now (external_input digest req key amount))
  outcome ← attempt (dispatch env req amount message_id tx (to_type req.kind))
  finish env req key outcome

-- The key is there with another payload.
unfoldable pub conflicts : Digest → Request → Transaction → Bool
unfolding compute_payload_hash
conflicts digest req existing =
    not (str_eq existing.payload_hash "")
    && not (str_eq existing.payload_hash (compute_payload_hash digest req))

unfoldable pub process_found :
    Env → Digest → Request → String → String → Result Transaction → Action ProcessResult
unfolding process_new equals_not_found handle_replay conflicts
process_found env digest req key message_id (ok existing) =
    if conflicts digest req existing
    then lift (wager_err WagerError.payload_conflict)
    else handle_replay env existing
process_found env digest req key message_id (err e) =
    if equals_not_found e
    then process_new env digest req key message_id
    else lift (err (Error.wrap "check idempotency" e))

-- ProcessTransaction
unfoldable pub process_transaction : Env → Digest → Request → String → String → Action ProcessResult
unfolding process_found choose_key
process_transaction env digest req idempotency_key message_id = do
  let key = choose_key req idempotency_key
  found ← attempt (find_by_idempotency_key env req.provider_id key)
  process_found env digest req key message_id found
