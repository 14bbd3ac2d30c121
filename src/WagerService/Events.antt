-- ===== src/WagerService/Events.antt =====
-- The events that the wager service writes to the outbox.
use betting_processing_go.Prelude.{String, List, [], ◌∷◌, if◌then◌else◌}
use betting_processing_go.Prelude.Text.{str_append}
use betting_processing_go.Errors.{Error, Result, ok, err}
use betting_processing_go.Money.{Money, is_zero}
use betting_processing_go.Wallet.{Direction, BalanceChange}
use betting_processing_go.Wager.{
  Transaction, TransactionType, opening, bet, win, loss, refund, rollback, other_type,
  TransactionStatus, pending, pending_reference, processed, rejected, failed, other_status,
}
use betting_processing_go.Store.{
  Env, Action, Event, EventData, lift, map_err, tx_exec, marshal_event, create_outbox_event_tx,
  ◌>>◌,
}

-- The texts of the constants.
unfoldable pub type_text : TransactionType → String
type_text opening = "OPENING"
type_text bet = "BET"
type_text win = "WIN"
type_text loss = "LOSS"
type_text refund = "REFUND"
type_text rollback = "ROLLBACK"
type_text (other_type s) = s

unfoldable pub status_text : TransactionStatus → String
status_text pending = "PENDING"
status_text pending_reference = "PENDING_REFERENCE"
status_text processed = "PROCESSED"
status_text rejected = "REJECTED"
status_text failed = "FAILED"
status_text (other_status s) = s

unfoldable pub direction_text : Direction → String
direction_text Direction.debit = "DEBIT"
direction_text Direction.credit = "CREDIT"
direction_text (Direction.other_direction s) = s

-- An event on a transaction that has its id, with the suffix of the event's own id.
unfoldable pub transaction_event : Transaction → String → String → EventData → Event
transaction_event tx suffix event_type d = record {
  event_id = str_append (str_append "evt-" tx.id) suffix;
  event_type = event_type;
  aggregate_type = "WagerTransaction";
  aggregate_id = tx.id;
  correlation_id = tx.id;
  causation_id = "";
  occurred_at = tx.updated_at;
  version = 1;
  data_ = d;
}

unfoldable pub rejected_event : Transaction → String → Event
unfolding transaction_event type_text
rejected_event tx failure_code = transaction_event tx "-rejected" "WagerTransactionRejected" (
    EventData.rejected_data (record {
      transaction_id = tx.id;
      external_id = tx.external_id;
      provider_id = tx.provider;
      player_id = tx.player_id;
      wallet_id = tx.wallet_id;
      kind = type_text tx.transaction_type;
      money = tx.amount;
      failure_code = failure_code;
    }))

unfoldable pub pending_event : Transaction → Event
unfolding transaction_event type_text
pending_event tx = transaction_event tx "-pending-ref" "WagerTransactionPendingReference" (
    EventData.pending_reference_data (record {
      transaction_id = tx.id;
      external_id = tx.external_id;
      provider_id = tx.provider;
      reference_ext_id = tx.external_reference;
      player_id = tx.player_id;
      wallet_id = tx.wallet_id;
      kind = type_text tx.transaction_type;
    }))

-- The event of a loss leaves the round, the game, the reference and the status out.
unfoldable pub loss_event : Transaction → Event
unfolding transaction_event type_text
loss_event tx = transaction_event tx "-processed" "WagerTransactionProcessed" (
    EventData.processed_data (record {
      transaction_id = tx.id;
      external_id = tx.external_id;
      provider_id = tx.provider;
      player_id = tx.player_id;
      wallet_id = tx.wallet_id;
      round_id = "";
      game_id = "";
      kind = type_text tx.transaction_type;
      money = tx.amount;
      reference_ext_id = "";
      status = "";
      failure_code = "";
    }))

unfoldable pub processed_event : Transaction → Event
unfolding transaction_event type_text status_text
processed_event tx = transaction_event tx "-processed" "WagerTransactionProcessed" (
    EventData.processed_data (record {
      transaction_id = tx.id;
      external_id = tx.external_id;
      provider_id = tx.provider;
      player_id = tx.player_id;
      wallet_id = tx.wallet_id;
      round_id = tx.round_id;
      game_id = tx.game_id;
      kind = type_text tx.transaction_type;
      money = tx.amount;
      reference_ext_id = tx.external_reference;
      status = status_text tx.status;
      failure_code = "";
    }))

unfoldable pub balance_event : Transaction → Direction → Money → BalanceChange → Event
unfolding direction_text
balance_event tx direction amount change = record {
  event_id = str_append (str_append "evt-" tx.id) "-balance";
  event_type = "WalletBalanceChanged";
  aggregate_type = "Wallet";
  aggregate_id = tx.wallet_id;
  correlation_id = tx.id;
  causation_id = "";
  occurred_at = tx.updated_at;
  version = 1;
  data_ = EventData.balance_changed_data (record {
    wallet_id = tx.wallet_id;
    transaction_id = tx.id;
    direction = direction_text direction;
    money = amount;
    balance_before = change.balance_before;
    balance_after = change.balance_after;
    wallet_version = change.new_version;
  });
}

-- buildTransactionEvents
unfoldable pub build_transaction_events :
    Transaction → Direction → Money → BalanceChange → List Event
unfolding processed_event balance_event
build_transaction_events tx direction amount change =
    processed_event tx
    ∷ (if is_zero amount then [] else balance_event tx direction amount change ∷ [])

-- Where json.Marshal refuses the event, the payload is a nil slice and so NULL.
unfoldable pub insert_payload : Env → Event → Result Event → Action (Unit {0})
insert_payload env event (ok payload) =
    create_outbox_event_tx env event.aggregate_type event.aggregate_id event.event_type payload
insert_payload env event (err e) =
    map_err (Error.wrap "insert outbox event")
      (tx_exec env (λ t. err (Error.external "null value violates not-null constraint")))

-- `payload, _ := json.Marshal(event)` and CreateOutboxEventTx
unfoldable pub emit : Env → String → Event → Action (Unit {0})
unfolding insert_payload
emit env context event =
    map_err (Error.wrap context) (insert_payload env event (marshal_event event))

unfoldable pub emit_all : Env → String → List Event → Action (Unit {0})
emit_all env context [] = lift (ok tt)
emit_all env context (event ∷ events) = do emit env context event; emit_all env context events
