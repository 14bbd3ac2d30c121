-- ===== src/Store/TransactionRepo.antt =====
-- wager_transaction_repository.go, and the inbox of inbox_outbox_repository.go: the calls that the wager
-- service makes. A query whose condition more than one row meets gives the row that was put in last.
use betting_processing_go.Prelude.{
  String, Bool, true, false, not, ◌&&◌, Option, none, some, ◌∷◌, map, any, if◌then◌else◌,
}
use betting_processing_go.Prelude.Text.{str_eq}
use betting_processing_go.Errors.{Error, ok}
use betting_processing_go.Money.{Money}
use betting_processing_go.Wallet.{Direction, Time}
use betting_processing_go.Wager.{Transaction, TransactionStatus, pending_reference}
use betting_processing_go.Store.Schema.{LedgerRow, InboxRow, Tables}
use betting_processing_go.Store.Rows.{find_row, insert_ledger}
use betting_processing_go.Store.TransactionRows.{
  column_is, reverses, insert_transaction, update_transaction, set_status, set_reference,
  count_attempt, scan_transaction,
}
use betting_processing_go.Store.Session.{
  Env, Action, lift, map_err, or_else, pool_read, tx_exec, ◌>>=◌,
}

-- What the three finders share.
unfoldable pub query_transaction : Env → (Transaction → Bool) → Action Transaction
query_transaction env p = do
  row ←
      map_err (Error.wrap "scan transaction") (pool_read env (λ t. ok (find_row p t.transactions)))
  lift (scan_transaction row)

-- FindByID
unfoldable pub find_transaction : Env → String → Action Transaction
find_transaction env id = query_transaction env (λ x. str_eq x.id id)

-- FindByProviderAndExternalID
unfoldable pub find_by_external_id : Env → String → String → Action Transaction
find_by_external_id env provider external_id =
    query_transaction env
      (λ x. column_is x.provider provider && column_is x.external_id external_id)

-- FindByIdempotencyKey
unfoldable pub find_by_idempotency_key : Env → String → String → Action Transaction
find_by_idempotency_key env provider key =
    query_transaction env (λ x. column_is x.provider provider && column_is x.idempotency_key key)

-- HasSuccessfulReversal
unfoldable pub has_successful_reversal : Env → String → Action Bool
has_successful_reversal env reference =
    map_err (Error.wrap "check successful reversal")
      (pool_read env (λ t. ok (any (reverses reference) t.transactions)))

-- ExternalTransactionExists
unfoldable pub external_transaction_exists : Env → String → String → String → Action Bool
external_transaction_exists env provider external_id key =
    map_err (Error.wrap "check external transaction exists") (
      pool_read env (λ t. ok (
        any
          (λ x.
            column_is x.provider provider
            && (column_is x.external_id external_id && not (str_eq x.idempotency_key key)))
          t.transactions)))

is_pending_reference : TransactionStatus → Bool
is_pending_reference pending_reference = true
is_pending_reference _ = false

-- ClaimPendingReferenceTx: every error, that of a missing row too, means that it is not claimed.
unfoldable pub claim_pending_reference_tx : Env → String → Action Bool
unfolding is_pending_reference
claim_pending_reference_tx env id = or_else false (
    tx_exec env (λ t. ok (
      elim (find_row (λ x. str_eq x.id id) t.transactions) [
        | some x ↦ is_pending_reference x.status
        | none ↦ false
      ],
      t,
    )))

-- The balance column has the currency of the amount.
unfoldable pub stored_balance : Transaction → Option Money
stored_balance x = elim x.result_balance [
  | some m ↦ some (record { amount = m.amount; currency = x.amount.currency })
  | none ↦ none
]

-- CreateTransactionTx
unfoldable pub create_transaction_tx : Env → Transaction → Action String
unfolding stored_balance
create_transaction_tx env x w =
    let row : Transaction = record x {
      id = env.uuid w.calls;
      ref_attempts = 0;
      ref_next_attempt_at = none;
      result_balance = stored_balance x;
    } in
    map_err (Error.wrap "insert transaction") (tx_exec env (insert_transaction row)) w

-- UpdateStatusTx
unfoldable pub update_status_tx : Env → String → TransactionStatus → String → Action (Unit {0})
update_status_tx env id status failure_code w =
    map_err (Error.wrap "update transaction status")
      (tx_exec env (update_transaction id (set_status (env.now w.calls) status failure_code))) w

-- SetInternalReferenceTx
unfoldable pub set_internal_reference_tx : Env → String → String → Action (Unit {0})
set_internal_reference_tx env id reference w =
    map_err (Error.wrap "set internal reference")
      (tx_exec env (update_transaction id (set_reference (env.now w.calls) reference))) w

-- IncrementRefAttemptsTx
unfoldable pub increment_ref_attempts_tx : Env → String → Action (Unit {0})
increment_ref_attempts_tx env id w =
    map_err (Error.wrap "increment ref attempts")
      (tx_exec env (update_transaction id (count_attempt (env.now w.calls)))) w

-- CreateWalletLedgerEntryTx
unfoldable pub create_wallet_ledger_entry_tx :
    Env → String → String → Direction → Money → Money → Money → Action String
create_wallet_ledger_entry_tx env wallet_id transaction_id direction amount before after w =
    let row : LedgerRow = record {
      id = env.uuid w.calls;
      wallet_id = wallet_id;
      transaction_id = transaction_id;
      direction = direction;
      amount = amount.amount;
      currency = amount.currency;
      balance_before = before.amount;
      balance_after = after.amount;
      created_at = env.now w.calls;
    } in
    map_err (Error.wrap "insert ledger entry") (tx_exec env (insert_ledger row)) w

unfoldable pub is_message : String → String → InboxRow → Bool
is_message consumer message_id m = str_eq m.consumer_name consumer && str_eq m.message_id message_id

-- The statement of RecordReceivedTx: ON CONFLICT DO NOTHING.
unfoldable pub receive_message : String → String → String → Time → Tables → Bool × Tables
unfolding is_message
receive_message consumer message_id payload_hash now t =
    if any (is_message consumer message_id) t.inbox then (false, t) else (
      true,
      record t {
        inbox =
            record {
              consumer_name = consumer;
              message_id = message_id;
              payload_hash = payload_hash;
              received_at = now;
              completed_at = none;
            }
            ∷ t.inbox;
      },
    )

-- RecordReceivedTx
unfoldable pub record_received_tx : Env → String → String → String → Action Bool
record_received_tx env consumer message_id payload_hash w =
    map_err (Error.wrap "insert inbox message")
      (tx_exec env (λ t. ok (receive_message consumer message_id payload_hash (env.now w.calls) t)))
      w

unfoldable pub complete_message : String → String → Time → InboxRow → InboxRow
unfolding is_message
complete_message consumer message_id now m =
    if is_message consumer message_id m
    then elim m.completed_at [ none ↦ record m { completed_at = some now } | some at ↦ m ]
    else m

-- MarkCompletedTx
unfoldable pub mark_completed_tx : Env → String → String → Action (Unit {0})
unfolding complete_message
mark_completed_tx env consumer message_id w =
    map_err (Error.wrap "mark inbox completed")
      (tx_exec env (λ t. ok (
        tt,
        record t { inbox = map (complete_message consumer message_id (env.now w.calls)) t.inbox },
      )))
      w
