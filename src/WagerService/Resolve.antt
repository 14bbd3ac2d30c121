-- ===== src/WagerService/Resolve.antt =====
-- ResolvePendingReference: a reversal that waits for its reference is settled, refused or left waiting.
use betting_processing_go.Prelude.{
  ℕ, leb, String, Bool, true, false, Option, none, some, if◌then◌else◌,
}
use betting_processing_go.Errors.{Error, Result, ok, err, WagerError, Sentinel}
use betting_processing_go.Money.{no_money}
use betting_processing_go.Wallet.{Direction, BalanceChange}
use betting_processing_go.Wager.{
  Transaction, TransactionType, refund, rollback, TransactionStatus, pending_reference, processed,
  rejected, failed, set_internal_reference, set_result_balance,
}
use betting_processing_go.Wager.Reference.{validate_reversal_value, map_wallet_error_for_reversal}
use betting_processing_go.Store.{
  Env, Action, lift, map_err, attempt, or_else, begin_tx, commit_tx, rollback_tx, read_clock,
  is_processed, find_transaction, find_by_external_id, has_successful_reversal,
  claim_pending_reference_tx, update_status_tx, set_internal_reference_tx,
  increment_ref_attempts_tx, create_wallet_ledger_entry_tx, ◌>>=◌, ◌>>◌,
}
use betting_processing_go.WagerService.Events.{
  rejected_event, build_transaction_events, emit, emit_all,
}
use betting_processing_go.WagerService.Steps.{
  ProcessResult, result_of, transition, fail_with, rejection,
}
use betting_processing_go.WagerService.Kinds.{
  is_not_found, is_waiting, rollback_direction, move_wallet,
}

abbrev pub max_ref_attempts : ℕ
max_ref_attempts = 10

-- The statements that the three refusals share: the new status, the event and the commit.
unfoldable pub write_refused : Env → String → Transaction → Action (Unit {0})
write_refused env failure_code tx = do
  map_err (Error.wrap "update rejected status") (update_status_tx env tx.id rejected failure_code)
  emit env "insert rejected outbox event" (rejected_event tx failure_code)
  map_err (Error.wrap "commit reject") (commit_tx env)

-- resolveRejectTx
unfoldable pub resolve_reject_tx : Env → String → Transaction → Action ProcessResult
unfolding write_refused
resolve_reject_tx env failure_code tx = do
  tx1 ← fail_with env failure_code tx
  tx2 ← transition env rejected tx1
  write_refused env failure_code tx2
  rejection env tx2

-- resolveRejectInPlace
unfoldable pub resolve_reject_in_place : Env → String → Transaction → Action ProcessResult
unfolding write_refused
resolve_reject_in_place env failure_code tx = do
  tx1 ← fail_with env failure_code tx
  tx2 ← transition env rejected tx1
  map_err (Error.wrap "begin reject-in-place transaction") (begin_tx env)
  write_refused env failure_code tx2
  rejection env tx2

-- The balance change failed with `e`.
unfoldable pub resolve_refuse : Env → Transaction → Error → Action ProcessResult
unfolding write_refused
resolve_refuse env tx e = do
  rollback_tx
  tx1 ← fail_with env (map_wallet_error_for_reversal e) tx
  map_err (Error.wrap "begin reject transaction") (begin_tx env)
  write_refused env (map_wallet_error_for_reversal e) tx1
  lift (err (Error.wrap_both (Error.sentinel (Sentinel.wager WagerError.insufficient_balance)) e))

-- The ledger, the events and the commit of a reference that is resolved.
unfoldable pub resolve_enter : Env → Transaction → Direction → BalanceChange → Action ProcessResult
resolve_enter env tx direction change = do
  _ ← map_err (Error.wrap "insert ledger entry") (
      create_wallet_ledger_entry_tx env tx.wallet_id tx.id direction tx.amount change.balance_before
        change.balance_after)
  emit_all env "insert outbox event" (build_transaction_events tx direction tx.amount change)
  map_err (Error.wrap "commit resolve") (commit_tx env)
  lift (ok (result_of tx change.balance_after))

-- The balance change succeeded.
unfoldable pub resolve_settle :
    Env → Transaction → Transaction → Direction → BalanceChange → Action ProcessResult
unfolding resolve_enter
resolve_settle env tx ref direction change = do
  now ← read_clock env
  tx1 ←
      transition env processed
        (set_result_balance change.balance_after (set_internal_reference now ref.id tx))
  map_err (Error.wrap "update resolved status") (update_status_tx env tx1.id processed "")
  map_err (Error.wrap "set internal reference") (set_internal_reference_tx env tx1.id ref.id)
  resolve_enter env tx1 direction change

-- A refund gives back, and a rollback does the opposite of what it refers to.
unfoldable pub reversal_direction : Transaction → TransactionType → Option Direction
unfolding rollback_direction
reversal_direction ref refund = some Direction.credit
reversal_direction ref rollback = rollback_direction ref.transaction_type
reversal_direction ref _ = none

unfoldable pub after_resolve_move :
    Env → Transaction → Transaction → Direction → Result BalanceChange → Action ProcessResult
unfolding resolve_refuse resolve_settle
after_resolve_move env tx ref direction (err e) = resolve_refuse env tx e
after_resolve_move env tx ref direction (ok change) = resolve_settle env tx ref direction change

unfoldable pub resolve_move :
    Env → Transaction → Transaction → Option Direction → Action ProcessResult
unfolding move_wallet after_resolve_move resolve_reject_tx
resolve_move env tx ref none = resolve_reject_tx env "INVALID_REFERENCE_TYPE" tx
resolve_move env tx ref (some direction) = do
  moved ← attempt (move_wallet env direction tx.wallet_id tx.amount)
  after_resolve_move env tx ref direction moved

unfoldable pub resolve_value :
    Env → Transaction → Transaction → Result (Unit {0}) → Action ProcessResult
unfolding reversal_direction resolve_move resolve_reject_tx
resolve_value env tx ref (ok u) =
    resolve_move env tx ref (reversal_direction ref tx.transaction_type)
resolve_value env tx ref (err e) = resolve_reject_tx env "REVERSAL_VALUE_MISMATCH" tx

-- The reference is there and processed.
unfoldable pub resolve_processed : Env → Transaction → Transaction → Action ProcessResult
unfolding resolve_value resolve_reject_tx
resolve_processed env tx ref = do
  reversed ← or_else false (has_successful_reversal env ref.id)
  (if reversed
      then resolve_reject_tx env "DOUBLE_REVERSAL" tx
      else resolve_value env tx ref (validate_reversal_value tx.amount ref))

-- The attempt is counted, and the errors of both statements are dropped.
unfoldable pub count_and_commit : Env → Transaction → Action (Unit {0})
count_and_commit env tx = do
  or_else tt (increment_ref_attempts_tx env tx.id)
  or_else tt (commit_tx env)

unfoldable pub still_waiting : Transaction → ProcessResult
still_waiting tx = record {
  transaction_id = tx.id;
  status = pending_reference;
  balance = no_money;
  idempotent_replay = false;
}

unfoldable pub is_unsuccessful : TransactionStatus → Bool
is_unsuccessful rejected = true
is_unsuccessful failed = true
is_unsuccessful _ = false

unfoldable pub resolve_with : Env → Transaction → Result Transaction → Action ProcessResult
unfolding count_and_commit is_unsuccessful is_waiting is_not_found resolve_processed
resolve_with env tx (err e) =
    if is_not_found e
    then count_and_commit env tx >> resolve_reject_in_place env "REFERENCE_NOT_FOUND" tx
    else lift (err e)
resolve_with env tx (ok ref) =
    if is_waiting ref.status
    then count_and_commit env tx >> lift (ok (still_waiting tx))
    else if is_unsuccessful ref.status
    then resolve_reject_tx env "REFERENCE_NOT_SUCCESSFUL" tx
    else if is_processed ref.status
    then resolve_processed env tx ref
    else resolve_reject_in_place env "REFERENCE_NOT_SUCCESSFUL" tx

unfoldable pub resolve_claimed : Env → Transaction → Action ProcessResult
unfolding resolve_with
resolve_claimed env tx =
    if leb max_ref_attempts tx.ref_attempts
    then resolve_reject_tx env "REFERENCE_NOT_FOUND" tx
    else (do
      found ← attempt (find_by_external_id env tx.provider tx.external_reference)
      resolve_with env tx found)

unfoldable pub resolve_pending : Env → Transaction → Action ProcessResult
unfolding resolve_claimed
resolve_pending env tx = do
  map_err (Error.wrap "begin resolve transaction") (begin_tx env)
  claimed ← map_err (Error.wrap "claim pending reference") (claim_pending_reference_tx env tx.id)
  (if claimed then resolve_claimed env tx else rollback_tx >> lift (ok (result_of tx no_money)))

unfoldable pub awaits_reference : TransactionStatus → Bool
awaits_reference pending_reference = true
awaits_reference _ = false

-- ResolvePendingReference
unfoldable pub resolve_pending_reference : Env → String → Action ProcessResult
unfolding resolve_pending awaits_reference
resolve_pending_reference env tx_id = do
  tx ← map_err (Error.wrap "find pending transaction") (find_transaction env tx_id)
  (if awaits_reference tx.status then resolve_pending env tx else lift (ok (result_of tx no_money)))
