-- ===== src/WagerService/Steps.antt =====
-- The steps that the kinds of transactions share: commitWithLedger, the rejections and the results. A
-- method that changes the transaction gives the changed one.
use betting_processing_go.Prelude.{String, Bool, false, not, ◌&&◌, ◌||◌, if◌then◌else◌}
use betting_processing_go.Prelude.Text.{str_eq}
use betting_processing_go.Errors.{
  Error, Result, ok, err, WagerError, WalletError, Sentinel, wager_err, errors_is,
}
use betting_processing_go.Money.{Money, no_money}
use betting_processing_go.Wallet.{Direction, BalanceChange}
use betting_processing_go.WalletService.{get_balance, is_unique_violation}
use betting_processing_go.Wager.{
  Transaction, TransactionStatus, processed, rejected, set_failure_code, set_id, set_result_balance,
  transition_to,
}
use betting_processing_go.Wager.Reference.{map_wallet_error, map_wallet_error_for_reversal}
use betting_processing_go.Store.{
  Env, Action, lift, map_err, attempt, or_else, begin_tx, commit_tx, rollback_tx, read_clock,
  is_reversal_type, find_by_idempotency_key, create_transaction_tx, create_wallet_ledger_entry_tx,
  record_received_tx, mark_completed_tx, ◌>>=◌, ◌>>◌,
}
use betting_processing_go.WagerService.Events.{
  rejected_event, build_transaction_events, emit, emit_all,
}

-- The status is the text of the transaction's status.
pub record ProcessResult : Type 0 where
  pub transaction_id : String
  pub status : TransactionStatus
  pub balance : Money
  pub idempotent_replay : Bool

-- result
unfoldable pub result_of : Transaction → Money → ProcessResult
result_of tx balance = record {
  transaction_id = tx.id;
  status = tx.status;
  balance = balance;
  idempotent_replay = false;
}

-- getWalletBalance
unfoldable pub get_wallet_balance : Env → String → Action Money
get_wallet_balance env wallet_id =
    map_err (Error.wrap "get wallet balance") (get_balance env wallet_id)

-- TransitionTo, whose error the service ignores.
unfoldable pub transition : Env → TransactionStatus → Transaction → Action Transaction
transition env status tx = do
  now ← read_clock env
  lift (ok (elim (transition_to now status tx) [ ok tx' ↦ tx' | err e ↦ tx ]))

unfoldable pub fail_with : Env → String → Transaction → Action Transaction
fail_with env failure_code tx = do
  now ← read_clock env
  lift (ok (set_failure_code now failure_code tx))

abbrev pub consumer_name : String
consumer_name = "sqs-wager-transactions"

unfoldable pub record_inbox : Env → String → Action (Unit {0})
record_inbox env message_id = if str_eq message_id "" then lift (ok tt) else (do
  _ ← map_err (Error.wrap "record inbox") (record_received_tx env consumer_name message_id "")
  lift (ok tt))

unfoldable pub complete_inbox : Env → String → Action (Unit {0})
complete_inbox env message_id =
    if str_eq message_id ""
    then lift (ok tt)
    else or_else tt (mark_completed_tx env consumer_name message_id)

unfoldable pub after_search : Error → Result Transaction → Action String
after_search e (ok existing) = rollback_tx >> lift (wager_err WagerError.idempotent_duplicate)
after_search e (err f) = lift (err (Error.wrap "insert transaction" e))

-- A unique violation of a transaction with a key that is there already is a duplicate.
unfoldable pub duplicate_key : Env → Transaction → Error → Action String
unfolding after_search
duplicate_key env tx e = do
  found ← attempt (find_by_idempotency_key env tx.provider tx.idempotency_key)
  after_search e found

-- What the code makes of the result of CreateTransactionTx.
unfoldable pub inserted : Env → Transaction → Result String → Action String
unfolding duplicate_key
inserted env tx (ok id) = lift (ok id)
inserted env tx (err e) =
    if is_unique_violation e
    then if is_reversal_type tx.transaction_type && not (str_eq tx.internal_reference "")
      then rollback_tx >> lift (wager_err WagerError.double_reversal)
      else duplicate_key env tx e
    else lift (err (Error.wrap "insert transaction" e))

-- The events, the message and the commit of commitWithLedger.
unfoldable pub publish :
    Env → Transaction → Direction → Money → BalanceChange → String → Action Transaction
unfolding complete_inbox
publish env tx direction amount change message_id = do
  emit_all env "insert outbox event" (build_transaction_events tx direction amount change)
  complete_inbox env message_id
  map_err (Error.wrap "commit") (commit_tx env)
  lift (ok tx)

-- commitWithLedger
unfoldable pub commit_with_ledger :
    Env → Transaction → Direction → Money → BalanceChange → String → Action Transaction
unfolding record_inbox inserted transition publish
commit_with_ledger env tx direction amount change message_id = do
  record_inbox env message_id
  tx1 ← transition env processed tx
  row ← attempt (create_transaction_tx env tx1)
  tx_id ← inserted env tx1 row
  _ ← map_err (Error.wrap "insert ledger entry") (
      create_wallet_ledger_entry_tx env tx1.wallet_id tx_id direction amount change.balance_before
        change.balance_after)
  publish env (set_id tx_id tx1) direction amount change message_id

-- The statements that createAndReject and reject share.
unfoldable pub write_rejected : Env → String → Transaction → Action Transaction
write_rejected env failure_code tx = do
  tx_id ← map_err (Error.wrap "insert rejected transaction") (create_transaction_tx env tx)
  emit env "insert rejected outbox event" (rejected_event (set_id tx_id tx) failure_code)
  lift (ok (set_id tx_id tx))

-- createAndReject
unfoldable pub create_and_reject : Env → String → Transaction → Action (Unit {0})
unfolding fail_with transition write_rejected
create_and_reject env failure_code tx = do
  tx1 ← fail_with env failure_code tx
  tx2 ← transition env rejected tx1
  map_err (Error.wrap "begin create-reject transaction") (begin_tx env)
  _ ← write_rejected env failure_code tx2
  commit_tx env

unfoldable pub rejection : Env → Transaction → Action ProcessResult
rejection env tx = do
  balance ← or_else no_money (get_wallet_balance env tx.wallet_id)
  lift (
      ok (record {
        transaction_id = tx.id;
        status = rejected;
        balance = balance;
        idempotent_replay = false;
      }))

-- reject
unfoldable pub reject : Env → String → Transaction → Action ProcessResult
unfolding fail_with transition write_rejected rejection
reject env failure_code tx = do
  tx1 ← fail_with env failure_code tx
  tx2 ← transition env rejected tx1
  map_err (Error.wrap "begin reject transaction") (begin_tx env)
  tx3 ← write_rejected env failure_code tx2
  map_err (Error.wrap "commit reject") (commit_tx env)
  rejection env tx3

-- SetResultBalance with the balance of the wallet, where it can be read.
unfoldable pub with_balance : Env → Transaction → Action Transaction
with_balance env tx = do
  balance ← attempt (get_wallet_balance env tx.wallet_id)
  lift (ok (elim balance [ ok m ↦ set_result_balance m tx | err e ↦ tx ]))

-- What the failure of a balance change does before its error is returned.
unfoldable pub record_refusal : Env → String → String → Transaction → Action (Unit {0})
unfolding fail_with with_balance
record_refusal env failure_code insufficient tx = do
  rollback_tx
  tx1 ← fail_with env failure_code tx
  tx2 ←
      (if str_eq failure_code insufficient || str_eq failure_code "CURRENCY_MISMATCH"
        then with_balance env tx1
        else lift (ok tx1))
  or_else tt (create_and_reject env failure_code tx2)

-- The failure of a balance change in processBet and processWin
unfoldable pub refuse_move : Env → Transaction → Error → Action ProcessResult
refuse_move env tx e = do
  record_refusal env (map_wallet_error e) "INSUFFICIENT_BALANCE" tx
  lift (
      if errors_is (Sentinel.wallet WalletError.concurrent_update) e
      then err e
      else err
          (Error.wrap_both (Error.sentinel (Sentinel.wager WagerError.insufficient_balance)) e))

-- The failure of a balance change in processRefund and processRollback
unfoldable pub refuse_reversal : Env → Transaction → Error → Action ProcessResult
refuse_reversal env tx e = do
  record_refusal env (map_wallet_error_for_reversal e) "REVERSAL_INSUFFICIENT_BALANCE" tx
  lift (err e)

-- The end of a kind whose balance change succeeded.
unfoldable pub settle :
    Env → Transaction → Direction → Money → String → BalanceChange → Action ProcessResult
settle env tx direction amount message_id change = do
  tx1 ←
      commit_with_ledger env (set_result_balance change.balance_after tx) direction amount change
        message_id
  lift (ok (result_of tx1 change.balance_after))
