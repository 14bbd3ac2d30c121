-- ===== src/WagerService/Kinds.antt =====
-- processBet, processWin, processLoss, processRefund and processRollback.
use betting_processing_go.Prelude.{
  String, Bool, true, false, not, Option, none, some, if◌then◌else◌,
}
use betting_processing_go.Prelude.Text.{str_eq}
use betting_processing_go.Errors.{Error, Result, ok, err, WagerError, Sentinel, errors_is}
use betting_processing_go.Money.{Money, no_money}
use betting_processing_go.Wallet.{Direction, BalanceChange}
use betting_processing_go.WalletService.{service_debit, service_credit, apply_balance_change}
use betting_processing_go.Wager.{
  Transaction, TransactionType, bet, win, refund, TransactionStatus, pending, pending_reference,
  processed, set_id, set_internal_reference, set_result_balance,
}
use betting_processing_go.Wager.Reference.{
  validate_reference, validate_reversal_value, map_validation_error,
}
use betting_processing_go.Store.{
  Env, Action, lift, map_err, attempt, or_else, begin_tx, commit_tx, read_clock, is_processed,
  find_by_external_id, has_successful_reversal, create_transaction_tx, ◌>>=◌, ◌>>◌,
}
use betting_processing_go.WagerService.Events.{loss_event, pending_event, emit}
use betting_processing_go.WagerService.Steps.{
  ProcessResult, result_of, get_wallet_balance, transition, record_inbox, complete_inbox, reject,
  refuse_move, refuse_reversal, settle,
}

-- Debit or Credit of the wallet service, in the open transaction.
unfoldable pub move_wallet : Env → Direction → String → Money → Action BalanceChange
move_wallet env direction id amount = apply_balance_change env false id amount direction

-- A bet or a win: the balance changes and is committed, or the refusal is recorded.
unfoldable pub after_move :
    Env → Transaction → Direction → Money → String → Result BalanceChange → Action ProcessResult
after_move env tx direction amount message_id (ok change) =
    settle env tx direction amount message_id change
after_move env tx direction amount message_id (err e) = refuse_move env tx e

unfoldable pub process_bet : Env → Transaction → Money → String → Action ProcessResult
unfolding after_move
process_bet env tx amount message_id = do
  map_err (Error.wrap "begin bet transaction") (begin_tx env)
  moved ← attempt (service_debit env false tx.wallet_id amount)
  after_move env tx Direction.debit amount message_id moved

unfoldable pub is_bet : TransactionType → Bool
is_bet bet = true
is_bet _ = false

-- The checks of a win on the bet that it refers to.
unfoldable pub win_refusal : Transaction → Transaction → Option String
unfolding is_bet
win_refusal tx ref =
    if not (is_bet ref.transaction_type)
    then some "REFERENCE_NOT_FOUND"
    else if not (str_eq ref.player_id tx.player_id)
    then some "PLAYER_MISMATCH"
    else if not (str_eq ref.wallet_id tx.wallet_id)
    then some "WALLET_MISMATCH"
    else if not (str_eq ref.amount.currency tx.amount.currency)
    then some "CURRENCY_MISMATCH"
    else if not (str_eq ref.round_id tx.round_id)
    then some "ROUND_MISMATCH"
    else none

unfoldable pub is_not_found : Error → Bool
is_not_found e = errors_is (Sentinel.wager WagerError.transaction_not_found) e

unfoldable pub check_found : Transaction → Result Transaction → Result (Option String)
unfolding win_refusal is_not_found
check_found tx (ok ref) = ok (win_refusal tx ref)
check_found tx (err e) = if is_not_found e then ok (some "REFERENCE_NOT_FOUND") else err e

-- The code of the rejection of a win by its reference, if there is one.
unfoldable pub check_win : Env → Transaction → String → String → Action (Option String)
unfolding check_found
check_win env tx provider reference = if str_eq reference "" then lift (ok none) else (do
  found ← attempt (find_by_external_id env provider reference)
  lift (check_found tx found))

unfoldable pub after_win_check :
    Env → Transaction → Money → String → Option String → Action ProcessResult
unfolding after_move
after_win_check env tx amount message_id (some failure_code) = reject env failure_code tx
after_win_check env tx amount message_id none = do
  map_err (Error.wrap "begin win transaction") (begin_tx env)
  moved ← attempt (service_credit env false tx.wallet_id amount)
  after_move env tx Direction.credit amount message_id moved

-- `provider` and `reference` are req.ProviderID and req.ReferenceExternalID.
unfoldable pub process_win :
    Env → Transaction → String → String → Money → String → Action ProcessResult
unfolding check_win after_win_check
process_win env tx provider reference amount message_id = do
  refusal ← check_win env tx provider reference
  after_win_check env tx amount message_id refusal

-- The statements of a loss, and the commit.
unfoldable pub store_loss : Env → Transaction → String → Action Transaction
store_loss env tx message_id = do
  record_inbox env message_id
  tx_id ← map_err (Error.wrap "insert loss transaction") (create_transaction_tx env tx)
  emit env "insert processed outbox event" (loss_event (set_id tx_id tx))
  complete_inbox env message_id
  map_err (Error.wrap "commit loss") (commit_tx env)
  lift (ok (set_id tx_id tx))

unfoldable pub process_loss : Env → Transaction → String → Action ProcessResult
unfolding store_loss
process_loss env tx message_id = do
  tx1 ← transition env processed tx
  map_err (Error.wrap "begin loss transaction") (begin_tx env)
  before ← get_wallet_balance env tx1.wallet_id
  tx2 ← store_loss env (set_result_balance before tx1) message_id
  balance ← get_wallet_balance env tx2.wallet_id
  lift (ok (result_of tx2 balance))

-- What the checks on a reversal's reference say: to reject it, to wait for the reference, or to go on.
pub data Target : Type 0 where
  refused : String → Target
  waiting : Target
  reversible : Transaction → Target

unfoldable pub is_waiting : TransactionStatus → Bool
is_waiting pending = true
is_waiting pending_reference = true
is_waiting _ = false

unfoldable pub processed_target : Env → Transaction → Money → Action Target
processed_target env ref amount = do
  reversed ← or_else false (has_successful_reversal env ref.id)
  lift (
      ok (
        if reversed then refused "DOUBLE_REVERSAL" else elim (validate_reversal_value amount ref) [
          | ok u ↦ reversible ref
          | err e ↦ refused "REVERSAL_VALUE_MISMATCH"
        ]))

unfoldable pub checked_target : Env → Transaction → Money → Result (Unit {0}) → Action Target
unfolding processed_target is_waiting
checked_target env ref amount (err e) = lift (ok (refused (map_validation_error e)))
checked_target env ref amount (ok u) =
    if is_processed ref.status
    then processed_target env ref amount
    else lift (ok (if is_waiting ref.status then waiting else refused "REFERENCE_NOT_SUCCESSFUL"))

unfoldable pub found_target : Env → Transaction → Money → Result Transaction → Action Target
unfolding checked_target is_not_found
found_target env tx amount (err e) =
    if is_not_found e then lift (ok (refused "REFERENCE_NOT_FOUND")) else lift (err e)
found_target env tx amount (ok ref) = checked_target env ref amount (validate_reference tx ref)

-- The part that processRefund and processRollback have in common before the balance changes.
unfoldable pub find_target : Env → Transaction → String → String → Money → Action Target
unfolding found_target
find_target env tx provider reference amount =
    if str_eq reference "" then lift (ok (refused "MISSING_REFERENCE")) else (do
      found ← attempt (find_by_external_id env provider reference)
      found_target env tx amount found)

-- The transaction is stored as PENDING_REFERENCE.
unfoldable pub park : Env → Transaction → Action ProcessResult
park env tx = do
  tx1 ← transition env pending_reference tx
  map_err (Error.wrap "begin pending-ref transaction") (begin_tx env)
  tx_id ← map_err (Error.wrap "insert pending-ref transaction") (create_transaction_tx env tx1)
  emit env "insert pending-ref outbox event" (pending_event (set_id tx_id tx1))
  map_err (Error.wrap "commit pending-ref") (commit_tx env)
  lift (
      ok (record {
        transaction_id = tx_id;
        status = pending_reference;
        balance = no_money;
        idempotent_replay = false;
      }))

unfoldable pub after_reversal :
    Env
    → Transaction
    → Transaction
    → Direction
    → Money
    → String
    → Result BalanceChange
    → Action ProcessResult
after_reversal env tx ref direction amount message_id (err e) = refuse_reversal env tx e
after_reversal env tx ref direction amount message_id (ok change) = do
  now ← read_clock env
  settle env (set_internal_reference now ref.id tx) direction amount message_id change

unfoldable pub act_refund : Env → Transaction → Money → String → Target → Action ProcessResult
unfolding park after_reversal
act_refund env tx amount message_id (refused failure_code) = reject env failure_code tx
act_refund env tx amount message_id waiting = park env tx
act_refund env tx amount message_id (reversible ref) = do
  map_err (Error.wrap "begin refund transaction") (begin_tx env)
  moved ← attempt (service_credit env false tx.wallet_id amount)
  after_reversal env tx ref Direction.credit amount message_id moved

unfoldable pub process_refund :
    Env → Transaction → String → String → Money → String → Action ProcessResult
unfolding find_target act_refund
process_refund env tx provider reference amount message_id = do
  target ← find_target env tx provider reference amount
  act_refund env tx amount message_id target

-- A bet is given back, and a win or a refund is taken back.
unfoldable pub rollback_direction : TransactionType → Option Direction
rollback_direction bet = some Direction.credit
rollback_direction win = some Direction.debit
rollback_direction refund = some Direction.debit
rollback_direction _ = none

unfoldable pub move_back :
    Env → Transaction → Transaction → Money → String → Option Direction → Action ProcessResult
unfolding move_wallet after_reversal
move_back env tx ref amount message_id none = reject env "INVALID_REFERENCE_TYPE" tx
move_back env tx ref amount message_id (some direction) = do
  moved ← attempt (move_wallet env direction tx.wallet_id amount)
  after_reversal env tx ref direction amount message_id moved

unfoldable pub act_rollback : Env → Transaction → Money → String → Target → Action ProcessResult
unfolding park move_back rollback_direction
act_rollback env tx amount message_id (refused failure_code) = reject env failure_code tx
act_rollback env tx amount message_id waiting = park env tx
act_rollback env tx amount message_id (reversible ref) = do
  map_err (Error.wrap "begin rollback transaction") (begin_tx env)
  move_back env tx ref amount message_id (rollback_direction ref.transaction_type)

unfoldable pub process_rollback :
    Env → Transaction → String → String → Money → String → Action ProcessResult
unfolding find_target act_rollback
process_rollback env tx provider reference amount message_id = do
  target ← find_target env tx provider reference amount
  act_rollback env tx amount message_id target
