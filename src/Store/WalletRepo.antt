-- ===== src/Store/WalletRepo.antt =====
-- wallet_repository.go: the statements on wallets, and those that a new wallet needs.
use betting_processing_go.Prelude.{String, ◌&&◌, none, some, ◌∷◌, if◌then◌else◌}
use betting_processing_go.Prelude.Text.{str_eq}
use betting_processing_go.Prelude.Int.{ℤ, pos}
use betting_processing_go.Prelude.Int64.{add64}
use betting_processing_go.Errors.{Error, ok, WalletError, wallet_err}
use betting_processing_go.Money.{Money, Currency}
use betting_processing_go.Wallet.{Wallet, LedgerEntry}
use betting_processing_go.Wager.{Transaction, Origin, TransactionType, TransactionStatus}
use betting_processing_go.Store.Events.{Event}
use betting_processing_go.Store.Schema.{WalletRow, LedgerRow, OutboxRow}
use betting_processing_go.Store.Rows.{
  find_row, load_wallet, update_wallets, insert_wallet, insert_ledger,
}
use betting_processing_go.Store.TransactionRows.{insert_transaction}
use betting_processing_go.Store.Session.{Env, Action, map_err, pool_read, tx_exec, lift, ◌>>=◌}

-- FindByID
unfoldable pub find_by_id : Env → String → Action Wallet
find_by_id env id = do
  row ←
      map_err (Error.wrap "scan wallet")
        (pool_read env (λ t. ok (find_row (λ r. str_eq r.id id) t.wallets)))
  lift (load_wallet row)

-- FindByPlayerAndCurrencyAndProvider
unfoldable pub find_by_player : Env → String → Currency → String → Action Wallet
find_by_player env player_id currency provider_id = do
  row ← map_err (Error.wrap "scan wallet") (
      pool_read env (λ t. ok (
        find_row
          (λ r.
            str_eq r.player_id player_id
            && (str_eq r.currency currency && str_eq r.provider_id provider_id))
          t.wallets)))
  lift (load_wallet row)

-- FindByIDForUpdate
unfoldable pub find_by_id_for_update : Env → String → Action Wallet
find_by_id_for_update env id = do
  row ←
      map_err (Error.wrap "scan wallet for update")
        (tx_exec env (λ t. ok (find_row (λ r. str_eq r.id id) t.wallets, t)))
  lift (load_wallet row)

-- UpdateBalanceTx
unfoldable pub update_balance_tx : Env → String → Money → ℤ → Action ℤ
update_balance_tx env id new_balance expected_version = do
  found ←
      map_err (Error.wrap "update wallet balance") (λ w.
        tx_exec env (update_wallets id new_balance.amount expected_version (env.now w.calls)) w)
  lift (
      if found
      then ok (add64 expected_version (pos 1))
      else wallet_err WalletError.concurrent_update)

-- CreateWalletTx
unfoldable pub create_wallet_tx : Env → String → String → Currency → Money → Action String
create_wallet_tx env player_id provider_id currency balance w =
    let id = env.uuid w.calls in
    let now = env.now w.calls in
    let row : WalletRow = record {
      id = id;
      player_id = player_id;
      provider_id = provider_id;
      currency = currency;
      balance = balance.amount;
      version = pos 1;
      created_at = now;
      updated_at = now;
    } in
    map_err (Error.wrap "insert wallet") (tx_exec env (insert_wallet row)) w

-- CreateOpeningTx
unfoldable pub create_opening_tx : Env → String → String → Money → Currency → Action String
create_opening_tx env wallet_id player_id amount currency w =
    let id = env.uuid w.calls in
    let now = env.now w.calls in
    let row : Transaction = record {
      id = id;
      origin = Origin.internal;
      external_id = "";
      provider = "";
      idempotency_key = "";
      payload_hash = "";
      wallet_id = wallet_id;
      player_id = player_id;
      round_id = "";
      game_id = "";
      transaction_type = TransactionType.opening;
      amount = record { amount = amount.amount; currency = currency };
      external_reference = "";
      internal_reference = "";
      status = TransactionStatus.processed;
      failure_code = "";
      ref_attempts = 0;
      ref_next_attempt_at = none;
      result_balance = none;
      created_at = now;
      updated_at = now;
      processed_at = some now;
    } in
    map_err (Error.wrap "insert opening transaction") (tx_exec env (insert_transaction row)) w

-- CreateLedgerEntryTx
unfoldable pub create_ledger_entry_tx : Env → LedgerEntry → Action String
create_ledger_entry_tx env entry w =
    let id = env.uuid w.calls in
    let row : LedgerRow = record {
      id = id;
      wallet_id = entry.wallet_id;
      transaction_id = entry.transaction_id;
      direction = entry.direction;
      amount = entry.amount.amount;
      currency = entry.currency;
      balance_before = entry.balance_before.amount;
      balance_after = entry.balance_after.amount;
      created_at = env.now w.calls;
    } in
    map_err (Error.wrap "insert ledger entry") (tx_exec env (insert_ledger row)) w

-- CreateOutboxEventTx. The payload is the event that was marshalled.
unfoldable pub create_outbox_event_tx : Env → String → String → String → Event → Action (Unit {0})
create_outbox_event_tx env aggregate_type aggregate_id event_type payload w =
    let row : OutboxRow = record {
      id = env.uuid w.calls;
      aggregate_type = aggregate_type;
      aggregate_id = aggregate_id;
      event_type = event_type;
      payload = payload;
      occurred_at = env.now w.calls;
      published_at = none;
      attempts = 0;
      next_attempt_at = env.now w.calls;
      last_error = "";
    } in
    map_err (Error.wrap "insert outbox event")
      (tx_exec env (λ t. ok (tt, record t { outbox = row ∷ t.outbox }))) w
