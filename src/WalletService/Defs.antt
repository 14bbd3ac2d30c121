-- ===== src/WalletService/Defs.antt =====
-- service.go. The service is built with a transaction factory, so its nil checks are left out, and a
-- deferred Rollback ends a transaction that was not committed, which leaves the committed tables alone.
use betting_processing_go.Prelude.{String, Bool, false, not, ◌||◌, List, [], ◌∷◌, if◌then◌else◌}
use betting_processing_go.Prelude.Text.{str_eq, str_append, str_contains}
use betting_processing_go.Prelude.Int.{pos}
use betting_processing_go.Errors.{
  Error, Result, ok, err, WalletError, Sentinel, wallet_err, fail_if, errors_is,
}
use betting_processing_go.Money.{Money, Currency, is_negative, is_zero, new_money}
use betting_processing_go.Wallet.{
  Wallet, LedgerEntry, BalanceChange, Direction, Time, rehydrate_wallet, new_ledger_entry,
  is_direction, debit_wallet, credit_wallet,
}
use betting_processing_go.Store.{
  read_clock, Event, EventData, Env, Action, lift, map_err, begin_tx, commit_tx, marshal_event,
  find_by_id, find_by_player, find_by_id_for_update, update_balance_tx, create_wallet_tx,
  create_opening_tx, create_ledger_entry_tx, create_outbox_event_tx, ◌>>=◌, ◌>>◌,
}

-- isUniqueViolation looks for two texts in the message. None of the program's own texts has them, so
-- only the driver's part of the message decides.
unfoldable pub is_unique_violation : Error → Bool
is_unique_violation (Error.external text) =
    str_contains text "duplicate key" || str_contains text "unique constraint"
is_unique_violation (Error.wrap p e) = is_unique_violation e
is_unique_violation (Error.wrap_both e f) = is_unique_violation e || is_unique_violation f
is_unique_violation (Error.annotate e f) = is_unique_violation e || is_unique_violation f
is_unique_violation (Error.sentinel s) = false

-- buildWalletCreatedEvents
unfoldable pub build_wallet_created_events : Wallet → String → LedgerEntry → List Event
build_wallet_created_events w opening_id entry =
    (record {
      event_id = str_append (str_append "evt-" opening_id) "-processed";
      event_type = "WagerTransactionProcessed";
      aggregate_type = "WagerTransaction";
      aggregate_id = opening_id;
      correlation_id = "";
      causation_id = "";
      occurred_at = w.created_at;
      version = 1;
      data_ = EventData.processed_data (record {
        transaction_id = opening_id;
        external_id = "";
        provider_id = "";
        player_id = w.player_id;
        wallet_id = w.id;
        round_id = "";
        game_id = "";
        kind = "OPENING";
        money = w.balance;
        reference_ext_id = "";
        status = "PROCESSED";
        failure_code = "";
      });
    })
    ∷ (record {
      event_id = str_append (str_append "evt-" opening_id) "-balance";
      event_type = "WalletBalanceChanged";
      aggregate_type = "Wallet";
      aggregate_id = w.id;
      correlation_id = "";
      causation_id = "";
      occurred_at = w.created_at;
      version = 1;
      data_ = EventData.balance_changed_data (record {
        wallet_id = w.id;
        transaction_id = opening_id;
        direction = "CREDIT";
        money = w.balance;
        balance_before = entry.balance_before;
        balance_after = entry.balance_after;
        wallet_version = w.version;
      });
    })
    ∷ []

-- The loop that writes the events to the outbox.
unfoldable pub write_events : Env → List Event → Action (Unit {0})
write_events env [] = lift (ok tt)
write_events env (event ∷ events) = do
  payload ← map_err (Error.wrap "marshal outbox event") (lift (marshal_event event))
  create_outbox_event_tx env event.aggregate_type event.aggregate_id event.event_type payload
  write_events env events

-- The ledger entry of an opening transaction, and its events.
unfoldable pub book_opening : Env → String → String → Money → Money → Wallet → Action (Unit {0})
unfolding write_events
book_opening env wallet_id opening_id initial_balance zero_balance w = do
  now ← read_clock env
  entry ← map_err (Error.wrap "create ledger entry") (
      lift (
        new_ledger_entry now "" wallet_id opening_id Direction.credit initial_balance zero_balance
          initial_balance))
  _ ← create_ledger_entry_tx env entry
  write_events env (build_wallet_created_events w opening_id entry)

-- The opening transaction of a wallet that starts with money, its ledger entry and its events.
unfoldable pub write_opening : Env → String → String → Money → Wallet → Action (Unit {0})
write_opening env wallet_id player_id initial_balance w = do
  opening_id ← create_opening_tx env wallet_id player_id initial_balance initial_balance.currency
  zero_balance ←
      map_err (Error.wrap "create zero balance") (lift (new_money (pos 0) initial_balance.currency))
  book_opening env wallet_id opening_id initial_balance zero_balance w

-- `if isUniqueViolation(err) { return nil, ErrDuplicateWallet }`
unfoldable pub duplicate_or : Error → Error
duplicate_or e =
    if is_unique_violation e
    then Error.sentinel (Sentinel.wallet WalletError.duplicate_wallet)
    else e

-- The statements of CreateWallet inside its transaction.
unfoldable pub write_wallet : Env → String → String → Money → Action Wallet
unfolding write_opening duplicate_or
write_wallet env provider_id player_id initial_balance = do
  wallet_id ←
      map_err duplicate_or
        (create_wallet_tx env player_id provider_id initial_balance.currency initial_balance)
  now ← read_clock env
  w ← map_err (Error.wrap "rehydrate wallet") (
      lift (
        rehydrate_wallet (record {
          id = wallet_id;
          player_id = player_id;
          provider_id = provider_id;
          currency = initial_balance.currency;
          balance = initial_balance;
          version = pos 1;
          created_at = now;
          updated_at = now;
        })))
  if is_zero initial_balance
      then lift (ok tt)
      else write_opening env wallet_id player_id initial_balance w
  lift (ok w)

-- The search for a wallet of the same player, currency and provider.
unfoldable pub check_existing : Env → String → Currency → String → Action (Unit {0})
check_existing env player_id currency provider_id w =
    let (r, w') = find_by_player env player_id currency provider_id w in
    elim r [
      | ok existing ↦ (wallet_err WalletError.duplicate_wallet, w')
      | err e ↦
          if errors_is (Sentinel.wallet WalletError.wallet_not_found) e
          then (ok tt, w')
          else (err (Error.wrap "check existing wallet" e), w')
    ]

unfoldable pub create_wallet : Env → String → String → Money → Action Wallet
unfolding check_existing write_wallet
create_wallet env provider_id player_id initial_balance = do
  lift (fail_if (str_eq provider_id "") (Sentinel.wallet WalletError.invalid_provider_id))
  lift (fail_if (str_eq player_id "") (Sentinel.wallet WalletError.invalid_player_id))
  lift (fail_if (str_eq initial_balance.currency "") (Sentinel.wallet WalletError.invalid_currency))
  lift (fail_if (is_negative initial_balance) (Sentinel.wallet WalletError.negative_balance))
  check_existing env player_id initial_balance.currency provider_id
  map_err (Error.wrap "begin transaction") (begin_tx env)
  w ← write_wallet env provider_id player_id initial_balance
  map_err (Error.wrap "commit wallet creation") (commit_tx env)
  lift (ok w)

unfoldable pub get_wallet : Env → String → Action Wallet
get_wallet env id = do
  lift (fail_if (str_eq id "") (Sentinel.wallet WalletError.invalid_wallet_id))
  find_by_id env id

unfoldable pub get_balance : Env → String → Action Money
get_balance env wallet_id = do w ← find_by_id env wallet_id; lift (ok w.balance)

-- The switch on the direction, which is one of the two when it is reached.
unfoldable pub move_balance : Direction → Time → Money → Wallet → Result (Wallet × BalanceChange)
move_balance Direction.debit now amount w = debit_wallet now amount w
move_balance Direction.credit now amount w = credit_wallet now amount w
move_balance (Direction.other_direction s) now amount w =
    wallet_err WalletError.invalid_ledger_entry

-- The statements of applyBalanceChange inside a transaction.
unfoldable pub change_balance : Env → String → Money → Direction → Action BalanceChange
change_balance env wallet_id amount direction = do
  w ← map_err (Error.wrap "load wallet for balance change") (find_by_id_for_update env wallet_id)
  now ← read_clock env
  moved ← lift (move_balance direction now amount w)
  let (_, change) = moved
  _ ←
      map_err (Error.wrap "update wallet balance")
        (update_balance_tx env w.id change.balance_after w.version)
  lift (ok change)

-- applyBalanceChange; `owns` says that no open transaction was given.
unfoldable pub apply_balance_change : Env → Bool → String → Money → Direction → Action BalanceChange
apply_balance_change env owns wallet_id amount direction = do
  lift (fail_if (str_eq wallet_id "") (Sentinel.wallet WalletError.invalid_wallet_id))
  lift (fail_if (not (is_direction direction)) (Sentinel.wallet WalletError.invalid_ledger_entry))
  if owns then map_err (Error.wrap "begin balance transaction") (begin_tx env) else lift (ok tt)
  change ← change_balance env wallet_id amount direction
  if owns then map_err (Error.wrap "commit balance transaction") (commit_tx env) else lift (ok tt)
  lift (ok change)

-- Debit
unfoldable pub service_debit : Env → Bool → String → Money → Action BalanceChange
service_debit env owns wallet_id amount =
    apply_balance_change env owns wallet_id amount Direction.debit

-- Credit
unfoldable pub service_credit : Env → Bool → String → Money → Action BalanceChange
service_credit env owns wallet_id amount =
    apply_balance_change env owns wallet_id amount Direction.credit
