-- ===== src/WalletService/Tests.antt =====
-- Tests of the wallet service on an empty database, and the theorems at concrete inputs.
use betting_processing_go.Prelude.{
  arith, ◌∷◌, ℕ, zero, suc, String, ◌≡◌, refl, false, [], Option, none, some,
}
use betting_processing_go.Prelude.Text.{
  trim_string, trim_string_right, trim_string_left, keep_char_unless_blank, is_space, str_append,
}
use betting_processing_go.Prelude.Int.{pos, ◌+ℤ◌, ◌-ℤ◌}
use betting_processing_go.Prelude.Int64.{neg64, add64, sub64, wrap64}
use betting_processing_go.Errors.{ok, errors_is, same_sentinel, sentinel_discrete}
use betting_processing_go.Money.{
  subtract, brl, marshal_json, is_negative, is_zero, new_money, add, compare_money,
}
use betting_processing_go.Wallet.{
  Direction, is_direction, debit_wallet, can_debit, changed, new_ledger_entry, rehydrate_wallet,
}
use betting_processing_go.Wallet.Balance.{brl_of}
use betting_processing_go.Store.{
  Env, World, Tables, WalletRow, LedgerRow, find_by_id_for_update, update_balance_tx,
  update_wallets, update_row, row_matches, set_balance, Fault, refused, find_row, load_wallet,
  find_by_player, pool_read, read_reply, begin_tx, begin_reply, commit_tx, commit_reply, tx_exec,
  tx_reply, map_err, lift, insert_wallet, insert_transaction, insert_ledger, create_wallet_tx,
  create_opening_tx, create_ledger_entry_tx, create_outbox_event_tx, wallet_check, marshal_event,
  read_clock, transaction_check, known_status, kind_of_origin, is_opening_type, opening_columns,
  transaction_clash, marshal_data, ◌>>=◌,
}
use betting_processing_go.Store.During.{During}
use betting_processing_go.Store.Frame.{trivial_frame}
use betting_processing_go.Store.Update.{Keyed}
use betting_processing_go.Store.Reconciled.{Reconciled, stored, ledger_sum}
use betting_processing_go.WalletService.Defs.{
  change_balance, move_balance, apply_balance_change, create_wallet, build_wallet_created_events,
  write_events, book_opening,
}
use betting_processing_go.WalletService.Change.{Changed, apply_balance_change-Changed}

-- The id that the n-th call gives.
abbrev nth_id : ℕ → String
nth_id zero = "u"
nth_id (suc n) = str_append "x" (nth_id n)

-- No call fails.
abbrev calm : Env
calm = record { fault = λ n. none; uuid = nth_id; now = λ n. suc n; delivered = λ n. 0 }

-- The call of this number fails.
abbrev fault_at : ℕ → ℕ → Option Fault
fault_at zero zero = some (refused "connection reset")
fault_at zero (suc n) = none
fault_at (suc k) zero = none
fault_at (suc k) (suc n) = fault_at k n

abbrev stormy : ℕ → Env
stormy k = record { fault = fault_at k; uuid = nth_id; now = λ n. suc n; delivered = λ n. 0 }

abbrev no_rows : Tables
no_rows = record { wallets = []; transactions = []; ledger = []; outbox = []; inbox = [] }

abbrev start : World
start = record { committed = no_rows; current = no_rows; aborted = false; calls = 0 }

start-Reconciled : Reconciled start.committed
start-Reconciled = record { balance = λ j. refl }

-- A new wallet holds its opening balance, in its row and in the ledger.
create_on_empty :
    let (r, w) = create_wallet calm "acme" "p1" (brl_of (pos 1000)) start in
    let t = w.committed in
    (stored (nth_id 2) t.wallets ≡ pos 1000) × (ledger_sum (nth_id 2) t.ledger ≡ pos 1000)
unfolding create_wallet find_by_player pool_read read_reply find_row load_wallet errors_is
    same_sentinel sentinel_discrete begin_tx begin_reply commit_tx commit_reply tx_exec tx_reply
    map_err lift insert_wallet insert_transaction insert_ledger create_wallet_tx create_opening_tx
    create_ledger_entry_tx create_outbox_event_tx marshal_event marshal_data ◌>>=◌ write_events
    book_opening rehydrate_wallet new_ledger_entry is_negative is_zero new_money add compare_money
    trim_string trim_string_right trim_string_left keep_char_unless_blank is_space add64 sub64
    wrap64 ◌+ℤ◌ ◌-ℤ◌ wallet_check read_clock transaction_check known_status kind_of_origin
    is_opening_type opening_columns transaction_clash build_wallet_created_events marshal_json
create_on_empty = (refl, refl)

abbrev row : WalletRow
row = record {
  id = "w1";
  player_id = "p1";
  provider_id = "acme";
  currency = brl;
  balance = pos 1000;
  version = pos 1;
  created_at = 5;
  updated_at = 5;
}

abbrev entry : LedgerRow
entry = record {
  id = "e1";
  wallet_id = "w1";
  transaction_id = "t1";
  direction = Direction.credit;
  amount = pos 1000;
  currency = brl;
  balance_before = pos 0;
  balance_after = pos 1000;
  created_at = 5;
}

abbrev one_wallet : Tables
one_wallet = record {
  wallets = row ∷ [];
  transactions = [];
  ledger = entry ∷ [];
  outbox = [];
  inbox = [];
}

abbrev open_tx : World
open_tx = record { committed = one_wallet; current = one_wallet; aborted = false; calls = 0 }

one_wallet-Keyed : Keyed one_wallet.wallets
unfolding trim_string trim_string_right trim_string_left keep_char_unless_blank is_space
one_wallet-Keyed = (refl, refl, omega arith, tt)

apply_balance_change-Changed_example :
    During
      (λ c. c ≡ one_wallet)
      (λ change t. Changed trivial_frame "w1" (pos 0 -ℤ pos 300) change t)
      (apply_balance_change calm false "w1" (brl_of (pos 300)) Direction.debit open_tx)
apply_balance_change-Changed_example =
    apply_balance_change-Changed calm "w1" (brl_of (pos 300)) Direction.debit open_tx
      (record { balance = λ j. refl }) one_wallet-Keyed (omega arith)

-- The debit succeeds, in the row of the transaction and in what it reports; the committed row stays.
debit_one_wallet :
    let (r, w) = apply_balance_change calm false "w1" (brl_of (pos 300)) Direction.debit open_tx in
    (stored "w1" w.current.wallets ≡ pos 700)
    × (stored "w1" w.committed.wallets ≡ pos 1000)
    × (r
        ≡ ok (record {
          balance_before = brl_of (pos 1000);
          balance_after = brl_of (pos 700);
          new_version = pos 2;
        }))
unfolding apply_balance_change find_by_id_for_update find_row load_wallet tx_exec tx_reply map_err
    lift ◌>>=◌ update_balance_tx update_wallets update_row row_matches set_balance wallet_check
    change_balance move_balance read_clock rehydrate_wallet new_money is_negative is_zero
    is_direction debit_wallet can_debit changed subtract add compare_money neg64 add64 sub64 wrap64
    ◌+ℤ◌ ◌-ℤ◌ trim_string trim_string_right trim_string_left keep_char_unless_blank is_space
debit_one_wallet = (refl, refl, refl)
