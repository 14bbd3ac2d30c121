-- ===== src/WalletService/AuditTests.antt =====
-- Tests of the ledger and of Reconcile, and the theorems at concrete inputs.
use betting_processing_go.Prelude.{◌≡◌, ◌≢◌, refl, String, true, false, none, some, [], ◌∷◌, arith}
use betting_processing_go.Prelude.Text.{
  Text, codes, str_eq, trim_string, trim_string_right, trim_string_left, keep_char_unless_blank,
  is_space,
}
use betting_processing_go.Prelude.Int.{ℤ, pos, ◌+ℤ◌, ◌-ℤ◌}
use betting_processing_go.Prelude.Int64.{add64, sub64, neg64, wrap64}
use betting_processing_go.Errors.{Error, Result, ok, err}
use betting_processing_go.Money.{
  new_money, valid, add, subtract, compare_money, check_currency, is_zero, is_negative,
}
use betting_processing_go.Wallet.{
  LedgerEntry, Wallet, Time, debit, credit, rehydrate_ledger_entry, is_direction, check_amounts,
  check_math, expected_after, rehydrate_wallet, check_names,
}
use betting_processing_go.Wallet.Balance.{brl_of}
use betting_processing_go.Store.{
  Env, World, WalletRow, LedgerRow, reply_lost, tick, Reader, colon, find_by_wallet_id, find_row,
  load_wallet, load_entries, load_entry, money_or_zero, ordered_rows, insert_ordered, entry_before,
  select_entries, limit_rows, decode_cursor, cut_page, cursor_of, page_size, pool_query, rows_reply,
  lift, map_err, ◌>>=◌,
}
use betting_processing_go.Store.Update.{Keyed}
use betting_processing_go.Store.Reconciled.{Reconciled}
use betting_processing_go.WalletService.Compare.{ReconciliationResult}
use betting_processing_go.WalletService.Ledger.{reconcile}
use betting_processing_go.WalletService.Pages.{HasClock, find_by_wallet_id-next}
use betting_processing_go.WalletService.Reconciling.{reconcile_ends}
use betting_processing_go.WalletService.Audit.{Reports, reconcile-Reports}
use betting_processing_go.WalletService.Balanced.{reconcile_balanced}

-- A parser that wants a text of three characters.
abbrev parse_three : Text → Result Time
parse_three (a ∷ b ∷ c ∷ []) = ok c
parse_three s = err (Error.external "cannot parse")

abbrev reader : Reader
reader = record {
  format_time = λ t. b'T' ∷ colon ∷ t ∷ [];
  parse_time = parse_three;
  parse_uuid = λ s. ok "e1";
  id_before = λ a b. false;
  delivered = λ n. 1;
}

abbrev reader_clock : HasClock reader
reader_clock = record {
  head = λ t. b'T' ∷ [];
  rest = λ t. t ∷ [];
  written = λ t. refl;
  no_colon = λ t. (omega arith, tt);
  problem = λ t. Error.external "cannot parse";
  refused = λ t. refl;
}

abbrev calm : Env
calm = record { fault = λ n. none; uuid = λ n. "u"; now = λ n. n; delivered = λ n. 0 }

-- The connection breaks while the rows are read.
abbrev torn : Env
torn = record {
  fault = λ n. some (reply_lost "unexpected EOF");
  uuid = λ n. "u";
  now = λ n. n;
  delivered = λ n. 0;
}

abbrev row : WalletRow
row = record {
  id = "w1";
  player_id = "p1";
  provider_id = "acme";
  currency = "BRL";
  balance = pos 300;
  version = pos 2;
  created_at = 1;
  updated_at = 2;
}

abbrev deposit : LedgerRow
deposit = record {
  id = "e1";
  wallet_id = "w1";
  transaction_id = "t1";
  direction = credit;
  amount = pos 500;
  currency = "BRL";
  balance_before = pos 0;
  balance_after = pos 500;
  created_at = 1;
}

abbrev stake : LedgerRow
stake = record {
  id = "e2";
  wallet_id = "w1";
  transaction_id = "t2";
  direction = debit;
  amount = pos 200;
  currency = "BRL";
  balance_before = pos 500;
  balance_after = pos 300;
  created_at = 2;
}

abbrev books : World
books = record {
  committed = record {
    wallets = row ∷ [];
    transactions = [];
    ledger = stake ∷ deposit ∷ [];
    outbox = [];
    inbox = [];
  };
  current = record { wallets = []; transactions = []; ledger = []; outbox = []; inbox = [] };
  aborted = false;
  calls = 0;
}

abbrev entry_of : LedgerRow → LedgerEntry
entry_of r = record {
  id = r.id;
  wallet_id = r.wallet_id;
  transaction_id = r.transaction_id;
  direction = r.direction;
  amount = brl_of r.amount;
  currency = r.currency;
  balance_before = brl_of r.balance_before;
  balance_after = brl_of r.balance_after;
  created_at = r.created_at;
}

readable : load_entries (deposit ∷ stake ∷ []) ≡ ok (entry_of deposit ∷ entry_of stake ∷ [])
unfolding load_entries load_entry money_or_zero new_money valid rehydrate_ledger_entry is_direction
    check_amounts check_math expected_after add subtract compare_money check_currency is_zero
    is_negative add64 sub64 neg64 wrap64 ◌+ℤ◌ ◌-ℤ◌
readable = refl

ordered :
    ordered_rows reader (λ r. str_eq r.wallet_id "w1") (stake ∷ deposit ∷ []) ≡ deposit ∷ stake ∷ []
unfolding ordered_rows insert_ordered entry_before
ordered = refl

first_page :
    find_by_wallet_id calm reader "w1" [] (pos 1) books
    ≡ (ok (entry_of deposit ∷ [], b'T' ∷ colon ∷ 1 ∷ colon ∷ codes "e1"), tick books)
unfolding find_by_wallet_id decode_cursor cut_page cursor_of page_size pool_query rows_reply
    select_entries ordered_rows insert_ordered entry_before limit_rows map_err lift ◌>>=◌
    load_entries load_entry money_or_zero new_money valid rehydrate_ledger_entry is_direction
    check_amounts check_math expected_after add subtract compare_money check_currency is_zero
    is_negative add64 sub64 neg64 wrap64 ◌+ℤ◌ ◌-ℤ◌
first_page = refl

-- One of two rows arrives, and the page looks complete.
torn_page :
    find_by_wallet_id torn reader "w1" [] (pos 10) books
    ≡ (ok (entry_of deposit ∷ [], []), tick books)
unfolding find_by_wallet_id decode_cursor cut_page cursor_of page_size pool_query rows_reply
    select_entries ordered_rows insert_ordered entry_before limit_rows map_err lift ◌>>=◌
    load_entries load_entry money_or_zero new_money valid rehydrate_ledger_entry is_direction
    check_amounts check_math expected_after add subtract compare_money check_currency is_zero
    is_negative add64 sub64 neg64 wrap64 ◌+ℤ◌ ◌-ℤ◌
torn_page = refl

abbrev wallet_of_three : Wallet
wallet_of_three = record {
  id = "w1";
  player_id = "p1";
  provider_id = "acme";
  currency = "BRL";
  balance = brl_of (pos 300);
  version = pos 2;
  created_at = 1;
  updated_at = 2;
}

loads : load_wallet (some row) ≡ ok wallet_of_three
unfolding load_wallet new_money valid rehydrate_wallet check_names is_negative trim_string
    trim_string_right trim_string_left keep_char_unless_blank is_space
loads = refl

books-Keyed : Keyed books.committed.wallets
unfolding trim_string trim_string_right trim_string_left keep_char_unless_blank is_space
books-Keyed = (refl, refl, (omega arith), tt)

books_balance : Reconciled books.committed
unfolding ◌+ℤ◌ ◌-ℤ◌
books_balance = record { balance = λ j. ground arith }

find_by_wallet_id-next_example :
    (e : LedgerEntry) × ((env' : Env) (wallet_id' : String) (limit' : ℤ) (w'' : World)
      → find_by_wallet_id env' reader wallet_id' (b'T' ∷ colon ∷ 1 ∷ colon ∷ codes "e1") limit' w''
        ≡ (err (Error.wrap "parse cursor time" (Error.external "cannot parse")), w''))
find_by_wallet_id-next_example =
    find_by_wallet_id-next reader reader_clock calm "w1" [] (pos 1) books (tick books)
      (entry_of deposit ∷ []) (b'T' ∷ colon ∷ 1 ∷ colon ∷ codes "e1") first_page (cc)

reconcile_ends_example : reconcile 2 torn reader "w1" books ≢ (ok none, books)
reconcile_ends_example = reconcile_ends reader reader_clock 0 torn "w1" books books

abbrev result_of_three : ReconciliationResult
result_of_three = record {
  wallet_id = "w1";
  stored_balance = brl_of (pos 300);
  calculated_balance = brl_of (pos 300);
  difference = brl_of (pos 0);
  consistent = true;
  checked_entries = 2;
}

found : find_row (λ r. str_eq r.id "w1") books.committed.wallets ≡ some row
unfolding find_row
found = refl

balanced :
    reconcile 1 calm reader "w1" books ≡ (ok (some result_of_three), record books { calls = 3 })
balanced =
    reconcile_balanced 0 calm reader "w1" books row wallet_of_three (deposit ∷ stake ∷ [])
      (entry_of deposit ∷ entry_of stake ∷ []) (λ n h. refl) (cc) books-Keyed books_balance found
      loads ordered (omega arith) readable

reconcile_balanced_example :
    reconcile 1 calm reader "w1" books ≡ (ok (some result_of_three), record books { calls = 3 })
reconcile_balanced_example =
    reconcile_balanced 0 calm reader "w1" books row wallet_of_three (deposit ∷ stake ∷ [])
      (entry_of deposit ∷ entry_of stake ∷ []) (λ n h. refl) (cc) books-Keyed books_balance found
      loads ordered (omega arith) readable

reconcile-Reports_example :
    Reports books.committed "w1" result_of_three × (books.committed ≡ books.committed)
reconcile-Reports_example =
    reconcile-Reports 1 calm reader "w1" books (record books { calls = 3 }) result_of_three
      books-Keyed balanced
