-- ===== src/Store/LedgerRepo.antt =====
-- ledger_repository.go: the calls outside of a transaction.
use betting_processing_go.Prelude.{ℕ, String, Option, none, some, List, take}
use betting_processing_go.Prelude.Text.{Text}
use betting_processing_go.Prelude.Int.{ℤ, pos, pos_part}
use betting_processing_go.Prelude.Int64.{add64}
use betting_processing_go.Errors.{Error, Result, ok, err}
use betting_processing_go.Wallet.{LedgerEntry}
use betting_processing_go.Store.Schema.{LedgerRow, Tables}
use betting_processing_go.Store.Rows.{insert_ledger}
use betting_processing_go.Store.Session.{
  Env, Action, Fault, refused, reply_lost, tick, lift, map_err, pool_read, pool_exec, ◌>>=◌,
}
use betting_processing_go.Store.LedgerRows.{
  Reader, select_entries, decode_cursor, load_entries, cut_page, page_size, sum_entries,
}

-- Create
unfoldable pub create_ledger_entry : Env → LedgerEntry → Action (Unit {0})
create_ledger_entry env entry =
    let row : LedgerRow = record {
      id = entry.id;
      wallet_id = entry.wallet_id;
      transaction_id = entry.transaction_id;
      direction = entry.direction;
      amount = entry.amount.amount;
      currency = entry.currency;
      balance_before = entry.balance_before.amount;
      balance_after = entry.balance_after.amount;
      created_at = entry.created_at;
    } in
    do
      _ ← map_err (Error.wrap "insert ledger entry") (pool_exec env (insert_ledger row))
      lift (ok tt)

-- The rows that a query gives. Where the connection breaks while they are read, rows.Next ends the loop
-- as it does at the last row, and the code does not ask for rows.Err().
unfoldable pub rows_reply : Option Fault → ℕ → Result (List LedgerRow) → Result (List LedgerRow)
rows_reply none count r = r
rows_reply (some (refused text)) count r = err (Error.external text)
rows_reply (some (reply_lost text)) count (ok rows) = ok (take count rows)
rows_reply (some (reply_lost text)) count (err e) = err e

unfoldable pub pool_query :
    Env → Reader → (Tables → Result (List LedgerRow)) → Action (List LedgerRow)
unfolding rows_reply
pool_query env R f w =
    (rows_reply (env.fault w.calls) (R.delivered w.calls) (f w.committed), tick w)

-- FindByWalletID
unfoldable pub find_by_wallet_id :
    Env → Reader → String → Text → ℤ → Action (List LedgerEntry × Text)
unfolding pool_query
find_by_wallet_id env R wallet_id cursor limit = do
  point ← lift (decode_cursor R cursor)
  rows ←
      map_err (Error.wrap "query ledger entries")
        (pool_query env R (select_entries R wallet_id point (add64 (page_size limit) (pos 1))))
  entries ← lift (load_entries rows)
  lift (ok (cut_page R (pos_part (page_size limit)) entries))

-- SumByWalletID
unfoldable pub sum_by_wallet_id : Env → String → Action ℤ
sum_by_wallet_id env wallet_id =
    map_err (Error.wrap "sum ledger entries") (pool_read env (sum_entries wallet_id))
