-- ===== src/Store/TransactionRows.antt =====
-- The rows of wager_transactions: their constraints, and the statements on them.
use betting_processing_go.Prelude.{
  String, Bool, true, false, not, ◌&&◌, ◌||◌, Option, none, some, List, [], ◌∷◌, map, any,
  if◌then◌else◌, ◌+◌, ◌*◌,
}
use betting_processing_go.Prelude.Text.{str_eq}
use betting_processing_go.Prelude.Int.{pos, ltb_ℤ}
use betting_processing_go.Errors.{Result, ok, WagerError, wager_err, wrapping, ◌>>◌, ◌>>=◌}
use betting_processing_go.Money.{Money, Currency, new_money}
use betting_processing_go.Wallet.{Time}
use betting_processing_go.Wager.{
  Transaction, TransactionType, opening, refund, rollback, other_type, TransactionStatus, processed,
  other_status, Origin, internal, external, backoff, second,
}
use betting_processing_go.Store.Schema.{Tables}
use betting_processing_go.Store.Rows.{require, unique_text, check_text, reference_text}

-- wager_transactions_status_chk
unfoldable pub known_status : TransactionStatus → Bool
known_status (other_status s) = false
known_status _ = true

-- wager_transactions_type_chk, wager_transactions_origin_chk and the part of
-- wager_transactions_opening_rules_chk on the type and the origin
unfoldable pub kind_of_origin : TransactionType → Origin → Bool
kind_of_origin opening internal = true
kind_of_origin opening _ = false
kind_of_origin (other_type s) _ = false
kind_of_origin _ external = true
kind_of_origin _ _ = false

unfoldable pub is_opening_type : TransactionType → Bool
is_opening_type opening = true
is_opening_type _ = false

-- The rest of wager_transactions_opening_rules_chk
unfoldable pub opening_columns : Transaction → Bool
opening_columns x =
    str_eq x.external_id ""
    && (str_eq x.provider ""
        && (str_eq x.idempotency_key ""
            && (str_eq x.payload_hash ""
                && (str_eq x.round_id ""
                    && (str_eq x.game_id "" && str_eq x.external_reference "")))))

-- The CHECK constraints. wager_transactions_currency_chk holds of the only currency that reaches the
-- table.
unfoldable pub transaction_check : Transaction → Bool
transaction_check x =
    known_status x.status
    && (kind_of_origin x.transaction_type x.origin
        && (not (ltb_ℤ x.amount.amount (pos 0))
            && (not (is_opening_type x.transaction_type) || opening_columns x)))

-- `column = value` of a column that may be NULL
unfoldable pub column_is : String → String → Bool
column_is column value = not (str_eq column "") && str_eq column value

-- wager_transactions_idempotency_uq
unfoldable pub same_key : Transaction → Transaction → Bool
same_key x y = column_is x.provider y.provider && column_is x.idempotency_key y.idempotency_key

unfoldable pub is_processed : TransactionStatus → Bool
is_processed processed = true
is_processed _ = false

unfoldable pub is_reversal_type : TransactionType → Bool
is_reversal_type refund = true
is_reversal_type rollback = true
is_reversal_type _ = false

-- The rows that wager_transactions_one_successful_reversal_uq counts for one reference, which are those
-- that HasSuccessfulReversal counts.
unfoldable pub reverses : String → Transaction → Bool
reverses reference x =
    column_is x.internal_reference reference
    && (is_reversal_type x.transaction_type && is_processed x.status)

unfoldable pub same_reversal : Transaction → Transaction → Bool
same_reversal x y = reverses y.internal_reference x && reverses x.internal_reference y

-- wager_transactions_one_opening_per_wallet_uq
unfoldable pub same_opening : Transaction → Transaction → Bool
same_opening x y =
    is_opening_type x.transaction_type
    && (is_opening_type y.transaction_type && str_eq x.wallet_id y.wallet_id)

-- The primary key and the three unique indexes.
unfoldable pub transaction_clash : Transaction → Transaction → Bool
transaction_clash x y =
    str_eq x.id y.id || (same_key x y || (same_reversal x y || same_opening x y))

-- No two rows clash.
unfoldable pub no_clash : List Transaction → Bool
no_clash [] = true
no_clash (x ∷ xs) = not (any (transaction_clash x) xs) && no_clash xs

unfoldable pub insert_transaction : Transaction → Tables → Result (String × Tables)
insert_transaction x t = do
  require (transaction_check x) check_text
  require (not (any (transaction_clash x) t.transactions)) unique_text
  require (any (λ r. str_eq r.id x.wallet_id) t.wallets) reference_text
  ok (x.id, record t { transactions = x ∷ t.transactions })

unfoldable pub set_row : String → (Transaction → Transaction) → Transaction → Transaction
set_row id f x = if str_eq x.id id then f x else x

-- An UPDATE of the row with an id.
unfoldable pub update_transaction :
    String → (Transaction → Transaction) → Tables → Result (Unit {0} × Tables)
unfolding set_row
update_transaction id f t = do
  let rows = map (set_row id f) t.transactions
  require (not (any (λ x. str_eq x.id id && not (transaction_check (f x))) t.transactions))
      check_text
  require (no_clash rows) unique_text
  ok (tt, record t { transactions = rows })

-- The SET clause of UpdateStatusTx
unfoldable pub set_status : Time → TransactionStatus → String → Transaction → Transaction
unfolding is_processed
set_status now status failure_code x = record x {
  status = status;
  failure_code = failure_code;
  updated_at = now;
  processed_at = if is_processed status then some now else x.processed_at;
}

-- The SET clause of SetInternalReferenceTx
unfoldable pub set_reference : Time → String → Transaction → Transaction
set_reference now reference x = record x { internal_reference = reference; updated_at = now }

-- The SET clause of IncrementRefAttemptsTx
unfoldable pub count_attempt : Time → Transaction → Transaction
count_attempt now x = record x {
  ref_attempts = x.ref_attempts + 1;
  ref_next_attempt_at = some (now + backoff (x.ref_attempts + 1) * second);
  updated_at = now;
}

unfoldable pub scan_balance : Option Money → Currency → Result (Option Money)
scan_balance none currency = ok none
scan_balance (some m) currency = do
  b ← wrapping "parse result balance" (new_money m.amount currency)
  ok (some b)

-- scanTransaction: `pgx.ErrNoRows`, NewMoney for the two amounts, and RehydrateTransaction, which copies
-- the columns.
unfoldable pub scan_transaction : Option Transaction → Result Transaction
unfolding scan_balance
scan_transaction none = wager_err WagerError.transaction_not_found
scan_transaction (some x) = do
  bal ← wrapping "parse transaction amount" (new_money x.amount.amount x.amount.currency)
  rb ← scan_balance x.result_balance x.amount.currency
  ok (record x { amount = bal; result_balance = rb })
