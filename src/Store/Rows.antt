-- ===== src/Store/Rows.antt =====
-- The constraints of the tables, and the statements as functions of the tables.
use betting_processing_go.Prelude.{
  String, Bool, true, false, not, ◌&&◌, ◌||◌, Option, none, some, List, [], ◌∷◌, map, any,
  if◌then◌else◌,
}
use betting_processing_go.Prelude.Text.{str_eq}
use betting_processing_go.Prelude.Int.{ℤ, pos, ltb_ℤ, eqb_ℤ, ◌+ℤ◌, ◌-ℤ◌}
use betting_processing_go.Prelude.Int64.{max_int64}
use betting_processing_go.Errors.{
  Error, Result, ok, err, WalletError, wallet_err, wrapping, ◌>>◌, ◌>>=◌,
}
use betting_processing_go.Money.{new_money}
use betting_processing_go.Wallet.{Wallet, Time, debit, credit, other_direction, rehydrate_wallet}
use betting_processing_go.Store.Schema.{WalletRow, LedgerRow, Tables}

-- A statement that breaks a constraint fails, with the driver's text.
abbrev pub require : Bool → String → Result (Unit {0})
require true text = ok tt
require false text = err (Error.external text)

abbrev pub unique_text : String
unique_text = "duplicate key value violates unique constraint"

abbrev pub check_text : String
check_text = "new row violates check constraint"

abbrev pub range_text : String
range_text = "bigint out of range"

abbrev pub reference_text : String
reference_text = "insert or update violates foreign key constraint"

-- The primary key, and wallets_player_id_currency_provider_id_key of migration 8.
unfoldable pub wallet_clash : WalletRow → WalletRow → Bool
wallet_clash r s =
    str_eq r.id s.id
    || (str_eq r.player_id s.player_id
        && (str_eq r.currency s.currency && str_eq r.provider_id s.provider_id))

-- wallets_balance_nonnegative_chk and wallets_version_chk. wallets_currency_chk holds of the only
-- currency that reaches the table.
unfoldable pub wallet_check : WalletRow → Bool
wallet_check r = not (ltb_ℤ r.balance (pos 0)) && not (ltb_ℤ r.version (pos 1))

unfoldable pub insert_wallet : WalletRow → Tables → Result (String × Tables)
insert_wallet r t = do
  require (wallet_check r) check_text
  require (not (any (wallet_clash r) t.wallets)) unique_text
  ok (r.id, record t { wallets = r ∷ t.wallets })

-- The index that `ON CONFLICT (player_id, currency, provider_id)` names.
unfoldable pub holder_clash : WalletRow → WalletRow → Bool
holder_clash r s =
    str_eq r.player_id s.player_id
    && (str_eq r.currency s.currency && str_eq r.provider_id s.provider_id)

-- `INSERT … ON CONFLICT … DO NOTHING`: a wallet that has the primary key only is still an error.
unfoldable pub insert_unless_held : WalletRow → Tables → Result (Unit {0} × Tables)
unfolding holder_clash insert_wallet
insert_unless_held r t = do
  require (wallet_check r) check_text
  if any (holder_clash r) t.wallets
      then ok (tt, t)
      else (do (id, t') ← insert_wallet r t; ok (tt, t'))

-- wallet_ledger_math_chk
unfoldable pub ledger_math : LedgerRow → Bool
ledger_math e = elim e.direction [
  | credit ↦ eqb_ℤ e.balance_after (e.balance_before +ℤ e.amount)
  | debit ↦ eqb_ℤ e.balance_after (e.balance_before -ℤ e.amount)
  | other_direction s ↦ false
]

-- wallet_ledger_amount_chk, wallet_ledger_balance_before_chk and wallet_ledger_balance_after_chk
unfoldable pub ledger_check : LedgerRow → Bool
unfolding ledger_math
ledger_check e =
    ltb_ℤ (pos 0) e.amount
    && (not (ltb_ℤ e.balance_before (pos 0))
        && (not (ltb_ℤ e.balance_after (pos 0)) && ledger_math e))

-- The primary key and wallet_ledger_wallet_transaction_uq
unfoldable pub ledger_clash : LedgerRow → LedgerRow → Bool
ledger_clash e f =
    str_eq e.id f.id || (str_eq e.wallet_id f.wallet_id && str_eq e.transaction_id f.transaction_id)

unfoldable pub insert_ledger : LedgerRow → Tables → Result (String × Tables)
unfolding ledger_check ledger_clash
insert_ledger e t = do
  require (ledger_check e) check_text
  require (not (any (ledger_clash e) t.ledger)) unique_text
  require (any (λ r. str_eq r.id e.wallet_id) t.wallets) reference_text
  require (any (λ x. str_eq x.id e.transaction_id) t.transactions) reference_text
  ok (e.id, record t { ledger = e ∷ t.ledger })

-- The row of a query that matches at most one row.
unfoldable pub find_row : {A : Type 0} → (A → Bool) → List A → Option A
find_row p [] = none
find_row p (x ∷ xs) = let rest = find_row p xs in if p x then some x else rest

-- What every finder does with its row: `pgx.ErrNoRows`, NewMoney, RehydrateWallet.
unfoldable pub load_wallet : Option WalletRow → Result Wallet
load_wallet none = wallet_err WalletError.wallet_not_found
load_wallet (some r) = do
  bal ← wrapping "parse wallet balance" (new_money r.balance r.currency)
  rehydrate_wallet (record {
    id = r.id;
    player_id = r.player_id;
    provider_id = r.provider_id;
    currency = r.currency;
    balance = bal;
    version = r.version;
    created_at = r.created_at;
    updated_at = r.updated_at;
  })

-- `WHERE id = $2 AND version = $3`
unfoldable pub row_matches : String → ℤ → WalletRow → Bool
row_matches id version r = str_eq r.id id && eqb_ℤ r.version version

-- `SET balance = $1, version = version + 1, updated_at = now()`
unfoldable pub set_balance : ℤ → Time → WalletRow → WalletRow
set_balance balance now r = record r {
  balance = balance;
  version = r.version +ℤ pos 1;
  updated_at = now;
}

unfoldable pub update_row : String → ℤ → ℤ → Time → WalletRow → WalletRow
unfolding row_matches set_balance
update_row id balance version now r =
    if row_matches id version r then set_balance balance now r else r

-- The update statement, which fails where the new version is no BIGINT, with the check on the new rows;
-- its count of rows is kept as whether there was one.
unfoldable pub update_wallets : String → ℤ → ℤ → Time → Tables → Result (Bool × Tables)
update_wallets id balance version now t = do
  require
      (not (any (λ r. row_matches id version r && ltb_ℤ max_int64 (r.version +ℤ pos 1)) t.wallets))
      range_text
  require
      (not (
        any (λ r. row_matches id version r && not (wallet_check (set_balance balance now r)))
          t.wallets))
      check_text
  ok (
    any (row_matches id version) t.wallets,
    record t { wallets = map (update_row id balance version now) t.wallets },
  )
