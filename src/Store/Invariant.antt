-- ===== src/Store/Invariant.antt =====
-- What the constraints of the tables and the types of their columns keep.
use betting_processing_go.Prelude.{
  String, ◌≡◌, refl, sym, subst, ◌∙◌, Bool, true, false, not, ◌&&◌, ◌||◌, inl, inr, some, List, [],
  ◌∷◌, map, any, All, arith, Bool-cases, if◌then◌else◌,
}
use betting_processing_go.Prelude.Text.{str_eq, eq_iff, trim_string}
use betting_processing_go.Prelude.Int.{ℤ, ◌-ℤ◌}
use betting_processing_go.Prelude.Int64.{IsInt64}
use betting_processing_go.Errors.{Result, ok}
use betting_processing_go.Wallet.{Time}
use betting_processing_go.Wallet.EntryMath.{signed}
use betting_processing_go.Wager.{Transaction}
use betting_processing_go.Store.Schema.{WalletRow, LedgerRow, OutboxRow, InboxRow, Tables}
use betting_processing_go.Store.Rows.{
  find_row, update_row, row_matches, set_balance, update_wallets, insert_wallet, insert_ledger,
  wallet_clash,
}
use betting_processing_go.Store.TransactionRows.{
  no_clash, transaction_clash, insert_transaction, update_transaction, set_row,
}
use betting_processing_go.Store.Reconciled.{
  Owing, Reconciled, insert_wallet-Owing, insert_transaction-Owing, insert_ledger-Reconciled,
}
use betting_processing_go.Store.Update.{Keyed, update_wallets-Owing}
pub mod Wallets
pub mod Transactions
pub mod Once

-- Keys are unique: wallets by id, transactions by their primary key and the three unique indexes. What
-- the BIGINT columns hold is an int64.
pub record Formed (t : Tables) : Type 0 where
  pub keyed : Keyed t.wallets
  pub distinct : no_clash t.transactions ≡ true
  pub amounts : All (λ x. IsInt64 x.amount.amount) t.transactions
