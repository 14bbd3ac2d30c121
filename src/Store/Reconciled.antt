-- ===== src/Store/Reconciled.antt =====
-- The books balance: the balance that the wallets hold under an id is the sum of the ledger's entries
-- for it.
use betting_processing_go.Prelude.{String, ◌≡◌, List, [], ◌∷◌, arith, if◌then◌else◌}
use betting_processing_go.Prelude.Text.{str_eq}
use betting_processing_go.Prelude.Int.{ℤ, pos, ◌+ℤ◌}
use betting_processing_go.Errors.{ok}
use betting_processing_go.Wallet.EntryMath.{signed}
use betting_processing_go.Wager.{Transaction}
use betting_processing_go.Store.Schema.{WalletRow, LedgerRow, Tables}
use betting_processing_go.Store.TransactionRows.{insert_transaction}
use betting_processing_go.Store.Rows.{insert_wallet, insert_ledger}

-- An amount that counts for one id only.
abbrev pub at_id : String → String → ℤ → ℤ
at_id id j z = if str_eq id j then z else pos 0

abbrev pub stored : String → List WalletRow → ℤ
stored j [] = pos 0
stored j (r ∷ rs) = at_id r.id j r.balance +ℤ stored j rs

-- The sum that SumByWalletID asks for.
abbrev pub ledger_sum : String → List LedgerRow → ℤ
ledger_sum j [] = pos 0
ledger_sum j (e ∷ es) = at_id e.wallet_id j (signed e.direction e.amount) +ℤ ledger_sum j es

-- The wallet `id` holds `z` more than the ledger says; all other wallets agree with it.
pub record Owing (id : String) (z : ℤ) (t : Tables) : Type 0 where
  pub balance : (j : String) → stored j t.wallets ≡ at_id id j z +ℤ ledger_sum j t.ledger

pub record Reconciled (t : Tables) : Type 0 where
  pub balance : (j : String) → stored j t.wallets ≡ ledger_sum j t.ledger

pub insert_wallet-Owing :
    (r : WalletRow) (t t' : Tables) (id : String)
    → Reconciled t
    → insert_wallet r t ≡ ok (id, t')
    → (id ≡ r.id) × Owing id r.balance t'
unfolding insert_wallet
insert_wallet-Owing r t t' id h e =
    (ground arith, record { balance = λ j. ground (arith, h.balance j) })

pub insert_transaction-Owing :
    (x : Transaction) (t t' : Tables) (id j : String) (z : ℤ)
    → Owing j z t
    → insert_transaction x t ≡ ok (id, t')
    → Owing j z t'
unfolding insert_transaction
insert_transaction-Owing x t t' id j z h e = record { balance = λ i. ground (arith, h.balance i) }

pub insert_ledger-Reconciled :
    (e : LedgerRow) (t t' : Tables) (id : String)
    → Owing e.wallet_id (signed e.direction e.amount) t
    → insert_ledger e t ≡ ok (id, t')
    → Reconciled t'
unfolding insert_ledger
insert_ledger-Reconciled e t t' id h p = record { balance = λ j. ground (arith, h.balance j) }

pub insert_transaction-Reconciled :
    (x : Transaction) (t t' : Tables) (id : String)
    → Reconciled t
    → insert_transaction x t ≡ ok (id, t')
    → Reconciled t'
unfolding insert_transaction
insert_transaction-Reconciled x t t' id h e = record { balance = λ i. ground (arith, h.balance i) }
