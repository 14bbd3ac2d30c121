-- ===== src/Store/Frame.antt =====
-- A frame is a property of the tables that every statement keeps. The theorems on the services hold for
-- balanced books and any frame: the trivial one, or that keys are unique and balances are int64.
use betting_processing_go.Prelude.{ℕ, String, ◌≡◌, Bool, List}
use betting_processing_go.Prelude.Text.{trim_string}
use betting_processing_go.Prelude.Int.{ℤ}
use betting_processing_go.Prelude.Int64.{IsInt64}
use betting_processing_go.Errors.{ok}
use betting_processing_go.Wallet.{Time}
use betting_processing_go.Wager.{Transaction}
use betting_processing_go.Store.Schema.{WalletRow, LedgerRow, OutboxRow, InboxRow, Tables}
use betting_processing_go.Store.Rows.{insert_wallet, insert_ledger, update_wallets}
use betting_processing_go.Store.TransactionRows.{insert_transaction, update_transaction}
use betting_processing_go.Store.Session.{Env}
use betting_processing_go.Store.Reconciled.{Owing, Reconciled}
use betting_processing_go.Store.Invariant.{Formed}
use betting_processing_go.Store.Invariant.Wallets.{
  insert_wallet-Formed, insert_ledger-Formed, update_wallets-Formed,
}
use betting_processing_go.Store.Invariant.Transactions.{
  insert_transaction-Formed, update_transaction-Formed,
}

pub record Frame : Type 1 where
  pub Holds : Tables → Type 0
  -- The generated ids and the amounts that the frame wants.
  pub GoodId : String → Type 0
  pub Amount : ℤ → Type 0
  pub wallet :
      (r : WalletRow) (t t' : Tables) (id : String)
      → GoodId r.id
      → Amount r.balance
      → Holds t
      → insert_wallet r t ≡ ok (id, t')
      → Holds t'
  pub transaction :
      (x : Transaction) (t t' : Tables) (id : String)
      → Amount x.amount.amount
      → Holds t
      → insert_transaction x t ≡ ok (id, t')
      → Holds t'
  pub entry :
      (e : LedgerRow) (t t' : Tables) (id : String)
      → Holds t
      → insert_ledger e t ≡ ok (id, t')
      → Holds t'
  pub balance :
      (id : String) (b v : ℤ) (now : Time) (t t' : Tables) (found : Bool)
      → Amount b
      → Holds t
      → update_wallets id b v now t ≡ ok (found, t')
      → Holds t'
  pub status :
      (id : String) (f : Transaction → Transaction) (t t' : Tables)
      → ((x : Transaction) → (f x).amount ≡ x.amount)
      → Holds t
      → update_transaction id f t ≡ ok (tt, t')
      → Holds t'
  pub mail :
      (t : Tables) (outbox : List OutboxRow) (inbox : List InboxRow)
      → Holds t
      → Holds (record t { outbox = outbox; inbox = inbox })

abbrev pub trivial_frame : Frame
trivial_frame = record {
  Holds = λ t. Unit {0};
  GoodId = λ i. Unit {0};
  Amount = λ z. Unit {0};
  wallet = λ r t t' id i a h e. tt;
  transaction = λ x t t' id a h e. tt;
  entry = λ x t t' id h e. tt;
  balance = λ id b v now t t' found a h e. tt;
  status = λ id f t t' k h e. tt;
  mail = λ t outbox inbox h. tt;
}

abbrev pub formed_frame : Frame
formed_frame = record {
  Holds = Formed;
  GoodId = λ i. trim_string i ≡ i;
  Amount = IsInt64;
  wallet = insert_wallet-Formed;
  transaction = insert_transaction-Formed;
  entry = insert_ledger-Formed;
  balance = update_wallets-Formed;
  status = update_transaction-Formed;
  mail = λ t outbox inbox f. record { keyed = f.keyed; distinct = f.distinct; amounts = f.amounts };
}

-- The generated ids suit the frame.
pub record Tidy (F : Frame) (env : Env) : Type 0 where
  pub ids : (n : ℕ) → F.GoodId (env.uuid n)

-- The books balance, in the frame.
pub record Sound (F : Frame) (t : Tables) : Type 0 where
  pub reconciled : Reconciled t
  pub frame : F.Holds t

-- The wallet `id` holds `z` more than its ledger says, in the frame.
pub record Owed (F : Frame) (id : String) (z : ℤ) (t : Tables) : Type 0 where
  pub owing : Owing id z t
  pub frame : F.Holds t
