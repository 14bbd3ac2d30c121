-- ===== src/Store/Schema.antt =====
-- The rows of the tables that the migrations create, and their constraints. A column that is NULL
-- holds the empty text. A table has no order, and an insert puts its row in front.
use betting_processing_go.Prelude.{ℕ, String, List, Option}
use betting_processing_go.Prelude.Int.{ℤ}
use betting_processing_go.Wallet.{Time, Direction}
use betting_processing_go.Wager.{Transaction}
use betting_processing_go.Store.Events.{Event}

-- wallets
pub record WalletRow : Type 0 where
  pub id : String
  pub player_id : String
  pub provider_id : String
  pub currency : String
  pub balance : ℤ
  pub version : ℤ
  pub created_at : Time
  pub updated_at : Time

-- wallet_ledger_entries
pub record LedgerRow : Type 0 where
  pub id : String
  pub wallet_id : String
  pub transaction_id : String
  pub direction : Direction
  pub amount : ℤ
  pub currency : String
  pub balance_before : ℤ
  pub balance_after : ℤ
  pub created_at : Time

-- outbox_events
pub record OutboxRow : Type 0 where
  pub id : String
  pub aggregate_type : String
  pub aggregate_id : String
  pub event_type : String
  pub payload : Event
  pub occurred_at : Time
  pub published_at : Option Time
  pub attempts : ℕ
  pub next_attempt_at : Time
  pub last_error : String

-- inbox_messages
pub record InboxRow : Type 0 where
  pub consumer_name : String
  pub message_id : String
  pub payload_hash : String
  pub received_at : Time
  pub completed_at : Option Time

pub record Tables : Type 0 where
  pub wallets : List WalletRow
  pub transactions : List Transaction
  pub ledger : List LedgerRow
  pub outbox : List OutboxRow
  pub inbox : List InboxRow
