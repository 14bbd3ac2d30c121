-- ===== src/Store/Events.antt =====
-- internal/domain/events.go: the events that the services write to the outbox. Their JSON is the
-- event itself; what can fail is the encoding of an amount.
use betting_processing_go.Prelude.{ℕ, String}
use betting_processing_go.Prelude.Int.{ℤ}
use betting_processing_go.Errors.{Result, ok, ◌>>=◌}
use betting_processing_go.Money.{Money, marshal_json}
use betting_processing_go.Wallet.{Time}

pub record WagerTransactionProcessedData : Type 0 where
  pub transaction_id : String
  pub external_id : String
  pub provider_id : String
  pub player_id : String
  pub wallet_id : String
  pub round_id : String
  pub game_id : String
  pub kind : String
  pub money : Money
  pub reference_ext_id : String
  pub status : String
  pub failure_code : String

pub record WagerTransactionRejectedData : Type 0 where
  pub transaction_id : String
  pub external_id : String
  pub provider_id : String
  pub player_id : String
  pub wallet_id : String
  pub kind : String
  pub money : Money
  pub failure_code : String

pub record WalletBalanceChangedData : Type 0 where
  pub wallet_id : String
  pub transaction_id : String
  pub direction : String
  pub money : Money
  pub balance_before : Money
  pub balance_after : Money
  pub wallet_version : ℤ

pub record WagerTransactionPendingReferenceData : Type 0 where
  pub transaction_id : String
  pub external_id : String
  pub provider_id : String
  pub reference_ext_id : String
  pub player_id : String
  pub wallet_id : String
  pub kind : String

-- The values that the field `Data` takes.
pub data EventData : Type 0 where
  processed_data : WagerTransactionProcessedData → EventData
  rejected_data : WagerTransactionRejectedData → EventData
  balance_changed_data : WalletBalanceChangedData → EventData
  pending_reference_data : WagerTransactionPendingReferenceData → EventData

pub record Event : Type 0 where
  pub event_id : String
  pub event_type : String
  pub aggregate_type : String
  pub aggregate_id : String
  pub correlation_id : String
  pub causation_id : String
  pub occurred_at : Time
  pub version : ℕ
  pub data_ : EventData

-- json.Marshal of an event fails where MarshalJSON refuses one of its amounts.
unfoldable pub marshal_data : EventData → Result (Unit {0})
marshal_data (EventData.processed_data d) = do _ ← marshal_json d.money; ok tt
marshal_data (EventData.rejected_data d) = do _ ← marshal_json d.money; ok tt
marshal_data (EventData.balance_changed_data d) = do
  _ ← marshal_json d.money
  _ ← marshal_json d.balance_before
  _ ← marshal_json d.balance_after
  ok tt
marshal_data (EventData.pending_reference_data d) = ok tt

unfoldable pub marshal_event : Event → Result Event
unfolding marshal_data
marshal_event e = do _ ← marshal_data e.data_; ok e
