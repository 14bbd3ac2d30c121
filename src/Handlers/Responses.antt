-- ===== src/Handlers/Responses.antt =====
-- response.go, and the values that the handlers write. The JSON encoder itself is not modelled: a body is
-- what the code hands to it. The identity that the middleware found is an argument, `none` where the
-- context has no provider.
use betting_processing_go.Prelude.{
  ℕ, String, Bool, true, false, Option, none, some, List, if◌then◌else◌,
}
use betting_processing_go.Prelude.Text.{Text, str_eq, trim_string}
use betting_processing_go.Prelude.Int.{ℤ}
use betting_processing_go.Errors.{ok}
use betting_processing_go.Money.{Money, Currency, print_money}
use betting_processing_go.Wallet.{Direction}
use betting_processing_go.Wager.{TransactionType, TransactionStatus, Origin}
use betting_processing_go.Store.{Action, lift}

-- MoneyDTO as it is written.
pub record MoneyView : Type 0 where
  pub amount : Text
  pub currency : Currency

unfoldable pub view_money : Money → MoneyView
view_money m = record { amount = print_money m; currency = m.currency }

-- The map of a transaction.
pub record TransactionView : Type 0 where
  pub id : String
  pub origin : Origin
  pub external_transaction_id : String
  pub provider_id : String
  pub wallet_id : String
  pub player_id : String
  pub round_id : String
  pub game_id : String
  pub kind : TransactionType
  pub amount : MoneyView
  pub external_reference_id : String
  pub internal_reference_id : String
  pub status : TransactionStatus
  pub failure_code : String

-- WagerTransactionResponse
pub record WagerTransactionResponse : Type 0 where
  pub transaction_id : String
  pub status : TransactionStatus
  pub balance : MoneyView
  pub idempotent_replay : Bool

-- The map of a wallet.
pub record WalletView : Type 0 where
  pub id : String
  pub player_id : String
  pub provider_id : String
  pub balance : MoneyView
  pub version : ℤ

-- EntryDTO
pub record EntryView : Type 0 where
  pub id : String
  pub wallet_id : String
  pub transaction_id : String
  pub direction : Direction
  pub amount : MoneyView
  pub balance_before : MoneyView
  pub balance_after : MoneyView

pub record LedgerView : Type 0 where
  pub wallet_id : String
  pub entries : List EntryView
  pub next_cursor : Text
  pub has_more : Bool

pub record ReconciliationView : Type 0 where
  pub wallet_id : String
  pub stored_balance : MoneyView
  pub calculated_balance : MoneyView
  pub difference : MoneyView
  pub consistent : Bool
  pub checked_entries : ℕ

-- The maps with an error, with a message and without, and the values above.
pub data Body : Type 0 where
  failure : String → String → Body
  bare_failure : String → Body
  response_body : WagerTransactionResponse → Body
  transaction_body : TransactionView → Body
  wallet_body : WalletView → Body
  ledger_body : LedgerView → Body
  reconciliation_body : ReconciliationView → Body

pub record Reply : Type 0 where
  pub status : ℕ
  pub body : Body

-- writeJSON
unfoldable pub write_json : ℕ → Body → Action Reply
write_json status body = lift (ok (record { status = status; body = body }))

-- `strings.TrimSpace(s) == ""`
unfoldable pub is_blank : String → Bool
is_blank s = str_eq (trim_string s) ""

abbrev pub reply_of : ℕ → Body → Reply
reply_of status body = record { status = status; body = body }

-- A refusal, or else what follows.
unfoldable pub unless_refused : Option Reply → Action Reply → Action Reply
unless_refused (some reply) m = lift (ok reply)
unless_refused none m = m

-- `if providerID, ok := GetProviderID(ctx); ok { if owner != providerID { … } }`
unfoldable pub foreign_to : Option String → String → Bool
foreign_to none owner = false
foreign_to (some provider_id) owner = if str_eq owner provider_id then false else true
