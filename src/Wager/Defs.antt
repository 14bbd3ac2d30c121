-- ===== src/Wager/Defs.antt =====
-- transaction.go. A method that changes the transaction returns the new one.
use betting_processing_go.Prelude.{
  ℕ, ◌+◌, ◌*◌, ◌^◌, min, String, Bool, true, false, not, ◌&&◌, ◌||◌, Option, none, some,
  if◌then◌else◌,
}
use betting_processing_go.Prelude.Text.{str_eq}
use betting_processing_go.Errors.{Result, ok, WagerError, Sentinel, fail_if, ◌>>◌}
use betting_processing_go.Money.{Money, is_zero, is_negative}
use betting_processing_go.Wallet.{Time}

-- Each of the three string types has its constants, and any other text.
pub data TransactionType : Type 0 where
  opening bet win loss refund rollback : TransactionType
  other_type : String → TransactionType

pub data TransactionStatus : Type 0 where
  pending pending_reference processed rejected failed : TransactionStatus
  other_status : String → TransactionStatus

pub data Origin : Type 0 where
  internal external : Origin
  other_origin : String → Origin

-- `TransactionType(s)`
unfoldable pub to_type : String → TransactionType
to_type s =
    if str_eq s "OPENING"
    then opening
    else if str_eq s "BET"
    then bet
    else if str_eq s "WIN"
    then win
    else if str_eq s "LOSS"
    then loss
    else if str_eq s "REFUND"
    then refund
    else if str_eq s "ROLLBACK"
    then rollback
    else other_type s

pub record Transaction : Type 0 where
  pub id : String
  pub origin : Origin
  pub external_id : String
  pub provider : String
  pub idempotency_key : String
  pub payload_hash : String
  pub wallet_id : String
  pub player_id : String
  pub round_id : String
  pub game_id : String
  pub transaction_type : TransactionType
  pub amount : Money
  pub external_reference : String
  pub internal_reference : String
  pub status : TransactionStatus
  pub failure_code : String
  pub ref_attempts : ℕ
  pub ref_next_attempt_at : Option Time
  pub result_balance : Option Money
  pub created_at : Time
  pub updated_at : Time
  pub processed_at : Option Time

-- `TransactionType.Valid`
unfoldable pub valid_type : TransactionType → Bool
valid_type bet = true
valid_type win = true
valid_type loss = true
valid_type refund = true
valid_type rollback = true
valid_type opening = false
valid_type (other_type s) = false

is_opening : TransactionType → Bool
is_opening opening = true
is_opening _ = false

is_loss : TransactionType → Bool
is_loss loss = true
is_loss _ = false

-- The parameters of NewExternalTransaction.
pub record ExternalInput : Type 0 where
  pub id : String
  pub provider : String
  pub external_id : String
  pub idempotency_key : String
  pub payload_hash : String
  pub wallet_id : String
  pub player_id : String
  pub round_id : String
  pub game_id : String
  pub transaction_type : TransactionType
  pub amount : Money
  pub external_reference : String

-- The five texts that must not be empty.
unfoldable pub check_identifiers : ExternalInput → Result (Unit {0})
check_identifiers i = do
  fail_if (str_eq i.provider "") (Sentinel.wager WagerError.invalid_provider)
  fail_if (str_eq i.external_id "") (Sentinel.wager WagerError.invalid_external_id)
  fail_if (str_eq i.idempotency_key "") (Sentinel.wager WagerError.invalid_idempotency_key)
  fail_if (str_eq i.wallet_id "") (Sentinel.wager WagerError.invalid_wallet_id)
  fail_if (str_eq i.player_id "") (Sentinel.wager WagerError.invalid_player_id)

-- The kind must be known and its amount positive, or zero for a loss.
unfoldable pub check_kind : TransactionType → Money → Result (Unit {0})
unfolding is_loss
check_kind kind amount = do
  fail_if (not (valid_type kind)) (Sentinel.wager WagerError.invalid_transaction_type)
  fail_if (not (is_loss kind) && (is_negative amount || is_zero amount))
      (Sentinel.wager WagerError.positive_amount_required)
  fail_if (is_loss kind && not (is_zero amount)) (Sentinel.wager WagerError.zero_amount_required)

unfoldable pub new_external_transaction : Time → ExternalInput → Result Transaction
unfolding is_opening
new_external_transaction now i = do
  fail_if (is_opening i.transaction_type) (Sentinel.wager WagerError.opening_rejected)
  check_identifiers i
  check_kind i.transaction_type i.amount
  ok (record {
    id = i.id;
    origin = external;
    external_id = i.external_id;
    provider = i.provider;
    idempotency_key = i.idempotency_key;
    payload_hash = i.payload_hash;
    wallet_id = i.wallet_id;
    player_id = i.player_id;
    round_id = i.round_id;
    game_id = i.game_id;
    transaction_type = i.transaction_type;
    amount = i.amount;
    external_reference = i.external_reference;
    internal_reference = "";
    status = pending;
    failure_code = "";
    ref_attempts = 0;
    ref_next_attempt_at = none;
    result_balance = none;
    created_at = now;
    updated_at = now;
    processed_at = none;
  })

unfoldable pub new_opening_transaction :
    Time → String → String → String → Money → Result Transaction
new_opening_transaction now id wallet_id player_id amount = do
  fail_if (str_eq id "") (Sentinel.wager WagerError.invalid_transaction_id)
  fail_if (str_eq wallet_id "") (Sentinel.wager WagerError.invalid_wallet_id)
  fail_if (str_eq player_id "") (Sentinel.wager WagerError.invalid_player_id)
  fail_if (is_negative amount) (Sentinel.wager WagerError.invalid_money)
  ok (record {
    id = id;
    origin = internal;
    external_id = "";
    provider = "";
    idempotency_key = "";
    payload_hash = "";
    wallet_id = wallet_id;
    player_id = player_id;
    round_id = "";
    game_id = "";
    transaction_type = opening;
    amount = amount;
    external_reference = "";
    internal_reference = "";
    status = processed;
    failure_code = "";
    ref_attempts = 0;
    ref_next_attempt_at = none;
    result_balance = none;
    created_at = now;
    updated_at = now;
    processed_at = some now;
  })

unfoldable pub is_terminal_status : TransactionStatus → Bool
is_terminal_status processed = true
is_terminal_status rejected = true
is_terminal_status failed = true
is_terminal_status pending = false
is_terminal_status pending_reference = false
is_terminal_status (other_status s) = false

-- `IsTerminal`
unfoldable pub is_terminal : Transaction → Bool
unfolding is_terminal_status
is_terminal t = is_terminal_status t.status

unfoldable pub is_valid_transition : TransactionStatus → TransactionStatus → Bool
is_valid_transition pending processed = true
is_valid_transition pending rejected = true
is_valid_transition pending failed = true
is_valid_transition pending pending_reference = true
is_valid_transition pending_reference processed = true
is_valid_transition pending_reference rejected = true
is_valid_transition pending_reference failed = true
is_valid_transition _ _ = false

unfoldable pub processed_time : Time → TransactionStatus → Option Time → Option Time
processed_time now processed old = some now
processed_time now _ old = old

unfoldable pub transition_to : Time → TransactionStatus → Transaction → Result Transaction
unfolding processed_time
transition_to now new_status t = do
  fail_if (is_terminal t) (Sentinel.wager WagerError.invalid_state_transition)
  fail_if (not (is_valid_transition t.status new_status))
      (Sentinel.wager WagerError.invalid_state_transition)
  ok (record t {
    status = new_status;
    updated_at = now;
    processed_at = processed_time now new_status t.processed_at;
  })

unfoldable pub set_failure_code : Time → String → Transaction → Transaction
set_failure_code now code t = record t { failure_code = code; updated_at = now }

unfoldable pub set_internal_reference : Time → String → Transaction → Transaction
set_internal_reference now ref t = record t { internal_reference = ref; updated_at = now }

unfoldable pub set_id : String → Transaction → Transaction
set_id id t = record t { id = id }

unfoldable pub set_result_balance : Money → Transaction → Transaction
set_result_balance b t = record t { result_balance = some b }

unfoldable pub set_ref_next_attempt_at : Option Time → Transaction → Transaction
set_ref_next_attempt_at at t = record t { ref_next_attempt_at = at }

-- `1 << min(attempts, 6)`, in seconds
unfoldable pub backoff : ℕ → ℕ
backoff attempts = 2 ^ min attempts 6

abbrev pub second : ℕ
second = 1_000_000_000

unfoldable pub increment_ref_attempts : Time → Transaction → Transaction
increment_ref_attempts now t =
    let attempts = t.ref_attempts + 1 in
    record t {
      ref_attempts = attempts;
      ref_next_attempt_at = some (now + backoff attempts * second);
      updated_at = now;
    }
