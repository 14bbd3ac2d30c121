-- ===== src/Wager/Construction.antt =====
-- What NewExternalTransaction accepts and makes.
use betting_processing_go.Prelude.{◌≡◌, ◌≢◌, ◌↔◌, true, none, arith}
use betting_processing_go.Prelude.Text.{eq_iff}
use betting_processing_go.Prelude.Int.{ℤ, pos, ltb_ℤ}
use betting_processing_go.Errors.{Error, ok, err}
use betting_processing_go.Money.{Money, is_zero, is_negative}
use betting_processing_go.Wallet.{Time}
use betting_processing_go.Wager.Defs.{
  TransactionType, opening, bet, win, loss, refund, rollback, other_type, pending, external,
  Transaction, ExternalInput, valid_type, check_identifiers, check_kind, new_external_transaction,
}

-- The amount that a kind of transaction carries: zero for a loss, positive for the others.
abbrev pub IsAmountFor : TransactionType → ℤ → Type 0
IsAmountFor loss z = z ≡ pos 0
IsAmountFor opening z = ⊥
IsAmountFor (other_type s) z = ⊥
IsAmountFor _ z = ltb_ℤ (pos 0) z ≡ true

-- The input that NewExternalTransaction wants.
pub record IsAcceptable (i : ExternalInput) : Type 0 where
  pub provider : i.provider ≢ ""
  pub external_id : i.external_id ≢ ""
  pub idempotency_key : i.idempotency_key ≢ ""
  pub wallet_id : i.wallet_id ≢ ""
  pub player_id : i.player_id ≢ ""
  pub amount : IsAmountFor i.transaction_type i.amount.amount

check_identifiers_iff :
    (i : ExternalInput)
    → (check_identifiers i ≡ ok tt)
      ↔ (i.provider ≢ "")
        × (i.external_id ≢ "")
        × (i.idempotency_key ≢ "")
        × (i.wallet_id ≢ "")
        × (i.player_id ≢ "")
unfolding check_identifiers
check_identifiers_iff i = ground (
  arith,
  eq_iff i.provider "",
  eq_iff i.external_id "",
  eq_iff i.idempotency_key "",
  eq_iff i.wallet_id "",
  eq_iff i.player_id "",
)

check_kind_iff :
    (k : TransactionType) (m : Money) → (check_kind k m ≡ ok tt) ↔ IsAmountFor k m.amount
unfolding check_kind valid_type is_negative is_zero
check_kind_iff bet m = ground arith
check_kind_iff win m = ground arith
check_kind_iff loss m = ground arith
check_kind_iff refund m = ground arith
check_kind_iff rollback m = ground arith
check_kind_iff opening m = ground arith
check_kind_iff (other_type s) m = ground arith

-- What a new external transaction carries over from its input, and what it starts with.
pub record Carries (now : Time) (i : ExternalInput) (t : Transaction) : Type 0 where
  pub id : t.id ≡ i.id
  pub provider : t.provider ≡ i.provider
  pub external_id : t.external_id ≡ i.external_id
  pub payload_hash : t.payload_hash ≡ i.payload_hash
  pub player : t.player_id ≡ i.player_id
  pub round : t.round_id ≡ i.round_id
  pub game : t.game_id ≡ i.game_id
  pub kind : t.transaction_type ≡ i.transaction_type
  pub money : t.amount ≡ i.amount
  pub wallet : t.wallet_id ≡ i.wallet_id
  pub key : t.idempotency_key ≡ i.idempotency_key
  pub reference : t.external_reference ≡ i.external_reference
  pub fresh : (t.status ≡ pending) × (t.origin ≡ external) × (t.internal_reference ≡ "")
  pub blank : (t.failure_code ≡ "") × (t.ref_attempts ≡ 0) × (t.ref_next_attempt_at ≡ none)
  pub unpaid : t.result_balance ≡ none
  pub times : (t.created_at ≡ now) × (t.updated_at ≡ now)

-- NewExternalTransaction accepts only acceptable input, and the new transaction is pending, has each
-- field of the input in the field of its name, the current time as both of its times, no processing
-- time, no balance, no failure code and no attempts.
pub new_external_sound :
    (now : Time) (i : ExternalInput) {t : Transaction}
    → new_external_transaction now i ≡ ok t
    → IsAcceptable i × Carries now i t × (t.processed_at ≡ none)
unfolding new_external_transaction
new_external_sound now i {t} h =
    ground (arith, check_identifiers_iff i, check_kind_iff i.transaction_type i.amount)

-- Acceptable input is refused with no error.
pub new_external_complete :
    (now : Time) (i : ExternalInput) (e : Error)
    → IsAcceptable i
    → new_external_transaction now i ≢ err e
unfolding new_external_transaction
new_external_complete now i e h =
    let identified =
      (check_identifiers_iff i).1
        (h.provider, h.external_id, h.idempotency_key, h.wallet_id, h.player_id) in
    let fitting = (check_kind_iff i.transaction_type i.amount).1 h.amount in ground arith
