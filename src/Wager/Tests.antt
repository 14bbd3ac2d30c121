-- ===== src/Wager/Tests.antt =====
-- Tests of transactions, and the theorems at concrete inputs.
use betting_processing_go.Prelude.{
  true, ◌+◌, ◌*◌, ◌^◌, ◌≡◌, ◌≢◌, ◌↔◌, refl, Option, none, some, List, [], ◌∷◌, ltb, if◌then◌else◌,
}
use betting_processing_go.Prelude.Int.{pos}
use betting_processing_go.Errors.{Error, ok, err, WagerError, Sentinel, wager_err, ◌>>◌}
use betting_processing_go.Money.{brl, is_zero, is_negative}
use betting_processing_go.Wallet.{Time}
use betting_processing_go.Wager.Defs.{
  bet, refund, TransactionStatus, pending, pending_reference, processed, rejected, Transaction,
  ExternalInput, external, new_external_transaction, check_identifiers, check_kind, valid_type,
  is_terminal, transition_to, is_valid_transition, increment_ref_attempts, second,
}
use betting_processing_go.Prelude.{◌⊎◌}
use betting_processing_go.Wager.{failed}
use betting_processing_go.Wager.Lifecycle.{
  Documented, ◌⟶◌, ◌⟶*◌, moved, attempts, IsTimed, transition_to-edge, attempts-⟶*,
  attempts_terminal, increment_ref_attempts-delay,
}
use betting_processing_go.Wager.Reference.{
  Reverses, Explains, map_validation_error, is_terminal_business_error, validate_reference,
  validate_reversal_value, reversal-Reverses, validate_reference-Explains,
}
use betting_processing_go.Wager.Construction.{
  IsAcceptable, Carries, new_external_sound, new_external_complete,
}

abbrev stake_input : ExternalInput
stake_input = record {
  id = "";
  provider = "acme";
  external_id = "x1";
  idempotency_key = "k1";
  payload_hash = "h1";
  wallet_id = "w1";
  player_id = "p1";
  round_id = "r1";
  game_id = "g1";
  transaction_type = bet;
  amount = record { amount = pos 300; currency = brl };
  external_reference = "";
}

abbrev stake : Transaction
stake = record {
  id = "";
  origin = external;
  external_id = "x1";
  provider = "acme";
  idempotency_key = "k1";
  payload_hash = "h1";
  wallet_id = "w1";
  player_id = "p1";
  round_id = "r1";
  game_id = "g1";
  transaction_type = bet;
  amount = record { amount = pos 300; currency = brl };
  external_reference = "";
  internal_reference = "";
  status = pending;
  failure_code = "";
  ref_attempts = 0;
  ref_next_attempt_at = none;
  result_balance = none;
  created_at = 5;
  updated_at = 5;
  processed_at = none;
}

new_stake : new_external_transaction 5 stake_input ≡ ok stake
unfolding new_external_transaction check_identifiers check_kind valid_type is_zero is_negative
new_stake = refl

new_external_sound_example :
    IsAcceptable stake_input × Carries 5 stake_input stake × (◌≡◌ {A = Option Time} none none)
new_external_sound_example = new_external_sound 5 stake_input new_stake

new_external_complete_example :
    new_external_transaction 5 stake_input
    ≢ err (Error.sentinel (Sentinel.wager WagerError.invalid_provider))
new_external_complete_example =
    new_external_complete 5 stake_input
      (Error.sentinel (Sentinel.wager WagerError.invalid_provider))
      (new_external_sound 5 stake_input new_stake).0

transition_to-edge_example :
    (pending ⟶ pending_reference
      → transition_to 7 pending_reference stake ≡ ok (moved 7 pending_reference stake))
    × (¬ (pending ⟶ pending_reference)
        → transition_to 7 pending_reference stake ≡ wager_err WagerError.invalid_state_transition)
    × (pending ⟶ pending_reference
        → Documented pending pending_reference ⊎ (pending_reference ≡ failed))
    × (Documented pending pending_reference → pending ⟶ pending_reference)
transition_to-edge_example = transition_to-edge 7 pending_reference stake

abbrev requests : List (Time × TransactionStatus)
requests = (6, pending_reference) ∷ (7, pending) ∷ (8, processed) ∷ (9, rejected) ∷ []

attempts-⟶*_example : pending ⟶* (attempts requests stake).status
attempts-⟶*_example = attempts-⟶* requests stake

-- The second and the fourth request are refused.
attempts-requests : (attempts requests stake).status ≡ processed
unfolding attempts transition_to is_terminal is_valid_transition
attempts-requests = refl

attempts_terminal_example : attempts requests (moved 6 processed stake) ≡ moved 6 processed stake
unfolding is_terminal
attempts_terminal_example = attempts_terminal requests (moved 6 processed stake) refl

stake-IsTimed : IsTimed stake
stake-IsTimed = record { has_time = λ e. absurd_status e; no_time = λ _. refl }
  where
    absurd_status : pending ≡ processed → ◌≡◌ {A = Option Time} none none → ⊥
    absurd_status e = cc

increment_ref_attempts-delay_example :
    ((increment_ref_attempts 5 stake).ref_attempts ≡ 0 + 1)
    × ((increment_ref_attempts 5 stake).ref_next_attempt_at
        ≡ some (5 + (if ltb 0 5 then 2 ^ (0 + 1) else 64) * second))
increment_ref_attempts-delay_example = increment_ref_attempts-delay 5 stake

-- The refund of the stake, and one that another provider asks for.
abbrev stake_back : Transaction
stake_back = record stake {
  external_id = "x2";
  transaction_type = refund;
  external_reference = "x1";
}

abbrev foreign_refund : Transaction
foreign_refund = record stake_back { provider = "other" }

reversal-Reverses_example :
    ((do validate_reference stake_back stake; validate_reversal_value stake_back.amount stake)
      ≡ ok tt)
    ↔ Reverses stake_back stake
reversal-Reverses_example = reversal-Reverses stake_back stake

foreign_refused : validate_reference foreign_refund stake ≡ wager_err WagerError.provider_mismatch
unfolding validate_reference
foreign_refused = refl

validate_reference-Explains_example :
    (is_terminal_business_error (Error.sentinel (Sentinel.wager WagerError.provider_mismatch))
      ≡ true)
    × Explains foreign_refund stake
        (map_validation_error (Error.sentinel (Sentinel.wager WagerError.provider_mismatch)))
validate_reference-Explains_example =
    validate_reference-Explains foreign_refund stake
      (Error.sentinel (Sentinel.wager WagerError.provider_mismatch)) foreign_refused
