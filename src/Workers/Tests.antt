-- ===== src/Workers/Tests.antt =====
-- The theorems on the workers at concrete inputs.
use betting_processing_go.Prelude.{
  String, ◌≡◌, refl, Bool, false, ◌&&◌, any, [], ◌∷◌, none, some, All, if◌then◌else◌,
}
use betting_processing_go.Prelude.Text.{str_eq}
use betting_processing_go.Prelude.Int.{pos}
use betting_processing_go.Errors.{Error, ok, err}
use betting_processing_go.Wallet.Balance.{brl_of}
use betting_processing_go.Store.{
  World, OutboxRow, is_pending, pending_rows, first_events, insert_by_turn, scan_transaction,
  scan_balance, find_row, column_is,
}
use betting_processing_go.Money.{new_money}
use betting_processing_go.WagerService.{rejected_event, choose_key}
use betting_processing_go.WagerService.Sound.Statements.{Good}
use betting_processing_go.WagerService.Fixtures.{
  opened, opened-Good, late_fault, no_rows, start, plain, bet_of_three, stored_bet, after_bet,
}
use betting_processing_go.Workers.Messages.{
  Message, JobEnvelope, Decode, deleted, process_message, process_messages, aws_string_value,
  message_key,
}
use betting_processing_go.Workers.Outbox.{Outside, publish_event}
use betting_processing_go.Workers.Delivery.{process_messages-Good, process_message-redelivered}
use betting_processing_go.Workers.Publishing.{IsExhausted, publish_event-published}
use betting_processing_go.Workers.Starved.{publish_rounds, publish_rounds_starved}
use betting_processing_go.Prelude.{length, arith}

abbrev envelope : JobEnvelope
envelope = record {
  message_id = "m1";
  job_type = "wager";
  occurred_at = "2026-01-01T00:00:00Z";
  data_ = record bet_of_three { idempotency_key = "acme:x1" };
}

-- One body that can be decoded.
abbrev decode : Decode
decode body = if str_eq body "bet" then ok envelope else err (Error.external "invalid character")

abbrev bet_message : Message
bet_message = record { message_id = some "m1"; body = some "bet" }

abbrev torn_message : Message
torn_message = record { message_id = none; body = none }

abbrev stopped : String → Bool
stopped text = str_eq text "context canceled"

abbrev outside : Outside
outside = record { send = λ n event. ok tt; done = λ n. false; stopped = stopped }

process_messages-Good_example :
    Good
      (process_messages late_fault plain decode stopped outside.done
        (bet_message ∷ torn_message ∷ bet_message ∷ [])
        opened).committed
process_messages-Good_example =
    process_messages-Good late_fault plain decode stopped outside.done
      (bet_message ∷ torn_message ∷ bet_message ∷ []) opened opened-Good

decoded : decode (aws_string_value bet_message.body) ≡ ok envelope
unfolding aws_string_value
decoded = refl

found_again :
    scan_transaction (
      find_row
        (λ x.
          column_is x.provider envelope.data_.provider_id
          && column_is x.idempotency_key (choose_key envelope.data_ (message_key envelope.data_)))
        after_bet.committed.transactions)
    ≡ ok stored_bet
unfolding scan_transaction scan_balance new_money find_row column_is choose_key message_key
found_again = refl

process_message-redelivered_example :
    process_message late_fault plain decode stopped bet_message after_bet
    ≡ (deleted, record after_bet { calls = 8 })
process_message-redelivered_example =
    process_message-redelivered late_fault plain decode stopped bet_message envelope after_bet
      stored_bet (brl_of (pos 700)) decoded refl found_again refl

-- An event that was refused five times.
abbrev exhausted : OutboxRow
exhausted = record {
  id = "o1";
  aggregate_type = "WagerTransaction";
  aggregate_id = "t1";
  event_type = "WagerTransactionRejected";
  payload = rejected_event stored_bet "WALLET_ERROR";
  occurred_at = 1;
  published_at = none;
  attempts = 5;
  next_attempt_at = 1;
  last_error = "timeout";
}

abbrev fresh : OutboxRow
fresh = record exhausted { id = "o2"; attempts = 0 }

-- Ten events without attempts left, and one that has them.
abbrev stuck : World
stuck = record start {
  committed = record no_rows {
    outbox =
        exhausted
        ∷ exhausted
        ∷ exhausted
        ∷ exhausted
        ∷ exhausted
        ∷ exhausted
        ∷ exhausted
        ∷ exhausted
        ∷ exhausted
        ∷ exhausted
        ∷ record fresh { next_attempt_at = 7 }
        ∷ [];
  };
}

stuck-ten :
    length (first_events 10 (pending_rows (late_fault.now stuck.calls) stuck.committed.outbox)) ≡ 10
unfolding first_events pending_rows insert_by_turn is_pending
stuck-ten = refl

stuck-IsExhausted :
    All IsExhausted
      (first_events 10 (pending_rows (late_fault.now stuck.calls) stuck.committed.outbox))
unfolding first_events pending_rows insert_by_turn is_pending
stuck-IsExhausted =
    (refl, (refl, (refl, (refl, (refl, (refl, (refl, (refl, (refl, (refl, tt))))))))))

publish_rounds_starved_example :
    (publish_rounds 20 late_fault outside stuck).committed ≡ stuck.committed
publish_rounds_starved_example =
    publish_rounds_starved late_fault outside 20 stuck (λ i. omega arith) stuck-ten
      stuck-IsExhausted

publish_event-published_example :
    any
      (λ r. str_eq r.id "o2" && is_pending 99 r)
      (publish_event late_fault outside fresh (record start {
        committed = record no_rows { outbox = fresh ∷ exhausted ∷ [] };
      })).committed.outbox
    ≡ false
publish_event-published_example =
    publish_event-published late_fault outside fresh
      (record start { committed = record no_rows { outbox = fresh ∷ exhausted ∷ [] } }) 99 refl refl
      refl refl
