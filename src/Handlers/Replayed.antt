-- ===== src/Handlers/Replayed.antt =====
-- A POST of a wager transaction whose idempotency key is there already.
use betting_processing_go.Prelude.{true, if◌then◌else◌}
use betting_processing_go.Money.{Money}
use betting_processing_go.Wager.{Transaction}
use betting_processing_go.Handlers.Responses.{Reply, reply_of, failure, response_body, view_money}
use betting_processing_go.Handlers.Transactions.{is_waiting}

-- The reply to a request that is there already with another payload, and with the same and its balance.
abbrev pub conflict_reply : Reply
conflict_reply =
    reply_of 409 (failure "payload_conflict" "idempotency key reused with different payload")

abbrev pub replayed_reply : Transaction → Money → Reply
replayed_reply existing balance = reply_of (if is_waiting existing.status then 202 else 200) (
    response_body (record {
      transaction_id = existing.id;
      status = existing.status;
      balance = view_money balance;
      idempotent_replay = true;
    }))
