-- ===== src/WagerService/Tests.antt =====
-- The theorems on the wager service at concrete inputs.
use betting_processing_go.Prelude.{◌≡◌, ◌&&◌, refl, arith, ◌⊎◌, inl, inr}
use betting_processing_go.Prelude.Text.{}
use betting_processing_go.Prelude.Int.{pos}
use betting_processing_go.Wallet.Balance.{brl_of}
use betting_processing_go.Store.{scan_transaction, find_row, column_is}
use betting_processing_go.Store.Invariant.Once.{OneEach}
use betting_processing_go.Errors.{ok, WagerError, wager_err}
use betting_processing_go.WagerService.Replay.{
  replay_of, OtherPayload, SamePayload, process_transaction-replay,
}
use betting_processing_go.WagerService.Process.{choose_key, process_transaction}
use betting_processing_go.WagerService.Run.{run}
use betting_processing_go.WagerService.Sound.Statements.{Good}
use betting_processing_go.WagerService.Books.{run-Good, run-OneEach}
use betting_processing_go.WagerService.Fixtures.{
  late_fault, late_fault-Tidy, start, start-Good, plain, bet_of_three, open_and_bet, stored_bet,
  after_bet, found_bet,
}

run-Good_example : Good (run late_fault plain open_and_bet start).committed
run-Good_example =
    run-Good late_fault plain open_and_bet start late_fault-Tidy (omega arith, (tt, tt)) start-Good

run-OneEach_example : OneEach (run late_fault plain open_and_bet start).committed.transactions
run-OneEach_example =
    run-OneEach late_fault plain open_and_bet start late_fault-Tidy (omega arith, (tt, tt))
      start-Good

found_key :
    scan_transaction (
      find_row
        (λ x. column_is x.provider "acme" && column_is x.idempotency_key "acme:x1")
        after_bet.committed.transactions)
    ≡ ok stored_bet
unfolding choose_key
found_key = found_bet

process_transaction-replay_example :
    ((OtherPayload plain bet_of_three stored_bet
        × (process_transaction late_fault plain bet_of_three "" "m2" after_bet
            ≡ (wager_err WagerError.payload_conflict, record after_bet { calls = 8 })))
      ⊎ (SamePayload plain bet_of_three stored_bet
          × (process_transaction late_fault plain bet_of_three "" "m2" after_bet
              ≡ (ok (replay_of stored_bet (brl_of (pos 700))), record after_bet { calls = 8 }))))
    × (after_bet.committed ≡ after_bet.committed)
process_transaction-replay_example =
    process_transaction-replay late_fault plain bet_of_three "" "acme:x1" "m2" after_bet
      (record after_bet { calls = 8 }) stored_bet (brl_of (pos 700)) (inr (inr (refl, refl, refl)))
      refl found_key (inl (refl, refl))
