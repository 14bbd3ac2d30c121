-- ===== src/WagerService/Fixtures.antt =====
-- The data of the tests.
use betting_processing_go.Prelude.{
  arith, ℕ, zero, suc, String, ◌≡◌, refl, false, List, [], ◌∷◌, All, Option, none, some, ◌&&◌,
}
use betting_processing_go.Prelude.Text.{
  trim_string, trim_string_right, trim_string_left, keep_char_unless_blank, is_space,
}
use betting_processing_go.Prelude.Int.{pos}
use betting_processing_go.Money.{new_money}
use betting_processing_go.Wallet.Balance.{brl_of}
use betting_processing_go.Store.{
  Env, World, Tables, Fault, refused, no_clash, scan_transaction, scan_balance, find_row, column_is,
}
use betting_processing_go.Store.Frame.{Tidy, formed_frame}
use betting_processing_go.Errors.{ok}
use betting_processing_go.Wager.{refund, pending_reference, Transaction, Origin, bet, processed}
use betting_processing_go.WagerService.Process.{Request, Digest, choose_key}
use betting_processing_go.WagerService.Run.{Call, create, process}
use betting_processing_go.WagerService.Sound.Statements.{Good}
use betting_processing_go.WagerService.Books.{run-Good}
use betting_processing_go.WagerService.Run.{run}
use betting_processing_go.WagerService.Books.{}

-- The ids in the order of the calls.
abbrev pub nth_of : List String → ℕ → String
nth_of [] n = "z"
nth_of (s ∷ ss) zero = s
nth_of (s ∷ ss) (suc n) = nth_of ss n

abbrev pub names : List String
names =
    "a0" ∷ "a1" ∷ "a2" ∷ "a3" ∷ "a4" ∷ "a5" ∷ "a6" ∷ "a7" ∷ "a8" ∷ "a9" ∷ "b0" ∷ "b1" ∷ "b2" ∷ "b3"
    ∷ "b4" ∷ "b5" ∷ "b6" ∷ "b7" ∷ "b8" ∷ "b9" ∷ []

nth_of-trimmed :
    (ss : List String)
    → All (λ s. trim_string s ≡ s) ss
    → (n : ℕ) → trim_string (nth_of ss n) ≡ nth_of ss n
unfolding trim_string trim_string_right trim_string_left keep_char_unless_blank is_space
nth_of-trimmed [] a n = refl
nth_of-trimmed (s ∷ ss) (a, rest) zero = a
nth_of-trimmed (s ∷ ss) (a, rest) (suc n) = nth_of-trimmed ss rest n

-- The call of this number fails.
abbrev pub fault_at : ℕ → ℕ → Option Fault
fault_at zero zero = some (refused "connection reset")
fault_at zero (suc n) = none
fault_at (suc k) zero = none
fault_at (suc k) (suc n) = fault_at k n

-- The hundredth call fails, so none of the calls here.
abbrev pub late_fault : Env
late_fault = record {
  fault = fault_at 100;
  uuid = nth_of names;
  now = λ n. suc n;
  delivered = λ n. 0;
}

pub late_fault-Tidy : Tidy formed_frame late_fault
unfolding trim_string trim_string_right trim_string_left keep_char_unless_blank is_space
late_fault-Tidy = record {
  ids = nth_of-trimmed names (
    refl,
    (
      refl,
      (
        refl,
        (
          refl,
          (
            refl,
            (
              refl,
              (
                refl,
                (
                  refl,
                  (
                    refl,
                    (
                      refl,
                      (
                        refl,
                        (refl, (refl, (refl, (refl, (refl, (refl, (refl, (refl, (refl, tt))))))))),
                      ),
                    ),
                  ),
                ),
              ),
            ),
          ),
        ),
      ),
    ),
  );
}

abbrev pub no_rows : Tables
no_rows = record { wallets = []; transactions = []; ledger = []; outbox = []; inbox = [] }

abbrev pub start : World
start = record { committed = no_rows; current = no_rows; aborted = false; calls = 0 }

pub start-Good : Good start.committed
unfolding no_clash
start-Good = record {
  reconciled = record { balance = λ j. refl };
  frame = record { keyed = tt; distinct = refl; amounts = tt };
}

-- A stand-in for the digest.
abbrev pub plain : Digest
plain fields = "digest"

abbrev pub bet_of_three : Request
bet_of_three = record {
  provider_id = "acme";
  external_transaction_id = "x1";
  player_id = "p1";
  wallet_id = "a2";
  round_id = "r1";
  game_id = "g1";
  kind = "BET";
  money = record { amount = "3.00"; currency = "BRL" };
  reference_external_id = "";
  idempotency_key = "";
}

abbrev pub open_and_bet : List Call
open_and_bet = create "acme" "p1" (brl_of (pos 1000)) ∷ process bet_of_three "" "m1" ∷ []

-- A wallet of ten has been opened.
abbrev pub opened : World
opened = run late_fault plain (create "acme" "p1" (brl_of (pos 1000)) ∷ []) start

pub opened-Good : Good opened.committed
opened-Good =
    run-Good late_fault plain (create "acme" "p1" (brl_of (pos 1000)) ∷ []) start late_fault-Tidy
      (omega arith, tt) start-Good

-- A stored bet of three.
abbrev pub stored_bet : Transaction
stored_bet = record {
  id = "t1";
  origin = Origin.external;
  external_id = "x1";
  provider = "acme";
  idempotency_key = "acme:x1";
  payload_hash = "digest";
  wallet_id = "a2";
  player_id = "p1";
  round_id = "r1";
  game_id = "g1";
  transaction_type = bet;
  amount = brl_of (pos 300);
  external_reference = "";
  internal_reference = "";
  status = processed;
  failure_code = "";
  ref_attempts = 0;
  ref_next_attempt_at = none;
  result_balance = some (brl_of (pos 700));
  created_at = 5;
  updated_at = 5;
  processed_at = some 5;
}

abbrev pub after_bet : World
after_bet = record {
  committed = record no_rows { transactions = stored_bet ∷ [] };
  current = no_rows;
  aborted = false;
  calls = 7;
}

pub found_bet :
    scan_transaction (
      find_row
        (λ x.
          column_is x.provider bet_of_three.provider_id
          && column_is x.idempotency_key (choose_key bet_of_three ""))
        after_bet.committed.transactions)
    ≡ ok stored_bet
unfolding scan_transaction scan_balance new_money find_row column_is choose_key
found_bet = refl

-- A refund whose reference has not come.
abbrev pub waiting_refund : World
waiting_refund = record start {
  committed = record no_rows {
    transactions =
        record stored_bet {
          transaction_type = refund;
          status = pending_reference;
          external_reference = "x0";
        }
        ∷ [];
  };
}

pub waiting_refund-Good : Good waiting_refund.committed
unfolding no_clash
waiting_refund-Good = record {
  reconciled = record { balance = λ j. refl };
  frame = record { keyed = tt; distinct = refl; amounts = (omega arith, tt) };
}
