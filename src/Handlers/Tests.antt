-- ===== src/Handlers/Tests.antt =====
-- Tests of the handlers, and the theorems at concrete inputs.
use betting_processing_go.Prelude.{ℕ, ◌≡◌, refl, false, none, some, [], ◌∷◌, arith}
use betting_processing_go.Prelude.Text.{Text, codes}
use betting_processing_go.Prelude.Int.{pos, ◌-ℤ◌}
use betting_processing_go.Errors.{Error, Result, ok, err}
use betting_processing_go.Money.{is_digits, all_digits, is_digit, parse_uint, parse_uint_from}
use betting_processing_go.Store.{Reader, colon}
use betting_processing_go.WalletService.Pages.{HasClock}
use betting_processing_go.WagerService.Fixtures.{
  late_fault, late_fault-Tidy, plain, opened, opened-Good,
}
use betting_processing_go.WagerService.Sound.Statements.{Good}
use betting_processing_go.Handlers.Transactions.{WagerTransactionRequest}
use betting_processing_go.Handlers.Wallets.{
  atoi, parse_digits, within, negated, positive, positive_or, query_limit, to_upper, letter_at,
}
use betting_processing_go.Handlers.Serve.{post_transactions, get_wallets, serve_all}
use betting_processing_go.Handlers.Invariant.{serve_all-Good}

abbrev parse_three : Text → Result ℕ
parse_three (a ∷ b ∷ c ∷ []) = ok c
parse_three s = err (Error.external "cannot parse")

abbrev reader : Reader
reader = record {
  format_time = λ t. b'T' ∷ colon ∷ t ∷ [];
  parse_time = parse_three;
  parse_uuid = λ s. ok "e1";
  id_before = λ a b. false;
  delivered = λ n. 1;
}

abbrev reader_clock : HasClock reader
reader_clock = record {
  head = λ t. b'T' ∷ [];
  rest = λ t. t ∷ [];
  written = λ t. refl;
  no_colon = λ t. (omega arith, tt);
  problem = λ t. Error.external "cannot parse";
  refused = λ t. refl;
}

limits :
    (query_limit (codes "25") ≡ pos 25)
    × (query_limit (codes "-3") ≡ pos 50)
    × (query_limit (codes "x") ≡ pos 50)
unfolding query_limit atoi parse_digits within negated positive positive_or is_digits all_digits
    is_digit parse_uint parse_uint_from ◌-ℤ◌
limits = (refl, refl, refl)

upper : to_upper "brl" ≡ "BRL"
unfolding to_upper letter_at
upper = refl

abbrev bet_request : WagerTransactionRequest
bet_request = record {
  provider_id = "acme";
  external_transaction_id = "x1";
  player_id = "p1";
  wallet_id = "a2";
  round_id = "r1";
  game_id = "g1";
  kind = "BET";
  money = record { amount = "3.00"; currency = "BRL" };
  reference_external_id = "";
}

serve_all-Good_example :
    Good
      (serve_all 2 late_fault reader plain
        (record { provider = some "acme"; route = post_transactions "k" (some bet_request) }
          ∷ record { provider = none; route = get_wallets "a2" }
          ∷ [])
        opened).committed
serve_all-Good_example =
    serve_all-Good 2 late_fault reader plain
      (record { provider = some "acme"; route = post_transactions "k" (some bet_request) }
        ∷ record { provider = none; route = get_wallets "a2" }
        ∷ [])
      opened late_fault-Tidy opened-Good
