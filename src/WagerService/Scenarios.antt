-- ===== src/WagerService/Scenarios.antt =====
-- A run on an empty database: a bet, its refund, a second refund, a bet that is too large, and the first
-- bet once more.
use betting_processing_go.Prelude.{ℕ, zero, suc, String, ◌≡◌, refl, List, [], ◌∷◌, map, none}
use betting_processing_go.Wallet.Balance.{brl_of}
use betting_processing_go.Store.Reconciled.{stored, ledger_sum}
use betting_processing_go.Prelude.{false}
use betting_processing_go.Prelude.Int.{pos}
use betting_processing_go.Store.{Env, World, Tables}
use betting_processing_go.Wager.{processed, rejected}
use betting_processing_go.WagerService.Process.{Digest, Request}
use betting_processing_go.WagerService.Run.{Call, create, process}
use betting_processing_go.Prelude.Text.{str_append}
use betting_processing_go.Prelude.Text.{
  trim_space, trim_string_left, keep_char_unless_blank, trim_string_right, trim_string,
}
use betting_processing_go.Errors.{errors_is}
use betting_processing_go.Money.{
  zero_money, is_zero, is_negative, subtract, compare_money, text_eq, contains_any,
  starts_with_char, split, byte_len, is_digits, parse_uint, parse_money, marshal_json,
}
use betting_processing_go.Wallet.{
  rehydrate_wallet, can_debit, changed, debit_wallet, credit_wallet, new_ledger_entry,
}
use betting_processing_go.Wager.{
  to_type, valid_type, check_identifiers, check_kind, new_external_transaction, is_terminal,
  is_valid_transition, transition_to, set_failure_code, set_internal_reference, set_id,
  set_result_balance,
}
use betting_processing_go.Wager.Reference.{
  validate_reference, validate_reversal_value, map_wallet_error,
}
use betting_processing_go.Store.{
  marshal_event, wallet_check, insert_wallet, insert_ledger, find_row, load_wallet, update_row,
  update_wallets, known_status, kind_of_origin, is_opening_type, opening_columns, transaction_check,
  column_is, same_key, is_processed, is_reversal_type, reverses, same_reversal, same_opening,
  transaction_clash, insert_transaction, scan_transaction, ◌>>=◌, lift, map_err, pool_read,
  begin_tx, tx_exec, commit_tx, rollback_tx, attempt, or_else, read_clock, find_by_id,
  find_by_player, find_by_id_for_update, update_balance_tx, create_wallet_tx, create_opening_tx,
  create_ledger_entry_tx, create_outbox_event_tx, query_transaction, find_by_external_id,
  find_by_idempotency_key, has_successful_reversal, external_transaction_exists,
  create_transaction_tx, create_wallet_ledger_entry_tx, receive_message, record_received_tx,
  mark_completed_tx,
}
use betting_processing_go.WalletService.{
  build_wallet_created_events, book_opening, create_wallet, get_balance, move_balance,
  change_balance, apply_balance_change, service_debit, service_credit,
}
use betting_processing_go.WagerService.Events.{
  rejected_event, build_transaction_events, emit, emit_all,
}
use betting_processing_go.WagerService.Steps.{
  get_wallet_balance, commit_with_ledger, create_and_reject, reject, record_refusal, refuse_move,
  settle,
}
use betting_processing_go.WagerService.Kinds.{process_bet, process_refund}
use betting_processing_go.WagerService.Process.{process_transaction}
use betting_processing_go.WagerService.Run.{perform, run}
use betting_processing_go.Prelude.Int.{◌+ℤ◌, ◌-ℤ◌}
use betting_processing_go.Prelude.Int64.{wrap64, add64, sub64, neg64}

-- The id that the n-th call gives.
abbrev nth_id : ℕ → String
nth_id zero = "u"
nth_id (suc n) = str_append "x" (nth_id n)

abbrev calm : Env
calm = record { fault = λ n. none; uuid = nth_id; now = λ n. suc n; delivered = λ n. 0 }

abbrev no_rows : Tables
no_rows = record { wallets = []; transactions = []; ledger = []; outbox = []; inbox = [] }

abbrev start : World
start = record { committed = no_rows; current = no_rows; aborted = false; calls = 0 }

-- A stand-in for the digest.
abbrev plain : Digest
plain fields = "digest"

-- A request of one player in one round.
abbrev request : String → String → String → String → Request
request kind external_id amount reference = record {
  provider_id = "acme";
  external_transaction_id = external_id;
  player_id = "p1";
  wallet_id = "xxu";
  round_id = "r1";
  game_id = "g1";
  kind = kind;
  money = record { amount = amount; currency = "BRL" };
  reference_external_id = reference;
  idempotency_key = "";
}

abbrev calls : List Call
calls =
    create "acme" "p1" (brl_of (pos 1000))
    ∷ process (request "BET" "x1" "3.00" "") "" "m1"
    ∷ process (request "REFUND" "x2" "3.00" "x1") "" "m2"
    ∷ process (request "REFUND" "x3" "3.00" "x1") "" "m3"
    ∷ process (request "BET" "x4" "20" "") "" "m4"
    ∷ process (request "BET" "x1" "3.00" "") "" "m5"
    ∷ []

-- The last transaction comes first: the second refund and the large bet are refused, the repeated bet
-- adds nothing, and the wallet and its ledger are back at ten.
refund_once :
    let t = (run calm plain calls start).committed in
    (stored "xxu" t.wallets ≡ pos 1000)
    × (ledger_sum "xxu" t.ledger ≡ pos 1000)
    × (map (λ x. x.status) t.transactions
        ≡ rejected ∷ rejected ∷ processed ∷ processed ∷ processed ∷ [])
    × (map (λ x. x.failure_code) t.transactions
        ≡ "INSUFFICIENT_BALANCE" ∷ "DOUBLE_REVERSAL" ∷ "" ∷ "" ∷ "" ∷ [])
unfolding trim_space trim_string_left keep_char_unless_blank trim_string_right trim_string errors_is
    zero_money is_zero is_negative subtract compare_money text_eq contains_any starts_with_char
    split byte_len is_digits parse_uint parse_money marshal_json rehydrate_wallet can_debit changed
    debit_wallet credit_wallet new_ledger_entry to_type valid_type check_identifiers check_kind
    new_external_transaction is_terminal is_valid_transition transition_to set_failure_code
    set_internal_reference set_id set_result_balance validate_reference validate_reversal_value
    map_wallet_error marshal_event wallet_check insert_wallet insert_ledger find_row load_wallet
    update_row update_wallets known_status kind_of_origin is_opening_type opening_columns
    transaction_check column_is same_key is_processed is_reversal_type reverses same_reversal
    same_opening transaction_clash insert_transaction scan_transaction ◌>>=◌ lift map_err pool_read
    begin_tx tx_exec commit_tx rollback_tx attempt or_else read_clock find_by_id find_by_player
    find_by_id_for_update update_balance_tx create_wallet_tx create_opening_tx
    create_ledger_entry_tx create_outbox_event_tx query_transaction find_by_external_id
    find_by_idempotency_key has_successful_reversal external_transaction_exists
    create_transaction_tx create_wallet_ledger_entry_tx receive_message record_received_tx
    mark_completed_tx build_wallet_created_events book_opening create_wallet get_balance
    move_balance change_balance apply_balance_change service_debit service_credit rejected_event
    build_transaction_events emit emit_all get_wallet_balance commit_with_ledger create_and_reject
    reject record_refusal refuse_move settle process_bet process_refund process_transaction perform
    run ◌+ℤ◌ ◌-ℤ◌ wrap64 add64 sub64 neg64
refund_once = (refl, refl, refl, refl)
