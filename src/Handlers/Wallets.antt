-- ===== src/Handlers/Wallets.antt =====
-- wallet_handler.go.
use Prim.Native.Char.{Char, code}
use betting_processing_go.Prelude.{
  ◌-◌, ℕ, ◌^◌, String, Bool, true, false, Option, none, some, List, [], ◌∷◌, map, leb, ◌==◌,
  if◌then◌else◌,
}
use betting_processing_go.Prelude.Text.{Text, codes, str_eq}
use betting_processing_go.Prelude.Int.{ℤ, pos, ltb_ℤ, ◌-ℤ◌}
use betting_processing_go.Errors.{Error, Result, ok, err, WalletError, Sentinel, errors_is}
use betting_processing_go.ErrorTexts.{error_text}
use betting_processing_go.Money.{Money, parse_money, print_money, is_digits, parse_uint}
use betting_processing_go.Wallet.{Wallet, LedgerEntry}
use betting_processing_go.Store.{Env, Reader, Action, lift, attempt, ◌>>=◌}
use betting_processing_go.WalletService.{
  create_wallet, get_wallet, get_ledger, reconcile, ReconciliationResult,
}
use betting_processing_go.WagerService.{MoneyDto}
use betting_processing_go.Handlers.Responses.{
  failure, bare_failure, wallet_body, ledger_body, reconciliation_body, Reply, reply_of, write_json,
  view_money, is_blank, unless_refused, foreign_to, WalletView, EntryView, ReconciliationView,
}

pub record WalletCreateRequest : Type 0 where
  pub player_id : String
  pub initial_balance : MoneyDto

-- The letter that stands at the place of `c`.
unfoldable pub letter_at : String → String → Char → Char
letter_at String.[] others c = c
letter_at (String.◌∷◌ a s) String.[] c = c
letter_at (String.◌∷◌ a s) (String.◌∷◌ b t) c =
    let rest = letter_at s t c in if code a == code c then b else rest

-- strings.ToUpper. Letters beyond ASCII are left as they are: none has a letter of BRL as its upper case,
-- and ParseMoney asks for no more.
unfoldable pub to_upper : String → String
unfolding letter_at
to_upper String.[] = String.[]
to_upper (String.◌∷◌ c s) =
    String.◌∷◌ (letter_at "abcdefghijklmnopqrstuvwxyz" "ABCDEFGHIJKLMNOPQRSTUVWXYZ" c) (to_upper s)

-- The default currency, and ParseMoney.
unfoldable pub parse_initial : MoneyDto → Result Money
unfolding to_upper
parse_initial dto =
    parse_money (codes dto.amount)
      (to_upper (if str_eq dto.currency "" then "BRL" else dto.currency))

unfoldable pub view_wallet : Wallet → WalletView
view_wallet w = record {
  id = w.id;
  player_id = w.player_id;
  provider_id = w.provider_id;
  balance = record { amount = print_money w.balance; currency = w.currency };
  version = w.version;
}

unfoldable pub created_reply : Result Wallet → Reply
unfolding view_wallet
created_reply (ok w) = reply_of 201 (wallet_body (view_wallet w))
created_reply (err e) =
    if errors_is (Sentinel.wallet WalletError.duplicate_wallet) e
    then reply_of 409
        (failure "duplicate_wallet" "wallet already exists for this player, currency and provider")
    else reply_of 400 (failure "create_wallet_failed" (error_text e))

unfoldable pub create_parsed : Env → String → String → Result Money → Action Reply
unfolding created_reply
create_parsed env provider_id player_id (err e) = write_json 400 (
    failure "invalid_money"
      "initialBalance.amount must be a valid decimal with at most 2 decimal places")
create_parsed env provider_id player_id (ok initial_balance) = do
  created ← attempt (create_wallet env provider_id player_id initial_balance)
  lift (ok (created_reply created))

-- Create: the provider of the context and the decoded body, `none` where it is no JSON object.
unfoldable pub post_wallet : Env → Option String → Option WalletCreateRequest → Action Reply
unfolding create_parsed parse_initial
post_wallet env none body =
    write_json 403 (failure "missing_provider_id" "authenticated identity must have a provider_id")
post_wallet env (some provider_id) none =
    write_json 400 (failure "invalid_json" "body must be a valid JSON object")
post_wallet env (some provider_id) (some req) =
    if is_blank req.player_id
    then write_json 400 (failure "invalid_player_id" "playerId is required")
    else create_parsed env provider_id req.player_id (parse_initial req.initial_balance)

unfoldable pub wallet_failure : Error → Reply
wallet_failure e =
    if errors_is (Sentinel.wallet WalletError.wallet_not_found) e
    then reply_of 404 (bare_failure "wallet_not_found")
    else reply_of 500 (bare_failure "internal_error")

unfoldable pub wallet_mismatch : Reply
wallet_mismatch = reply_of 403 (failure "provider_mismatch" "wallet belongs to another provider")

unfoldable pub wallet_reply : Option String → Result Wallet → Reply
unfolding wallet_failure wallet_mismatch view_wallet
wallet_reply provider (err e) = wallet_failure e
wallet_reply provider (ok w) =
    if foreign_to provider w.provider_id
    then wallet_mismatch
    else reply_of 200 (wallet_body (view_wallet w))

-- Get
unfoldable pub show_wallet : Env → Option String → String → Action Reply
unfolding wallet_reply
show_wallet env provider wallet_id =
    if is_blank wallet_id
    then write_json 400 (bare_failure "invalid_wallet_id")
    else (do found ← attempt (get_wallet env wallet_id); lift (ok (wallet_reply provider found)))

unfoldable pub owner_refusal : String → Result Wallet → Option Reply
unfolding wallet_failure wallet_mismatch
owner_refusal provider_id (err e) = some (wallet_failure e)
owner_refusal provider_id (ok w) =
    if str_eq w.provider_id provider_id then none else some wallet_mismatch

-- What GetLedger and Reconcile do first.
unfoldable pub check_wallet : Env → Option String → String → Action (Option Reply)
unfolding owner_refusal
check_wallet env none wallet_id = lift (ok none)
check_wallet env (some provider_id) wallet_id = do
  found ← attempt (get_wallet env wallet_id)
  lift (ok (owner_refusal provider_id found))

-- strconv.Atoi; `none` is an error.
unfoldable pub within : ℕ → Option ℕ → Option ℕ
within bound none = none
within bound (some n) = if leb n bound then some n else none

unfoldable pub parse_digits : ℕ → Text → Option ℕ
unfolding within
parse_digits bound s = if is_digits s then within bound (parse_uint s) else none

unfoldable pub negated : Option ℕ → Option ℤ
negated none = none
negated (some n) = some (pos 0 -ℤ pos n)

unfoldable pub positive : Option ℕ → Option ℤ
positive none = none
positive (some n) = some (pos n)

unfoldable pub atoi : Text → Option ℤ
unfolding parse_digits negated positive
atoi [] = none
atoi (c ∷ s) =
    if c == b'-'
    then negated (parse_digits (2 ^ 63) s)
    else if c == b'+'
    then positive (parse_digits (2 ^ 63 - 1) s)
    else positive (parse_digits (2 ^ 63 - 1) (c ∷ s))

unfoldable pub positive_or : ℤ → Option ℤ → ℤ
positive_or other none = other
positive_or other (some v) = if ltb_ℤ (pos 0) v then v else other

unfoldable pub query_limit : Text → ℤ
unfolding atoi positive_or
query_limit raw = positive_or (pos 50) (atoi raw)

unfoldable pub view_entry : LedgerEntry → EntryView
view_entry e = record {
  id = e.id;
  wallet_id = e.wallet_id;
  transaction_id = e.transaction_id;
  direction = e.direction;
  amount = record { amount = print_money e.amount; currency = e.currency };
  balance_before = record { amount = print_money e.balance_before; currency = e.currency };
  balance_after = record { amount = print_money e.balance_after; currency = e.currency };
}

unfoldable pub has_more : Text → Bool
has_more [] = false
has_more (c ∷ s) = true

unfoldable pub ledger_reply : String → Result (List LedgerEntry × Text) → Reply
unfolding view_entry has_more
ledger_reply wallet_id (err e) = reply_of 500 (bare_failure "internal_error")
ledger_reply wallet_id (ok (entries, next)) = reply_of 200 (
    ledger_body (record {
      wallet_id = wallet_id;
      entries = map view_entry entries;
      next_cursor = next;
      has_more = has_more next;
    }))

unfoldable pub read_ledger : Env → Reader → String → Text → Text → Action Reply
unfolding ledger_reply query_limit
read_ledger env R wallet_id cursor limit = do
  page ← attempt (get_ledger env R wallet_id cursor (query_limit limit))
  lift (ok (ledger_reply wallet_id page))

-- GetLedger: the query's cursor and limit are the empty text where they are missing.
unfoldable pub show_ledger : Env → Reader → Option String → String → Text → Text → Action Reply
unfolding check_wallet read_ledger
show_ledger env R provider wallet_id cursor limit =
    if is_blank wallet_id then write_json 400 (bare_failure "invalid_wallet_id") else (do
      refusal ← check_wallet env provider wallet_id
      unless_refused refusal (read_ledger env R wallet_id cursor limit))

unfoldable pub view_reconciliation : ReconciliationResult → ReconciliationView
view_reconciliation r = record {
  wallet_id = r.wallet_id;
  stored_balance = view_money r.stored_balance;
  calculated_balance = view_money r.calculated_balance;
  difference = view_money r.difference;
  consistent = r.consistent;
  checked_entries = r.checked_entries;
}

-- `none` where the fuel of Reconcile ran out.
unfoldable pub reconciliation_reply : Result (Option ReconciliationResult) → Option Reply
unfolding wallet_failure view_reconciliation
reconciliation_reply (err e) = some (wallet_failure e)
reconciliation_reply (ok none) = none
reconciliation_reply (ok (some r)) =
    some (reply_of 200 (reconciliation_body (view_reconciliation r)))

unfoldable pub run_reconciliation : ℕ → Env → Reader → String → Action (Option Reply)
unfolding reconciliation_reply
run_reconciliation fuel env R wallet_id = do
  result ← attempt (reconcile fuel env R wallet_id)
  lift (ok (reconciliation_reply result))

unfoldable pub reconcile_unless : Option Reply → Action (Option Reply) → Action (Option Reply)
reconcile_unless (some reply) m = lift (ok (some reply))
reconcile_unless none m = m

-- Reconcile
unfoldable pub post_reconciliation :
    ℕ → Env → Reader → Option String → String → Action (Option Reply)
unfolding check_wallet run_reconciliation reconcile_unless
post_reconciliation fuel env R provider wallet_id =
    if is_blank wallet_id
    then lift (ok (some (reply_of 400 (bare_failure "invalid_wallet_id"))))
    else (do
      refusal ← check_wallet env provider wallet_id
      reconcile_unless refusal (run_reconciliation fuel env R wallet_id))
