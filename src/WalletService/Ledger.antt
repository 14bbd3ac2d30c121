-- ===== src/WalletService/Ledger.antt =====
-- service.go: GetLedger and Reconcile. The loop of Reconcile runs on fuel, one for each page; `none` says
-- that the fuel ran out. The counter of differences in the metrics is left out.
use betting_processing_go.Prelude.{
  ℕ, zero, suc, ◌+◌, String, ◌||◌, Option, none, some, [], length, if◌then◌else◌,
}
use betting_processing_go.Prelude.Text.{Text, str_eq}
use betting_processing_go.Prelude.Int.{ℤ, pos, ltb_ℤ}
use betting_processing_go.Errors.{Error, ok, WalletError, Sentinel, fail_if}
use betting_processing_go.Money.{text_eq}
use betting_processing_go.Wallet.{LedgerEntry}
use betting_processing_go.Store.{
  Env, Reader, Action, lift, map_err, find_by_id, find_by_wallet_id, sum_by_wallet_id, ◌>>=◌, ◌>>◌,
}
use betting_processing_go.Prelude.{List}
use betting_processing_go.WalletService.Compare.{ReconciliationResult, compare_counted}

-- `if limit <= 0 { limit = 100 }`
unfoldable pub ledger_limit : ℤ → ℤ
ledger_limit limit = if ltb_ℤ (pos 0) limit then limit else pos 100

unfoldable pub get_ledger : Env → Reader → String → Text → ℤ → Action (List LedgerEntry × Text)
unfolding ledger_limit
get_ledger env R wallet_id cursor limit = do
  lift (fail_if (str_eq wallet_id "") (Sentinel.wallet WalletError.invalid_wallet_id))
  find_by_wallet_id env R wallet_id cursor (ledger_limit limit)

-- The end of a round: `if nextCursor == "" || nextCursor == cursor { break }`
unfoldable pub next_round :
    (ℕ → Text → Action (Option ℕ)) → ℕ → Text → List LedgerEntry × Text → Action (Option ℕ)
unfolding text_eq
next_round go_on checked cursor (entries, next) =
    if text_eq next [] || text_eq next cursor
    then lift (ok (some (checked + length entries)))
    else go_on (checked + length entries) next

unfoldable pub count_entries : ℕ → Env → Reader → String → ℕ → Text → Action (Option ℕ)
unfolding next_round
count_entries zero env R wallet_id checked cursor = lift (ok none)
count_entries (suc fuel) env R wallet_id checked cursor = do
  page ←
      map_err (Error.wrap "read wallet ledger")
        (find_by_wallet_id env R wallet_id cursor (pos 1000))
  next_round (count_entries fuel env R wallet_id) checked cursor page

unfoldable pub reconcile : ℕ → Env → Reader → String → Action (Option ReconciliationResult)
unfolding count_entries compare_counted
reconcile fuel env R wallet_id = do
  lift (fail_if (str_eq wallet_id "") (Sentinel.wallet WalletError.invalid_wallet_id))
  w ← find_by_id env wallet_id
  sum ← map_err (Error.wrap "sum wallet ledger") (sum_by_wallet_id env wallet_id)
  counted ← count_entries fuel env R wallet_id 0 []
  lift (compare_counted wallet_id w sum counted)
