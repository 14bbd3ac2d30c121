-- ===== src/WalletService/Balanced.antt =====
-- Reconcile on books that balance.
use betting_processing_go.Prelude.{
  ℕ, zero, suc, ◌+◌, ◌≤◌, ◌<◌, ltb, ◌≡◌, ◌≢◌, refl, sym, subst, ap, ◌∙◌, String, true, false, none,
  some, List, [], ◌∷◌, length, take, arith,
}
use betting_processing_go.Prelude.Text.{str_eq, eq_iff}
use betting_processing_go.Prelude.Int.{pos, ◌+ℤ◌, -ℤ_parts}
use betting_processing_go.Prelude.Int64.{add64, wrap64}
use betting_processing_go.Errors.{Result, ok, err, ◌>>=◌}
use betting_processing_go.Money.{text_eq, brl, new_money, valid, is_zero}
use betting_processing_go.Money.Arithmetic.{subtract-exact}
use betting_processing_go.Wallet.{Wallet, LedgerEntry}
use betting_processing_go.Wallet.Balance.{IsValid, brl_of}
use betting_processing_go.Store.{
  Env, World, LedgerRow, WalletRow, Reader, find_row, load_wallet, load_entries, ordered_rows,
  limit_rows, cut_page, sum_entries,
}
use betting_processing_go.Store.{
  find_by_wallet_id, decode_cursor, pool_query, rows_reply, find_by_id, sum_by_wallet_id,
  select_entries, page_size, tick,
}
use betting_processing_go.Store.Runs.{bind_ok, map_err_ok, lift_ok, pool_read_ok}
use betting_processing_go.WalletService.Compare.{compare_books, compare_counted}
use betting_processing_go.WalletService.Ledger.{reconcile, count_entries, next_round}
use betting_processing_go.WalletService.Audit.{find_row-stored}
use betting_processing_go.Store.Reconciled.{Reconciled, ledger_sum}
use betting_processing_go.Store.Update.{Keyed, found_row, loaded}

cons_length :
    (x : Result LedgerEntry) (y : Result (List LedgerEntry)) (es : List LedgerEntry) (n : ℕ)
    → (x >>= λ entry. y >>= λ entries. ok (entry ∷ entries)) ≡ ok es
    → ((ys : List LedgerEntry) → y ≡ ok ys → length ys ≡ n)
    → length es ≡ suc n
cons_length (ok e) (ok ys) es n p h = ground (arith, h ys refl)
cons_length (ok e) (err x) es n p h = absurd (cc)
cons_length (err x) y es n p h = absurd (cc)

load_entries-length :
    (rows : List LedgerRow) (es : List LedgerEntry)
    → load_entries rows ≡ ok es
    → length es ≡ length rows
unfolding load_entries
load_entries-length [] es e = ground arith
load_entries-length (r ∷ rs) es e = cons_length _ _ es (length rs) e (load_entries-length rs)

take_all {ℓ} : {A : Type ℓ} (n : ℕ) (xs : List A) → length xs ≤ n → take n xs ≡ xs
take_all zero [] h = refl
take_all zero (x ∷ xs) h = absurd (omega arith)
take_all (suc n) [] h = refl
take_all (suc n) (x ∷ xs) h = ap (λ l. x ∷ l) (take_all n xs (omega arith))

compare_equal :
    (id : String) (w : Wallet) (checked : ℕ)
    → IsValid w
    → compare_books id w w.balance.amount checked
      ≡ ok (record {
        wallet_id = id;
        stored_balance = w.balance;
        calculated_balance = w.balance;
        difference = brl_of (pos 0);
        consistent = true;
        checked_entries = checked;
      })
unfolding compare_books new_money valid is_zero
compare_equal id w checked v = ground (
  arith,
  subtract-exact w.balance (brl_of w.balance.amount) v.balance_int64 v.balance_int64,
  eq_iff w.currency brl,
  -ℤ_parts w.balance.amount w.balance.amount,
)

module _ (env : Env) (R : Reader) (id : String) (w : World) (rows : List LedgerRow)
    (entries : List LedgerEntry) (calm : env.fault w.calls ≡ none)
    (selected : ordered_rows R (λ r. str_eq r.wallet_id id) w.committed.ledger ≡ rows)
    (small : length rows ≤ 1000) (readable : load_entries rows ≡ ok entries) where
  only_rows : pool_query env R (select_entries R id none (pos 1001)) w ≡ (ok rows, tick w)
  unfolding pool_query rows_reply select_entries limit_rows
  only_rows = rw (calm, selected) (rw (take_all 1001 rows (omega arith)))

  whole_page : cut_page R 1000 entries ≡ (entries, [])
  unfolding cut_page
  whole_page =
      let few : ltb 1000 (length entries) ≡ false =
        ground (arith, load_entries-length rows entries readable) in
      rw few

  only_page : find_by_wallet_id env R id [] (pos 1000) w ≡ (ok (entries, []), tick w)
  unfolding find_by_wallet_id decode_cursor page_size add64 wrap64 ◌+ℤ◌
  only_page = bind_ok _ _ w (lift_ok _ w refl) (
      bind_ok _ _ w (map_err_ok _ _ w only_rows) (
        bind_ok _ _ (tick w) (lift_ok _ (tick w) readable) (lift_ok _ (tick w) (ap ok whole_page))))

module _ (fuel : ℕ) (env : Env) (R : Reader) (id : String) (w : World) (row : WalletRow)
    (wallet : Wallet) (rows : List LedgerRow) (entries : List LedgerEntry)
    (calm : (n : ℕ) → n < 3 → env.fault (w.calls + n) ≡ none) (named : id ≢ "")
    (keyed : Keyed w.committed.wallets) (reconciled : Reconciled w.committed)
    (found : find_row (λ r. str_eq r.id id) w.committed.wallets ≡ some row)
    (loads : load_wallet (some row) ≡ ok wallet)
    (selected : ordered_rows R (λ r. str_eq r.wallet_id id) w.committed.ledger ≡ rows)
    (small : length rows ≤ 1000) (readable : load_entries rows ≡ ok entries) where
  valid_wallet : IsValid wallet
  valid_wallet =
      let (same_id, trimmed, int64) = found_row id w.committed.wallets row keyed found in
      let (a, b, c, v) = loaded row wallet int64 loads in v

  ledger_total : sum_entries id w.committed ≡ ok wallet.balance.amount
  unfolding sum_entries
  ledger_total =
      let (same_id, trimmed, int64) = found_row id w.committed.wallets row keyed found in
      let (a, b, c, v) = loaded row wallet int64 loads in
      let total : ledger_sum id w.committed.ledger ≡ wallet.balance.amount =
        sym (reconciled.balance id)
        ∙ find_row-stored id w.committed.wallets row keyed found
        ∙ sym c in
      let int64' = v.balance_int64 in rw total (ground arith)

  fine : (n m : ℕ) → n < 3 → w.calls + n ≡ m → env.fault m ≡ none
  fine n m h e = subst (λ k. env.fault k ≡ none) e (calm n h)

  -- Reconcile on books that balance gives a result, with fuel for a page, and reports them as consistent:
  -- both balances are the wallet's, the difference is zero, and every entry of the wallet was counted. The
  -- three calls of the database must not fail, the wallet and its entries must be readable, and there must
  -- be 1,000 of these at most.
  pub reconcile_balanced : reconcile (suc fuel) env R id w ≡ (
    ok (
        some (record {
          wallet_id = id;
          stored_balance = wallet.balance;
          calculated_balance = wallet.balance;
          difference = brl_of (pos 0);
          consistent = true;
          checked_entries = length rows;
        })),
    record w { calls = w.calls + 3 },
  )
  unfolding reconcile find_by_id sum_by_wallet_id compare_counted count_entries next_round text_eq
  reconcile_balanced = bind_ok _ _ w (lift_ok _ w (ground (arith, eq_iff id ""))) (
      bind_ok _ _ w
        (bind_ok _ _ w
          (map_err_ok _ _ w
            (pool_read_ok env _ w (fine 0 _ (omega arith) (omega arith)) (ap ok found)))
          (lift_ok _ (tick w) loads))
        (bind_ok _ _ (tick w)
          (map_err_ok _ _ (tick w) (
            map_err_ok _ _ (tick w)
              (pool_read_ok env _ (tick w) (fine 1 _ (omega arith) (omega arith)) ledger_total)))
          (bind_ok _ _ (tick (tick w)) {a = some (length entries)}
            (bind_ok _ _ (tick (tick w))
              (map_err_ok _ _ (tick (tick w)) (
                only_page env R id (tick (tick w)) rows entries
                  (fine 2 _ (omega arith) (omega arith)) selected small readable))
              (lift_ok _ (tick (tick (tick w))) (ap (λ (n : ℕ). ok (some n)) (omega arith))))
            (lift_ok _ (tick (tick (tick w))) (
                ap (λ x. x >>= λ r. ok (some r))
                  (compare_equal id wallet (length entries) (valid_wallet)))
              ∙ (ground (arith, load_entries-length rows entries readable))))))
