-- ===== src/Handlers/ShownLedger.antt =====
-- Whose entries a page of the ledger has, and what the replies of each route show.
use betting_processing_go.Prelude.{
  ℕ, ◌≡◌, refl, ◌∙◌, String, Bool, true, ◌&&◌, inl, inr, Option, none, some, List, [], ◌∷◌, All,
  map, arith, Bool-cases,
}
use betting_processing_go.Prelude.Text.{Text, str_eq, eq_iff}
use betting_processing_go.Errors.{
  Error, Result, ok, err, WagerError, WalletError, Sentinel, errors_is,
}
use betting_processing_go.Wallet.{Wallet}
use betting_processing_go.Store.{Env, World, Tables, Reader, Action}
use betting_processing_go.Store.During.{lift-During, map_err-During, if-During}
use betting_processing_go.WagerService.{Digest}
use betting_processing_go.Handlers.Responses.{Reply, write_json, is_blank}
use betting_processing_go.Handlers.Transactions.{}
use betting_processing_go.Handlers.Wallets.{
  view_entry, ledger_reply, read_ledger, show_ledger, reconciliation_reply, run_reconciliation,
  reconcile_unless, post_reconciliation,
}
use betting_processing_go.Handlers.Serve.{
  Route, post_transactions, get_transactions, get_provider_transactions, post_wallets, get_wallets,
  get_wallets_ledger, post_wallets_reconciliation, reply_from, serve_route,
}
use betting_processing_go.Handlers.Shown.{
  Shows, ShowsSome, Yields, anything, gives, then-Yields, attempt-Yields, wallet_failure-Shows,
  unless-Yields, choose-Yields, create-Yields, get_transaction-Yields, get_by_external_id-Yields,
}
use betting_processing_go.Prelude.{zero, suc, subst, take, length, ltb}
use betting_processing_go.Errors
use betting_processing_go.Prelude.Int.{ℤ, pos, pos_part, ltb_ℤ}
use betting_processing_go.Wallet.{Time, LedgerEntry, rehydrate_ledger_entry}
use betting_processing_go.Prelude.Int64.{add64}
use betting_processing_go.Store.{
  LedgerRow, page_size, after_point, load_entry, load_entries, insert_ordered, entry_before,
  ordered_rows, limit_rows, select_entries, cut_page, find_by_wallet_id, pool_query, rows_reply,
  Fault, refused, reply_lost,
}
use betting_processing_go.WalletService.{
  get_ledger, reconcile, compare_books, compare_counted, ReconciliationResult,
}
use betting_processing_go.Handlers.ShownWallets.{
  check_wallet-Yields, post_wallet-Yields, show_wallet-Yields,
}

module _ (id : String) where
  abbrev OfWallet : List LedgerRow → Type 0
  OfWallet rows = All (λ r. r.wallet_id ≡ id) rows

  abbrev Entries : List LedgerEntry → Type 0
  Entries es = All (λ e. e.wallet_id ≡ id) es

  insert-OfWallet :
      (R : Reader) (r : LedgerRow) (rows : List LedgerRow)
      → r.wallet_id ≡ id
      → OfWallet rows
      → OfWallet (insert_ordered R r rows)
  unfolding insert_ordered
  insert-OfWallet R r [] e a = (e, tt)
  insert-OfWallet R r (s ∷ ss) e (b, a) = elim (Bool-cases (entry_before R s r)) [
    | inl c ↦ rw c (b, insert-OfWallet R r ss e a)
    | inr c ↦ rw c (e, (b, a))
  ]

  ordered-OfWallet :
      (R : Reader) (p : LedgerRow → Bool) (rows : List LedgerRow)
      → ((r : LedgerRow) → p r ≡ true → r.wallet_id ≡ id)
      → OfWallet (ordered_rows R p rows)
  unfolding ordered_rows
  ordered-OfWallet R p [] k = tt
  ordered-OfWallet R p (r ∷ rows) k = elim (Bool-cases (p r)) [
    | inl c ↦ rw c (insert-OfWallet R r _ (k r c) (ordered-OfWallet R p rows k))
    | inr c ↦ rw c (ordered-OfWallet R p rows k)
  ]

  take-All : {A : Type 0} (Q : A → Type 0) (n : ℕ) (xs : List A) → All Q xs → All Q (take n xs)
  take-All Q zero xs a = tt
  take-All Q (suc n) [] a = tt
  take-All Q (suc n) (x ∷ xs) (h, a) = (h, take-All Q n xs a)

  limit-OfWallet : (n : ℤ) (rows : List LedgerRow) → OfWallet rows → OfWallet (limit_rows n rows)
  unfolding limit_rows
  limit-OfWallet n rows a = elim (Bool-cases (ltb_ℤ n (pos 0))) [
    | inl c ↦ rw c tt
    | inr c ↦ rw c (take-All _ (pos_part n) rows a)
  ]

  after_cast :
      (R : Reader) (time : Time) (n : ℤ) (t : Tables) (rows : List LedgerRow) (o : Result String)
      → Errors.◌>>=◌ o (λ u. ok (
          limit_rows n
            (ordered_rows R (λ r. str_eq r.wallet_id id && after_point R time u r) t.ledger)))
        ≡ ok rows
      → OfWallet rows
  after_cast R time n t rows (ok u) e = subst OfWallet (cc) (
      limit-OfWallet n _ (
        ordered-OfWallet R (λ r. str_eq r.wallet_id id && after_point R time u r) t.ledger
          (λ r b. ground (arith, eq_iff r.wallet_id id))))
  after_cast R time n t rows (err x) e = absurd (cc)

  select-OfWallet :
      (R : Reader) (point : Option (Time × Text)) (n : ℤ) (t : Tables) (rows : List LedgerRow)
      → select_entries R id point n t ≡ ok rows
      → OfWallet rows
  unfolding select_entries
  select-OfWallet R none n t rows e =
      subst OfWallet (cc)
        (limit-OfWallet n _ (ordered-OfWallet R _ t.ledger (λ r b. (eq_iff r.wallet_id id).0 b)))
  select-OfWallet R (some (time, text)) n t rows e =
      after_cast R time n t rows (R.parse_uuid text) e

  loaded_wallet :
      (r : LedgerRow) (x : LedgerEntry) → load_entry r ≡ ok x → x.wallet_id ≡ r.wallet_id
  unfolding load_entry rehydrate_ledger_entry
  loaded_wallet r x e = ground arith

  load_by :
      (o : Result LedgerEntry) (more : Result (List LedgerEntry)) (es : List LedgerEntry)
      → ((x : LedgerEntry) → o ≡ ok x → x.wallet_id ≡ id)
      → ((xs : List LedgerEntry) → more ≡ ok xs → Entries xs)
      → Errors.◌>>=◌ o (λ x. Errors.◌>>=◌ more (λ xs. ok (x ∷ xs))) ≡ ok es
      → Entries es
  load_by (ok x) (ok xs) es k l e = subst Entries {x = x ∷ xs} {y = es} (cc) (k x refl, l xs refl)
  load_by (ok x) (err f) es k l e = absurd (cc)
  load_by (err f) more es k l e = absurd (cc)

  load-Entries :
      (rows : List LedgerRow) (es : List LedgerEntry)
      → OfWallet rows
      → load_entries rows ≡ ok es
      → Entries es
  unfolding load_entries
  load-Entries [] es a e = subst Entries {x = []} {y = es} (cc) tt
  load-Entries (r ∷ rows) es (h, a) e =
      load_by (load_entry r) (load_entries rows) es (λ x l. loaded_wallet r x l ∙ h)
        (λ xs l. load-Entries rows xs a l) e

  cut-Entries :
      (R : Reader) (n : ℕ) (es : List LedgerEntry) → Entries es → Entries (cut_page R n es).0
  unfolding cut_page
  cut-Entries R n es a = elim (Bool-cases (ltb n (length es))) [
    | inl c ↦ rw c (take-All _ n es a)
    | inr c ↦ rw c a
  ]

  rows_reply-OfWallet :
      (fault : Option Fault) (n : ℕ) (o : Result (List LedgerRow)) (w : World)
      → ((rows : List LedgerRow) → o ≡ ok rows → OfWallet rows)
      → Yields OfWallet (rows_reply fault n o, w)
  unfolding rows_reply
  rows_reply-OfWallet none n (ok rows) w k = record { holds = (tt, k rows refl) }
  rows_reply-OfWallet none n (err e) w k = record { holds = tt }
  rows_reply-OfWallet (some (refused text)) n o w k = record { holds = tt }
  rows_reply-OfWallet (some (reply_lost text)) n (ok rows) w k = record {
    holds = (tt, take-All _ n rows (k rows refl));
  }
  rows_reply-OfWallet (some (reply_lost text)) n (err e) w k = record { holds = tt }

  module _ (env : Env) (R : Reader) where
    page-Entries :
        (cursor : Text) (limit : ℤ) (w : World)
        → Yields (λ page. Entries page.0) (find_by_wallet_id env R id cursor limit w)
    unfolding find_by_wallet_id pool_query
    page-Entries cursor limit w =
        then-Yields (λ _. Unit {0}) (λ page. Entries page.0) _ _ w (anything _)
          (λ point w1 _.
            then-Yields OfWallet (λ page. Entries page.0) _ _ w1
              (map_err-During (λ _. Unit {0}) _ _ w1
                (rows_reply-OfWallet (env.fault w1.calls) (R.delivered w1.calls)
                  (select_entries R id point (add64 (page_size limit) (pos 1)) w1.committed) _
                  (λ rows e. select-OfWallet R point _ w1.committed rows e)))
              (λ rows w2 a.
                then-Yields Entries (λ page. Entries page.0) _ _ w2
                  (lift-During (λ _. Unit {0}) _ w2 tt (λ es e. load-Entries rows es a e))
                  (λ es w3 b. gives (λ page. Entries page.0) _ w3 (cut-Entries R _ es b))))

  compared :
      (x : Wallet) (sum : ℤ) (n : ℕ) (r : ReconciliationResult)
      → compare_books id x sum n ≡ ok r
      → r.wallet_id ≡ id
  unfolding compare_books
  compared x sum n r e = ground arith

  abbrev Reported : Option ReconciliationResult → Type 0
  Reported none = Unit
  Reported (some r) = r.wallet_id ≡ id

  compared-Reported :
      (o : Result ReconciliationResult) (r : Option ReconciliationResult)
      → Errors.◌>>=◌ o (λ x. ok (some x)) ≡ ok r
      → ((x : ReconciliationResult) → o ≡ ok x → x.wallet_id ≡ id)
      → Reported r
  compared-Reported (ok x) r e k = subst Reported {x = some x} {y = r} (cc) (k x refl)
  compared-Reported (err f) r e k = absurd (cc)

  counted-Reported :
      (x : Wallet) (sum : ℤ) (n : Option ℕ) (r : Option ReconciliationResult)
      → compare_counted id x sum n ≡ ok r
      → Reported r
  unfolding compare_counted
  counted-Reported x sum none r e = subst Reported {x = none} {y = r} (cc) tt
  counted-Reported x sum (some n) r e =
      compared-Reported (compare_books id x sum n) r e (compared x sum n)

  reconcile-Reported :
      (fuel : ℕ) (env : Env) (R : Reader) (w : World) → Yields Reported (reconcile fuel env R id w)
  unfolding reconcile
  reconcile-Reported fuel env R w =
      then-Yields (λ _. Unit {0}) Reported _ _ w (anything _)
        (λ _ w1 _.
          then-Yields (λ _. Unit {0}) Reported _ _ w1 (anything _)
            (λ x w2 _.
              then-Yields (λ _. Unit {0}) Reported _ _ w2 (anything _)
                (λ sum w3 _.
                  then-Yields (λ _. Unit {0}) Reported _ _ w3 (anything _)
                    (λ n w4 _.
                      lift-During (λ _. Unit {0}) _ w4 tt (λ r e. counted-Reported x sum n r e)))))

  module _ (p : String) (env : Env) (R : Reader) where
    viewed : (es : List LedgerEntry) → Entries es → All (λ e. e.wallet_id ≡ id) (map view_entry es)
    unfolding view_entry
    viewed [] a = tt
    viewed (e ∷ es) (h, a) = (h, viewed es a)

    show_ledger-Yields :
        (cursor limit : Text) (w : World)
        → Yields (λ r. Shows p id r.body) (show_ledger env R (some p) id cursor limit w)
    unfolding show_ledger read_ledger write_json get_ledger ledger_reply
    show_ledger-Yields cursor limit w =
        choose-Yields p id (is_blank id) _ _ w (gives (λ r. Shows p id r.body) _ w tt) (
          then-Yields (ShowsSome p id) (λ r. Shows p id r.body) _ _ w
            (check_wallet-Yields p id env w)
            (λ o w1 s. unless-Yields p id o _ w1 s (
              attempt-Yields (λ page. Entries page.0) (λ r. Shows p id r.body) _ (ledger_reply id)
                w1
                (then-Yields (λ _. Unit {0}) (λ page. Entries page.0) _ _ w1 (anything _)
                  (λ _ w2 _. page-Entries env R cursor _ w2))
                (λ page a. (refl, viewed page.0 a)) (λ e. tt))))

    reconciliation_reply-Shows :
        (o : Option ReconciliationResult)
        → Reported o
        → ShowsSome p id (reconciliation_reply (ok o))
    unfolding reconciliation_reply
    reconciliation_reply-Shows none h = tt
    reconciliation_reply-Shows (some r) h = h

    reconcile_unless-Yields :
        (o : Option Reply) (m : Action (Option Reply)) (w : World)
        → ShowsSome p id o
        → Yields (ShowsSome p id) (m w)
        → Yields (ShowsSome p id) (reconcile_unless o m w)
    unfolding reconcile_unless
    reconcile_unless-Yields (some r) m w s h = gives (ShowsSome p id) (some r) w s
    reconcile_unless-Yields none m w s h = h

    post_reconciliation-Yields :
        (fuel : ℕ) (w : World)
        → Yields (ShowsSome p id) (post_reconciliation fuel env R (some p) id w)
    unfolding post_reconciliation run_reconciliation reconciliation_reply
    post_reconciliation-Yields fuel w =
        if-During (λ _. Unit {0}) (is_blank id) _ _ w (λ b. gives (ShowsSome p id) _ w tt)
          (λ b.
            then-Yields (ShowsSome p id) (ShowsSome p id) _ _ w (check_wallet-Yields p id env w)
              (λ o w1 s. reconcile_unless-Yields o _ w1 s (
                attempt-Yields Reported (ShowsSome p id) _ reconciliation_reply w1
                  (reconcile-Reported fuel env R w1) reconciliation_reply-Shows
                  (λ e. wallet_failure-Shows p id e))))

    reply_from-Yields :
        (m : Action Reply) (w : World)
        → Yields (λ r. Shows p id r.body) (m w)
        → Yields (ShowsSome p id) (reply_from m w)
    unfolding reply_from
    reply_from-Yields m w h =
        then-Yields (λ r. Shows p id r.body) (ShowsSome p id) _ _ w h
          (λ r w1 s. gives (ShowsSome p id) (some r) w1 s)

-- The wallet that the path names.
abbrev pub wallet_of_path : Route → String
wallet_of_path (get_wallets id) = id
wallet_of_path (get_wallets_ledger id cursor limit) = id
wallet_of_path (post_wallets_reconciliation id) = id
wallet_of_path _ = ""

pub serve_route-Shows :
    (fuel : ℕ) (env : Env) (R : Reader) (digest : Digest) (p : String) (route : Route) (w : World)
    → Yields (ShowsSome p (wallet_of_path route)) (serve_route fuel env R digest (some p) route w)
unfolding serve_route
serve_route-Shows fuel env R digest p (post_transactions key body) w =
    reply_from-Yields "" p env R _ w (create-Yields p "" env digest key body w)
serve_route-Shows fuel env R digest p (get_transactions id) w =
    reply_from-Yields "" p env R _ w (get_transaction-Yields p "" env id w)
serve_route-Shows fuel env R digest p (get_provider_transactions other id) w =
    reply_from-Yields "" p env R _ w (get_by_external_id-Yields p "" env other id w)
serve_route-Shows fuel env R digest p (post_wallets body) w =
    reply_from-Yields "" p env R _ w (post_wallet-Yields p "" env body w)
serve_route-Shows fuel env R digest p (get_wallets id) w =
    reply_from-Yields id p env R _ w (show_wallet-Yields p id env id w)
serve_route-Shows fuel env R digest p (get_wallets_ledger id cursor limit) w =
    reply_from-Yields id p env R _ w (show_ledger-Yields id p env R cursor limit w)
serve_route-Shows fuel env R digest p (post_wallets_reconciliation id) w =
    post_reconciliation-Yields id p env R fuel w
