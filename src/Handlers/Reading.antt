-- ===== src/Handlers/Reading.antt =====
-- What the handlers keep, and the routes that only read.
use betting_processing_go.Prelude.{ℕ, String, ◌||◌, Option, none, some, []}
use betting_processing_go.Prelude.Text.{Text, str_eq}
use betting_processing_go.Prelude.Int.{ℤ}
use betting_processing_go.Errors.{Result, ok}
use betting_processing_go.Store.{
  Env, World, Tables, Reader, Action, lift, attempt, find_transaction, find_by_external_id, ◌>>=◌,
}
use betting_processing_go.Store.During.{
  Keeps, bind-During, map_err-During, lift-During, return-During, check-During, attempt-During,
  if-During, During-Keeps,
}
use betting_processing_go.Store.Throughout.{Throughout-During}
use betting_processing_go.WalletService.{get_wallet, get_ledger, ledger_limit, reconcile}
use betting_processing_go.WalletService.Books.{find_by_id-Keeps}
use betting_processing_go.WalletService.Pages.{find_by_wallet_id-Issued}
use betting_processing_go.WalletService.Reconciling.{count_entries-Keeps, sum_by_wallet_id-Keeps}
use betting_processing_go.WagerService.{Digest}
use betting_processing_go.WagerService.Sound.Reads.{
  query_transaction-Throughout, find_by_external_id-Throughout,
}
use betting_processing_go.Handlers.Responses.{
  Reply, write_json, unless_refused, is_blank, foreign_to,
}
use betting_processing_go.Handlers.Transactions.{
  WagerTransactionRequest, check_provider, get_transaction, get_by_external_id,
}
use betting_processing_go.Handlers.Wallets.{
  show_wallet, check_wallet, read_ledger, show_ledger, query_limit, run_reconciliation,
  reconcile_unless, post_reconciliation,
}
use betting_processing_go.Handlers.Serve.{
  Route, post_transactions, get_transactions, get_provider_transactions, post_wallets, get_wallets,
  get_wallets_ledger, post_wallets_reconciliation, reply_from, serve_route,
}

module _ (P : Tables → Type 0) where
  pub after_attempt-Keeps :
      {A B : Type 0} (m : Action A) (g : Result A → B) (w : World)
      → Keeps P (m w)
      → Keeps P ((attempt m >>= λ r. lift (ok (g r))) w)
  after_attempt-Keeps m g w h =
      bind-During P (λ _ _. Unit {0}) _ _ w (During-Keeps P (attempt-During P m w h))
        (λ r w1 h1 u. return-During P _ w1 h1 tt)

  pub reply_from-Keeps : (m : Action Reply) (w : World) → Keeps P (m w) → Keeps P (reply_from m w)
  unfolding reply_from
  reply_from-Keeps m w h =
      bind-During P (λ _ _. Unit {0}) _ _ w h (λ r w1 h1 u. return-During P _ w1 h1 tt)

  pub unless-Keeps :
      (o : Option Reply) (m : Action Reply) (w : World)
      → P w.committed
      → Keeps P (m w)
      → Keeps P (unless_refused o m w)
  unfolding unless_refused
  unless-Keeps (some r) m w h k = return-During P _ w h tt
  unless-Keeps none m w h k = k

  unless-Keeps' :
      (o : Option Reply) (m : Action (Option Reply)) (w : World)
      → P w.committed
      → Keeps P (m w)
      → Keeps P (reconcile_unless o m w)
  unfolding reconcile_unless
  unless-Keeps' (some r) m w h k = return-During P _ w h tt
  unless-Keeps' none m w h k = k

module _ (P : Tables → Type 0) (env : Env) where
  get_wallet-Keeps : (id : String) (w : World) → P w.committed → Keeps P (get_wallet env id w)
  unfolding get_wallet
  get_wallet-Keeps id w h = check-During P _ _ w h (find_by_id-Keeps P env id w h)

  find_transaction-Keeps :
      (id : String) (w : World) → P w.committed → Keeps P (find_transaction env id w)
  unfolding find_transaction
  find_transaction-Keeps id w h = During-Keeps P (
      Throughout-During P (λ t. Unit {0})
        (query_transaction-Throughout P (λ t. Unit {0}) env _ w h tt))

  find_by_external_id-Keeps :
      (p id : String) (w : World) → P w.committed → Keeps P (find_by_external_id env p id w)
  find_by_external_id-Keeps p id w h = During-Keeps P (
      Throughout-During P (λ t. Unit {0})
        (find_by_external_id-Throughout P (λ t. Unit {0}) env p id w h tt))

  get_ledger-Keeps :
      (R : Reader) (id : String) (cursor : Text) (limit : ℤ) (w : World)
      → P w.committed
      → Keeps P (get_ledger env R id cursor limit w)
  unfolding get_ledger
  get_ledger-Keeps R id cursor limit w h =
      check-During P _ _ w h
        (During-Keeps P (find_by_wallet_id-Issued P env R id cursor (ledger_limit limit) w h))

  reconcile-Keeps :
      (fuel : ℕ) (R : Reader) (id : String) (w : World)
      → P w.committed
      → Keeps P (reconcile fuel env R id w)
  unfolding reconcile
  reconcile-Keeps fuel R id w h = check-During P _ _ w h (
      bind-During P (λ _ _. Unit {0}) _ _ w (find_by_id-Keeps P env id w h)
        (λ wallet w1 h1 u.
          bind-During P (λ _ _. Unit {0}) _ _ w1
            (map_err-During P _ _ w1 (sum_by_wallet_id-Keeps P env id w1 h1))
            (λ sum w2 h2 u.
              bind-During P (λ _ _. Unit {0}) _ _ w2
                (count_entries-Keeps P env R id fuel 0 [] w2 h2)
                (λ o w3 h3 u. lift-During P _ w3 h3 (λ a e. tt)))))

  check_wallet-Keeps :
      (provider : Option String) (id : String) (w : World)
      → P w.committed
      → Keeps P (check_wallet env provider id w)
  unfolding check_wallet
  check_wallet-Keeps none id w h = return-During P _ w h tt
  check_wallet-Keeps (some p) id w h = after_attempt-Keeps P _ _ w (get_wallet-Keeps id w h)

  pub check_provider-Keeps :
      (provider : Option String) (req : WagerTransactionRequest) (w : World)
      → P w.committed
      → Keeps P (check_provider env provider req w)
  unfolding check_provider
  check_provider-Keeps none req w h = return-During P _ w h tt
  check_provider-Keeps (some p) req w h =
      if-During P (str_eq req.provider_id p) _ _ w
        (λ e. after_attempt-Keeps P _ _ w (get_wallet-Keeps req.wallet_id w h))
        (λ e. return-During P _ w h tt)

  -- The routes that only read.
  abbrev pub Reads : Route → Type 0
  Reads (post_transactions key body) = ⊥
  Reads (post_wallets body) = ⊥
  Reads _ = Unit

  pub Reads-Keeps :
      (fuel : ℕ) (R : Reader) (digest : Digest) (provider : Option String) (route : Route)
      (w : World)
      → Reads route
      → P w.committed
      → Keeps P (serve_route fuel env R digest provider route w)
  unfolding serve_route get_transaction get_by_external_id show_wallet show_ledger read_ledger
      post_reconciliation run_reconciliation write_json
  Reads-Keeps fuel R digest provider (get_transactions id) w r h = reply_from-Keeps P _ w (
      if-During P (is_blank id) _ _ w (λ e. return-During P _ w h tt)
        (λ e. after_attempt-Keeps P _ _ w (find_transaction-Keeps id w h)))
  Reads-Keeps fuel R digest provider (get_provider_transactions p id) w r h =
      reply_from-Keeps P _ w (
        if-During P (is_blank p || is_blank id) _ _ w (λ e. return-During P _ w h tt)
          (λ e.
            if-During P (foreign_to provider p) _ _ w (λ e. return-During P _ w h tt)
              (λ e. after_attempt-Keeps P _ _ w (find_by_external_id-Keeps p id w h))))
  Reads-Keeps fuel R digest provider (get_wallets id) w r h = reply_from-Keeps P _ w (
      if-During P (is_blank id) _ _ w (λ e. return-During P _ w h tt)
        (λ e. after_attempt-Keeps P _ _ w (get_wallet-Keeps id w h)))
  Reads-Keeps fuel R digest provider (get_wallets_ledger id cursor limit) w r h =
      reply_from-Keeps P _ w (
        if-During P (is_blank id) _ _ w (λ e. return-During P _ w h tt)
          (λ e.
            bind-During P (λ _ _. Unit {0}) _ _ w (check_wallet-Keeps provider id w h)
              (λ o w1 h1 u. unless-Keeps P o _ w1 h1 (
                after_attempt-Keeps P _ _ w1
                  (get_ledger-Keeps R id cursor (query_limit limit) w1 h1)))))
  Reads-Keeps fuel R digest provider (post_wallets_reconciliation id) w r h =
      if-During P (is_blank id) _ _ w (λ e. return-During P _ w h tt)
        (λ e.
          bind-During P (λ _ _. Unit {0}) _ _ w (check_wallet-Keeps provider id w h)
            (λ o w1 h1 u.
              unless-Keeps' P o _ w1 h1
                (after_attempt-Keeps P _ _ w1 (reconcile-Keeps fuel R id w1 h1))))
  Reads-Keeps fuel R digest provider (post_transactions key body) w r h = absurd r
  Reads-Keeps fuel R digest provider (post_wallets body) w r h = absurd r
