-- ===== src/Handlers/Serve.antt =====
-- RegisterRoutes of both handlers: one call of the HTTP interface, and any number of them.
use betting_processing_go.Prelude.{ℕ, String, Option, some, List, [], ◌∷◌}
use betting_processing_go.Prelude.Text.{Text}
use betting_processing_go.Errors.{Result, ok}
use betting_processing_go.Store.{Env, World, Reader, Action, lift, ◌>>=◌}
use betting_processing_go.WagerService.{Digest}
use betting_processing_go.Handlers.Responses.{Reply}
use betting_processing_go.Handlers.Transactions.{
  WagerTransactionRequest, create_transaction, get_transaction, get_by_external_id,
}
use betting_processing_go.Handlers.Wallets.{
  WalletCreateRequest, post_wallet, show_wallet, show_ledger, post_reconciliation,
}

-- The routes with their parameters: the header and the decoded body, the path, the query.
pub data Route : Type 0 where
  post_transactions : String → Option WagerTransactionRequest → Route
  get_transactions : String → Route
  get_provider_transactions : String → String → Route
  post_wallets : Option WalletCreateRequest → Route
  get_wallets : String → Route
  get_wallets_ledger : String → Text → Text → Route
  post_wallets_reconciliation : String → Route

-- A request with the provider of its context.
pub record HttpRequest : Type 0 where
  pub provider : Option String
  pub route : Route

unfoldable pub reply_from : Action Reply → Action (Option Reply)
reply_from m = do reply ← m; lift (ok (some reply))

-- The handler of a route. Reconcile has fuel for so many pages, and `none` says that it ran out.
unfoldable pub serve_route :
    ℕ → Env → Reader → Digest → Option String → Route → Action (Option Reply)
unfolding reply_from
serve_route fuel env R digest provider (post_transactions idempotency_key body) =
    reply_from (create_transaction env digest idempotency_key provider body)
serve_route fuel env R digest provider (get_transactions id) =
    reply_from (get_transaction env provider id)
serve_route fuel env R digest provider (get_provider_transactions provider_id external_id) =
    reply_from (get_by_external_id env provider provider_id external_id)
serve_route fuel env R digest provider (post_wallets body) =
    reply_from (post_wallet env provider body)
serve_route fuel env R digest provider (get_wallets wallet_id) =
    reply_from (show_wallet env provider wallet_id)
serve_route fuel env R digest provider (get_wallets_ledger wallet_id cursor limit) =
    reply_from (show_ledger env R provider wallet_id cursor limit)
serve_route fuel env R digest provider (post_wallets_reconciliation wallet_id) =
    post_reconciliation fuel env R provider wallet_id

unfoldable pub serve : ℕ → Env → Reader → Digest → HttpRequest → Action (Option Reply)
unfolding serve_route
serve fuel env R digest request = serve_route fuel env R digest request.provider request.route

abbrev pub world_of : {A : Type 0} → Result A × World → World
world_of (r, w) = w

-- What any number of requests leave, one after the other.
unfoldable pub serve_all : ℕ → Env → Reader → Digest → List HttpRequest → World → World
unfolding serve
serve_all fuel env R digest [] w = w
serve_all fuel env R digest (q ∷ qs) w =
    serve_all fuel env R digest qs (world_of (serve fuel env R digest q w))
