-- ===== src/Handlers/Invariant.antt =====
-- The invariant of the database over requests.
use betting_processing_go.Prelude.{
  ℕ, refl, sym, subst, String, not, ◌||◌, ◌&&◌, ◌≡◌, Option, none, some, List, [], ◌∷◌, arith,
}
use betting_processing_go.Prelude.Text.{codes, str_eq}
use betting_processing_go.Prelude.Int64.{IsInt64}
use betting_processing_go.Errors.{Result, ok, err}
use betting_processing_go.Money.{Money}
use betting_processing_go.Money.Accepted.{parse_money_sound}
use betting_processing_go.Store.{Env, World, Reader}
use betting_processing_go.Store.During.{
  Keeps, bind-During, return-During, if-During, committed-Keeps,
}
use betting_processing_go.Store.Frame.{Tidy, formed_frame}
use betting_processing_go.WalletService.Books.{create_wallet-Keeps}
use betting_processing_go.WagerService.{Digest, MoneyDto}
use betting_processing_go.WagerService.Sound.Statements.{Good}
use betting_processing_go.WagerService.Sound.Reads.{}
use betting_processing_go.WagerService.Sound.Process.{process_transaction-Keeps}
use betting_processing_go.Handlers.Responses.{write_json, is_blank}
use betting_processing_go.Handlers.Transactions.{
  WagerTransactionRequest, lacks_fields, submit, service_request, create_decoded,
  create_transaction,
}
use betting_processing_go.Handlers.Wallets.{
  WalletCreateRequest, parse_initial, create_parsed, post_wallet,
}
use betting_processing_go.Handlers.Serve.{
  HttpRequest, Route, post_transactions, get_transactions, get_provider_transactions, post_wallets,
  get_wallets, get_wallets_ledger, post_wallets_reconciliation, serve_route, serve, serve_all,
}
use betting_processing_go.Handlers.Reading.{
  after_attempt-Keeps, reply_from-Keeps, unless-Keeps, check_provider-Keeps, Reads-Keeps,
}

-- The request that creates a wallet has an int64 for its balance.
parse_initial-IsInt64 : (dto : MoneyDto) (m : Money) → parse_initial dto ≡ ok m → IsInt64 m.amount
unfolding parse_initial
parse_initial-IsInt64 dto m e =
    let (x, denotes, bound, c, same) = parse_money_sound (codes dto.amount) _ e in
    subst (λ k. IsInt64 k.amount) (sym same) (omega arith)

module _ (env : Env) (digest : Digest) where
  submit-Keeps :
      (key : String) (req : WagerTransactionRequest) (w : World)
      → Good w.committed
      → Keeps Good (submit env digest key req w)
  unfolding submit write_json
  submit-Keeps key req w h =
      if-During Good
        (not (str_eq req.kind "LOSS") && (is_blank req.money.amount || is_blank req.money.currency))
        _ _ w (λ e. return-During Good _ w h tt)
        (λ e.
          after_attempt-Keeps Good _ _ w
            (process_transaction-Keeps env digest (service_request req) key "" w h))

  create_decoded-Keeps :
      (key : String) (provider : Option String) (body : Option WagerTransactionRequest) (w : World)
      → Good w.committed
      → Keeps Good (create_decoded env digest key provider body w)
  unfolding create_decoded write_json
  create_decoded-Keeps key provider none w h = return-During Good _ w h tt
  create_decoded-Keeps key provider (some req) w h =
      if-During Good (lacks_fields req) _ _ w (λ e. return-During Good _ w h tt)
        (λ e.
          bind-During Good (λ _ _. Unit {0}) _ _ w (check_provider-Keeps Good env provider req w h)
            (λ o w1 h1 u. unless-Keeps Good o _ w1 h1 (submit-Keeps key req w1 h1)))

  create_transaction-Keeps :
      (key : String) (provider : Option String) (body : Option WagerTransactionRequest) (w : World)
      → Good w.committed
      → Keeps Good (create_transaction env digest key provider body w)
  unfolding create_transaction write_json
  create_transaction-Keeps key provider body w h =
      if-During Good (is_blank key) _ _ w (λ e. return-During Good _ w h tt)
        (λ e. create_decoded-Keeps key provider body w h)

module _ (env : Env) (tidy : Tidy formed_frame env) where
  create_parsed-Keeps :
      (p player_id : String) (r : Result Money) (w : World)
      → ((m : Money) → r ≡ ok m → IsInt64 m.amount)
      → Good w.committed
      → Keeps Good (create_parsed env p player_id r w)
  unfolding create_parsed write_json
  create_parsed-Keeps p player_id (err e) w k h = return-During Good _ w h tt
  create_parsed-Keeps p player_id (ok m) w k h =
      after_attempt-Keeps Good _ _ w
        (create_wallet-Keeps formed_frame env p player_id m w tidy (k m refl) h)

  post_wallet-Keeps :
      (provider : Option String) (body : Option WalletCreateRequest) (w : World)
      → Good w.committed
      → Keeps Good (post_wallet env provider body w)
  unfolding post_wallet write_json
  post_wallet-Keeps none body w h = return-During Good _ w h tt
  post_wallet-Keeps (some p) none w h = return-During Good _ w h tt
  post_wallet-Keeps (some p) (some req) w h =
      if-During Good (is_blank req.player_id) _ _ w (λ e. return-During Good _ w h tt)
        (λ e.
          create_parsed-Keeps p req.player_id (parse_initial req.initial_balance) w
            (parse_initial-IsInt64 req.initial_balance) h)

module _ (fuel : ℕ) (env : Env) (R : Reader) (digest : Digest) (tidy : Tidy formed_frame env) where
  serve_route-Keeps :
      (provider : Option String) (route : Route) (w : World)
      → Good w.committed
      → Keeps Good (serve_route fuel env R digest provider route w)
  unfolding serve_route
  serve_route-Keeps provider (post_transactions key body) w h =
      reply_from-Keeps Good _ w (create_transaction-Keeps env digest key provider body w h)
  serve_route-Keeps provider (post_wallets body) w h =
      reply_from-Keeps Good _ w (post_wallet-Keeps env tidy provider body w h)
  serve_route-Keeps provider (get_transactions id) w h =
      Reads-Keeps Good env fuel R digest provider (get_transactions id) w tt h
  serve_route-Keeps provider (get_provider_transactions p id) w h =
      Reads-Keeps Good env fuel R digest provider (get_provider_transactions p id) w tt h
  serve_route-Keeps provider (get_wallets id) w h =
      Reads-Keeps Good env fuel R digest provider (get_wallets id) w tt h
  serve_route-Keeps provider (get_wallets_ledger id cursor limit) w h =
      Reads-Keeps Good env fuel R digest provider (get_wallets_ledger id cursor limit) w tt h
  serve_route-Keeps provider (post_wallets_reconciliation id) w h =
      Reads-Keeps Good env fuel R digest provider (post_wallets_reconciliation id) w tt h

-- Whatever requests reach the HTTP interface, one after the other, with whatever bodies and identities,
-- and whatever the database does with each call: from tables whose books balance, whose keys are unique
-- and whose amounts are int64 they lead to such tables. The ids that are generated must have no spaces
-- around them.
pub serve_all-Good :
    (fuel : ℕ) (env : Env) (R : Reader) (digest : Digest) (requests : List HttpRequest) (w : World)
    → Tidy formed_frame env
    → Good w.committed
    → Good (serve_all fuel env R digest requests w).committed
unfolding serve_all serve
serve_all-Good fuel env R digest [] w tidy h = h
serve_all-Good fuel env R digest (q ∷ qs) w tidy h =
    serve_all-Good fuel env R digest qs _ tidy
      (committed-Keeps Good _ (serve_route-Keeps fuel env R digest tidy q.provider q.route w h))
