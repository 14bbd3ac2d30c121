-- ===== src/Middleware/Guard.antt =====
-- authHandler of cmd/api/main.go: a route of the HTTP interface behind OIDCAuth. Each route that the handlers
-- register stands under one of the three prefixes that are guarded. A request whose token is being checked
-- while another's is, is taken after it.
use betting_processing_go.Prelude.{ℕ, Option, some, List, [], ◌∷◌}
use betting_processing_go.Prelude.Text.{Text}
use betting_processing_go.Errors.{Result, ok}
use betting_processing_go.Store.{Env, World, Reader, Action, lift}
use betting_processing_go.WagerService.{Digest}
use betting_processing_go.Handlers.{Reply, Route, serve, world_of}
use betting_processing_go.Middleware.Keys.{OidcConfig, KeyValidator, Moment}
use betting_processing_go.Middleware.Auth.{JwtLibrary, Decision, answer, pass, oidc_auth}

-- The Authorization header, the route, and what the validator meets.
pub record Exchange : Type 0 where
  pub header : Text
  pub route : Route
  pub moment : Moment

unfoldable pub serve_admitted : ℕ → Env → Reader → Digest → Route → Decision → Action (Option Reply)
serve_admitted fuel env R digest route (answer reply) = lift (ok (some reply))
serve_admitted fuel env R digest route (pass provider_id) =
    serve fuel env R digest (record { provider = some provider_id; route = route })

unfoldable pub secured :
    ℕ
    → OidcConfig
    → JwtLibrary
    → Env
    → Reader
    → Digest
    → Exchange
    → KeyValidator
    → World
    → (Result (Option Reply) × World) × KeyValidator
unfolding serve_admitted
secured fuel cfg J env R digest x kv w =
    let (decision, kv') = oidc_auth cfg J x.moment x.header kv in
    (serve_admitted fuel env R digest x.route decision w, kv')

-- What any number of requests leave.
unfoldable pub secured_all :
    ℕ
    → OidcConfig
    → JwtLibrary
    → Env
    → Reader
    → Digest
    → List Exchange
    → KeyValidator
    → World
    → KeyValidator × World
unfolding secured
secured_all fuel cfg J env R digest [] kv w = (kv, w)
secured_all fuel cfg J env R digest (x ∷ xs) kv w =
    let (p, kv') = secured fuel cfg J env R digest x kv w in
    secured_all fuel cfg J env R digest xs kv' (world_of p)
