-- ===== src/Middleware/Secured.antt =====
-- Requests behind the middleware, and what they reach.
use betting_processing_go.Prelude.{ℕ, false, ◌≤◌, ◌≡◌, refl, String, ◌⊎◌}
use betting_processing_go.Prelude.Text.{Text, str_eq, trim_string}
use betting_processing_go.Store.{Env, World, Reader}
use betting_processing_go.WagerService.{Digest}
use betting_processing_go.Handlers.{Reply}
use betting_processing_go.Handlers.Isolation.{Allowed}
use betting_processing_go.Handlers.Shown.{Shows}
use betting_processing_go.Handlers.ShownLedger.{wallet_of_path}
use betting_processing_go.Middleware.Keys.{OidcConfig, Jwk, KeyValidator, Moment, algorithm_of}
use betting_processing_go.Middleware.Auth.{JwtLibrary, answer, oidc_auth, is_misconfigured}
use betting_processing_go.Middleware.Guard.{Exchange}
use betting_processing_go.Middleware.Validator.{Answered}
use betting_processing_go.Middleware.Admitted.{IsAdmitted, IsRefusal}

module _ (P : Jwk → Type 0) (fuel : ℕ) (cfg : OidcConfig) (J : JwtLibrary) (env : Env) (R : Reader)
    (digest : Digest) where
  -- What the endpoint answers in an exchange is published.
  abbrev pub HasAnswer : Exchange → Type 0
  HasAnswer x = Answered P (algorithm_of cfg) x.moment.answer

  -- What the reply to a request tells: who is behind it and what it shows, or that the middleware refused.
  abbrev pub Outcome : Exchange → World → World → Reply → Type 0
  Outcome x w w' reply =
      ((provider_id : String) × IsAdmitted P (algorithm_of cfg) J x.moment.now x.header provider_id
        × (Allowed w.committed provider_id x.route
            ⊎ ((300 ≤ reply.status) × (w'.committed ≡ w.committed)))
        × Shows provider_id (wallet_of_path x.route) reply.body)
      ⊎ (IsRefusal reply × (w'.committed ≡ w.committed))

-- The issuer and the client of the configuration must not be blank, and are used for nothing else: with
-- any other two the middleware decides alike. So a token of another client of the same identity
-- provider is accepted, and one with another issuer.
pub oidc_auth_unbound :
    (cfg : OidcConfig) (issuer client : String) (J : JwtLibrary) (m : Moment) (header : Text)
    (kv : KeyValidator)
    → str_eq (trim_string cfg.issuer_url) "" ≡ false
    → str_eq (trim_string cfg.client_id) "" ≡ false
    → str_eq (trim_string issuer) "" ≡ false
    → str_eq (trim_string client) "" ≡ false
    → oidc_auth (record cfg { issuer_url = issuer; client_id = client }) J m header kv
      ≡ oidc_auth cfg J m header kv
unfolding oidc_auth is_misconfigured algorithm_of
oidc_auth_unbound cfg issuer client J m header kv a b c d = rw (a, b, c, d) refl
