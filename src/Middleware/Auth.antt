-- ===== src/Middleware/Auth.antt =====
-- auth.go: OIDCAuth, and correlation.go. Package jwt is a parameter: what it reads in the header of a token
-- before it checks it, and the claims of a token whose signature a key verifies and whose times are right.
use Prim.Native.Char.{code}
use betting_processing_go.Prelude.{
  ℕ, ◌+◌, String, Bool, true, false, not, ◌&&◌, ◌||◌, Option, none, some, List, [], ◌∷◌, leb, ◌==◌,
  if◌then◌else◌,
}
use betting_processing_go.Prelude.Text.{Text, codes, str_eq, trim_string, is_space}
use betting_processing_go.Wallet.{Time}
use betting_processing_go.Handlers.{Reply, reply_of, failure}
use betting_processing_go.Middleware.Keys.{
  OidcConfig, RsaKey, KeyValidator, Moment, TokenHeader, algorithm_of, is_text, get_key,
}

-- JWTClaims
pub record Claims : Type 0 where
  pub subject : String
  pub issuer : String
  pub audience : List String
  pub expires_at : Option Time
  pub provider_id : String

pub record JwtLibrary : Type 0 where
  pub header_of : Text → Option TokenHeader
  pub verify : RsaKey → Time → Text → Option Claims

-- strings.Fields
unfoldable pub push_char : ℕ → List Text → List Text
push_char c [] = (c ∷ []) ∷ []
push_char c (f ∷ fs) = (c ∷ f) ∷ fs

-- The fields of a text, with an empty one in front where it starts with a space or ends.
unfoldable pub open_fields : Text → List Text
unfolding push_char
open_fields [] = [] ∷ []
open_fields (c ∷ s) = let rest = open_fields s in if is_space c then [] ∷ rest else push_char c rest

unfoldable pub without_empty : List Text → List Text
without_empty [] = []
without_empty ([] ∷ fs) = without_empty fs
without_empty ((c ∷ f) ∷ fs) = (c ∷ f) ∷ without_empty fs

unfoldable pub fields : Text → List Text
unfolding open_fields without_empty
fields s = without_empty (open_fields s)

-- strings.EqualFold with a text of ASCII letters that no other letters fold to
unfoldable pub lower : ℕ → ℕ
lower c = if leb b'A' c && leb c b'Z' then c + 32 else c

unfoldable pub equal_fold : Text → Text → Bool
unfolding lower
equal_fold [] [] = true
equal_fold [] (d ∷ t) = false
equal_fold (c ∷ s) [] = false
equal_fold (c ∷ s) (d ∷ t) = lower c == lower d && equal_fold s t

-- configErr: whether there is one
unfoldable pub is_misconfigured : OidcConfig → Bool
unfolding algorithm_of
is_misconfigured cfg =
    str_eq (trim_string cfg.issuer_url) ""
    || (str_eq (trim_string cfg.client_id) ""
        || (str_eq (trim_string cfg.jwks_url) "" || not (str_eq (algorithm_of cfg) "RS256")))

-- The token of the header: two fields, the first being Bearer.
unfoldable pub token_of : List Text → Option Text
unfolding equal_fold
token_of (scheme ∷ token ∷ []) = if equal_fold scheme (codes "Bearer") then some token else none
token_of _ = none

unfoldable pub bearer_token : Text → Option Text
unfolding fields token_of
bearer_token header = token_of (fields header)

-- The verification of a token by the key that was found.
unfoldable pub verify_with : JwtLibrary → Time → Text → Option RsaKey → Option Claims
verify_with J now token none = none
verify_with J now token (some key) = J.verify key now token

-- jwt.ParseWithClaims: the algorithm is RS256 (WithValidMethods), and the key is the validator's.
unfoldable pub parse_header :
    JwtLibrary
    → String
    → Moment
    → Text
    → Option TokenHeader
    → KeyValidator
    → Option Claims × KeyValidator
unfolding verify_with
parse_header J algorithm m token none kv = (none, kv)
parse_header J algorithm m token (some header) kv =
    if is_text header.alg algorithm
    then (let (key, kv') = get_key m header kv in (verify_with J m.now token key, kv'))
    else (none, kv)

unfoldable pub parse_with_claims :
    JwtLibrary → String → Moment → Text → KeyValidator → Option Claims × KeyValidator
unfolding parse_header
parse_with_claims J algorithm m token kv = parse_header J algorithm m token (J.header_of token) kv

-- The middleware answers itself, or the request goes on with the provider in its context.
pub data Decision : Type 0 where
  answer : Reply → Decision
  pass : String → Decision

unfoldable pub unauthorized : String → String → Decision
unauthorized code message = answer (reply_of 401 (failure code message))

unfoldable pub provider_of : Claims → String
provider_of claims = if str_eq claims.provider_id "" then claims.subject else claims.provider_id

unfoldable pub admit : Claims → Decision
unfolding provider_of unauthorized
admit claims =
    if str_eq (provider_of claims) ""
    then unauthorized "missing_subject" "Token must contain provider_id or sub"
    else pass (provider_of claims)

unfoldable pub admit_unexpired : Option Time → Claims → Decision
unfolding admit unauthorized
admit_unexpired none claims = unauthorized "invalid_token" "Token expiration is required"
admit_unexpired (some t) claims = admit claims

unfoldable pub decide : Option Claims → Decision
unfolding admit_unexpired unauthorized
decide none = unauthorized "invalid_token" "Token is invalid or expired"
decide (some claims) = admit_unexpired claims.expires_at claims

unfoldable pub check_token :
    JwtLibrary → String → Moment → Option Text → KeyValidator → Decision × KeyValidator
unfolding decide parse_with_claims unauthorized
check_token J algorithm m none kv =
    (unauthorized "invalid_authorization" "Authorization header must be Bearer token", kv)
check_token J algorithm m (some token) kv =
    let (claims, kv') = parse_with_claims J algorithm m token kv in (decide claims, kv')

-- OIDCAuth on the Authorization header of a request.
unfoldable pub oidc_auth :
    OidcConfig → JwtLibrary → Moment → Text → KeyValidator → Decision × KeyValidator
unfolding is_misconfigured check_token bearer_token
oidc_auth cfg J m header kv =
    if is_misconfigured cfg
    then (
      answer (reply_of 500 (failure "server_misconfigured" "OIDC authentication is misconfigured")),
      kv,
    )
    else check_token J (algorithm_of cfg) m (bearer_token header) kv

-- CorrelationID: the two headers, and the id of eight random bytes, `none` where rand.Read fails.
unfoldable pub correlation_id : String → String → Option String → String
correlation_id correlation request random =
    if not (str_eq correlation "")
    then correlation
    else if not (str_eq request "")
    then request
    else elim random [ none ↦ "" | some id ↦ id ]
