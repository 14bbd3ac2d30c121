-- ===== src/Middleware/Tests.antt =====
-- Tests of the middleware, and the theorems at concrete inputs.
use betting_processing_go.Prelude.{ℕ, zero, suc, ◌^◌, ◌≡◌, refl, false, none, some, [], ◌∷◌}
use betting_processing_go.Prelude.Text.{
  Text, codes, str_eq, trim_string, trim_string_right, trim_string_left, keep_char_unless_blank,
  is_space,
}
use betting_processing_go.Errors.{ok}
use betting_processing_go.Handlers.{get_wallets}
use betting_processing_go.Middleware.Base64.{
  decode_base64, sextets, sextet, cons_sextet, bytes_or_none, bytes_of, cons_bytes,
}
use betting_processing_go.Middleware.Keys.{
  OidcConfig, Jwk, KeyValidator, parse_rsa_public_key, check_decoded, check_key, number_of,
  least_modulus,
}
use betting_processing_go.Middleware.Auth.{
  Claims, JwtLibrary, fields, open_fields, push_char, without_empty, lower, equal_fold, token_of,
  bearer_token, oidc_auth,
}
use betting_processing_go.Middleware.Guard.{Exchange}
use betting_processing_go.Middleware.Secured.{oidc_auth_unbound}
use betting_processing_go.Store.{Reader}

abbrev zeros : ℕ → Text
zeros zero = []
zeros (suc n) = b'A' ∷ zeros n

-- 2 ^ 2047 and 65537
abbrev jwk : Jwk
jwk = record {
  kid = "k1";
  n = b'g' ∷ zeros 341;
  e = codes "AQAB";
  kty = "RSA";
  alg = "RS256";
  use_ = "sig";
}

parsed_key :
    parse_rsa_public_key jwk.n jwk.e ≡ some (record { modulus = 2 ^ 2047; exponent = 65537 })
unfolding parse_rsa_public_key check_decoded check_key number_of least_modulus decode_base64 sextets
    sextet cons_sextet bytes_or_none bytes_of cons_bytes
parsed_key = refl

-- An exponent of one, and a modulus of 2040 bits.
refused_keys :
    (parse_rsa_public_key jwk.n (codes "AQ") ≡ none)
    × (parse_rsa_public_key (b'g' ∷ zeros 339) jwk.e ≡ none)
unfolding parse_rsa_public_key check_decoded check_key number_of least_modulus decode_base64 sextets
    sextet cons_sextet bytes_or_none bytes_of cons_bytes
refused_keys = (refl, refl)

abbrev config : OidcConfig
config = record {
  issuer_url = "https://idp";
  client_id = "betting";
  jwks_url = "https://idp/keys";
  algorithm = "";
  cache_ttl = 0;
}

abbrev claims_of_acme : Claims
claims_of_acme = record {
  subject = "acme";
  issuer = "https://idp";
  audience = "betting" ∷ [];
  expires_at = some 100;
  provider_id = "";
}

abbrev library : JwtLibrary
library = record {
  header_of = λ token. some (record { alg = some "RS256"; kid = some "k1" });
  verify = λ key now token. some claims_of_acme;
}

abbrev exchange : Exchange
exchange = record {
  header = codes "bearer  token";
  route = get_wallets " ";
  moment = record { now = 10; asked = 11; answered = 12; answer = some (jwk ∷ []) };
}

split_header : bearer_token exchange.header ≡ some (codes "token")
unfolding bearer_token token_of fields open_fields push_char without_empty equal_fold lower is_space
split_header = refl

abbrev reader : Reader
reader = record {
  format_time = λ t. [];
  parse_time = λ s. ok 0;
  parse_uuid = λ s. ok "";
  id_before = λ a b. false;
  delivered = λ n. 0;
}

abbrev fresh : KeyValidator
fresh = record {
  keys = [];
  cache_expiry = 0;
  last_refresh = 0;
  cache_ttl = 300_000_000_000;
  expected_alg = "RS256";
}

abbrev filled : KeyValidator
filled = record {
  keys = ("k1", record { modulus = 2 ^ 2047; exponent = 65537 }) ∷ [];
  cache_expiry = 300_000_000_012;
  last_refresh = 11;
  cache_ttl = 300_000_000_000;
  expected_alg = "RS256";
}

blank_free :
    (str_eq (trim_string "https://idp") "" ≡ false)
    × (str_eq (trim_string "betting") "" ≡ false)
    × (str_eq (trim_string "https://evil") "" ≡ false)
    × (str_eq (trim_string "other") "" ≡ false)
unfolding trim_string trim_string_right trim_string_left keep_char_unless_blank is_space
blank_free = (refl, refl, refl, refl)

oidc_auth_unbound_example :
    oidc_auth
      (record config { issuer_url = "https://evil"; client_id = "other" })
      library
      exchange.moment
      exchange.header
      fresh
    ≡ oidc_auth config library exchange.moment exchange.header fresh
oidc_auth_unbound_example =
    oidc_auth_unbound config "https://evil" "other" library exchange.moment exchange.header fresh
      blank_free.0 blank_free.1 blank_free.2 blank_free.3
