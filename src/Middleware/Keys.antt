-- ===== src/Middleware/Keys.antt =====
-- auth.go: KeyValidator. A method gives the new validator. What the time is and what the JWKS endpoint
-- answers are arguments: a failed request, another status than 200 and a body that is not decoded are
-- `none`. The caller drops the errors of parseRSAPublicKey, which are `none` too. Requests of the
-- endpoint that run at the same time are not modelled.
use betting_processing_go.Prelude.{
  ℕ, ◌+◌, ◌-◌, ◌*◌, ◌%◌, ◌^◌, String, Bool, true, false, not, ◌&&◌, ◌||◌, Option, none, some, List,
  [], ◌∷◌, length, ltb, leb, ◌==◌, if◌then◌else◌,
}
use betting_processing_go.Prelude.Text.{Text, str_eq, trim_string}
use betting_processing_go.Wallet.{Time}
use betting_processing_go.Middleware.Base64.{decode_base64}

abbrev pub default_algorithm : String
default_algorithm = "RS256"

abbrev pub second : ℕ
second = 1_000_000_000

abbrev pub default_cache_ttl : ℕ
default_cache_ttl = 300 * second

abbrev pub refresh_cooldown : ℕ
refresh_cooldown = 30 * second

pub record OidcConfig : Type 0 where
  pub issuer_url : String
  pub client_id : String
  pub jwks_url : String
  pub algorithm : String
  pub cache_ttl : ℕ

-- rsa.PublicKey
pub record RsaKey : Type 0 where
  pub modulus : ℕ
  pub exponent : ℕ

-- A key of the JWKS; the modulus and the exponent are walked.
pub record Jwk : Type 0 where
  pub kid : String
  pub n : Text
  pub e : Text
  pub kty : String
  pub alg : String
  pub use_ : String

pub record KeyValidator : Type 0 where
  pub keys : List (String × RsaKey)
  pub cache_expiry : Time
  pub last_refresh : Time
  pub cache_ttl : ℕ
  pub expected_alg : String

-- `if algorithm == "" { algorithm = defaultAlgorithm }`
unfoldable pub algorithm_of : OidcConfig → String
algorithm_of cfg = if str_eq cfg.algorithm "" then default_algorithm else cfg.algorithm

unfoldable pub new_key_validator : OidcConfig → KeyValidator
unfolding algorithm_of
new_key_validator cfg = record {
  keys = [];
  cache_expiry = 0;
  last_refresh = 0;
  cache_ttl = if cfg.cache_ttl == 0 then default_cache_ttl else cfg.cache_ttl;
  expected_alg = algorithm_of cfg;
}

-- big.Int.SetBytes, and the loop over the bytes of the exponent, four at most
unfoldable pub number_of : ℕ → List ℕ → ℕ
number_of acc [] = acc
number_of acc (b ∷ bs) = number_of (acc * 256 + b) bs

-- `n.BitLen() < 2048` says that the modulus is below this.
unfoldable pub least_modulus : ℕ
least_modulus = 2 ^ 2047

unfoldable pub check_key : List ℕ → List ℕ → Option RsaKey
unfolding number_of least_modulus
check_key n_bytes e_bytes =
    let n = number_of 0 n_bytes in
    let e = number_of 0 e_bytes in
    if length n_bytes == 0
    then none
    else if length e_bytes == 0 || ltb 4 (length e_bytes)
    then none
    else if n == 0 || ltb n least_modulus
    then none
    else if ltb e 3 || e % 2 == 0
    then none
    else some (record { modulus = n; exponent = e })

unfoldable pub check_decoded : Option (List ℕ) → Option (List ℕ) → Option RsaKey
unfolding check_key
check_decoded none e = none
check_decoded (some n) none = none
check_decoded (some n) (some e) = check_key n e

-- parseRSAPublicKey
unfoldable pub parse_rsa_public_key : Text → Text → Option RsaKey
unfolding check_decoded
parse_rsa_public_key n e = check_decoded (decode_base64 n) (decode_base64 e)

-- The tests of the loop that let a key through.
unfoldable pub is_signing_key : String → Jwk → Bool
is_signing_key expected_alg jwk =
    str_eq jwk.kty "RSA"
    && (not (str_eq jwk.kid "")
        && ((str_eq jwk.alg "" || str_eq jwk.alg expected_alg)
            && (str_eq jwk.use_ "" || str_eq jwk.use_ "sig")))

unfoldable pub put_key : String → Option RsaKey → List (String × RsaKey) → List (String × RsaKey)
put_key kid none keys = keys
put_key kid (some key) keys = (kid, key) ∷ keys

-- The loop over the keys. The map is a list with the last assignment in front.
unfoldable pub collect_keys : String → List Jwk → List (String × RsaKey) → List (String × RsaKey)
unfolding is_signing_key put_key
collect_keys expected_alg [] keys = keys
collect_keys expected_alg (jwk ∷ jwks) keys = collect_keys expected_alg jwks (
    if is_signing_key expected_alg jwk
    then put_key jwk.kid (parse_rsa_public_key jwk.n jwk.e) keys
    else keys)

unfoldable pub lookup_key : String → List (String × RsaKey) → Option RsaKey
lookup_key kid [] = none
lookup_key kid ((k, key) ∷ keys) =
    let rest = lookup_key kid keys in if str_eq k kid then some key else rest

-- The times that time.Now gives in GetKey, at the start of refreshKeys and at its end, and the answer of
-- the endpoint.
pub record Moment : Type 0 where
  pub now : Time
  pub asked : Time
  pub answered : Time
  pub answer : Option (List Jwk)

-- The time since the last refresh is at least the cooldown.
unfoldable pub cooled_down : Time → Time → Bool
cooled_down last now = leb refresh_cooldown (now - last)

-- `kv.keys = newKeys`, unless there is none
unfoldable pub store_keys : Time → List (String × RsaKey) → KeyValidator → Bool × KeyValidator
store_keys answered [] kv = (false, kv)
store_keys answered (k ∷ ks) kv =
    (true, record kv { keys = k ∷ ks; cache_expiry = answered + kv.cache_ttl })

unfoldable pub take_answer : Time → Option (List Jwk) → KeyValidator → Bool × KeyValidator
unfolding store_keys
take_answer answered none kv = (false, kv)
take_answer answered (some jwks) kv = store_keys answered (collect_keys kv.expected_alg jwks []) kv

-- refreshKeys; the Boolean says whether it returns no error.
unfoldable pub refresh_keys : Moment → KeyValidator → Bool × KeyValidator
unfolding take_answer cooled_down
refresh_keys m kv =
    if ltb m.asked kv.cache_expiry
      && (not (kv.last_refresh == 0) && not (cooled_down kv.last_refresh m.asked))
    then (true, kv)
    else take_answer m.answered m.answer (record kv { last_refresh = m.asked })

-- The header of a token: `none` for a field that is not there or is no text.
pub record TokenHeader : Type 0 where
  pub alg : Option String
  pub kid : Option String

unfoldable pub is_text : Option String → String → Bool
is_text none s = false
is_text (some t) s = str_eq t s

unfoldable pub should_refresh : Time → KeyValidator → Bool
unfolding cooled_down
should_refresh now kv =
    not (ltb now kv.cache_expiry) || (kv.last_refresh == 0 || cooled_down kv.last_refresh now)

-- What follows the refresh.
unfoldable pub key_after : String → Bool × KeyValidator → Option RsaKey × KeyValidator
key_after kid (false, kv) = (none, kv)
key_after kid (true, kv) = (lookup_key kid kv.keys, kv)

-- A key that is not in a fresh cache.
unfoldable pub miss : Moment → String → KeyValidator → Option RsaKey × KeyValidator
unfolding key_after should_refresh
miss m kid kv =
    if should_refresh m.now kv
    then key_after kid (refresh_keys m kv)
    else (lookup_key kid kv.keys, kv)

unfoldable pub cached : Time → String → KeyValidator → Option RsaKey
cached now kid kv = if ltb now kv.cache_expiry then lookup_key kid kv.keys else none

unfoldable pub hit_or_miss :
    Moment → String → Option RsaKey → KeyValidator → Option RsaKey × KeyValidator
unfolding miss
hit_or_miss m kid (some key) kv = (some key, kv)
hit_or_miss m kid none kv = miss m kid kv

unfoldable pub key_for : Moment → Option String → KeyValidator → Option RsaKey × KeyValidator
unfolding hit_or_miss cached
key_for m none kv = (none, kv)
key_for m (some kid) kv =
    if str_eq (trim_string kid) "" then (none, kv) else hit_or_miss m kid (cached m.now kid kv) kv

-- GetKey; an error is `none`.
unfoldable pub get_key : Moment → TokenHeader → KeyValidator → Option RsaKey × KeyValidator
unfolding key_for is_text
get_key m header kv =
    if is_text header.alg kv.expected_alg then key_for m header.kid kv else (none, kv)
