-- ===== src/Middleware/Trust.antt =====
-- The keys that a validator takes from a JWKS.
use betting_processing_go.Prelude.{
  ℕ, ◌%◌, ◌≤◌, ◌≡◌, refl, subst, String, true, inl, inr, Option, none, some, List, [], ◌∷◌, All,
  arith, Bool-cases,
}
use betting_processing_go.Prelude.Text.{str_eq, eq_iff}
use betting_processing_go.Middleware.Base64.{decode_base64}
use betting_processing_go.Middleware.Keys.{
  RsaKey, Jwk, least_modulus, check_key, check_decoded, parse_rsa_public_key, is_signing_key,
  put_key, collect_keys, lookup_key,
}

-- A modulus of 2048 bits or more, and an odd exponent of three or more.
pub record IsStrong (key : RsaKey) : Type 0 where
  pub large : least_modulus ≤ key.modulus
  pub odd : key.exponent % 2 ≡ 1
  pub three : 3 ≤ key.exponent

check_key-IsStrong : (n e : List ℕ) (key : RsaKey) → check_key n e ≡ some key → IsStrong key
unfolding check_key
check_key-IsStrong n e key h = ground arith

check_decoded-IsStrong :
    (n e : Option (List ℕ)) (key : RsaKey) → check_decoded n e ≡ some key → IsStrong key
unfolding check_decoded
check_decoded-IsStrong none e key h = absurd (cc)
check_decoded-IsStrong (some n) none key h = absurd (cc)
check_decoded-IsStrong (some n) (some e) key h = check_key-IsStrong n e key h

-- The key with this id stands in a JWKS, whose keys satisfy `Published`, for signatures with the algorithm.
pub record IsTrusted (Published : Jwk → Type 0) (alg kid : String) (key : RsaKey) : Type 0 where
  pub jwk : Jwk
  pub published : Published jwk
  pub named : jwk.kid ≡ kid
  pub signing : is_signing_key alg jwk ≡ true
  pub parsed : parse_rsa_public_key jwk.n jwk.e ≡ some key

pub IsTrusted-IsStrong :
    {P : Jwk → Type 0} {alg kid : String} {key : RsaKey} → IsTrusted P alg kid key → IsStrong key
unfolding parse_rsa_public_key
IsTrusted-IsStrong {key = key} t =
    check_decoded-IsStrong (decode_base64 t.jwk.n) (decode_base64 t.jwk.e) key t.parsed

module _ (P : Jwk → Type 0) (alg : String) where
  abbrev pub AllTrusted : List (String × RsaKey) → Type 0
  AllTrusted = All (λ (kid, key). IsTrusted P alg kid key)

  put_key-AllTrusted :
      (jwk : Jwk) (o : Option RsaKey) (keys : List (String × RsaKey))
      → P jwk
      → is_signing_key alg jwk ≡ true
      → parse_rsa_public_key jwk.n jwk.e ≡ o
      → AllTrusted keys
      → AllTrusted (put_key jwk.kid o keys)
  unfolding put_key
  put_key-AllTrusted jwk none keys p s e a = a
  put_key-AllTrusted jwk (some key) keys p s e a =
      (record { jwk = jwk; published = p; named = refl; signing = s; parsed = e }, a)

  pub collect_keys-AllTrusted :
      (jwks : List Jwk) (keys : List (String × RsaKey))
      → All P jwks
      → AllTrusted keys
      → AllTrusted (collect_keys alg jwks keys)
  unfolding collect_keys
  collect_keys-AllTrusted [] keys p a = a
  collect_keys-AllTrusted (jwk ∷ jwks) keys (p, ps) a = elim (Bool-cases (is_signing_key alg jwk)) [
    | inl s ↦ rw s (collect_keys-AllTrusted jwks _ ps (put_key-AllTrusted jwk _ keys p s refl a))
    | inr s ↦ rw s (collect_keys-AllTrusted jwks keys ps a)
  ]

  abbrev pub TrustedOption : String → Option RsaKey → Type 0
  TrustedOption kid none = Unit
  TrustedOption kid (some key) = IsTrusted P alg kid key

  pub lookup_key-Trusted :
      (kid : String) (keys : List (String × RsaKey))
      → AllTrusted keys
      → TrustedOption kid (lookup_key kid keys)
  unfolding lookup_key
  lookup_key-Trusted kid [] a = tt
  lookup_key-Trusted kid ((k, key) ∷ keys) (t, a) = elim (Bool-cases (str_eq k kid)) [
    | inl b ↦ rw b (subst (λ j. IsTrusted P alg j key) ((eq_iff k kid).0 b) t)
    | inr b ↦ rw b (lookup_key-Trusted kid keys a)
  ]
