-- ===== src/Middleware/Admitted.antt =====
-- Who the middleware lets through.
use betting_processing_go.Prelude.{
  true, ◌≤◌, ◌≡◌, ◌≢◌, refl, sym, subst, String, false, inl, inr, Option, none, some, arith,
  Bool-cases,
}
use betting_processing_go.Prelude.Text.{Text, str_eq}
use betting_processing_go.Wallet.{Time}
use betting_processing_go.Handlers.{Reply, failure}
use betting_processing_go.Middleware.Keys.{
  OidcConfig, RsaKey, Jwk, KeyValidator, Moment, TokenHeader, algorithm_of, is_text,
}
use betting_processing_go.Middleware.Auth.{
  Claims, JwtLibrary, is_misconfigured, bearer_token, verify_with, parse_header, parse_with_claims,
  Decision, answer, pass, unauthorized, provider_of, admit, admit_unexpired, decide, check_token,
  oidc_auth,
}
use betting_processing_go.Middleware.Trust.{IsTrusted, IsStrong, IsTrusted-IsStrong}
use betting_processing_go.Middleware.Validator.{Holds, Answered, Found, get_key-Found}

-- The token's claims, from a key that is trusted under the id that the header of the token names, as the
-- header names the algorithm.
pub record IsVerified (P : Jwk → Type 0) (alg : String) (J : JwtLibrary) (now : Time) (token : Text)
    (claims : Claims) : Type 0 where
  pub header : TokenHeader
  pub key : RsaKey
  pub kid : String
  pub read : J.header_of token ≡ some header
  pub algorithm : is_text header.alg alg ≡ true
  pub names : header.kid ≡ some kid
  pub trusted : IsTrusted P alg kid key
  pub strong : IsStrong key
  pub verified : J.verify key now token ≡ some claims

-- A provider is let through: the header has a token, a trusted key verifies it, it expires, and it names
-- the provider.
pub record IsAdmitted (P : Jwk → Type 0) (alg : String) (J : JwtLibrary) (now : Time)
    (header : Text) (provider_id : String) : Type 0 where
  pub token : Text
  pub claims : Claims
  pub sent : bearer_token header ≡ some token
  pub signed : IsVerified P alg J now token claims
  pub expires : claims.expires_at ≢ none
  pub named : provider_of claims ≡ provider_id
  pub not_empty : str_eq provider_id "" ≡ false

-- A status of 300 or more, and a body that has an error and a message only.
abbrev pub IsRefusal : Reply → Type 0
IsRefusal r =
    (300 ≤ r.status) × ((code : String) × (message : String) × (r.body ≡ failure code message))

module _ (P : Jwk → Type 0) (J : JwtLibrary) where
  module _ (alg : String) (m : Moment) (token : Text) where
    -- What the parser gives, with the validator that it leaves.
    record Parsed (p : Option Claims × KeyValidator) : Type 0 where
      pub after : let (o, kv) = p in Holds P alg kv
      pub given :
          let (o, kv) = p in
          (claims : Claims) → o ≡ some claims → IsVerified P alg J m.now token claims

    nothing-Parsed : (kv : KeyValidator) → Holds P alg kv → Parsed (none, kv)
    nothing-Parsed kv h = record { after = h; given = λ c e. absurd (cc) }

    verify-Parsed :
        (header : TokenHeader) (p : Option RsaKey × KeyValidator)
        → J.header_of token ≡ some header
        → is_text header.alg alg ≡ true
        → Found P alg header p
        → Parsed (let (key, kv) = p in (verify_with J m.now token key, kv))
    unfolding verify_with
    verify-Parsed header (none, kv) r b f = nothing-Parsed kv f.after
    verify-Parsed header (some key, kv) r b f = record {
      after = f.after;
      given = λ c e.
          (let (kid, names, t) = f.given key refl in
            record {
              header = header;
              key = key;
              kid = kid;
              read = r;
              algorithm = b;
              names = names;
              trusted = t;
              strong = IsTrusted-IsStrong t;
              verified = e;
            });
    }

    parse_header-Parsed :
        (o : Option TokenHeader) (kv : KeyValidator)
        → J.header_of token ≡ o
        → Answered P alg m.answer
        → Holds P alg kv
        → Parsed (parse_header J alg m token o kv)
    unfolding parse_header
    parse_header-Parsed none kv r a h = nothing-Parsed kv h
    parse_header-Parsed (some header) kv r a h = elim (Bool-cases (is_text header.alg alg)) [
      | inl b ↦ rw b (verify-Parsed header _ r b (get_key-Found P alg m header kv a h))
      | inr b ↦ rw b (nothing-Parsed kv h)
    ]

  -- A decision, with the validator that is left.
  pub record Decided (alg : String) (m : Moment) (header : Text) (p : Decision × KeyValidator)
      : Type 0 where
    pub after : let (d, kv) = p in Holds P alg kv
    pub passes :
        let (d, kv) = p in
        (provider_id : String) → d ≡ pass provider_id → IsAdmitted P alg J m.now header provider_id
    pub refuses : let (d, kv) = p in (reply : Reply) → d ≡ answer reply → IsRefusal reply

  module _ (alg : String) (m : Moment) (header : Text) where
    refusing :
        (reply : Reply) (kv : KeyValidator)
        → Holds P alg kv
        → IsRefusal reply
        → Decided alg m header (answer reply, kv)
    refusing reply kv h b = record {
      after = h;
      passes = λ p e. absurd (cc);
      refuses = λ r e. (let same : reply ≡ r = cc in subst IsRefusal same b);
    }

    passing :
        (p : String) (kv : KeyValidator)
        → Holds P alg kv
        → IsAdmitted P alg J m.now header p
        → Decided alg m header (pass p, kv)
    passing p kv h a = record {
      after = h;
      passes = λ q e. subst (IsAdmitted P alg J m.now header) (cc) a;
      refuses = λ r e. absurd (cc);
    }

    unauthorized-Decided :
        (code message : String) (kv : KeyValidator)
        → Holds P alg kv
        → Decided alg m header (unauthorized code message, kv)
    unfolding unauthorized
    unauthorized-Decided code message kv h = refusing _ kv h (omega arith, (code, message, refl))

    module _ (token : Text) (sent : bearer_token header ≡ some token) where
      admit-Decided :
          (claims : Claims) (kv : KeyValidator)
          → claims.expires_at ≢ none
          → IsVerified P alg J m.now token claims
          → Holds P alg kv
          → Decided alg m header (admit claims, kv)
      unfolding admit
      admit-Decided claims kv x v h = elim (Bool-cases (str_eq (provider_of claims) "")) [
        | inl b ↦ rw b (unauthorized-Decided _ _ kv h)
        | inr b ↦ rw b (
            passing (provider_of claims) kv h (record {
              token = token;
              claims = claims;
              sent = sent;
              signed = v;
              expires = x;
              named = refl;
              not_empty = b;
            }))
      ]

      admit_unexpired-Decided :
          (o : Option Time) (claims : Claims) (kv : KeyValidator)
          → claims.expires_at ≡ o
          → IsVerified P alg J m.now token claims
          → Holds P alg kv
          → Decided alg m header (admit_unexpired o claims, kv)
      unfolding admit_unexpired
      admit_unexpired-Decided none claims kv x v h = unauthorized-Decided _ _ kv h
      admit_unexpired-Decided (some t) claims kv x v h =
          admit-Decided claims kv (λ e. cc (sym x, e)) v h

      decide-Decided :
          (p : Option Claims × KeyValidator)
          → Parsed alg m token p
          → Decided alg m header (let (claims, kv) = p in (decide claims, kv))
      unfolding decide
      decide-Decided (none, kv) q = unauthorized-Decided _ _ kv q.after
      decide-Decided (some claims, kv) q =
          admit_unexpired-Decided claims.expires_at claims kv refl (q.given claims refl) q.after

    check_token-Decided :
        (o : Option Text) (kv : KeyValidator)
        → bearer_token header ≡ o
        → Answered P alg m.answer
        → Holds P alg kv
        → Decided alg m header (check_token J alg m o kv)
    unfolding check_token parse_with_claims
    check_token-Decided none kv e a h = unauthorized-Decided _ _ kv h
    check_token-Decided (some token) kv e a h =
        decide-Decided token e _ (parse_header-Parsed alg m token (J.header_of token) kv refl a h)

  pub oidc_auth-Decided :
      (cfg : OidcConfig) (m : Moment) (header : Text) (kv : KeyValidator)
      → Answered P (algorithm_of cfg) m.answer
      → Holds P (algorithm_of cfg) kv
      → Decided (algorithm_of cfg) m header (oidc_auth cfg J m header kv)
  unfolding oidc_auth
  oidc_auth-Decided cfg m header kv a h = elim (Bool-cases (is_misconfigured cfg)) [
    | inl b ↦ rw b (refusing (algorithm_of cfg) m header _ kv h (omega arith, (_, _, refl)))
    | inr b ↦
        rw b (check_token-Decided (algorithm_of cfg) m header (bearer_token header) kv refl a h)
  ]
