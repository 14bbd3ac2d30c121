-- ===== src/Middleware/Validator.antt =====
-- The keys that a validator holds and gives.
use betting_processing_go.Prelude.{
  ◌≡◌, refl, sym, subst, String, Bool, true, false, not, ◌&&◌, inl, inr, Option, none, some, List,
  [], ◌∷◌, All, ltb, ◌==◌, Bool-cases,
}
use betting_processing_go.Prelude.Text.{str_eq, trim_string}
use betting_processing_go.Wallet.{Time}
use betting_processing_go.Middleware.Keys.{
  RsaKey, Jwk, KeyValidator, OidcConfig, Moment, TokenHeader, new_key_validator, algorithm_of,
  collect_keys, store_keys, take_answer, cooled_down, refresh_keys, is_text, should_refresh,
  key_after, miss, cached, hit_or_miss, key_for, get_key,
}
use betting_processing_go.Middleware.Trust.{
  IsTrusted, AllTrusted, TrustedOption, collect_keys-AllTrusted, lookup_key-Trusted,
}

module _ (P : Jwk → Type 0) (alg : String) where
  pub record Holds (kv : KeyValidator) : Type 0 where
    pub algorithm : kv.expected_alg ≡ alg
    pub keys : AllTrusted P alg kv.keys

  -- The keys that the endpoint answers with.
  abbrev pub Answered : Option (List Jwk) → Type 0
  Answered none = Unit
  Answered (some jwks) = All P jwks

  store_keys-Holds :
      (answered : Time) (keys : List (String × RsaKey)) (kv : KeyValidator)
      → AllTrusted P alg keys
      → Holds kv
      → let (b, kv') = store_keys answered keys kv in Holds kv'
  unfolding store_keys
  store_keys-Holds answered [] kv a h = h
  store_keys-Holds answered (k ∷ ks) kv a h = record { algorithm = h.algorithm; keys = a }

  take_answer-Holds :
      (answered : Time) (answer : Option (List Jwk)) (kv : KeyValidator)
      → Answered answer
      → Holds kv
      → let (b, kv') = take_answer answered answer kv in Holds kv'
  unfolding take_answer
  take_answer-Holds answered none kv a h = h
  take_answer-Holds answered (some jwks) kv a h =
      store_keys-Holds answered _ kv
        (subst (λ x. AllTrusted P alg (collect_keys x jwks [])) (sym h.algorithm)
          (collect_keys-AllTrusted P alg jwks [] a tt))
        h

  refresh_keys-Holds :
      (m : Moment) (kv : KeyValidator)
      → Answered m.answer
      → Holds kv
      → let (b, kv') = refresh_keys m kv in Holds kv'
  unfolding refresh_keys
  refresh_keys-Holds m kv a h =
      elim (Bool-cases (
        ltb m.asked kv.cache_expiry
        && (not (kv.last_refresh == 0) && not (cooled_down kv.last_refresh m.asked)))) [
          | inl b ↦ rw b h
          | inr b ↦ rw b (
              take_answer-Holds m.answered m.answer _ a
                (record { algorithm = h.algorithm; keys = h.keys }))
        ]

  -- What GetKey gives for a key id, with the validator that it leaves.
  pub record Gives (kid : String) (p : Option RsaKey × KeyValidator) : Type 0 where
    pub trusted : let (o, kv) = p in TrustedOption P alg kid o
    pub after : let (o, kv) = p in Holds kv

  key_after-Gives :
      (kid : String) (p : Bool × KeyValidator)
      → (let (b, kv) = p in Holds kv)
      → Gives kid (key_after kid p)
  unfolding key_after
  key_after-Gives kid (false, kv) h = record { trusted = tt; after = h }
  key_after-Gives kid (true, kv) h = record {
    trusted = lookup_key-Trusted P alg kid kv.keys h.keys;
    after = h;
  }

  miss-Gives :
      (m : Moment) (kid : String) (kv : KeyValidator)
      → Answered m.answer
      → Holds kv
      → Gives kid (miss m kid kv)
  unfolding miss
  miss-Gives m kid kv a h = elim (Bool-cases (should_refresh m.now kv)) [
    | inl b ↦ rw b (key_after-Gives kid _ (refresh_keys-Holds m kv a h))
    | inr b ↦ rw b (record { trusted = lookup_key-Trusted P alg kid kv.keys h.keys; after = h })
  ]

  cached-Trusted :
      (now : Time) (kid : String) (kv : KeyValidator)
      → Holds kv
      → TrustedOption P alg kid (cached now kid kv)
  unfolding cached
  cached-Trusted now kid kv h = elim (Bool-cases (ltb now kv.cache_expiry)) [
    | inl b ↦ rw b (lookup_key-Trusted P alg kid kv.keys h.keys)
    | inr b ↦ rw b tt
  ]

  hit_or_miss-Gives :
      (m : Moment) (kid : String) (o : Option RsaKey) (kv : KeyValidator)
      → TrustedOption P alg kid o
      → Answered m.answer
      → Holds kv
      → Gives kid (hit_or_miss m kid o kv)
  unfolding hit_or_miss
  hit_or_miss-Gives m kid (some key) kv t a h = record { trusted = t; after = h }
  hit_or_miss-Gives m kid none kv t a h = miss-Gives m kid kv a h

  -- A key that GetKey gives is trusted under the id that the token names.
  pub record Found (header : TokenHeader) (p : Option RsaKey × KeyValidator) : Type 0 where
    pub after : let (o, kv) = p in Holds kv
    pub given :
        let (o, kv) = p in
        (key : RsaKey)
        → o ≡ some key
        → (kid : String) × (header.kid ≡ some kid) × IsTrusted P alg kid key

  nothing-Found : (header : TokenHeader) (kv : KeyValidator) → Holds kv → Found header (none, kv)
  nothing-Found header kv h = record { after = h; given = λ key e. absurd (cc) }

  Gives-Found :
      (header : TokenHeader) (kid : String) (p : Option RsaKey × KeyValidator)
      → header.kid ≡ some kid
      → Gives kid p
      → Found header p
  Gives-Found header kid (none, kv) e g = nothing-Found header kv g.after
  Gives-Found header kid (some key, kv) e g = record {
    after = g.after;
    given = λ other same. (kid, e, subst (λ k. IsTrusted P alg kid k) (cc) g.trusted);
  }

  key_for-Found :
      (m : Moment) (header : TokenHeader) (o : Option String) (kv : KeyValidator)
      → header.kid ≡ o
      → Answered m.answer
      → Holds kv
      → Found header (key_for m o kv)
  unfolding key_for
  key_for-Found m header none kv e a h = nothing-Found header kv h
  key_for-Found m header (some kid) kv e a h = elim (Bool-cases (str_eq (trim_string kid) "")) [
    | inl b ↦ rw b (nothing-Found header kv h)
    | inr b ↦ rw b (
        Gives-Found header kid _ e
          (hit_or_miss-Gives m kid _ kv (cached-Trusted m.now kid kv h) a h))
  ]

  pub get_key-Found :
      (m : Moment) (header : TokenHeader) (kv : KeyValidator)
      → Answered m.answer
      → Holds kv
      → Found header (get_key m header kv)
  unfolding get_key
  get_key-Found m header kv a h = elim (Bool-cases (is_text header.alg kv.expected_alg)) [
    | inl b ↦ rw b (key_for-Found m header header.kid kv refl a h)
    | inr b ↦ rw b (nothing-Found header kv h)
  ]

pub new-Holds :
    (P : Jwk → Type 0) (cfg : OidcConfig) → Holds P (algorithm_of cfg) (new_key_validator cfg)
unfolding new_key_validator
new-Holds P cfg = record { algorithm = refl; keys = tt }
