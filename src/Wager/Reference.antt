-- ===== src/Wager/Reference.antt =====
-- The pure functions of wagertransaction/service.go and errors.go on references and errors.
use betting_processing_go.Prelude.{
  List, [], ◌∷◌, any, String, ◌≡◌, ◌≢◌, refl, sym, ap, subst, ◌↔◌, ◌⊎◌, inl, inr, Bool-cases, Bool,
  true, false, not, ◌||◌, arith, if◌then◌else◌,
}
use betting_processing_go.Prelude.Text.{str_eq, eq_iff}
use betting_processing_go.Prelude.Int.{pos, eqb_ℤ}
use betting_processing_go.Errors.{
  Error, Result, ok, err, WalletError, WagerError, Sentinel, fail_if, errors_is, same_sentinel,
  sentinel_discrete, ◌>>◌,
}
use betting_processing_go.ErrorTexts.{error_text}
use betting_processing_go.Money.{Money, compare_money, check_currency}
use betting_processing_go.Wager.Defs.{Transaction}

abbrev pub terminal_errors : List WagerError
terminal_errors =
    WagerError.invalid_transaction_type ∷ WagerError.invalid_money ∷ WagerError.opening_rejected
    ∷ WagerError.positive_amount_required ∷ WagerError.zero_amount_required
    ∷ WagerError.payload_conflict ∷ WagerError.insufficient_balance ∷ WagerError.reference_not_found
    ∷ WagerError.reference_not_successful ∷ WagerError.double_reversal
    ∷ WagerError.provider_mismatch ∷ WagerError.player_mismatch ∷ WagerError.wallet_mismatch
    ∷ WagerError.currency_mismatch ∷ WagerError.round_mismatch ∷ WagerError.reversal_value_mismatch
    ∷ WagerError.invalid_state_transition ∷ WagerError.idempotent_duplicate
    ∷ WagerError.external_id_reuse ∷ []

-- IsTerminalBusinessError, of an error that is not nil
unfoldable pub is_terminal_business_error : Error → Bool
is_terminal_business_error e = any (λ s. errors_is (Sentinel.wager s) e) terminal_errors

-- validateReference
unfoldable pub validate_reference : Transaction → Transaction → Result (Unit {0})
validate_reference tx ref = do
  fail_if (not (str_eq ref.provider tx.provider)) (Sentinel.wager WagerError.provider_mismatch)
  fail_if (not (str_eq ref.player_id tx.player_id)) (Sentinel.wager WagerError.player_mismatch)
  fail_if (not (str_eq ref.wallet_id tx.wallet_id)) (Sentinel.wager WagerError.wallet_mismatch)
  fail_if (not (str_eq ref.amount.currency tx.amount.currency))
      (Sentinel.wager WagerError.currency_mismatch)
  fail_if (not (str_eq ref.round_id tx.round_id)) (Sentinel.wager WagerError.round_mismatch)

-- validateReversalValue: the error of Compare is dropped, and its result is 0 then.
unfoldable pub validate_reversal_value : Money → Transaction → Result (Unit {0})
validate_reversal_value amount ref = elim (compare_money amount ref.amount) [
  | ok cmp ↦ fail_if (not (eqb_ℤ cmp (pos 0))) (Sentinel.wager WagerError.reversal_value_mismatch)
  | err e ↦ ok tt
]

-- mapWalletError
unfoldable pub map_wallet_error : Error → String
map_wallet_error e =
    if errors_is (Sentinel.wallet WalletError.insufficient_balance) e
      || str_eq (error_text e) "insufficient_balance"
    then "INSUFFICIENT_BALANCE"
    else if errors_is (Sentinel.wallet WalletError.currency_mismatch) e
        || str_eq (error_text e) "currency_mismatch"
    then "CURRENCY_MISMATCH"
    else "WALLET_ERROR"

-- mapWalletErrorForReversal
unfoldable pub map_wallet_error_for_reversal : Error → String
map_wallet_error_for_reversal e =
    if errors_is (Sentinel.wallet WalletError.insufficient_balance) e
      || str_eq (error_text e) "insufficient_balance"
    then "REVERSAL_INSUFFICIENT_BALANCE"
    else if errors_is (Sentinel.wallet WalletError.currency_mismatch) e
        || str_eq (error_text e) "currency_mismatch"
    then "CURRENCY_MISMATCH"
    else "WALLET_ERROR"

-- mapValidationError compares the error itself, not what it wraps.
unfoldable pub map_validation_error : Error → String
map_validation_error (Error.sentinel (Sentinel.wager WagerError.provider_mismatch)) =
    "PROVIDER_MISMATCH"
map_validation_error (Error.sentinel (Sentinel.wager WagerError.player_mismatch)) =
    "PLAYER_MISMATCH"
map_validation_error (Error.sentinel (Sentinel.wager WagerError.wallet_mismatch)) =
    "WALLET_MISMATCH"
map_validation_error (Error.sentinel (Sentinel.wager WagerError.currency_mismatch)) =
    "CURRENCY_MISMATCH"
map_validation_error (Error.sentinel (Sentinel.wager WagerError.round_mismatch)) = "ROUND_MISMATCH"
map_validation_error _ = "VALIDATION_ERROR"

-- A transaction may refer to another one of the same provider, player, wallet, currency and round, and of
-- the same amount.
pub record Reverses (tx ref : Transaction) : Type 0 where
  pub provider : tx.provider ≡ ref.provider
  pub player : tx.player_id ≡ ref.player_id
  pub wallet : tx.wallet_id ≡ ref.wallet_id
  pub round : tx.round_id ≡ ref.round_id
  pub amount : tx.amount ≡ ref.amount

-- The two checks before a reversal, validateReference and then validateReversalValue of the transaction's
-- amount, pass exactly where the provider, the player, the wallet, the round, the currency and the amount
-- are those of the reference.
pub reversal-Reverses :
    (tx ref : Transaction)
    → ((do validate_reference tx ref; validate_reversal_value tx.amount ref) ≡ ok tt)
      ↔ Reverses tx ref
unfolding validate_reference validate_reversal_value compare_money check_currency
reversal-Reverses tx ref = (
  λ h. ground (
    arith,
    eq_iff ref.provider tx.provider,
    eq_iff ref.player_id tx.player_id,
    eq_iff ref.wallet_id tx.wallet_id,
    eq_iff ref.round_id tx.round_id,
    eq_iff ref.amount.currency tx.amount.currency,
    eq_iff tx.amount.currency ref.amount.currency,
  ),
  λ r. ground (
    arith,
    r.amount,
    eq_iff ref.provider tx.provider,
    eq_iff ref.player_id tx.player_id,
    eq_iff ref.wallet_id tx.wallet_id,
    eq_iff ref.round_id tx.round_id,
    eq_iff ref.amount.currency tx.amount.currency,
    eq_iff tx.amount.currency ref.amount.currency,
  ),
)

-- A refusal is its own or comes from what follows.
refused_or :
    (P : Error → Type 0) (b : Bool) (s : Sentinel) (k : Result (Unit {0}))
    → P (Error.sentinel s)
    → ((e : Error) → k ≡ err e → P e)
    → (e : Error) → fail_if b s >> k ≡ err e
    → P e
refused_or P true s k p q e h = let same : Error.sentinel s ≡ e = ground arith in subst P same p
refused_or P false s k p q e h = q e h

refused :
    (P : Error → Type 0) (b : Bool) (s : Sentinel)
    → P (Error.sentinel s)
    → (e : Error) → fail_if b s ≡ err e
    → P e
refused P true s p e h = let same : Error.sentinel s ≡ e = ground arith in subst P same p
refused P false s p e h = absurd (cc)

abbrev IsTerminal : Error → Type 0
IsTerminal e = is_terminal_business_error e ≡ true

-- The first of the five that differs has the failure code of its own.
abbrev pub Explains : Transaction → Transaction → String → Type 0
Explains tx ref code =
    ((ref.provider ≢ tx.provider) × (code ≡ "PROVIDER_MISMATCH"))
    ⊎ ((ref.provider ≡ tx.provider)
        × (((ref.player_id ≢ tx.player_id) × (code ≡ "PLAYER_MISMATCH"))
            ⊎ ((ref.player_id ≡ tx.player_id)
                × (((ref.wallet_id ≢ tx.wallet_id) × (code ≡ "WALLET_MISMATCH"))
                    ⊎ ((ref.wallet_id ≡ tx.wallet_id)
                        × (((ref.amount.currency ≢ tx.amount.currency)
                              × (code ≡ "CURRENCY_MISMATCH"))
                            ⊎ ((ref.amount.currency ≡ tx.amount.currency)
                                × ((ref.round_id ≢ tx.round_id) × (code ≡ "ROUND_MISMATCH")))))))))

differs : (x y : String) → str_eq x y ≡ false → x ≢ y
differs x y b e = cc (b, (eq_iff x y).1 e)

-- A check that refuses has its reason, and one that passes leaves the reason to what follows.
judged :
    (x y : String) (s : Sentinel) (k : Result (Unit {0})) (e : Error) (P Q : Type 0)
    → fail_if (not (str_eq x y)) s >> k ≡ err e
    → (Error.sentinel s ≡ e → P)
    → (k ≡ err e → Q)
    → ((x ≢ y) × P) ⊎ ((x ≡ y) × Q)
judged x y s k e P Q h p q = elim (Bool-cases (str_eq x y)) [
  | inl b ↦ inr ((eq_iff x y).0 b, q (subst (λ c. fail_if (not c) s >> k ≡ err e) b h))
  | inr b ↦
      let stopped = subst (λ c. fail_if (not c) s >> k ≡ err e) b h in
      let same : Error.sentinel s ≡ e = ground (arith, stopped) in inl (differs x y b, p same)
]

last_check :
    (x y : String) (s : Sentinel) (e : Error)
    → fail_if (not (str_eq x y)) s ≡ err e
    → (x ≢ y) × (Error.sentinel s ≡ e)
last_check x y s e h = elim (Bool-cases (str_eq x y)) [
  | inl b ↦ absurd (let passed = subst (λ c. fail_if (not c) s ≡ err e) b h in cc)
  | inr b ↦
      let stopped = subst (λ c. fail_if (not c) s ≡ err e) b h in
      let same : Error.sentinel s ≡ e = ground (arith, stopped) in (differs x y b, same)
]

explained :
    (tx ref : Transaction) (e : Error)
    → validate_reference tx ref ≡ err e
    → Explains tx ref (map_validation_error e)
unfolding validate_reference map_validation_error
explained tx ref e h =
    judged ref.provider tx.provider _ _ e _ _ h (λ s. ap map_validation_error (sym s))
      (λ h1.
        judged ref.player_id tx.player_id _ _ e _ _ h1 (λ s. ap map_validation_error (sym s))
          (λ h2.
            judged ref.wallet_id tx.wallet_id _ _ e _ _ h2 (λ s. ap map_validation_error (sym s))
              (λ h3.
                judged ref.amount.currency tx.amount.currency _ _ e _ _ h3
                  (λ s. ap map_validation_error (sym s))
                  (λ h4.
                    let (differ, same) = last_check ref.round_id tx.round_id _ e h4 in
                    (differ, ap map_validation_error (sym same))))))

-- A refusal of validateReference is a terminal business error, and mapValidationError gives it the
-- failure code of its reason, which is the first that differs of the provider, the player, the wallet,
-- the currency and the round: PROVIDER_MISMATCH, PLAYER_MISMATCH, WALLET_MISMATCH, CURRENCY_MISMATCH or
-- ROUND_MISMATCH.
pub validate_reference-Explains :
    (tx ref : Transaction) (e : Error)
    → validate_reference tx ref ≡ err e
    → (is_terminal_business_error e ≡ true) × Explains tx ref (map_validation_error e)
unfolding validate_reference is_terminal_business_error errors_is same_sentinel sentinel_discrete
validate_reference-Explains tx ref e h = (
  refused_or IsTerminal (not (str_eq ref.provider tx.provider)) _ _ refl
      (refused_or IsTerminal (not (str_eq ref.player_id tx.player_id)) _ _ refl (
        refused_or IsTerminal (not (str_eq ref.wallet_id tx.wallet_id)) _ _ refl (
          refused_or IsTerminal (not (str_eq ref.amount.currency tx.amount.currency)) _ _ refl (
            refused IsTerminal (not (str_eq ref.round_id tx.round_id))
              (Sentinel.wager WagerError.round_mismatch) refl))))
      e h,
  explained tx ref e h,
)
