-- ===== src/Wallet/Balance.antt =====
-- wallet.go: Debit and Credit against exact integers, and well-formed wallets.
use betting_processing_go.Prelude.{◌-◌, ◌^◌, ◌≡◌, true, false, not, ◌||◌, arith, if◌then◌else◌}
use betting_processing_go.Prelude.Text.{str_eq, eq_iff}
use betting_processing_go.Prelude.Int.{
  ℤ, pos, negsuc, ltb_ℤ, eqb_ℤ, ◌≤ℤ◌, ◌+ℤ◌, ◌-ℤ◌, int_laws, +ℤ_parts, -ℤ_parts,
}
use betting_processing_go.Prelude.Int64.{IsInt64}
use betting_processing_go.Errors.{
  Error, Result, ok, err, WalletError, MoneyError, Sentinel, wallet_err,
}
use betting_processing_go.Money.{Money, brl, is_zero, is_negative}
use betting_processing_go.Money.Arithmetic.{
  fits_int64, add-exact, subtract-exact, compare_money-sign,
}
use betting_processing_go.Wallet.Defs.{
  Wallet, BalanceChange, Time, changed, debit_wallet, credit_wallet, can_debit,
}

-- What the constructors establish of the balance, and what the database keeps.
pub record IsValid (w : Wallet) : Type 0 where
  pub currency_brl : w.currency ≡ brl
  pub balance_currency : w.balance.currency ≡ brl
  pub balance_int64 : IsInt64 w.balance.amount
  pub balance_nonneg : pos 0 ≤ℤ w.balance.amount

abbrev pub brl_of : ℤ → Money
brl_of z = record { amount = z; currency = brl }

-- What a debit should do: the four refusals in their order, or the exact new balance.
abbrev pub debit_reference : Time → Money → Wallet → Result (Wallet × BalanceChange)
debit_reference now amount w =
    if not (str_eq amount.currency w.currency)
    then wallet_err WalletError.currency_mismatch
    else if not (ltb_ℤ (pos 0) amount.amount)
    then wallet_err WalletError.positive_amount_required
    else if ltb_ℤ w.balance.amount amount.amount
    then wallet_err WalletError.insufficient_balance
    else ok (changed now w (brl_of (w.balance.amount -ℤ amount.amount)))

abbrev pub credit_reference : Time → Money → Wallet → Result (Wallet × BalanceChange)
credit_reference now amount w =
    if not (str_eq amount.currency w.currency)
    then wallet_err WalletError.currency_mismatch
    else if not (ltb_ℤ (pos 0) amount.amount)
    then wallet_err WalletError.positive_amount_required
    else if not (fits_int64 (w.balance.amount +ℤ amount.amount))
    then err (Error.wrap "add balance" (Error.sentinel (Sentinel.money MoneyError.overflow)))
    else ok (changed now w (brl_of (w.balance.amount +ℤ amount.amount)))

not_positive : (m : Money) → (is_negative m || is_zero m) ≡ not (ltb_ℤ (pos 0) m.amount)
unfolding is_negative is_zero
not_positive m = ground arith

can_debit_exact :
    (w : Wallet) (amount : Money)
    → IsValid w
    → amount.currency ≡ brl
    → ltb_ℤ (pos 0) amount.amount ≡ true
    → can_debit w amount ≡ not (ltb_ℤ w.balance.amount amount.amount)
unfolding can_debit ◌-ℤ◌
can_debit_exact w amount v e p = ground (
  arith,
  not_positive amount,
  compare_money-sign w.balance amount,
  eq_iff amount.currency w.currency,
  eq_iff w.balance.currency amount.currency,
)

-- A covered positive amount leaves a balance that an int64 holds.
sub_fits :
    (a b : ℤ)
    → IsInt64 a
    → IsInt64 b
    → pos 0 ≤ℤ a
    → ltb_ℤ (pos 0) b ≡ true
    → ltb_ℤ a b ≡ false
    → (fits_int64 (a -ℤ b) ≡ true) × (eqb_ℤ b (negsuc (2 ^ 63 - 1)) ≡ false)
unfolding ◌-ℤ◌
sub_fits a b ha hb h p q = ground arith

-- A debit of a well-formed wallet refuses in the stated order, or subtracts the exact amount.
pub debit_exact :
    (now : Time) (amount : Money) (w : Wallet)
    → IsValid w
    → IsInt64 amount.amount
    → debit_wallet now amount w ≡ debit_reference now amount w
unfolding debit_wallet
debit_exact now amount w v h = ground (
  arith,
  not_positive amount,
  can_debit_exact w amount v,
  subtract-exact w.balance amount v.balance_int64 h,
  sub_fits w.balance.amount amount.amount v.balance_int64 h v.balance_nonneg,
  eq_iff amount.currency w.currency,
  eq_iff w.balance.currency amount.currency,
)

-- A credit of a well-formed wallet refuses in the stated order, or adds the exact amount.
pub credit_exact :
    (now : Time) (amount : Money) (w : Wallet)
    → IsValid w
    → IsInt64 amount.amount
    → credit_wallet now amount w ≡ credit_reference now amount w
unfolding credit_wallet
credit_exact now amount w v h = ground (
  arith,
  not_positive amount,
  add-exact w.balance amount v.balance_int64 h,
  eq_iff amount.currency w.currency,
  eq_iff w.balance.currency amount.currency,
)

-- What a change reports is what it did to the wallet; nothing else of the wallet changes but its time.
pub record Reports (w w' : Wallet) (c : BalanceChange) (z : ℤ) : Type 0 where
  pub before : c.balance_before ≡ w.balance
  pub after : c.balance_after ≡ w'.balance
  pub moved : w'.balance.amount ≡ z
  pub version : c.new_version ≡ w'.version
  pub names : (w'.id ≡ w.id) × (w'.player_id ≡ w.player_id) × (w'.provider_id ≡ w.provider_id)
  pub valid : IsValid w'

-- A debit that succeeds takes a positive amount that the balance covers off the balance, reports the
-- balances and the version as they are stored, and leaves a well-formed wallet.
pub debit-Reports :
    (now : Time) (amount : Money) (w w' : Wallet) (c : BalanceChange)
    → IsValid w
    → IsInt64 amount.amount
    → debit_wallet now amount w ≡ ok (w', c)
    → (ltb_ℤ (pos 0) amount.amount ≡ true)
      × (amount.amount ≤ℤ w.balance.amount)
      × Reports w w' c (w.balance.amount -ℤ amount.amount)
unfolding changed
debit-Reports now amount w w' c v h e = ground (
  arith,
  debit_exact now amount w v h,
  -ℤ_parts w.balance.amount amount.amount,
  sub_fits w.balance.amount amount.amount v.balance_int64 h v.balance_nonneg,
)

-- A credit that succeeds adds a positive amount to the balance, reports the balances and the version
-- as they are stored, and leaves a well-formed wallet.
pub credit-Reports :
    (now : Time) (amount : Money) (w w' : Wallet) (c : BalanceChange)
    → IsValid w
    → IsInt64 amount.amount
    → credit_wallet now amount w ≡ ok (w', c)
    → (ltb_ℤ (pos 0) amount.amount ≡ true) × Reports w w' c (w.balance.amount +ℤ amount.amount)
unfolding changed
credit-Reports now amount w w' c v h e =
    ground (arith, credit_exact now amount w v h, +ℤ_parts w.balance.amount amount.amount)

add_sub_same : (a b : ℤ) → a +ℤ b -ℤ b ≡ a
add_sub_same a b = omega int_laws

covers : (a b : ℤ) → pos 0 ≤ℤ a → ltb_ℤ (a +ℤ b) b ≡ false
unfolding ◌+ℤ◌
covers a b h = ground arith

-- A credit can be debited again, and the balance is what it was.
pub debit-credit :
    (now later : Time) (amount : Money) (w w' : Wallet) (c : BalanceChange)
    → IsValid w
    → IsInt64 amount.amount
    → credit_wallet now amount w ≡ ok (w', c)
    → debit_wallet later amount w' ≡ ok (changed later w' w.balance)
debit-credit now later amount w w' c v h e =
    let (positive, r) = credit-Reports now amount w w' c v h e in
    ground (
      arith,
      credit_exact now amount w v h,
      debit_exact later amount w' r.valid h,
      add_sub_same w.balance.amount amount.amount,
      covers w.balance.amount amount.amount v.balance_nonneg,
    )
