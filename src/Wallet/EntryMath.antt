-- ===== src/Wallet/EntryMath.antt =====
-- ledger_entry.go: the checks of NewLedgerEntry on the three amounts of an entry.
use betting_processing_go.Prelude.{zero, suc, ◌≡◌, ◌↔◌, ◌≢◌, ap, String, true, arith}
use betting_processing_go.Prelude.Text.{eq_iff}
use betting_processing_go.Prelude.Int.{
  ℤ, pos, negsuc, pos_part, neg_part, ltb_ℤ, eqb_ℤ, ◌≤ℤ◌, ◌+ℤ◌, ◌-ℤ◌, int_laws,
}
use betting_processing_go.Prelude.Int64.{IsInt64}
use betting_processing_go.Errors.{ok}
use betting_processing_go.Money.{Money, is_zero, is_negative}
use betting_processing_go.Money.Arithmetic.{sign, add-exact, subtract-exact, compare_money-sign}
use betting_processing_go.Wallet.Defs.{Time}
use betting_processing_go.Wallet.Entry.{
  Direction, LedgerEntry, is_direction, check_math, new_ledger_entry,
}

-- The signed effect of an entry on its balance.
abbrev pub signed : Direction → ℤ → ℤ
signed Direction.credit z = z
signed Direction.debit z = pos 0 -ℤ z
signed (Direction.other_direction s) z = pos 0

-- The amounts of an entry in one currency: a positive amount, and balances of zero or more that
-- differ by it.
pub record Agrees (d : Direction) (amount before after : Money) : Type 0 where
  pub positive : ltb_ℤ (pos 0) amount.amount ≡ true
  pub before_nonneg : pos 0 ≤ℤ before.amount
  pub after_nonneg : pos 0 ≤ℤ after.amount
  pub currency_before : amount.currency ≡ before.currency
  pub currency_after : amount.currency ≡ after.currency
  pub moved : after.amount ≡ before.amount +ℤ signed d amount.amount

sign_zero_iff : (z : ℤ) → (eqb_ℤ (sign z) (pos 0) ≡ true) ↔ (z ≡ pos 0)
sign_zero_iff (pos zero) = ground arith
sign_zero_iff (pos (suc n)) = ground arith
sign_zero_iff (negsuc n) = ground arith

sub_zero_iff : (a b : ℤ) → (eqb_ℤ (sign (a -ℤ b)) (pos 0) ≡ true) ↔ (a ≡ b)
sub_zero_iff a b =
    let (there, back) = sign_zero_iff (a -ℤ b) in
    (
      λ h. let e = there h in omega (int_laws, ap pos_part e, ap neg_part e),
      λ e. back (let f : a -ℤ b ≡ pos 0 = rw e (omega int_laws) in f),
    )

add_neg_sub : (a b : ℤ) → a +ℤ (pos 0 -ℤ b) ≡ a -ℤ b
add_neg_sub a b = omega int_laws

module _ (amount before after : Money) (ha : IsInt64 amount.amount) (hb : IsInt64 before.amount)
    (hc : IsInt64 after.amount) (before_currency : amount.currency ≡ before.currency)
    (after_currency : amount.currency ≡ after.currency) where
  check_math_debit :
      ltb_ℤ (pos 0) amount.amount ≡ true
      → (check_math Direction.debit amount before after ≡ ok tt)
        ↔ (after.amount ≡ before.amount -ℤ amount.amount)
  unfolding check_math
  check_math_debit p =
      let z = before.amount -ℤ amount.amount in
      let r : Money = record { amount = z; currency = before.currency } in
      let (there, back) = sub_zero_iff z after.amount in
      (
        λ e. ground (
          arith,
          subtract-exact before amount hb ha,
          compare_money-sign r after,
          there,
          eq_iff before.currency amount.currency,
          eq_iff before.currency after.currency,
        ),
        λ e. ground (
          arith,
          subtract-exact before amount hb ha,
          compare_money-sign r after,
          back,
          eq_iff before.currency amount.currency,
          eq_iff before.currency after.currency,
        ),
      )

  check_math_credit :
      (check_math Direction.credit amount before after ≡ ok tt)
      ↔ (after.amount ≡ before.amount +ℤ amount.amount)
  unfolding check_math
  check_math_credit =
      let z = before.amount +ℤ amount.amount in
      let r : Money = record { amount = z; currency = before.currency } in
      let (there, back) = sub_zero_iff z after.amount in
      (
        λ e. ground (
          arith,
          add-exact before amount hb ha,
          compare_money-sign r after,
          there,
          eq_iff before.currency amount.currency,
          eq_iff before.currency after.currency,
        ),
        λ e. ground (
          arith,
          add-exact before amount hb ha,
          compare_money-sign r after,
          back,
          eq_iff before.currency amount.currency,
          eq_iff before.currency after.currency,
        ),
      )

-- The fields of a new entry.
abbrev pub entry_of :
    Time → String → String → String → Direction → Money → Money → Money → LedgerEntry
entry_of now id wallet_id transaction_id d amount before after = record {
  id = id;
  wallet_id = wallet_id;
  transaction_id = transaction_id;
  direction = d;
  amount = amount;
  currency = amount.currency;
  balance_before = before;
  balance_after = after;
  created_at = now;
}

module _ (now : Time) (id wallet_id transaction_id : String) (amount before after : Money)
    (ha : IsInt64 amount.amount) (hb : IsInt64 before.amount) (hc : IsInt64 after.amount) where
  -- Where the three amounts are int64 values, an entry that NewLedgerEntry makes has a positive
  -- amount, balances of zero or more in the amount's currency, and a balance afterwards that is the
  -- balance before plus a credit or less a debit, exactly; its fields are the arguments.
  pub new_entry_sound :
      (d : Direction) {e : LedgerEntry}
      → new_ledger_entry now id wallet_id transaction_id d amount before after ≡ ok e
      → Agrees d amount before after
        × (e ≡ entry_of now id wallet_id transaction_id d amount before after)
  unfolding new_ledger_entry is_negative is_zero
  new_entry_sound Direction.debit {e} h = ground (
    arith,
    check_math_debit amount before after ha hb hc,
    add_neg_sub before.amount amount.amount,
    eq_iff amount.currency before.currency,
    eq_iff amount.currency after.currency,
  )
  new_entry_sound Direction.credit {e} h = ground (
    arith,
    check_math_credit amount before after ha hb hc,
    eq_iff amount.currency before.currency,
    eq_iff amount.currency after.currency,
  )
  new_entry_sound (Direction.other_direction s) {e} h = absurd (ground arith)

  -- Where the three amounts are int64 values and agree in that sense, the direction is DEBIT or
  -- CREDIT and neither the wallet nor the transaction id is empty, NewLedgerEntry makes the entry.
  pub new_entry_complete :
      (d : Direction)
      → Agrees d amount before after
      → wallet_id ≢ ""
      → transaction_id ≢ ""
      → is_direction d ≡ true
      → new_ledger_entry now id wallet_id transaction_id d amount before after
        ≡ ok (entry_of now id wallet_id transaction_id d amount before after)
  unfolding new_ledger_entry is_negative is_zero
  new_entry_complete Direction.debit g hw ht k = ground (
    arith,
    check_math_debit amount before after ha hb hc g.currency_before g.currency_after g.positive,
    add_neg_sub before.amount amount.amount,
    eq_iff amount.currency before.currency,
    eq_iff amount.currency after.currency,
    eq_iff wallet_id "",
    eq_iff transaction_id "",
  )
  new_entry_complete Direction.credit g hw ht k = ground (
    arith,
    check_math_credit amount before after ha hb hc g.currency_before g.currency_after,
    eq_iff amount.currency before.currency,
    eq_iff amount.currency after.currency,
    eq_iff wallet_id "",
    eq_iff transaction_id "",
  )
  new_entry_complete (Direction.other_direction s) g hw ht k = absurd (cc)
