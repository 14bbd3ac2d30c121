-- ===== src/Money/Arithmetic.antt =====
-- The overflow tests of Add, Subtract, Negate and the order of Compare, against exact integers.
use betting_processing_go.Prelude.{
  zero, suc, ◌-◌, ◌^◌, ◌≡◌, ◌≢◌, inl, inr, Bool, ◌&&◌, leb, Bool-cases, arith, if◌then◌else◌,
}
use betting_processing_go.Prelude.Text.{str_eq}
use betting_processing_go.Prelude.Int.{
  ℤ, pos, negsuc, pos_part, neg_part, ◌+ℤ◌, ◌-ℤ◌, ltb_ℤ, eqb_ℤ, int_laws,
}
use betting_processing_go.Prelude.Int64.{
  IsInt64, max_int64, min_int64, wrap64, wrap64_exact, add64, sub64, neg64,
}
use betting_processing_go.Errors.{Result, ok, MoneyError, money_err, ◌>>=◌}
use betting_processing_go.Money.Defs.{Money, add, subtract, negate, compare_money}

abbrev pub fits_int64 : ℤ → Bool
fits_int64 z = leb (pos_part z) (2 ^ 63 - 1) && leb (neg_part z) (2 ^ 63)

-- What an addition should do: the exact sum, or an error.
abbrev pub exact : Bool → ℤ → Money → Result Money
exact same z m =
    if same
    then if fits_int64 z
      then ok (record { amount = z; currency = m.currency })
      else money_err MoneyError.overflow
    else money_err MoneyError.currency_mismatch

add64_exact : (a b : ℤ) → IsInt64 (a +ℤ b) → add64 a b ≡ a +ℤ b
unfolding add64
add64_exact a b h = wrap64_exact _ h

sub64_exact : (a b : ℤ) → IsInt64 (a -ℤ b) → sub64 a b ≡ a -ℤ b
unfolding sub64
sub64_exact a b h = wrap64_exact _ h

-- The two guards of Add compute `max - other` and `min - other` without wrapping around.
add_upper :
    (a b : ℤ)
    → IsInt64 a
    → IsInt64 b
    → (ltb_ℤ (pos 0) b && ltb_ℤ (sub64 max_int64 b) a) ≡ ltb_ℤ max_int64 (a +ℤ b)
unfolding sub64 wrap64 ◌-ℤ◌ ◌+ℤ◌
add_upper a b ha hb = ground arith

add_lower :
    (a b : ℤ)
    → IsInt64 a
    → IsInt64 b
    → (ltb_ℤ b (pos 0) && ltb_ℤ a (sub64 min_int64 b)) ≡ ltb_ℤ (a +ℤ b) min_int64
unfolding sub64 wrap64 ◌-ℤ◌ ◌+ℤ◌
add_lower a b ha hb = ground arith

-- Add returns the exact sum where an int64 holds it, and otherwise the overflow error.
pub add-exact :
    (m other : Money)
    → IsInt64 m.amount
    → IsInt64 other.amount
    → add m other ≡ exact (str_eq m.currency other.currency) (m.amount +ℤ other.amount) m
unfolding add
add-exact m other hm ho = ground (
  arith,
  add_upper m.amount other.amount hm ho,
  add_lower m.amount other.amount hm ho,
  add64_exact m.amount other.amount,
)

neg64_exact : (a : ℤ) → IsInt64 a → a ≢ min_int64 → neg64 a ≡ pos 0 -ℤ a
unfolding neg64 sub64 wrap64 ◌-ℤ◌
neg64_exact a h ne = ground arith

neg-IsInt64 : (a : ℤ) → IsInt64 a → a ≢ min_int64 → IsInt64 (pos 0 -ℤ a)
unfolding ◌-ℤ◌
neg-IsInt64 a h ne = ground arith

add_neg : (a b : ℤ) → a +ℤ (pos 0 -ℤ b) ≡ a -ℤ b
add_neg a b = omega int_laws

-- Subtract returns the exact difference where an int64 holds it, and otherwise the overflow error,
-- which it also returns for every subtrahend that is the least int64.
pub subtract-exact :
    (m other : Money)
    → IsInt64 m.amount
    → IsInt64 other.amount
    → subtract m other ≡ (
        if str_eq m.currency other.currency && eqb_ℤ other.amount min_int64
        then money_err MoneyError.overflow
        else exact (str_eq m.currency other.currency) (m.amount -ℤ other.amount) m)
unfolding subtract
subtract-exact m other hm ho = elim (Bool-cases (eqb_ℤ other.amount min_int64)) [
  | inl least ↦ ground arith
  | inr more ↦ ground (
    arith,
    neg64_exact other.amount ho,
    neg-IsInt64 other.amount ho,
    add_neg m.amount other.amount,
    add-exact m (record { amount = neg64 other.amount; currency = other.currency }),
  )
]

abbrev pub sign : ℤ → ℤ
sign (pos zero) = pos 0
sign (pos (suc n)) = pos 1
sign (negsuc n) = negsuc 0

-- Compare returns the sign of the exact difference for amounts in one currency, and otherwise the
-- mismatch error.
pub compare_money-sign :
    (m other : Money)
    → compare_money m other ≡ (
        if str_eq m.currency other.currency
        then ok (sign (m.amount -ℤ other.amount))
        else money_err MoneyError.currency_mismatch)
unfolding compare_money ◌-ℤ◌
compare_money-sign m other = ground arith

-- Negating twice gives the amount back, and only the least int64 has no negation.
pub negate-negate :
    (m : Money)
    → IsInt64 m.amount
    → (if eqb_ℤ m.amount min_int64
        then negate m ≡ money_err MoneyError.overflow
        else (negate m >>= negate) ≡ ok m)
unfolding negate neg64 sub64 wrap64 ◌-ℤ◌
negate-negate m h = ground arith

add_sub_cancel : (a b : ℤ) → a +ℤ b -ℤ b ≡ a
add_sub_cancel a b = omega int_laws

-- A sum that Add accepts is undone by Subtract.
pub subtract-add :
    (m other : Money) {r : Money}
    → IsInt64 m.amount
    → IsInt64 other.amount
    → other.amount ≢ min_int64
    → add m other ≡ ok r
    → subtract r other ≡ ok m
subtract-add m other {r} hm ho ne h =
    ground
      (arith, add-exact m other hm ho, subtract-exact r other, add_sub_cancel m.amount other.amount)
