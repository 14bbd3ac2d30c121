-- ===== src/Money/Decimal.antt =====
-- ParseMoney on decimal amounts.
pub mod Scan
pub mod Split
use Scan.{
  IsDigit, value, IsPlain, All-digits→All, All→all_digits, All-IsPlain, All-append-IsPlain,
  trim_space_plain, text_eq_refl, text_eq_sound, lacks_separators, not_scientific,
  parse_uint_from-value, le-value,
}
use Split.{join, join-split, Lacks, split-Lacks, split-append}
use betting_processing_go.Prelude.{
  ℕ, ◌+◌, ◌-◌, ◌*◌, ◌^◌, ◌≤◌, ◌<◌, ◌≡◌, ◌≢◌, ◌⊎◌, refl, Bool, true, false, not, Option, none, some,
  List, [], ◌∷◌, ◌++◌, ltb, ◌==◌, All, Bool-cases, inl, inr, arith, if◌then◌else◌,
}
use betting_processing_go.Prelude.Text.{Text, str_eq, eq_iff}
use betting_processing_go.Prelude.Int.{pos}
use betting_processing_go.Errors.{Result, ok, err, MoneyError, money_err, ◌>>=◌}
use betting_processing_go.Money.Defs.{Money, Currency, brl, valid, new_money}
use betting_processing_go.Money.Parse.{
  text_eq, split, is_digits, all_digits, byte_len, char_len, parse_uint, parse_uint_from,
  starts_with_char, contains_any, parse_minor, combine, parse_parts, check_input, parse_money,
  is_digit, or_overflow, max_whole, max_minor,
}

-- The grammar of an amount, with its value in minor units.
pub data Denotes : Text → ℕ → Type 0 where
  units : (w : Text) → w ≢ [] → All IsDigit w → Denotes w (value 0 w * 100)
  tenths :
      (w : Text) (d : ℕ)
      → w ≢ []
      → All IsDigit w
      → IsDigit d
      → Denotes (w ++ b'.' ∷ d ∷ []) (value 0 w * 100 + (d - b'0') * 10)
  cents :
      (w : Text) (d e : ℕ)
      → w ≢ []
      → All IsDigit w
      → IsDigit d
      → IsDigit e
      → Denotes (w ++ b'.' ∷ d ∷ e ∷ []) (value 0 w * 100 + ((d - b'0') * 10 + (e - b'0')))

pub parse_uint-value :
    (s : Text) → parse_uint s ≡ (if ltb (2 ^ 64 - 1) (value 0 s) then none else some (value 0 s))
unfolding parse_uint
parse_uint-value s = parse_uint_from-value s 0 (omega arith)

-- The bound on the two parts is the bound of an int64 on the whole.
pub combine_exact :
    (whole minor : ℕ)
    → minor < 100
    → combine whole minor brl ≡ (
        if ltb (2 ^ 63 - 1) (whole * 100 + minor)
        then money_err MoneyError.overflow
        else ok (record { amount = pos (whole * 100 + minor); currency = brl }))
unfolding combine new_money
combine_exact whole minor h = ground arith

is_digits-true : (w : Text) → w ≢ [] → All IsDigit w → is_digits w ≡ true
unfolding is_digits
is_digits-true [] ne h = absurd (ne refl)
is_digits-true (c ∷ w) ne h = All→all_digits (c ∷ w) h

pub parse_minor_one : (d : ℕ) → IsDigit d → parse_minor (d ∷ []) ≡ ok ((d - b'0') * 10)
unfolding parse_minor byte_len is_digits all_digits parse_uint parse_uint_from text_eq
parse_minor_one d h = ground arith

pub parse_minor_two :
    (d e : ℕ) → IsDigit d → IsDigit e → parse_minor (d ∷ e ∷ []) ≡ ok ((d - b'0') * 10 + (e - b'0'))
unfolding parse_minor byte_len is_digits all_digits parse_uint parse_uint_from text_eq
parse_minor_two d e hd he = ground arith

text_eq-nil : (c : ℕ) (s : Text) → text_eq (c ∷ s) [] ≡ false
unfolding text_eq
text_eq-nil c s = refl

check_input_plain : (s : Text) → s ≢ [] → All IsPlain s → check_input s brl ≡ ok tt
unfolding check_input valid starts_with_char
check_input_plain [] ne h = absurd (ne refl)
check_input_plain (c ∷ s) ne h = ground (
  arith,
  text_eq-nil c s,
  trim_space_plain (c ∷ s) h,
  text_eq_refl (c ∷ s),
  not_scientific (c ∷ s) h,
  lacks_separators (c ∷ s) h,
)

-- What an amount is parsed to: its value, or an overflow error.
abbrev pub bounded : ℕ → Result Money
bounded n =
    if ltb (2 ^ 63 - 1) n
    then money_err MoneyError.overflow
    else ok (record { amount = pos n; currency = brl })

parse_parts_whole :
    (w : Text) → w ≢ [] → All IsDigit w → parse_parts (w ∷ []) brl ≡ bounded (value 0 w * 100)
unfolding parse_parts
parse_parts_whole w ne h =
    ground (arith, is_digits-true w ne h, parse_uint-value w, combine_exact (value 0 w) 0)

parse_parts_minor :
    (w f : Text) (k : ℕ)
    → w ≢ []
    → All IsDigit w
    → k < 100
    → parse_minor f ≡ ok k
    → parse_parts (w ∷ f ∷ []) brl ≡ bounded (value 0 w * 100 + k)
unfolding parse_parts
parse_parts_minor w f k ne h hk e =
    ground (arith, is_digits-true w ne h, parse_uint-value w, combine_exact (value 0 w) k)

parse_money_plain :
    (s : Text) → s ≢ [] → All IsPlain s → parse_money s brl ≡ parse_parts (split b'.' s) brl
unfolding parse_money
parse_money_plain s ne h = rw (check_input_plain s ne h)

digits_lack_point : (w : Text) → All IsDigit w → Lacks b'.' w
digits_lack_point [] h = tt
digits_lack_point (c ∷ w) (hc, hw) = (omega arith, digits_lack_point w hw)

append-ne-nil : (w t : Text) → w ≢ [] → w ++ t ≢ []
append-ne-nil [] t h = absurd (h refl)
append-ne-nil (c ∷ w) t h = cc

-- An amount with a point is split into its two parts.
parse_money_parts :
    (w f : Text) (k : ℕ)
    → w ≢ []
    → All IsDigit w
    → All IsDigit f
    → k < 100
    → parse_minor f ≡ ok k
    → parse_money (w ++ b'.' ∷ f) brl ≡ bounded (value 0 w * 100 + k)
parse_money_parts w f k ne hw hf hk e =
    let plain =
      All-append-IsPlain w (b'.' ∷ f) (All-IsPlain w hw)
        ((omega arith, omega arith, omega arith), All-IsPlain f hf) in
    rw
      (
        parse_money_plain _ (append-ne-nil w _ ne) plain,
        split-append b'.' w f (digits_lack_point w hw),
        split-Lacks b'.' f (digits_lack_point f hf),
      )
      (parse_parts_minor w f k ne hw hk e)

-- Every amount of the grammar in the supported currency is parsed to its value if an int64 holds the
-- value, and refused with the overflow error if not.
pub parse_money_complete : (s : Text) (n : ℕ) → Denotes s n → parse_money s brl ≡ bounded n
parse_money_complete _ _ (units w ne hw) =
    rw (parse_money_plain w ne (All-IsPlain w hw), split-Lacks b'.' w (digits_lack_point w hw))
      (parse_parts_whole w ne hw)
parse_money_complete _ _ (tenths w d ne hw hd) =
    parse_money_parts w (d ∷ []) ((d - b'0') * 10) ne hw (hd, tt) (omega arith)
      (parse_minor_one d hd)
parse_money_complete _ _ (cents w d e ne hw hd he) =
    parse_money_parts w (d ∷ e ∷ []) ((d - b'0') * 10 + (e - b'0')) ne hw (hd, (he, tt))
      (omega arith) (parse_minor_two d e hd he)
