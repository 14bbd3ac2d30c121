-- ===== src/Wallet/Tests.antt =====
-- Tests of wallets and ledger entries, and the theorems at concrete inputs.
use betting_processing_go.Prelude.{◌<◌, ◌≤◌, ◌≡◌, ◌≢◌, refl, true, arith}
use betting_processing_go.Prelude.Text.{
  trim_string, trim_string_right, trim_string_left, keep_char_unless_blank, is_space, eq_iff,
}
use betting_processing_go.Prelude.Int.{pos, ltb_ℤ, ◌≤ℤ◌, ◌+ℤ◌, ◌-ℤ◌}
use betting_processing_go.Prelude.Int64.{add64, sub64, neg64, wrap64}
use betting_processing_go.Errors.{ok, WalletError, wallet_err}
use betting_processing_go.Money.{brl, is_negative, is_zero, add, subtract, compare_money}
use betting_processing_go.Wallet.Defs.{
  Wallet, new_wallet, rehydrate_wallet, changed, debit_wallet, credit_wallet, can_debit,
}
use betting_processing_go.Wallet.Entry.{Direction, LedgerEntry, new_ledger_entry}
use betting_processing_go.Wallet.Balance.{
  credit-Reports, IsValid, Reports, debit_reference, credit_reference, debit_exact, credit_exact,
  debit-Reports, brl_of,
}
use betting_processing_go.Wallet.Identity.{trimmed, rehydrate-new, rehydrate_sound}
use betting_processing_go.Wallet.EntryMath.{Agrees, entry_of, new_entry_sound, new_entry_complete}

abbrev purse : Wallet
purse = record {
  id = "w1";
  player_id = "p1";
  provider_id = "acme";
  currency = brl;
  balance = brl_of (pos 1000);
  version = pos 1;
  created_at = 5;
  updated_at = 5;
}

purse-IsValid : IsValid purse
purse-IsValid = ground arith

-- A name is trimmed, and the two empty names are refused in their order.
new_purse :
    (new_wallet 5 " w1" "p1 " "acme" (brl_of (pos 1000)) ≡ ok purse)
    × (new_wallet 5 " " "" "acme" (brl_of (pos 1000)) ≡ wallet_err WalletError.invalid_wallet_id)
unfolding new_wallet trim_string trim_string_right trim_string_left keep_char_unless_blank is_space
    is_negative
new_purse = (refl, refl)

debit_purse : debit_wallet 9 (brl_of (pos 300)) purse ≡ ok (changed 9 purse (brl_of (pos 700)))
unfolding debit_wallet can_debit is_negative is_zero compare_money subtract add neg64 add64 sub64
    wrap64 ◌+ℤ◌ ◌-ℤ◌
debit_purse = refl

credit_purse : credit_wallet 9 (brl_of (pos 300)) purse ≡ ok (changed 9 purse (brl_of (pos 1300)))
unfolding credit_wallet is_negative is_zero add add64 sub64 wrap64 ◌+ℤ◌ ◌-ℤ◌
credit_purse = refl

overdraft : debit_wallet 9 (brl_of (pos 1001)) purse ≡ wallet_err WalletError.insufficient_balance
unfolding debit_wallet can_debit is_negative is_zero compare_money
overdraft = refl

debit_exact_example :
    debit_wallet 9 (brl_of (pos 300)) purse ≡ debit_reference 9 (brl_of (pos 300)) purse
debit_exact_example = debit_exact 9 (brl_of (pos 300)) purse purse-IsValid (omega arith)

credit_exact_example :
    credit_wallet 9 (brl_of (pos 300)) purse ≡ credit_reference 9 (brl_of (pos 300)) purse
credit_exact_example = credit_exact 9 (brl_of (pos 300)) purse purse-IsValid (omega arith)

debit-Reports_example :
    (ltb_ℤ (pos 0) (pos 300) ≡ true)
    × (pos 300 ≤ℤ pos 1000)
    × Reports purse
        (changed 9 purse (brl_of (pos 700))).0
        (changed 9 purse (brl_of (pos 700))).1
        (pos 1000 -ℤ pos 300)
debit-Reports_example =
    debit-Reports 9 (brl_of (pos 300)) purse (changed 9 purse (brl_of (pos 700))).0
      (changed 9 purse (brl_of (pos 700))).1 purse-IsValid (omega arith) debit_purse

credit-Reports_example :
    (ltb_ℤ (pos 0) (pos 300) ≡ true)
    × Reports purse
        (changed 9 purse (brl_of (pos 1300))).0
        (changed 9 purse (brl_of (pos 1300))).1
        (pos 1000 +ℤ pos 300)
credit-Reports_example =
    credit-Reports 9 (brl_of (pos 300)) purse (changed 9 purse (brl_of (pos 1300))).0
      (changed 9 purse (brl_of (pos 1300))).1 purse-IsValid (omega arith) credit_purse

rehydrate-new_example :
    (rehydrate_wallet purse ≡ ok purse)
    × IsValid purse
    × (brl_of (pos 1000) ≡ brl_of (pos 1000))
    × (pos 1 ≡ pos 1)
rehydrate-new_example =
    rehydrate-new 5 " w1" "p1 " "acme" (brl_of (pos 1000)) (omega arith) (omega arith) new_purse.0

rehydrate_purse : rehydrate_wallet purse ≡ ok purse
unfolding rehydrate_wallet trim_string trim_string_right trim_string_left keep_char_unless_blank
    is_space is_negative
rehydrate_purse = refl

rehydrate_sound_example :
    IsValid purse
    × (trim_string "w1" ≢ "")
    × (trim_string "p1" ≢ "")
    × (trim_string "acme" ≢ "")
    × (purse.currency ≡ "BRL")
    × (pos 1 ≤ℤ pos 1)
    × (0 < 5)
    × (5 ≤ 5)
    × (purse ≡ trimmed purse)
rehydrate_sound_example = rehydrate_sound purse (omega arith) rehydrate_purse

abbrev stake : LedgerEntry
stake =
    entry_of 9 "" "w1" "t1" Direction.debit (brl_of (pos 300)) (brl_of (pos 1000))
      (brl_of (pos 700))

new_stake :
    new_ledger_entry 9 "" "w1" "t1" Direction.debit
      (brl_of (pos 300))
      (brl_of (pos 1000))
      (brl_of (pos 700))
    ≡ ok stake
unfolding new_ledger_entry is_negative is_zero compare_money subtract add neg64 add64 sub64 wrap64
    ◌+ℤ◌ ◌-ℤ◌
new_stake = refl

new_entry_sound_example :
    Agrees Direction.debit (brl_of (pos 300)) (brl_of (pos 1000)) (brl_of (pos 700))
    × (stake ≡ stake)
new_entry_sound_example =
    new_entry_sound 9 "" "w1" "t1" (brl_of (pos 300)) (brl_of (pos 1000)) (brl_of (pos 700))
      (omega arith) (omega arith) (omega arith) Direction.debit new_stake

win-Agrees : Agrees Direction.credit (brl_of (pos 300)) (brl_of (pos 700)) (brl_of (pos 1000))
unfolding ◌+ℤ◌
win-Agrees = record {
  positive = refl;
  before_nonneg = omega arith;
  after_nonneg = omega arith;
  currency_before = refl;
  currency_after = refl;
  moved = refl;
}

new_entry_complete_example :
    new_ledger_entry 9 "" "w1" "t2" Direction.credit
      (brl_of (pos 300))
      (brl_of (pos 700))
      (brl_of (pos 1000))
    ≡ ok (
        entry_of 9 "" "w1" "t2" Direction.credit
          (brl_of (pos 300))
          (brl_of (pos 700))
          (brl_of (pos 1000)))
unfolding new_ledger_entry
new_entry_complete_example =
    new_entry_complete 9 "" "w1" "t2" (brl_of (pos 300)) (brl_of (pos 700)) (brl_of (pos 1000))
      (omega arith) (omega arith) (omega arith) Direction.credit win-Agrees
      (ground (arith, eq_iff "w1" "")) (ground (arith, eq_iff "t2" "")) refl
