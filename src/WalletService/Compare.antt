-- ===== src/WalletService/Compare.antt =====
-- service.go: the comparison of the stored balance with the ledger's sum, which ends Reconcile.
use betting_processing_go.Prelude.{ℕ, String, Bool, Option, none, some}
use betting_processing_go.Prelude.Int.{ℤ}
use betting_processing_go.Errors.{Result, ok, wrapping, ◌>>=◌}
use betting_processing_go.Money.{Money, new_money, subtract, is_zero}
use betting_processing_go.Wallet.{Wallet}

pub record ReconciliationResult : Type 0 where
  pub wallet_id : String
  pub stored_balance : Money
  pub calculated_balance : Money
  pub difference : Money
  pub consistent : Bool
  pub checked_entries : ℕ

unfoldable pub compare_books : String → Wallet → ℤ → ℕ → Result ReconciliationResult
compare_books wallet_id w sum checked = do
  calculated ← wrapping "parse calculated balance" (new_money sum w.currency)
  difference ← wrapping "calculate balance difference" (subtract w.balance calculated)
  ok (record {
    wallet_id = wallet_id;
    stored_balance = w.balance;
    calculated_balance = calculated;
    difference = difference;
    consistent = is_zero difference;
    checked_entries = checked;
  })

-- The comparison, where the loop has ended.
unfoldable pub compare_counted :
    String → Wallet → ℤ → Option ℕ → Result (Option ReconciliationResult)
unfolding compare_books
compare_counted wallet_id w sum none = ok none
compare_counted wallet_id w sum (some checked) = do
  result ← compare_books wallet_id w sum checked
  ok (some result)
