-- ===== src/WagerService/Sound/Refusals.antt =====
-- The refusals after a balance change that failed.
use betting_processing_go.Prelude.{String, ◌||◌, refl}
use betting_processing_go.Prelude.Text.{str_eq}
use betting_processing_go.Errors.{Error, Result, ok, err}
use betting_processing_go.Money.{Money}
use betting_processing_go.Wager.{Transaction, set_result_balance}
use betting_processing_go.Store.{Env, World}
use betting_processing_go.Store.During.{
  During, Keeps, bind-During, lift-During, return-During, rollback_tx-During, if-During,
  or_else-Keeps,
}
use betting_processing_go.Store.Throughout.{attempt-Throughout}
use betting_processing_go.WagerService.Steps.{
  with_balance, record_refusal, refuse_move, refuse_reversal,
}
use betting_processing_go.WagerService.Sound.Statements.{Good}
use betting_processing_go.WagerService.Sound.Reads.{get_wallet_balance-Throughout}
use betting_processing_go.WagerService.Sound.Steps.{
  Alike, Alike-HasInt64, HasInt64, fail_with-During, create_and_reject-Keeps,
}

balance_kept :
    (tx : Transaction) (r : Result Money)
    → Alike tx (elim r [ ok m ↦ set_result_balance m tx | err e ↦ tx ])
unfolding set_result_balance
balance_kept tx (ok m) = record { wallet = refl; amount = refl }
balance_kept tx (err e) = record { wallet = refl; amount = refl }

module _ (env : Env) where
  with_balance-Alike :
      (tx : Transaction) (w : World)
      → Good w.committed
      → During Good (λ tx' _. Alike tx tx') (with_balance env tx w)
  unfolding with_balance
  with_balance-Alike tx w h =
      bind-During Good (λ _ _. Unit {0}) _ _ w
        (attempt-Throughout Good (λ _. Unit {0}) _ w
          (get_wallet_balance-Throughout Good (λ _. Unit {0}) env tx.wallet_id w h tt))
        (λ balance w1 h1 u. return-During Good _ w1 h1 (balance_kept tx balance))

  record_refusal-Keeps :
      (code insufficient : String) (tx : Transaction) (w : World)
      → HasInt64 tx
      → Good w.committed
      → Keeps Good (record_refusal env code insufficient tx w)
  unfolding record_refusal
  record_refusal-Keeps code insufficient tx w a h =
      bind-During Good (λ _ t. Good t) _ _ w (rollback_tx-During Good w h)
        (λ u w1 h1 g1.
          bind-During Good (λ tx1 _. Alike tx tx1 × Unit {0}) _ _ w1
            (fail_with-During env Good (λ _. Unit {0}) code tx w1 h1 tt)
            (λ tx1 w2 h2 (s, u).
              bind-During Good (λ tx2 _. Alike tx1 tx2) _ _ w2
                (if-During Good (str_eq code insufficient || str_eq code "CURRENCY_MISMATCH") _ _ w2
                  (λ e. with_balance-Alike tx1 w2 h2)
                  (λ e. return-During Good tx1 w2 h2 (record { wallet = refl; amount = refl })))
                (λ tx2 w3 h3 s2. or_else-Keeps Good tt _ w3 (
                  create_and_reject-Keeps env code tx2 w3
                    (Alike-HasInt64 tx1 tx2 s2 (Alike-HasInt64 tx tx1 s a)) h3))))

  pub refuse_move-Keeps :
      (tx : Transaction) (e : Error) (w : World)
      → HasInt64 tx
      → Good w.committed
      → Keeps Good (refuse_move env tx e w)
  unfolding refuse_move
  refuse_move-Keeps tx e w a h =
      bind-During Good (λ _ _. Unit {0}) _ _ w (record_refusal-Keeps _ _ tx w a h)
        (λ u w1 h1 g1. lift-During Good _ w1 h1 (λ r q. tt))

  pub refuse_reversal-Keeps :
      (tx : Transaction) (e : Error) (w : World)
      → HasInt64 tx
      → Good w.committed
      → Keeps Good (refuse_reversal env tx e w)
  unfolding refuse_reversal
  refuse_reversal-Keeps tx e w a h =
      bind-During Good (λ _ _. Unit {0}) _ _ w (record_refusal-Keeps _ _ tx w a h)
        (λ u w1 h1 g1. lift-During Good _ w1 h1 (λ r q. tt))
