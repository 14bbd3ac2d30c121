-- ===== src/WagerService/Sound/Kinds.antt =====
-- processBet, processWin and processLoss, and the invariant.
use betting_processing_go.Prelude.{String, false, Option, none, some}
use betting_processing_go.Prelude.Text.{str_eq}
use betting_processing_go.Prelude.Int64.{IsInt64}
use betting_processing_go.Errors.{Result, ok, err}
use betting_processing_go.Money.{Money}
use betting_processing_go.Wallet.{Direction, BalanceChange}
use betting_processing_go.Wallet.EntryMath.{signed}
use betting_processing_go.Wager.{Transaction, set_result_balance}
use betting_processing_go.WalletService.{apply_balance_change, service_debit, service_credit}
use betting_processing_go.WalletService.Change.{Changed, apply_balance_change-During}
use betting_processing_go.Store.{Env, World, Tables, attempt}
use betting_processing_go.Store.During.{
  During, Keeps, OnOk, bind-During, map_err-During, lift-During, return-During, attempt-During,
  begin_tx-During, commit_tx-Keeps, if-During,
}
use betting_processing_go.Store.Throughout.{Throughout-During, attempt-Throughout}
use betting_processing_go.Store.Frame.{formed_frame}
use betting_processing_go.WagerService.Kinds.{
  after_move, process_bet, check_win, after_win_check, process_win, store_loss, process_loss,
}
use betting_processing_go.WagerService.Sound.Statements.{
  Good, Good-Steady, create_transaction_tx-During, record_inbox-During, emit-Good,
  complete_inbox-Good,
}
use betting_processing_go.WagerService.Sound.Reads.{
  find_by_external_id-Throughout, get_wallet_balance-Throughout,
}
use betting_processing_go.WagerService.Sound.Steps.{
  Alike, Alike-HasInt64, HasInt64, transition-During, reject-Keeps,
}
use betting_processing_go.WagerService.Sound.Refusals.{refuse_move-Keeps}
use betting_processing_go.WagerService.Sound.Settling.{settle-Keeps}

-- What a balance change leaves where it succeeds.
abbrev pub Moved : String → Direction → Money → Result BalanceChange → Tables → Type 0
Moved id d amount = OnOk (λ change t. Changed formed_frame id (signed d amount.amount) change t)

module _ (env : Env) where
  pub attempt-Moved :
      (d : Direction) (id : String) (amount : Money) (w : World)
      → IsInt64 amount.amount
      → Good w.committed
      → Good w.current
      → During Good (Moved id d amount) (attempt (apply_balance_change env false id amount d) w)
  attempt-Moved d id amount w a h g = attempt-During Good _ w (
      apply_balance_change-During formed_frame (λ z i. i) env Good id amount d w h g g.frame.keyed
        a)

  after_move-Keeps :
      (tx : Transaction) (d : Direction) (amount : Money) (message_id : String)
      (r : Result BalanceChange) (w : World)
      → HasInt64 tx
      → Good w.committed
      → Moved tx.wallet_id d amount r w.current
      → Keeps Good (after_move env tx d amount message_id r w)
  unfolding after_move
  after_move-Keeps tx d amount message_id (ok change) w a h c =
      settle-Keeps env d amount change tx message_id w a h c.owed
  after_move-Keeps tx d amount message_id (err e) w a h c = refuse_move-Keeps env tx e w a h

  pub process_bet-Keeps :
      (tx : Transaction) (amount : Money) (message_id : String) (w : World)
      → HasInt64 tx
      → IsInt64 amount.amount
      → Good w.committed
      → Keeps Good (process_bet env tx amount message_id w)
  unfolding process_bet service_debit
  process_bet-Keeps tx amount message_id w a i h =
      bind-During Good (λ _ t. Good t) _ _ w
        (map_err-During Good _ _ w (begin_tx-During Good env w h))
        (λ u w1 h1 g1.
          bind-During Good (Moved tx.wallet_id Direction.debit amount) _ _ w1
            (attempt-Moved Direction.debit tx.wallet_id amount w1 i h1 g1)
            (λ r w2 h2 c. after_move-Keeps tx Direction.debit amount message_id r w2 a h2 c))

  check_win-Keeps :
      (tx : Transaction) (provider reference : String) (w : World)
      → Good w.committed
      → Keeps Good (check_win env tx provider reference w)
  unfolding check_win
  check_win-Keeps tx provider reference w h =
      if-During Good (str_eq reference "") _ _ w (λ e. return-During Good none w h tt)
        (λ e.
          bind-During Good (λ _ _. Unit {0}) _ _ w
            (attempt-Throughout Good (λ _. Unit {0}) _ w
              (find_by_external_id-Throughout Good (λ _. Unit {0}) env provider reference w h tt))
            (λ found w1 h1 u. lift-During Good _ w1 h1 (λ a p. tt)))

  after_win_check-Keeps :
      (tx : Transaction) (amount : Money) (message_id : String) (o : Option String) (w : World)
      → HasInt64 tx
      → IsInt64 amount.amount
      → Good w.committed
      → Keeps Good (after_win_check env tx amount message_id o w)
  unfolding after_win_check service_credit
  after_win_check-Keeps tx amount message_id (some code) w a i h = reject-Keeps env code tx w a h
  after_win_check-Keeps tx amount message_id none w a i h =
      bind-During Good (λ _ t. Good t) _ _ w
        (map_err-During Good _ _ w (begin_tx-During Good env w h))
        (λ u w1 h1 g1.
          bind-During Good (Moved tx.wallet_id Direction.credit amount) _ _ w1
            (attempt-Moved Direction.credit tx.wallet_id amount w1 i h1 g1)
            (λ r w2 h2 c. after_move-Keeps tx Direction.credit amount message_id r w2 a h2 c))

  pub process_win-Keeps :
      (tx : Transaction) (provider reference : String) (amount : Money) (message_id : String)
      (w : World)
      → HasInt64 tx
      → IsInt64 amount.amount
      → Good w.committed
      → Keeps Good (process_win env tx provider reference amount message_id w)
  unfolding process_win
  process_win-Keeps tx provider reference amount message_id w a i h =
      bind-During Good (λ _ _. Unit {0}) _ _ w (check_win-Keeps tx provider reference w h)
        (λ refusal w1 h1 u. after_win_check-Keeps tx amount message_id refusal w1 a i h1)

  store_loss-Keeps :
      (tx : Transaction) (message_id : String) (w : World)
      → HasInt64 tx
      → Good w.committed
      → Good w.current
      → Keeps Good (store_loss env tx message_id w)
  unfolding store_loss
  store_loss-Keeps tx message_id w a h g =
      bind-During Good (λ _ t. Good t) _ _ w
        (record_inbox-During env Good Good Good-Steady message_id w h g)
        (λ u w1 h1 g1.
          bind-During Good (λ _ t. Good t) _ _ w1
            (map_err-During Good _ _ w1
              (create_transaction_tx-During env Good Good Good-Steady tx w1 a h1 g1))
            (λ id w2 h2 g2.
              bind-During Good (λ _ t. Good t) _ _ w2 (emit-Good env Good _ _ w2 h2 g2)
                (λ u w3 h3 g3.
                  bind-During Good (λ _ t. Good t) _ _ w3
                    (complete_inbox-Good env message_id w3 h3 g3)
                    (λ u w4 h4 g4.
                      bind-During Good (λ _ _. Unit {0}) _ _ w4
                        (map_err-During Good _ _ w4 (commit_tx-Keeps Good env w4 h4 g4))
                        (λ u w5 h5 g5. return-During Good _ w5 h5 tt)))))

  pub process_loss-Keeps :
      (tx : Transaction) (message_id : String) (w : World)
      → HasInt64 tx
      → Good w.committed
      → Keeps Good (process_loss env tx message_id w)
  unfolding process_loss set_result_balance
  process_loss-Keeps tx message_id w a h =
      bind-During Good (λ tx1 _. Alike tx tx1 × Unit {0}) _ _ w
        (transition-During env Good (λ _. Unit {0}) _ tx w h tt)
        (λ tx1 w1 h1 (s, u).
          bind-During Good (λ _ t. Good t) _ _ w1
            (map_err-During Good _ _ w1 (begin_tx-During Good env w1 h1))
            (λ u w2 h2 g2.
              bind-During Good (λ _ t. Good t) _ _ w2
                (Throughout-During Good Good
                  (get_wallet_balance-Throughout Good Good env tx1.wallet_id w2 h2 g2))
                (λ before w3 h3 g3.
                  bind-During Good (λ _ _. Unit {0}) _ _ w3
                    (store_loss-Keeps _ message_id w3 (Alike-HasInt64 tx tx1 s a) h3 g3)
                    (λ tx2 w4 h4 u.
                      bind-During Good (λ _ _. Unit {0}) _ _ w4
                        (Throughout-During Good (λ _. Unit {0})
                          (get_wallet_balance-Throughout Good (λ _. Unit {0}) env _ w4 h4 tt))
                        (λ balance w5 h5 u. return-During Good _ w5 h5 tt)))))
