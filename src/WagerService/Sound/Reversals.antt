-- ===== src/WagerService/Sound/Reversals.antt =====
-- processRefund and processRollback, and the invariant.
use betting_processing_go.Prelude.{String, false, Option, none, some}
use betting_processing_go.Prelude.Text.{str_eq}
use betting_processing_go.Prelude.Int64.{IsInt64}
use betting_processing_go.Errors.{Result, ok, err}
use betting_processing_go.Money.{Money}
use betting_processing_go.Wallet.{Direction, BalanceChange}
use betting_processing_go.Wager.{Transaction, set_internal_reference}
use betting_processing_go.WalletService.{service_credit}
use betting_processing_go.Store.{Env, World, is_processed}
use betting_processing_go.Store.During.{
  Keeps, bind-During, map_err-During, return-During, lift-During, begin_tx-During, commit_tx-Keeps,
  read_clock-During, if-During, or_else-Keeps,
}
use betting_processing_go.Store.Throughout.{Throughout-During, attempt-Throughout}
use betting_processing_go.WagerService.Kinds.{
  move_wallet, Target, refused, waiting, reversible, is_not_found, processed_target, checked_target,
  found_target, find_target, park, after_reversal, act_refund, process_refund, move_back,
  act_rollback, process_rollback,
}
use betting_processing_go.WagerService.Sound.Statements.{
  Good, Good-Steady, create_transaction_tx-During, emit-Good,
}
use betting_processing_go.WagerService.Sound.Reads.{
  find_by_external_id-Throughout, has_successful_reversal-Throughout,
}
use betting_processing_go.WagerService.Sound.Steps.{
  Alike, Alike-HasInt64, HasInt64, transition-During, reject-Keeps,
}
use betting_processing_go.WagerService.Sound.Refusals.{refuse_reversal-Keeps}
use betting_processing_go.WagerService.Sound.Settling.{settle-Keeps}
use betting_processing_go.WagerService.Sound.Kinds.{Moved, attempt-Moved}

module _ (env : Env) where
  processed_target-Keeps :
      (ref : Transaction) (amount : Money) (w : World)
      → Good w.committed
      → Keeps Good (processed_target env ref amount w)
  unfolding processed_target
  processed_target-Keeps ref amount w h =
      bind-During Good (λ _ _. Unit {0}) _ _ w
        (or_else-Keeps Good false _ w (
          Throughout-During Good (λ _. Unit {0})
            (has_successful_reversal-Throughout Good (λ _. Unit {0}) env ref.id w h tt)))
        (λ reversed w1 h1 u. return-During Good _ w1 h1 tt)

  checked_target-Keeps :
      (ref : Transaction) (amount : Money) (r : Result (Unit {0})) (w : World)
      → Good w.committed
      → Keeps Good (checked_target env ref amount r w)
  unfolding checked_target
  checked_target-Keeps ref amount (err e) w h = return-During Good _ w h tt
  checked_target-Keeps ref amount (ok u) w h =
      if-During Good (is_processed ref.status) _ _ w (λ b. processed_target-Keeps ref amount w h)
        (λ b. return-During Good _ w h tt)

  found_target-Keeps :
      (tx : Transaction) (amount : Money) (r : Result Transaction) (w : World)
      → Good w.committed
      → Keeps Good (found_target env tx amount r w)
  unfolding found_target
  found_target-Keeps tx amount (ok ref) w h = checked_target-Keeps ref amount _ w h
  found_target-Keeps tx amount (err e) w h =
      if-During Good (is_not_found e) _ _ w (λ b. return-During Good _ w h tt)
        (λ b. lift-During Good _ w h (λ a p. tt))

  find_target-Keeps :
      (tx : Transaction) (provider reference : String) (amount : Money) (w : World)
      → Good w.committed
      → Keeps Good (find_target env tx provider reference amount w)
  unfolding find_target
  find_target-Keeps tx provider reference amount w h =
      if-During Good (str_eq reference "") _ _ w (λ b. return-During Good _ w h tt)
        (λ b.
          bind-During Good (λ _ _. Unit {0}) _ _ w
            (attempt-Throughout Good (λ _. Unit {0}) _ w
              (find_by_external_id-Throughout Good (λ _. Unit {0}) env provider reference w h tt))
            (λ found w1 h1 u. found_target-Keeps tx amount found w1 h1))

  park-Keeps :
      (tx : Transaction) (w : World) → HasInt64 tx → Good w.committed → Keeps Good (park env tx w)
  unfolding park
  park-Keeps tx w a h =
      bind-During Good (λ tx1 _. Alike tx tx1 × Unit {0}) _ _ w
        (transition-During env Good (λ _. Unit {0}) _ tx w h tt)
        (λ tx1 w1 h1 (s, u).
          bind-During Good (λ _ t. Good t) _ _ w1
            (map_err-During Good _ _ w1 (begin_tx-During Good env w1 h1))
            (λ u w2 h2 g2.
              bind-During Good (λ _ t. Good t) _ _ w2
                (map_err-During Good _ _ w2 (
                  create_transaction_tx-During env Good Good Good-Steady tx1 w2
                    (Alike-HasInt64 tx tx1 s a) h2 g2))
                (λ id w3 h3 g3.
                  bind-During Good (λ _ t. Good t) _ _ w3 (emit-Good env Good _ _ w3 h3 g3)
                    (λ u w4 h4 g4.
                      bind-During Good (λ _ _. Unit {0}) _ _ w4
                        (map_err-During Good _ _ w4 (commit_tx-Keeps Good env w4 h4 g4))
                        (λ u w5 h5 g5. return-During Good _ w5 h5 tt)))))

  after_reversal-Keeps :
      (tx ref : Transaction) (d : Direction) (amount : Money) (message_id : String)
      (r : Result BalanceChange) (w : World)
      → HasInt64 tx
      → Good w.committed
      → Moved tx.wallet_id d amount r w.current
      → Keeps Good (after_reversal env tx ref d amount message_id r w)
  unfolding after_reversal set_internal_reference
  after_reversal-Keeps tx ref d amount message_id (err e) w a h c =
      refuse_reversal-Keeps env tx e w a h
  after_reversal-Keeps tx ref d amount message_id (ok change) w a h c =
      bind-During Good (λ _ t. Moved tx.wallet_id d amount (ok change) t) _ _ w
        (read_clock-During Good env w h c)
        (λ now w1 h1 c1. settle-Keeps env d amount change _ message_id w1 a h1 c1.owed)

  act_refund-Keeps :
      (tx : Transaction) (amount : Money) (message_id : String) (target : Target) (w : World)
      → HasInt64 tx
      → IsInt64 amount.amount
      → Good w.committed
      → Keeps Good (act_refund env tx amount message_id target w)
  unfolding act_refund service_credit
  act_refund-Keeps tx amount message_id (refused code) w a i h = reject-Keeps env code tx w a h
  act_refund-Keeps tx amount message_id waiting w a i h = park-Keeps tx w a h
  act_refund-Keeps tx amount message_id (reversible ref) w a i h =
      bind-During Good (λ _ t. Good t) _ _ w
        (map_err-During Good _ _ w (begin_tx-During Good env w h))
        (λ u w1 h1 g1.
          bind-During Good (Moved tx.wallet_id Direction.credit amount) _ _ w1
            (attempt-Moved env Direction.credit tx.wallet_id amount w1 i h1 g1)
            (λ r w2 h2 c.
              after_reversal-Keeps tx ref Direction.credit amount message_id r w2 a h2 c))

  pub process_refund-Keeps :
      (tx : Transaction) (provider reference : String) (amount : Money) (message_id : String)
      (w : World)
      → HasInt64 tx
      → IsInt64 amount.amount
      → Good w.committed
      → Keeps Good (process_refund env tx provider reference amount message_id w)
  unfolding process_refund
  process_refund-Keeps tx provider reference amount message_id w a i h =
      bind-During Good (λ _ _. Unit {0}) _ _ w (find_target-Keeps tx provider reference amount w h)
        (λ target w1 h1 u. act_refund-Keeps tx amount message_id target w1 a i h1)

  move_back-Keeps :
      (tx ref : Transaction) (amount : Money) (message_id : String) (d : Option Direction)
      (w : World)
      → HasInt64 tx
      → IsInt64 amount.amount
      → Good w.committed
      → Good w.current
      → Keeps Good (move_back env tx ref amount message_id d w)
  unfolding move_back move_wallet
  move_back-Keeps tx ref amount message_id none w a i h g = reject-Keeps env _ tx w a h
  move_back-Keeps tx ref amount message_id (some d) w a i h g =
      bind-During Good (Moved tx.wallet_id d amount) _ _ w
        (attempt-Moved env d tx.wallet_id amount w i h g)
        (λ r w1 h1 c. after_reversal-Keeps tx ref d amount message_id r w1 a h1 c)

  act_rollback-Keeps :
      (tx : Transaction) (amount : Money) (message_id : String) (target : Target) (w : World)
      → HasInt64 tx
      → IsInt64 amount.amount
      → Good w.committed
      → Keeps Good (act_rollback env tx amount message_id target w)
  unfolding act_rollback
  act_rollback-Keeps tx amount message_id (refused code) w a i h = reject-Keeps env code tx w a h
  act_rollback-Keeps tx amount message_id waiting w a i h = park-Keeps tx w a h
  act_rollback-Keeps tx amount message_id (reversible ref) w a i h =
      bind-During Good (λ _ t. Good t) _ _ w
        (map_err-During Good _ _ w (begin_tx-During Good env w h))
        (λ u w1 h1 g1. move_back-Keeps tx ref amount message_id _ w1 a i h1 g1)

  pub process_rollback-Keeps :
      (tx : Transaction) (provider reference : String) (amount : Money) (message_id : String)
      (w : World)
      → HasInt64 tx
      → IsInt64 amount.amount
      → Good w.committed
      → Keeps Good (process_rollback env tx provider reference amount message_id w)
  unfolding process_rollback
  process_rollback-Keeps tx provider reference amount message_id w a i h =
      bind-During Good (λ _ _. Unit {0}) _ _ w (find_target-Keeps tx provider reference amount w h)
        (λ target w1 h1 u. act_rollback-Keeps tx amount message_id target w1 a i h1)
