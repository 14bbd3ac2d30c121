-- ===== src/WagerService/Sound/Resolve.antt =====
-- ResolvePendingReference after the row is claimed, and the invariant.
use betting_processing_go.Prelude.{sym, subst, false, Option, none, some}
use betting_processing_go.Prelude.Int.{ℤ}
use betting_processing_go.Errors.{Result, ok, err}
use betting_processing_go.Wallet.{Direction, BalanceChange}
use betting_processing_go.Wallet.EntryMath.{signed}
use betting_processing_go.Wager.{Transaction, set_internal_reference, set_result_balance}
use betting_processing_go.Store.{Env, World, Tables, is_processed}
use betting_processing_go.Store.During.{
  Keeps, bind-During, map_err-During, lift-During, return-During, commit_tx-Keeps,
  read_clock-During, if-During, or_else-Keeps,
}
use betting_processing_go.Store.Throughout.{or_else-During}
use betting_processing_go.WagerService.Kinds.{move_wallet, is_not_found, is_waiting}
use betting_processing_go.WagerService.Resolve.{
  resolve_enter, resolve_settle, after_resolve_move, resolve_move, resolve_value, resolve_processed,
  count_and_commit, is_unsuccessful, resolve_with,
}
use betting_processing_go.WagerService.Sound.Statements.{
  Good, Owes, Owes-Steady, update_status_tx-During, set_internal_reference_tx-During, emit_all-Good,
  ledger_entry-Good, increment_ref_attempts-Good,
}
use betting_processing_go.WagerService.Sound.Reads.{has_successful_reversal-Throughout}
use betting_processing_go.WagerService.Sound.Steps.{Alike, HasInt64, transition-During}
use betting_processing_go.WagerService.Sound.Kinds.{Moved, attempt-Moved}
use betting_processing_go.WagerService.Sound.Unresolved.{
  resolve_reject_tx-Keeps, resolve_reject_in_place-Keeps, resolve_refuse-Keeps,
}

module _ (env : Env) where
  resolve_enter-Keeps :
      (tx : Transaction) (d : Direction) (change : BalanceChange) (w : World)
      → Good w.committed
      → Owes tx.wallet_id (signed d tx.amount.amount) w.current
      → Keeps Good (resolve_enter env tx d change w)
  unfolding resolve_enter
  resolve_enter-Keeps tx d change w h o =
      bind-During Good (λ _ t. Good t) _ _ w
        (map_err-During Good _ _ w (
          ledger_entry-Good env Good tx.wallet_id tx.id d tx.amount change.balance_before
            change.balance_after w h o))
        (λ e w1 h1 g1.
          bind-During Good (λ _ t. Good t) _ _ w1 (emit_all-Good env Good _ _ w1 h1 g1)
            (λ u w2 h2 g2.
              bind-During Good (λ _ _. Unit {0}) _ _ w2
                (map_err-During Good _ _ w2 (commit_tx-Keeps Good env w2 h2 g2))
                (λ u w3 h3 g3. return-During Good _ w3 h3 tt)))

  resolve_settle-Keeps :
      (tx ref : Transaction) (d : Direction) (change : BalanceChange) (w : World)
      → Good w.committed
      → Owes tx.wallet_id (signed d tx.amount.amount) w.current
      → Keeps Good (resolve_settle env tx ref d change w)
  unfolding resolve_settle set_internal_reference set_result_balance
  resolve_settle-Keeps tx ref d change w h o =
      let z : ℤ = signed d tx.amount.amount in
      let Q : Tables → Type 0 = Owes tx.wallet_id z in
      let steady = Owes-Steady tx.wallet_id z in
      bind-During Good (λ _ t. Q t) _ _ w (read_clock-During Good env w h o)
        (λ now w1 h1 o1.
          bind-During Good
            (λ tx1 t.
              Alike (set_result_balance change.balance_after (set_internal_reference now ref.id tx))
                tx1
              × Q t)
            _ _ w1
            (transition-During env Good Q _
              (set_result_balance change.balance_after (set_internal_reference now ref.id tx)) w1 h1
              o1)
            (λ tx1 w2 h2 (s, o2).
              bind-During Good (λ _ t. Q t) _ _ w2
                (map_err-During Good _ _ w2
                  (update_status_tx-During env Good Q steady tx1.id _ "" w2 h2 o2))
                (λ u w3 h3 o3.
                  bind-During Good (λ _ t. Q t) _ _ w3
                    (map_err-During Good _ _ w3
                      (set_internal_reference_tx-During env Good Q steady tx1.id ref.id w3 h3 o3))
                    (λ u w4 h4 o4. resolve_enter-Keeps tx1 d change w4 h4 (
                      subst (λ m. Owes tx1.wallet_id (signed d m.amount) w4.current) (sym s.amount)
                        (subst (λ i. Owes i z w4.current) (sym s.wallet) o4))))))

  after_resolve_move-Keeps :
      (tx ref : Transaction) (d : Direction) (r : Result BalanceChange) (w : World)
      → Good w.committed
      → Moved tx.wallet_id d tx.amount r w.current
      → Keeps Good (after_resolve_move env tx ref d r w)
  unfolding after_resolve_move
  after_resolve_move-Keeps tx ref d (err e) w h c = resolve_refuse-Keeps env tx e w h
  after_resolve_move-Keeps tx ref d (ok change) w h c =
      resolve_settle-Keeps tx ref d change w h c.owed

  resolve_move-Keeps :
      (tx ref : Transaction) (d : Option Direction) (w : World)
      → HasInt64 tx
      → Good w.committed
      → Good w.current
      → Keeps Good (resolve_move env tx ref d w)
  unfolding resolve_move move_wallet
  resolve_move-Keeps tx ref none w a h g = resolve_reject_tx-Keeps env _ tx w h g
  resolve_move-Keeps tx ref (some d) w a h g =
      bind-During Good (Moved tx.wallet_id d tx.amount) _ _ w
        (attempt-Moved env d tx.wallet_id tx.amount w a h g)
        (λ r w1 h1 c. after_resolve_move-Keeps tx ref d r w1 h1 c)

  resolve_value-Keeps :
      (tx ref : Transaction) (r : Result (Unit {0})) (w : World)
      → HasInt64 tx
      → Good w.committed
      → Good w.current
      → Keeps Good (resolve_value env tx ref r w)
  unfolding resolve_value
  resolve_value-Keeps tx ref (ok u) w a h g = resolve_move-Keeps tx ref _ w a h g
  resolve_value-Keeps tx ref (err e) w a h g = resolve_reject_tx-Keeps env _ tx w h g

  resolve_processed-Keeps :
      (tx ref : Transaction) (w : World)
      → HasInt64 tx
      → Good w.committed
      → Good w.current
      → Keeps Good (resolve_processed env tx ref w)
  unfolding resolve_processed
  resolve_processed-Keeps tx ref w a h g =
      bind-During Good (λ _ t. Good t) _ _ w
        (or_else-During Good Good false _ w
          (has_successful_reversal-Throughout Good Good env ref.id w h g))
        (λ reversed w1 h1 g1.
          if-During Good reversed _ _ w1 (λ b. resolve_reject_tx-Keeps env _ tx w1 h1 g1)
            (λ b. resolve_value-Keeps tx ref _ w1 a h1 g1))

  count_and_commit-Keeps :
      (tx : Transaction) (w : World)
      → Good w.committed
      → Good w.current
      → Keeps Good (count_and_commit env tx w)
  unfolding count_and_commit
  count_and_commit-Keeps tx w h g =
      bind-During Good (λ _ t. Good t) _ _ w (increment_ref_attempts-Good env tx.id w h g)
        (λ u w1 h1 g1. or_else-Keeps Good tt _ w1 (commit_tx-Keeps Good env w1 h1 g1))

  pub resolve_with-Keeps :
      (tx : Transaction) (r : Result Transaction) (w : World)
      → HasInt64 tx
      → Good w.committed
      → Good w.current
      → Keeps Good (resolve_with env tx r w)
  unfolding resolve_with
  resolve_with-Keeps tx (err e) w a h g =
      if-During Good (is_not_found e) _ _ w
        (λ b.
          bind-During Good (λ _ _. Unit {0}) _ _ w (count_and_commit-Keeps tx w h g)
            (λ u w1 h1 u'. resolve_reject_in_place-Keeps env _ tx w1 h1))
        (λ b. lift-During Good _ w h (λ a p. tt))
  resolve_with-Keeps tx (ok ref) w a h g =
      if-During Good (is_waiting ref.status) _ _ w
        (λ b.
          bind-During Good (λ _ _. Unit {0}) _ _ w (count_and_commit-Keeps tx w h g)
            (λ u w1 h1 u'. return-During Good _ w1 h1 tt))
        (λ b.
          if-During Good (is_unsuccessful ref.status) _ _ w
            (λ c. resolve_reject_tx-Keeps env _ tx w h g)
            (λ c.
              if-During Good (is_processed ref.status) _ _ w
                (λ d. resolve_processed-Keeps tx ref w a h g)
                (λ d. resolve_reject_in_place-Keeps env _ tx w h)))
