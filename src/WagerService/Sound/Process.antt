-- ===== src/WagerService/Sound/Process.antt =====
-- ProcessTransaction and ResolvePendingReference, and the invariant.
use betting_processing_go.Prelude.{String, ◌≡◌, sym, subst, leb, false, Option, none, some, arith}
use betting_processing_go.Prelude.Text.{codes}
use betting_processing_go.Prelude.Int64.{IsInt64}
use betting_processing_go.Errors.{Error, Result, ok, err, WagerError, Sentinel, errors_is}
use betting_processing_go.Money.{Money, parse_money}
use betting_processing_go.Money.Accepted.{parse_money_sound}
use betting_processing_go.Wallet.{Time}
use betting_processing_go.Wager.{
  Transaction, TransactionType, opening, bet, win, loss, refund, rollback, other_type,
  new_external_transaction, ExternalInput,
}
use betting_processing_go.Store.{Env, World, claim_pending_reference_tx}
use betting_processing_go.Store.During.{
  During, Keeps, bind-During, map_err-During, lift-During, return-During, check-During,
  attempt-During, begin_tx-During, rollback_tx-During, read_clock-During, if-During,
}
use betting_processing_go.Store.Throughout.{
  Throughout-During, attempt-Throughout, tx_exec-Throughout, or_else-During,
}
use betting_processing_go.Store.Statements.{stored_tables}
use betting_processing_go.WagerService.Steps.{ProcessResult}
use betting_processing_go.WagerService.Resolve.{
  max_ref_attempts, resolve_claimed, resolve_pending, awaits_reference, resolve_pending_reference,
}
use betting_processing_go.WagerService.Process.{
  Request, Digest, handle_replay, replayed_balance, equals_not_found, external_input, dispatch,
  replay_duplicate, after_duplicate, finish, parse_amount, process_new, annotated, conflicts,
  process_found, process_transaction,
}
use betting_processing_go.WagerService.Sound.Statements.{Good}
use betting_processing_go.WagerService.Sound.Reads.{
  find_by_external_id-Throughout, find_by_idempotency_key-Throughout,
  external_transaction_exists-Throughout, get_wallet_balance-Throughout,
}
use betting_processing_go.WagerService.Sound.Steps.{HasInt64}
use betting_processing_go.WagerService.Sound.Kinds.{
  process_bet-Keeps, process_win-Keeps, process_loss-Keeps,
}
use betting_processing_go.WagerService.Sound.Reversals.{
  process_refund-Keeps, process_rollback-Keeps,
}
use betting_processing_go.WagerService.Sound.Resolve.{resolve_with-Keeps}
use betting_processing_go.WagerService.Sound.Unresolved.{resolve_reject_tx-Keeps}
use betting_processing_go.WagerService.Sound.Rows.{find_transaction-HasInt64}

parsed-IsInt64 :
    (r : Result Money) (m : Money)
    → ((n : Money) → r ≡ ok n → IsInt64 n.amount)
    → annotated r ≡ ok m
    → IsInt64 m.amount
unfolding annotated
parsed-IsInt64 (ok n) m k e = k m e
parsed-IsInt64 (err e) m k h = absurd (cc)

parse_amount-IsInt64 : (req : Request) (m : Money) → parse_amount req ≡ ok m → IsInt64 m.amount
unfolding parse_amount
parse_amount-IsInt64 req m e =
    parsed-IsInt64 (parse_money (codes req.money.amount) req.money.currency) m
      (λ n p.
        let (x, denotes, bound, c, same) =
          parse_money_sound (codes req.money.amount) req.money.currency p in
        subst (λ k. IsInt64 k.amount) (sym same) (omega arith))
      e

new_amount :
    (now : Time) (i : ExternalInput) (tx : Transaction)
    → new_external_transaction now i ≡ ok tx
    → tx.amount ≡ i.amount
unfolding new_external_transaction
new_amount now i tx e = ground arith

module _ (env : Env) where
  resolve_claimed-Keeps :
      (tx : Transaction) (w : World)
      → HasInt64 tx
      → Good w.committed
      → Good w.current
      → Keeps Good (resolve_claimed env tx w)
  unfolding resolve_claimed
  resolve_claimed-Keeps tx w a h g =
      if-During Good (leb max_ref_attempts tx.ref_attempts) _ _ w
        (λ b. resolve_reject_tx-Keeps env _ tx w h g)
        (λ b.
          bind-During Good (λ _ t. Good t) _ _ w
            (attempt-Throughout Good Good _ w (
              find_by_external_id-Throughout Good Good env tx.provider tx.external_reference w h g))
            (λ found w1 h1 g1. resolve_with-Keeps env tx found w1 a h1 g1))

  claim-Good :
      (id : String) (w : World)
      → Good w.committed
      → Good w.current
      → During Good (λ _ t. Good t) (claim_pending_reference_tx env id w)
  unfolding claim_pending_reference_tx
  claim-Good id w h g = or_else-During Good Good false _ w (
      tx_exec-Throughout Good Good env _ w h g
        (λ b t e. subst Good (stored_tables _ b w.current t e) g))

  resolve_pending-Keeps :
      (tx : Transaction) (w : World)
      → HasInt64 tx
      → Good w.committed
      → Keeps Good (resolve_pending env tx w)
  unfolding resolve_pending
  resolve_pending-Keeps tx w a h =
      bind-During Good (λ _ t. Good t) _ _ w
        (map_err-During Good _ _ w (begin_tx-During Good env w h))
        (λ u w1 h1 g1.
          bind-During Good (λ _ t. Good t) _ _ w1
            (map_err-During Good _ _ w1 (claim-Good tx.id w1 h1 g1))
            (λ claimed w2 h2 g2.
              if-During Good claimed _ _ w2 (λ b. resolve_claimed-Keeps tx w2 a h2 g2)
                (λ b.
                  bind-During Good (λ _ t. Good t) _ _ w2 (rollback_tx-During Good w2 h2)
                    (λ u w3 h3 g3. return-During Good _ w3 h3 tt))))

  pub resolve_pending_reference-Keeps :
      (id : String) (w : World) → Good w.committed → Keeps Good (resolve_pending_reference env id w)
  unfolding resolve_pending_reference
  resolve_pending_reference-Keeps id w h =
      bind-During Good (λ tx _. HasInt64 tx) _ _ w
        (map_err-During Good _ _ w (find_transaction-HasInt64 env id w h))
        (λ tx w1 h1 a.
          if-During Good (awaits_reference tx.status) _ _ w1 (λ b. resolve_pending-Keeps tx w1 a h1)
            (λ b. return-During Good _ w1 h1 tt))

  replayed_balance-Keeps :
      (existing : Transaction) (o : Option Money) (w : World)
      → Good w.committed
      → Keeps Good (replayed_balance env existing o w)
  unfolding replayed_balance
  replayed_balance-Keeps existing (some m) w h = return-During Good m w h tt
  replayed_balance-Keeps existing none w h =
      Throughout-During Good (λ _. Unit {0})
        (get_wallet_balance-Throughout Good (λ _. Unit {0}) env existing.wallet_id w h tt)

  handle_replay-Keeps :
      (existing : Transaction) (w : World)
      → Good w.committed
      → Keeps Good (handle_replay env existing w)
  unfolding handle_replay
  handle_replay-Keeps existing w h =
      bind-During Good (λ _ _. Unit {0}) _ _ w (replayed_balance-Keeps existing _ w h)
        (λ b w1 h1 u. return-During Good _ w1 h1 tt)

  dispatch-Keeps :
      (req : Request) (amount : Money) (message_id : String) (tx : Transaction)
      (kind : TransactionType) (w : World)
      → HasInt64 tx
      → IsInt64 amount.amount
      → Good w.committed
      → Keeps Good (dispatch env req amount message_id tx kind w)
  unfolding dispatch
  dispatch-Keeps req amount message_id tx bet w a i h =
      process_bet-Keeps env tx amount message_id w a i h
  dispatch-Keeps req amount message_id tx win w a i h =
      process_win-Keeps env tx _ _ amount message_id w a i h
  dispatch-Keeps req amount message_id tx loss w a i h = process_loss-Keeps env tx message_id w a h
  dispatch-Keeps req amount message_id tx refund w a i h =
      process_refund-Keeps env tx _ _ amount message_id w a i h
  dispatch-Keeps req amount message_id tx rollback w a i h =
      process_rollback-Keeps env tx _ _ amount message_id w a i h
  dispatch-Keeps req amount message_id tx opening w a i h = lift-During Good _ w h (λ r p. tt)
  dispatch-Keeps req amount message_id tx (other_type s) w a i h =
      lift-During Good _ w h (λ r p. tt)

  after_duplicate-Keeps :
      (e : Error) (r : Result Transaction) (w : World)
      → Good w.committed
      → Keeps Good (after_duplicate env e r w)
  unfolding after_duplicate
  after_duplicate-Keeps e (ok existing) w h = handle_replay-Keeps existing w h
  after_duplicate-Keeps e (err f) w h = lift-During Good _ w h (λ r p. tt)

  finish-Keeps :
      (req : Request) (key : String) (r : Result ProcessResult) (w : World)
      → Good w.committed
      → Keeps Good (finish env req key r w)
  unfolding finish replay_duplicate
  finish-Keeps req key (ok r) w h = return-During Good r w h tt
  finish-Keeps req key (err e) w h =
      if-During Good (errors_is (Sentinel.wager WagerError.idempotent_duplicate) e) _ _ w
        (λ b.
          bind-During Good (λ _ _. Unit {0}) _ _ w
            (attempt-Throughout Good (λ _. Unit {0}) _ w
              (find_by_idempotency_key-Throughout Good (λ _. Unit {0}) env _ _ w h tt))
            (λ found w1 h1 u. after_duplicate-Keeps e found w1 h1))
        (λ b. lift-During Good _ w h (λ r p. tt))

  process_new-Keeps :
      (digest : Digest) (req : Request) (key message_id : String) (w : World)
      → Good w.committed
      → Keeps Good (process_new env digest req key message_id w)
  unfolding process_new external_input
  process_new-Keeps digest req key message_id w h =
      bind-During Good (λ _ _. Unit {0}) _ _ w
        (map_err-During Good _ _ w (
          Throughout-During Good (λ _. Unit {0})
            (external_transaction_exists-Throughout Good (λ _. Unit {0}) env _ _ _ w h tt)))
        (λ reused w1 h1 u. check-During Good _ _ w1 h1 (
          check-During Good _ _ w1 h1 (
            bind-During Good (λ amount _. IsInt64 amount.amount) _ _ w1
              (lift-During Good _ w1 h1 (λ m e. parse_amount-IsInt64 req m e))
              (λ amount w2 h2 i.
                bind-During Good (λ _ _. Unit {0}) _ _ w2 (read_clock-During Good env w2 h2 tt)
                  (λ now w3 h3 u.
                    bind-During Good (λ tx _. HasInt64 tx) _ _ w3
                      (lift-During Good _ w3 h3
                        (λ tx e. subst (λ m. IsInt64 m.amount) (sym (new_amount now _ tx e)) i))
                      (λ tx w4 h4 a.
                        bind-During Good _ _ _ w4
                          (attempt-During Good _ w4
                            (dispatch-Keeps req amount message_id tx _ w4 a i h4))
                          (λ outcome w5 h5 u. finish-Keeps req key outcome w5 h5)))))))

  process_found-Keeps :
      (digest : Digest) (req : Request) (key message_id : String) (r : Result Transaction)
      (w : World)
      → Good w.committed
      → Keeps Good (process_found env digest req key message_id r w)
  unfolding process_found
  process_found-Keeps digest req key message_id (ok existing) w h =
      if-During Good (conflicts digest req existing) _ _ w (λ b. lift-During Good _ w h (λ r p. tt))
        (λ b. handle_replay-Keeps existing w h)
  process_found-Keeps digest req key message_id (err e) w h =
      if-During Good (equals_not_found e) _ _ w
        (λ b. process_new-Keeps digest req key message_id w h)
        (λ b. lift-During Good _ w h (λ r p. tt))

  pub process_transaction-Keeps :
      (digest : Digest) (req : Request) (idempotency_key message_id : String) (w : World)
      → Good w.committed
      → Keeps Good (process_transaction env digest req idempotency_key message_id w)
  unfolding process_transaction
  process_transaction-Keeps digest req idempotency_key message_id w h =
      bind-During Good (λ _ _. Unit {0}) _ _ w
        (attempt-Throughout Good (λ _. Unit {0}) _ w
          (find_by_idempotency_key-Throughout Good (λ _. Unit {0}) env _ _ w h tt))
        (λ found w1 h1 u. process_found-Keeps digest req _ message_id found w1 h1)
