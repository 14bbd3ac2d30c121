-- ===== src/WagerService/Sound/Settling.antt =====
-- commitWithLedger, and the invariant.
use betting_processing_go.Prelude.{String, sym, subst, not, ◌&&◌}
use betting_processing_go.Prelude.Text.{str_eq}
use betting_processing_go.Prelude.Int.{ℤ}
use betting_processing_go.Errors.{Error, Result, ok, err, WagerError, wager_err}
use betting_processing_go.Money.{Money}
use betting_processing_go.Wallet.{Direction, BalanceChange}
use betting_processing_go.Wallet.EntryMath.{signed}
use betting_processing_go.Wager.{Transaction, set_result_balance}
use betting_processing_go.WalletService.{is_unique_violation}
use betting_processing_go.Store.{Env, World, Tables, is_reversal_type, rollback_tx, lift, ◌>>◌}
use betting_processing_go.Store.During.{
  During, Keeps, OnOk, bind-During, map_err-During, lift-During, return-During, attempt-During,
  commit_tx-Keeps, rollback_tx-During, if-During,
}
use betting_processing_go.Store.Throughout.{attempt-Throughout}
use betting_processing_go.WagerService.Steps.{
  after_search, duplicate_key, inserted, publish, commit_with_ledger, settle,
}
use betting_processing_go.WagerService.Sound.Statements.{
  Good, Owes, Owes-Steady, create_transaction_tx-During, record_inbox-During, emit_all-Good,
  ledger_entry-Good, complete_inbox-Good,
}
use betting_processing_go.WagerService.Sound.Reads.{find_by_idempotency_key-Throughout}
use betting_processing_go.WagerService.Sound.Steps.{
  Alike, Alike-HasInt64, HasInt64, transition-During,
}

no_error : {A : Type 0} {e : WagerError} {a : A} → ¬ (Path (Result A) (wager_err e) (ok a))
no_error h = cc

module _ (env : Env) (Q : Tables → Type 0) where
  -- The transaction is given up, with an error.
  given_up :
      (e : WagerError) (w : World)
      → Good w.committed
      → During Good (λ (_ : String) t. Q t) ((rollback_tx >> lift (wager_err e)) w)
  given_up e w h =
      bind-During Good (λ _ t. Good t) _ _ w (rollback_tx-During Good w h)
        (λ u w1 h1 g1. lift-During Good _ w1 h1 (λ a q. absurd (no_error q)))

  found_duplicate :
      (e : Error) (r : Result Transaction) (w : World)
      → Good w.committed
      → During Good (λ (_ : String) t. Q t) (after_search e r w)
  unfolding after_search
  found_duplicate e (ok existing) w h = given_up WagerError.idempotent_duplicate w h
  found_duplicate e (err f) w h = lift-During Good _ w h (λ a q. absurd (cc))

  duplicate_key-During :
      (tx : Transaction) (e : Error) (w : World)
      → Good w.committed
      → During Good (λ (_ : String) t. Q t) (duplicate_key env tx e w)
  unfolding duplicate_key
  duplicate_key-During tx e w h =
      bind-During Good (λ _ _. Unit {0}) _ _ w
        (attempt-Throughout Good (λ _. Unit {0}) _ w
          (find_by_idempotency_key-Throughout Good (λ _. Unit {0}) env _ _ w h tt))
        (λ found w1 h1 u. found_duplicate e found w1 h1)

  inserted-During :
      (tx : Transaction) (r : Result String) (w : World)
      → Good w.committed
      → OnOk (λ _ t. Q t) r w.current
      → During Good (λ (_ : String) t. Q t) (inserted env tx r w)
  unfolding inserted
  inserted-During tx (ok id) w h q = return-During Good id w h q
  inserted-During tx (err e) w h q =
      if-During Good (is_unique_violation e) _ _ w
        (λ b.
          if-During Good
            (is_reversal_type tx.transaction_type && not (str_eq tx.internal_reference "")) _ _ w
            (λ c. given_up WagerError.double_reversal w h) (λ c. duplicate_key-During tx e w h))
        (λ b. lift-During Good _ w h (λ a p. absurd (cc)))

module _ (env : Env) (direction : Direction) (amount : Money) (change : BalanceChange) where
  publish-Keeps :
      (tx : Transaction) (message_id : String) (w : World)
      → Good w.committed
      → Good w.current
      → Keeps Good (publish env tx direction amount change message_id w)
  unfolding publish
  publish-Keeps tx message_id w h g =
      bind-During Good (λ _ t. Good t) _ _ w (emit_all-Good env Good _ _ w h g)
        (λ u w1 h1 g1.
          bind-During Good (λ _ t. Good t) _ _ w1 (complete_inbox-Good env message_id w1 h1 g1)
            (λ u w2 h2 g2.
              bind-During Good (λ _ _. Unit {0}) _ _ w2
                (map_err-During Good _ _ w2 (commit_tx-Keeps Good env w2 h2 g2))
                (λ u w3 h3 g3. return-During Good tx w3 h3 tt)))

  commit_with_ledger-Keeps :
      (tx : Transaction) (message_id : String) (w : World)
      → HasInt64 tx
      → Good w.committed
      → Owes tx.wallet_id (signed direction amount.amount) w.current
      → Keeps Good (commit_with_ledger env tx direction amount change message_id w)
  unfolding commit_with_ledger
  commit_with_ledger-Keeps tx message_id w a h o =
      let z : ℤ = signed direction amount.amount in
      let Q : Tables → Type 0 = Owes tx.wallet_id z in
      let steady = Owes-Steady tx.wallet_id z in
      bind-During Good (λ _ t. Q t) _ _ w (record_inbox-During env Good Q steady message_id w h o)
        (λ u w1 h1 o1.
          bind-During Good (λ tx1 t. Alike tx tx1 × Q t) _ _ w1
            (transition-During env Good Q _ tx w1 h1 o1)
            (λ tx1 w2 h2 (s, o2).
              bind-During Good (λ r t. OnOk (λ _ t'. Q t') r t) _ _ w2
                (attempt-During Good _ w2 (
                  create_transaction_tx-During env Good Q steady tx1 w2 (Alike-HasInt64 tx tx1 s a)
                    h2 o2))
                (λ r w3 h3 o3.
                  bind-During Good (λ _ t. Q t) _ _ w3 (inserted-During env Q tx1 r w3 h3 o3)
                    (λ id w4 h4 o4.
                      let owed : Owes tx1.wallet_id z w4.current =
                        subst (λ i. Owes i z w4.current) (sym s.wallet) o4 in
                      bind-During Good (λ _ t. Good t) _ _ w4
                        (map_err-During Good _ _ w4 (
                          ledger_entry-Good env Good tx1.wallet_id id direction amount
                            change.balance_before change.balance_after w4 h4 owed))
                        (λ e w5 h5 g5. publish-Keeps _ message_id w5 h5 g5)))))

  pub settle-Keeps :
      (tx : Transaction) (message_id : String) (w : World)
      → HasInt64 tx
      → Good w.committed
      → Owes tx.wallet_id (signed direction amount.amount) w.current
      → Keeps Good (settle env tx direction amount message_id change w)
  unfolding settle set_result_balance
  settle-Keeps tx message_id w a h o =
      bind-During Good (λ _ _. Unit {0}) _ _ w (commit_with_ledger-Keeps _ message_id w a h o)
        (λ tx1 w1 h1 u. return-During Good _ w1 h1 tt)
