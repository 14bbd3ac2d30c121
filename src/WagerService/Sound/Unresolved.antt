-- ===== src/WagerService/Sound/Unresolved.antt =====
-- The refusals of ResolvePendingReference.
use betting_processing_go.Prelude.{String}
use betting_processing_go.Errors.{Error}
use betting_processing_go.Wager.{Transaction}
use betting_processing_go.Store.{Env, World}
use betting_processing_go.Store.During.{
  Keeps, bind-During, map_err-During, lift-During, begin_tx-During, commit_tx-Keeps,
  rollback_tx-During,
}
use betting_processing_go.Store.Throughout.{}
use betting_processing_go.WagerService.Resolve.{
  write_refused, resolve_reject_tx, resolve_reject_in_place, resolve_refuse,
}
use betting_processing_go.WagerService.Sound.Statements.{
  Good, Good-Steady, update_status_tx-During, emit-Good,
}
use betting_processing_go.WagerService.Sound.Reads.{}
use betting_processing_go.WagerService.Sound.Steps.{
  Alike, transition-During, fail_with-During, rejection-Keeps,
}

module _ (env : Env) where
  write_refused-Keeps :
      (code : String) (tx : Transaction) (w : World)
      → Good w.committed
      → Good w.current
      → Keeps Good (write_refused env code tx w)
  unfolding write_refused
  write_refused-Keeps code tx w h g =
      bind-During Good (λ _ t. Good t) _ _ w
        (map_err-During Good _ _ w
          (update_status_tx-During env Good Good Good-Steady tx.id _ code w h g))
        (λ u w1 h1 g1.
          bind-During Good (λ _ t. Good t) _ _ w1 (emit-Good env Good _ _ w1 h1 g1)
            (λ u w2 h2 g2. map_err-During Good _ _ w2 (commit_tx-Keeps Good env w2 h2 g2)))

  pub resolve_reject_tx-Keeps :
      (code : String) (tx : Transaction) (w : World)
      → Good w.committed
      → Good w.current
      → Keeps Good (resolve_reject_tx env code tx w)
  unfolding resolve_reject_tx
  resolve_reject_tx-Keeps code tx w h g =
      bind-During Good (λ tx1 t. Alike tx tx1 × Good t) _ _ w
        (fail_with-During env Good Good code tx w h g)
        (λ tx1 w1 h1 (s1, g1).
          bind-During Good (λ tx2 t. Alike tx1 tx2 × Good t) _ _ w1
            (transition-During env Good Good _ tx1 w1 h1 g1)
            (λ tx2 w2 h2 (s2, g2).
              bind-During Good (λ _ _. Unit {0}) _ _ w2 (write_refused-Keeps code tx2 w2 h2 g2)
                (λ u w3 h3 u'. rejection-Keeps env tx2 w3 h3)))

  pub resolve_reject_in_place-Keeps :
      (code : String) (tx : Transaction) (w : World)
      → Good w.committed
      → Keeps Good (resolve_reject_in_place env code tx w)
  unfolding resolve_reject_in_place
  resolve_reject_in_place-Keeps code tx w h =
      bind-During Good (λ tx1 _. Alike tx tx1 × Unit {0}) _ _ w
        (fail_with-During env Good (λ _. Unit {0}) code tx w h tt)
        (λ tx1 w1 h1 (s1, u).
          bind-During Good (λ tx2 _. Alike tx1 tx2 × Unit {0}) _ _ w1
            (transition-During env Good (λ _. Unit {0}) _ tx1 w1 h1 tt)
            (λ tx2 w2 h2 (s2, u).
              bind-During Good (λ _ t. Good t) _ _ w2
                (map_err-During Good _ _ w2 (begin_tx-During Good env w2 h2))
                (λ u w3 h3 g3.
                  bind-During Good (λ _ _. Unit {0}) _ _ w3 (write_refused-Keeps code tx2 w3 h3 g3)
                    (λ u w4 h4 u'. rejection-Keeps env tx2 w4 h4))))

  pub resolve_refuse-Keeps :
      (tx : Transaction) (e : Error) (w : World)
      → Good w.committed
      → Keeps Good (resolve_refuse env tx e w)
  unfolding resolve_refuse
  resolve_refuse-Keeps tx e w h =
      bind-During Good (λ _ t. Good t) _ _ w (rollback_tx-During Good w h)
        (λ u w1 h1 g1.
          bind-During Good (λ tx1 _. Alike tx tx1 × Unit {0}) _ _ w1
            (fail_with-During env Good (λ _. Unit {0}) _ tx w1 h1 tt)
            (λ tx1 w2 h2 (s, u).
              bind-During Good (λ _ t. Good t) _ _ w2
                (map_err-During Good _ _ w2 (begin_tx-During Good env w2 h2))
                (λ u w3 h3 g3.
                  bind-During Good (λ _ _. Unit {0}) _ _ w3 (write_refused-Keeps _ tx1 w3 h3 g3)
                    (λ u w4 h4 u'. lift-During Good _ w4 h4 (λ a p. tt)))))
