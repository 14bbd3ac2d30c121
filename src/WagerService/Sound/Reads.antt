-- ===== src/WagerService/Sound/Reads.antt =====
-- The reads of the service.
use betting_processing_go.Prelude.{String, Bool}
use betting_processing_go.Wager.{Transaction}
use betting_processing_go.Store.{
  Env, World, Tables, find_by_id, query_transaction, find_by_external_id, find_by_idempotency_key,
  has_successful_reversal, external_transaction_exists,
}
use betting_processing_go.Store.During.{Throughout}
use betting_processing_go.Store.Throughout.{
  bind-Throughout, map_err-Throughout, pool_read-Throughout, lift-Throughout,
}
use betting_processing_go.WalletService.{get_balance}
use betting_processing_go.WagerService.Steps.{get_wallet_balance}

module _ (P R : Tables → Type 0) (env : Env) where
  pub query_transaction-Throughout :
      (p : Transaction → Bool) (w : World)
      → P w.committed
      → R w.current
      → Throughout P R (query_transaction env p w)
  unfolding query_transaction
  query_transaction-Throughout p w h c =
      bind-Throughout P R _ _ w
        (map_err-Throughout P R _ _ w (pool_read-Throughout P R env _ w h c))
        (λ row w1 h1 c1. lift-Throughout P R _ w1 h1 c1)

  pub find_by_external_id-Throughout :
      (provider external_id : String) (w : World)
      → P w.committed
      → R w.current
      → Throughout P R (find_by_external_id env provider external_id w)
  unfolding find_by_external_id
  find_by_external_id-Throughout provider external_id w h c = query_transaction-Throughout _ w h c

  pub find_by_idempotency_key-Throughout :
      (provider key : String) (w : World)
      → P w.committed
      → R w.current
      → Throughout P R (find_by_idempotency_key env provider key w)
  unfolding find_by_idempotency_key
  find_by_idempotency_key-Throughout provider key w h c = query_transaction-Throughout _ w h c

  pub has_successful_reversal-Throughout :
      (reference : String) (w : World)
      → P w.committed
      → R w.current
      → Throughout P R (has_successful_reversal env reference w)
  unfolding has_successful_reversal
  has_successful_reversal-Throughout reference w h c =
      map_err-Throughout P R _ _ w (pool_read-Throughout P R env _ w h c)

  pub external_transaction_exists-Throughout :
      (provider external_id key : String) (w : World)
      → P w.committed
      → R w.current
      → Throughout P R (external_transaction_exists env provider external_id key w)
  unfolding external_transaction_exists
  external_transaction_exists-Throughout provider external_id key w h c =
      map_err-Throughout P R _ _ w (pool_read-Throughout P R env _ w h c)

  find_by_id-Throughout :
      (id : String) (w : World) → P w.committed → R w.current → Throughout P R (find_by_id env id w)
  unfolding find_by_id
  find_by_id-Throughout id w h c =
      bind-Throughout P R _ _ w
        (map_err-Throughout P R _ _ w (pool_read-Throughout P R env _ w h c))
        (λ row w1 h1 c1. lift-Throughout P R _ w1 h1 c1)

  pub get_wallet_balance-Throughout :
      (id : String) (w : World)
      → P w.committed
      → R w.current
      → Throughout P R (get_wallet_balance env id w)
  unfolding get_wallet_balance get_balance
  get_wallet_balance-Throughout id w h c = map_err-Throughout P R _ _ w (
      bind-Throughout P R _ _ w (find_by_id-Throughout id w h c)
        (λ wallet w1 h1 c1. lift-Throughout P R _ w1 h1 c1))
