-- ===== src/WalletService/Books.antt =====
-- CreateWallet, whatever call of the database fails.
use betting_processing_go.Prelude.{String, Bool, true, false, if◌then◌else◌}
use betting_processing_go.Errors.{
  Error, Result, ok, err, WalletError, Sentinel, wallet_err, errors_is,
}
use betting_processing_go.Money.{Money, Currency}
use betting_processing_go.Wallet.{Wallet}
use betting_processing_go.Store.{
  Env, World, Tables, find_by_id, find_by_player, map_err, commit_tx, lift, ◌>>◌,
}
use betting_processing_go.Store.During.{
  Keeps, bind-During, map_err-During, lift-During, return-During, check-During, begin_tx-During,
  commit_tx-Keeps, pool_read-Keeps, committed-Keeps,
}
use betting_processing_go.Store.Reconciled.{Reconciled}
use betting_processing_go.Store.Frame.{Frame, Tidy, Sound, trivial_frame}
use betting_processing_go.WalletService.Defs.{create_wallet, check_existing, get_balance}
use betting_processing_go.WalletService.Opening.{write_wallet-Sound}

module _ (P : Tables → Type 0) (env : Env) where
  pub find_by_id-Keeps : (id : String) (w : World) → P w.committed → Keeps P (find_by_id env id w)
  unfolding find_by_id
  find_by_id-Keeps id w h =
      bind-During P (λ _ _. Unit {0}) _ _ w (map_err-During P _ _ w (pool_read-Keeps P env _ w h))
        (λ row w1 h1 u. lift-During P _ w1 h1 (λ a e. tt))

  pub get_balance-Keeps : (id : String) (w : World) → P w.committed → Keeps P (get_balance env id w)
  unfolding get_balance
  get_balance-Keeps id w h =
      bind-During P (λ _ _. Unit {0}) _ _ w (find_by_id-Keeps id w h)
        (λ wallet w1 h1 u. return-During P _ w1 h1 tt)

  find_by_player-Keeps :
      (player_id : String) (k : Currency) (provider_id : String) (w : World)
      → P w.committed
      → Keeps P (find_by_player env player_id k provider_id w)
  unfolding find_by_player
  find_by_player-Keeps player_id k provider_id w h =
      bind-During P (λ _ _. Unit {0}) _ _ w (map_err-During P _ _ w (pool_read-Keeps P env _ w h))
        (λ row w1 h1 u. lift-During P _ w1 h1 (λ a e. tt))

  existing_if :
      (b : Bool) (e : Error) (w : World)
      → P w.committed
      → Keeps {A = Unit {0}} P
          (if b then (ok tt, w) else (err (Error.wrap "check existing wallet" e), w))
  existing_if true e w h = record { holds = (h, tt) }
  existing_if false e w h = record { holds = h }

  existing_result :
      (p : Result Wallet × World)
      → Keeps P p
      → Keeps {A = Unit {0}} P (
          let (r, w) = p in
          elim r [
            | ok existing ↦ (wallet_err WalletError.duplicate_wallet, w)
            | err e ↦
                if errors_is (Sentinel.wallet WalletError.wallet_not_found) e
                then (ok tt, w)
                else (err (Error.wrap "check existing wallet" e), w)
          ])
  existing_result (ok existing, w) h = let (e, q) = h.holds in record { holds = e }
  existing_result (err e, w) h =
      existing_if (errors_is (Sentinel.wallet WalletError.wallet_not_found) e) e w h.holds

  check_existing-Keeps :
      (player_id : String) (k : Currency) (provider_id : String) (w : World)
      → P w.committed
      → Keeps P (check_existing env player_id k provider_id w)
  unfolding check_existing
  check_existing-Keeps player_id k provider_id w h =
      existing_result _ (find_by_player-Keeps player_id k provider_id w h)

commit-Keeps :
    (F : Frame) (env : Env) (wallet : Wallet) (w : World)
    → Sound F w.committed
    → Sound F w.current
    → Keeps
        (Sound F)
        ((map_err (Error.wrap "commit wallet creation") (commit_tx env) >> lift (ok wallet)) w)
commit-Keeps F env wallet w h k =
    bind-During (Sound F) (λ _ _. Unit {0}) _ _ w
      (map_err-During (Sound F) _ _ w (commit_tx-Keeps (Sound F) env w h k))
      (λ u w' h' q. return-During (Sound F) wallet w' h' tt)

pub create_wallet-Keeps :
    (F : Frame) (env : Env) (provider_id player_id : String) (m : Money) (w : World)
    → Tidy F env
    → F.Amount m.amount
    → Sound F w.committed
    → Keeps (Sound F) (create_wallet env provider_id player_id m w)
unfolding create_wallet
create_wallet-Keeps F env provider_id player_id m w tidy a s = check-During (Sound F) _ _ w s (
    check-During (Sound F) _ _ w s (
      check-During (Sound F) _ _ w s (
        check-During (Sound F) _ _ w s (
          bind-During (Sound F) (λ _ _. Unit {0}) _ _ w
            (check_existing-Keeps (Sound F) env player_id m.currency provider_id w s)
            (λ u w1 s1 q1.
              bind-During (Sound F) (λ _ t. Sound F t) _ _ w1
                (map_err-During (Sound F) _ _ w1 (begin_tx-During (Sound F) env w1 s1))
                (λ u w2 s2 q2.
                  bind-During (Sound F) (λ _ t. Sound F t) _ _ w2
                    (write_wallet-Sound F env (Sound F) provider_id player_id m w2 tidy a s2 q2)
                    (λ wallet w3 s3 q3. commit-Keeps F env wallet w3 s3 q3)))))))

-- Whatever the database does with each call, CreateWallet leaves books that balance wherever they
-- balanced before: the balance that the wallets hold under each id is the sum of the ledger's entries.
pub create_wallet-Reconciled :
    (env : Env) (provider_id player_id : String) (m : Money) (w : World)
    → Reconciled w.committed
    → let (r, w') = create_wallet env provider_id player_id m w in Reconciled w'.committed
create_wallet-Reconciled env provider_id player_id m w r =
    let F = trivial_frame in
    (committed-Keeps (Sound F) _ (
      create_wallet-Keeps F env provider_id player_id m w (record { ids = λ n. tt }) tt
        (record { reconciled = r; frame = tt }))).reconciled
