-- ===== src/Store/Writers.antt =====
-- wallet_repository.go: any number of writers of balances, by UpdateBalance or by UpdateBalanceTx in a
-- transaction, and what one of them that succeeded leaves.
use betting_processing_go.Prelude.{
  arith, ◌≡◌, sym, subst, String, Bool, true, false, List, [], ◌∷◌, if◌then◌else◌,
}
use betting_processing_go.Prelude.Int.{ℤ}
use betting_processing_go.Errors.{ok, WalletError, wallet_err}
use betting_processing_go.Money.{Money}
use betting_processing_go.Wallet.{Time}
use betting_processing_go.Store.Rows.{update_wallets}
use betting_processing_go.Store.Schema.{Tables}
use betting_processing_go.Store.Session.{
  Env, World, Action, lift, begin_tx, tx_exec, pool_exec, commit_tx, ◌>>=◌,
}
use betting_processing_go.Store.WalletRepo.{update_balance_tx}
use betting_processing_go.Store.WalletPool.{update_balance}
use betting_processing_go.Store.Locking.{Passed, Single, update_wallets-first}
use betting_processing_go.Store.Succeeded.{
  bind_done, map_err_done, exec_reply_done, tx_reply_done, begin_reply_done, commit_reply_done,
}
use betting_processing_go.Store.During.{}

-- One writer: the wallet, the balance that it computed and the version that it read.
pub data Way : Type 0 where
  pooled in_transaction : Way

pub record Write : Type 0 where
  pub way : Way
  pub id : String
  pub balance : Money
  pub version : ℤ

unfoldable pub write_by : Env → Way → Write → Action ℤ
write_by env pooled x = update_balance env x.id x.balance x.version
write_by env in_transaction x = do
  _ ← begin_tx env
  version ← update_balance_tx env x.id x.balance x.version
  _ ← commit_tx env
  lift (ok version)

unfoldable pub write : Env → Write → Action ℤ
unfolding write_by
write env x = write_by env x.way x

-- What any number of writers leave, one after the other.
unfoldable pub write_all : Env → List Write → World → World
unfolding write
write_all env [] w = w
write_all env (x ∷ xs) w = let (r, w') = write env x w in write_all env xs w'

module _ (env : Env) (x : Write) where
  found_done :
      (found : Bool) (v version : ℤ) (w w' : World)
      → lift (if found then ok v else wallet_err WalletError.concurrent_update) w ≡ (ok version, w')
      → (found ≡ true) × (w ≡ w')
  unfolding lift wallet_err
  found_done true v version w w' e = ground arith
  found_done false v version w w' e = absurd (cc)

  first_by :
      (found : Bool) (now : Time) (t t' : Tables)
      → Single t.wallets
      → found ≡ true
      → update_wallets x.id x.balance.amount x.version now t ≡ ok (found, t')
      → Passed x.id x.version t'
  first_by found now t t' k matched e =
      update_wallets-first x.id x.version x.balance.amount now t t' k
        (subst (λ b. update_wallets x.id x.balance.amount x.version now t ≡ ok (b, t')) matched e)

  -- A writer that succeeded has passed its version.
  pooled_first :
      (version : ℤ) (w w' : World)
      → Single w.committed.wallets
      → write_by env pooled x w ≡ (ok version, w')
      → Passed x.id x.version w'.committed
  unfolding write_by update_balance pool_exec
  pooled_first version w w' k e = bind_done _ _ w version w' e (λ found v m l.
      let (matched, same) = found_done found _ version v w' l in
      let ran = exec_reply_done _ _ w found v (map_err_done _ _ w found v m) in
      subst (λ (z : World). Passed x.id x.version z.committed) same
        (first_by found _ w.committed v.committed k matched ran))

  statement_first :
      (version : ℤ) (w w' : World)
      → Single w.current.wallets
      → update_balance_tx env x.id x.balance x.version w ≡ (ok version, w')
      → Passed x.id x.version w'.current
  unfolding update_balance_tx tx_exec
  statement_first version w w' k e = bind_done _ _ w version w' e (λ found v m l.
      let (matched, same) = found_done found _ version v w' l in
      let ran = tx_reply_done _ _ _ w found v (map_err_done _ _ w found v m) in
      subst (λ (z : World). Passed x.id x.version z.current) same
        (first_by found _ w.current v.current k matched ran))

  commit_first :
      (n version : ℤ) (w w' : World)
      → Passed x.id x.version w.current
      → (commit_tx env >>= λ _. lift (ok n)) w ≡ (ok version, w')
      → Passed x.id x.version w'.committed
  unfolding commit_tx lift
  commit_first n version w w' h e = bind_done _ _ w version w' e (λ u v m l.
      subst (λ (z : World). Passed x.id x.version z.committed) {x = v} {y = w'} (ground (arith, l))
        (subst (Passed x.id x.version) (sym (commit_reply_done _ _ w v m)) h))

  transaction_first :
      (version : ℤ) (w w' : World)
      → Single w.committed.wallets
      → write_by env in_transaction x w ≡ (ok version, w')
      → Passed x.id x.version w'.committed
  unfolding write_by begin_tx
  transaction_first version w w' k e = bind_done _ _ w version w' e (λ u a b r.
      bind_done _ _ a version w' r (λ n c up rest.
        commit_first n version c w'
          (statement_first n a c (subst (λ t. Single t.wallets) (sym (begin_reply_done _ w a b)) k)
            up)
          rest))

  pub write-first :
      (version : ℤ) (w w' : World)
      → Single w.committed.wallets
      → write env x w ≡ (ok version, w')
      → Passed x.id x.version w'.committed
  unfolding write
  write-first version w w' k = by_way x.way
    where
      by_way :
          (way : Way) → write_by env way x w ≡ (ok version, w') → Passed x.id x.version w'.committed
      by_way pooled e = pooled_first version w w' k e
      by_way in_transaction e = transaction_first version w w' k e
