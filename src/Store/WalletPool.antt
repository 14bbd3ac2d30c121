-- ===== src/Store/WalletPool.antt =====
-- wallet_repository.go: Create and UpdateBalance, which commit by themselves.
use betting_processing_go.Prelude.{String, if◌then◌else◌}
use betting_processing_go.Prelude.Int.{ℤ, pos}
use betting_processing_go.Prelude.Int64.{add64}
use betting_processing_go.Errors.{Error, ok, WalletError, wallet_err}
use betting_processing_go.Money.{Money}
use betting_processing_go.Wallet.{Wallet}
use betting_processing_go.Store.Schema.{WalletRow}
use betting_processing_go.Store.Rows.{insert_unless_held, update_wallets}
use betting_processing_go.Store.Session.{Env, Action, map_err, pool_exec, lift, ◌>>=◌}

-- The columns of a wallet.
unfoldable pub row_of : Wallet → WalletRow
row_of w = record {
  id = w.id;
  player_id = w.player_id;
  provider_id = w.provider_id;
  currency = w.currency;
  balance = w.balance.amount;
  version = w.version;
  created_at = w.created_at;
  updated_at = w.updated_at;
}

-- Create
unfoldable pub create : Env → Wallet → Action (Unit {0})
unfolding row_of
create env w = map_err (Error.wrap "insert wallet") (pool_exec env (insert_unless_held (row_of w)))

-- UpdateBalance
unfoldable pub update_balance : Env → String → Money → ℤ → Action ℤ
update_balance env id new_balance expected_version = do
  found ← map_err (Error.wrap "update wallet balance") (λ w.
      pool_exec env (update_wallets id new_balance.amount expected_version (env.now w.calls)) w)
  lift (
      if found
      then ok (add64 expected_version (pos 1))
      else wallet_err WalletError.concurrent_update)
