-- ===== src/Store/LostUpdateTests.antt =====
-- A writer that is too late, at concrete data.
use betting_processing_go.Prelude.{◌≡◌, refl, true, false, none, String, List, [], ◌∷◌}
use betting_processing_go.Prelude.Int.{pos, ◌+ℤ◌}
use betting_processing_go.Prelude.Int64.{add64, wrap64}
use betting_processing_go.Errors.{ok}
use betting_processing_go.Wallet.Balance.{brl_of}
use betting_processing_go.Store.Session.{
  Env, World, begin_tx, commit_tx, tx_exec, map_err, lift, ◌>>=◌,
}
use betting_processing_go.Store.WalletRepo.{update_balance_tx}
use betting_processing_go.Store.Rows.{update_wallets, row_matches, wallet_check, set_balance}
use betting_processing_go.Store.Schema.{WalletRow, Tables}
use betting_processing_go.Store.Writers.{pooled, in_transaction, Write, write, write_all}
use betting_processing_go.Store.LostUpdate.{is_error, write_stale}

abbrev calm : Env
calm = record { fault = λ _. none; uuid = λ _. "a1"; now = λ n. n; delivered = λ n. 0 }

abbrev row_at : String → WalletRow
row_at id = record {
  id = id;
  player_id = "p1";
  provider_id = "acme";
  currency = "BRL";
  balance = pos 1000;
  version = pos 1;
  created_at = 0;
  updated_at = 0;
}

abbrev two_wallets : World
two_wallets =
    let t : Tables = record {
      wallets = row_at "w1" ∷ row_at "w2" ∷ [];
      transactions = [];
      ledger = [];
      outbox = [];
      inbox = [];
    } in
    record { committed = t; current = t; aborted = false; calls = 0 }

-- The writers read version 1 of the wallet "w1".
abbrev early : Write
early = record { way = in_transaction; id = "w1"; balance = brl_of (pos 700); version = pos 1 }

abbrev late : Write
late = record { way = pooled; id = "w1"; balance = brl_of (pos 1300); version = pos 1 }

abbrev elsewhere : List Write
elsewhere = record { way = pooled; id = "w2"; balance = brl_of (pos 5); version = pos 1 } ∷ []

abbrev after_early : World
after_early = let (r, w) = write calm early two_wallets in w

early_done : write calm early two_wallets ≡ (ok (pos 2), after_early)
unfolding write ◌>>=◌ begin_tx update_balance_tx map_err tx_exec update_wallets row_matches
    wallet_check set_balance ◌+ℤ◌ lift commit_tx add64 wrap64
early_done = refl

write_stale_example :
    let before = write_all calm elsewhere after_early in
    let (r, after) = write calm late before in
    (is_error r ≡ true) × (after.committed ≡ before.committed)
write_stale_example =
    write_stale calm early late elsewhere two_wallets after_early (pos 2) (refl, (refl, tt))
      early_done refl refl
