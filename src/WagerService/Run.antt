-- ===== src/WagerService/Run.antt =====
-- Any number of calls of the two services, one after the other, on one database.
use betting_processing_go.Prelude.{String, List, [], ◌∷◌}
use betting_processing_go.Errors.{Result}
use betting_processing_go.Money.{Money}
use betting_processing_go.WalletService.{create_wallet}
use betting_processing_go.Store.{Env, World}
use betting_processing_go.WagerService.Process.{Request, Digest, process_transaction}
use betting_processing_go.WagerService.Resolve.{resolve_pending_reference}

-- The arguments of CreateWallet, ProcessTransaction and ResolvePendingReference.
pub data Call : Type 0 where
  create : String → String → Money → Call
  process : Request → String → String → Call
  resolve : String → Call

abbrev world_of : {A : Type 0} → Result A × World → World
world_of (r, w) = w

-- What a call leaves, whatever it returns.
unfoldable pub perform : Env → Digest → Call → World → World
perform env digest (create provider_id player_id m) w =
    world_of (create_wallet env provider_id player_id m w)
perform env digest (process req idempotency_key message_id) w =
    world_of (process_transaction env digest req idempotency_key message_id w)
perform env digest (resolve id) w = world_of (resolve_pending_reference env id w)

unfoldable pub run : Env → Digest → List Call → World → World
run env digest [] w = w
run env digest (c ∷ cs) w = run env digest cs (perform env digest c w)
