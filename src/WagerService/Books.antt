-- ===== src/WagerService/Books.antt =====
-- The invariant of the database, over any number of calls and whatever call of the database fails.
use betting_processing_go.Prelude.{String, List, [], ◌∷◌, All}
use betting_processing_go.Prelude.Int64.{IsInt64}
use betting_processing_go.WalletService.Books.{create_wallet-Keeps}
use betting_processing_go.Store.{Env, World}
use betting_processing_go.Store.During.{committed-Keeps}
use betting_processing_go.Store.Frame.{Tidy, formed_frame}
use betting_processing_go.Store.Invariant.Once.{OneEach, no_clash-OneEach}
use betting_processing_go.WagerService.Run.{Call, create, process, resolve, perform, run}
use betting_processing_go.WagerService.Process.{Request, Digest, process_transaction}
use betting_processing_go.WagerService.Resolve.{resolve_pending_reference}
use betting_processing_go.WagerService.Sound.Statements.{Good}
use betting_processing_go.WagerService.Sound.Process.{
  process_transaction-Keeps, resolve_pending_reference-Keeps,
}

-- Whatever the database does with each call, ProcessTransaction leaves tables whose books balance,
-- whose keys are unique and whose amounts are int64 wherever it found such tables.
pub process_transaction-Good :
    (env : Env) (digest : Digest) (req : Request) (idempotency_key message_id : String) (w : World)
    → Good w.committed
    → let (r, w') = process_transaction env digest req idempotency_key message_id w in
      Good w'.committed
process_transaction-Good env digest req idempotency_key message_id w h =
    committed-Keeps Good _ (process_transaction-Keeps env digest req idempotency_key message_id w h)

-- Whatever the database does with each call, ResolvePendingReference leaves tables whose books balance,
-- whose keys are unique and whose amounts are int64 wherever it found such tables.
pub resolve_pending_reference-Good :
    (env : Env) (id : String) (w : World)
    → Good w.committed
    → let (r, w') = resolve_pending_reference env id w in Good w'.committed
resolve_pending_reference-Good env id w h =
    committed-Keeps Good _ (resolve_pending_reference-Keeps env id w h)

-- The opening balances are int64.
abbrev pub HasInt64Money : Call → Type 0
HasInt64Money (create provider_id player_id m) = IsInt64 m.amount
HasInt64Money (process req idempotency_key message_id) = Unit
HasInt64Money (resolve id) = Unit

perform-Good :
    (env : Env) (digest : Digest) (c : Call) (w : World)
    → Tidy formed_frame env
    → HasInt64Money c
    → Good w.committed
    → Good (perform env digest c w).committed
unfolding perform
perform-Good env digest (create provider_id player_id m) w tidy a h =
    committed-Keeps Good _ (create_wallet-Keeps formed_frame env provider_id player_id m w tidy a h)
perform-Good env digest (process req idempotency_key message_id) w tidy a h =
    process_transaction-Good env digest req idempotency_key message_id w h
perform-Good env digest (resolve id) w tidy a h = resolve_pending_reference-Good env id w h

-- Whatever calls of CreateWallet, ProcessTransaction and ResolvePendingReference are made one after the
-- other, and whatever the database does with each of their calls: from tables whose books balance, whose
-- keys are unique and whose amounts are int64 they lead to such tables. The ids that are generated must
-- have no spaces around them and the opening balances must be int64.
pub run-Good :
    (env : Env) (digest : Digest) (calls : List Call) (w : World)
    → Tidy formed_frame env
    → All HasInt64Money calls
    → Good w.committed
    → Good (run env digest calls w).committed
unfolding run
run-Good env digest [] w tidy a h = h
run-Good env digest (c ∷ cs) w tidy (a, rest) h =
    run-Good env digest cs (perform env digest c w) tidy rest (perform-Good env digest c w tidy a h)

-- After any calls of CreateWallet, ProcessTransaction and ResolvePendingReference, made one after the
-- other, and whatever the database does with each of their calls: no idempotency key of a provider
-- stands in two transactions, at most one refund or rollback with the status PROCESSED refers to a given
-- transaction, and a wallet has at most one opening. At the start the books must balance, the keys must
-- be unique and the amounts int64, the ids that are generated must have no spaces around them and the
-- opening balances must be int64.
pub run-OneEach :
    (env : Env) (digest : Digest) (calls : List Call) (w : World)
    → Tidy formed_frame env
    → All HasInt64Money calls
    → Good w.committed
    → OneEach (run env digest calls w).committed.transactions
run-OneEach env digest calls w tidy a h =
    no_clash-OneEach _ (run-Good env digest calls w tidy a h).frame.distinct
