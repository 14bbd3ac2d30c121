-- ===== src/Workers/References.antt =====
-- reference_worker.go, and FindPendingReferences of wager_transaction_repository.go.
use betting_processing_go.Prelude.{
  ℕ, zero, suc, leb, Bool, true, ◌&&◌, none, some, List, [], ◌∷◌, if◌then◌else◌,
}
use betting_processing_go.Errors.{Error, Result, ok, err}
use betting_processing_go.Wallet.{Time}
use betting_processing_go.Wager.{Transaction}
use betting_processing_go.Store.{
  Env, World, Action, pool_rows, map_err, scan_transaction, lift, ◌>>=◌,
}
use betting_processing_go.WagerService.{awaits_reference, resolve_pending_reference}

unfoldable pub is_due : Time → Transaction → Bool
is_due now x =
    awaits_reference x.status && elim x.ref_next_attempt_at [ none ↦ true | some at ↦ leb at now ]

-- The rows that the query finds, the oldest first. Rows of the same time stay in the order of the table,
-- about which the database says nothing.
unfoldable pub insert_by_age : Transaction → List Transaction → List Transaction
insert_by_age x [] = x ∷ []
insert_by_age x (y ∷ ys) =
    let rest = insert_by_age x ys in if leb x.created_at y.created_at then x ∷ y ∷ ys else y ∷ rest

unfoldable pub due_rows : Time → List Transaction → List Transaction
unfolding insert_by_age
due_rows now [] = []
due_rows now (x ∷ xs) =
    let rest = due_rows now xs in if is_due now x then insert_by_age x rest else rest

-- LIMIT
unfoldable pub first_rows : ℕ → List Transaction → List Transaction
first_rows n [] = []
first_rows zero (x ∷ xs) = []
first_rows (suc n) (x ∷ xs) = x ∷ first_rows n xs

-- scanTransactions: the first row that cannot be read is the error.
unfoldable pub scan_transactions : List Transaction → Result (List Transaction)
scan_transactions [] = ok []
scan_transactions (x ∷ xs) =
    let rest = scan_transactions xs in
    elim (scan_transaction (some x)) [
      | ok tx ↦ elim rest [ ok txs ↦ ok (tx ∷ txs) | err e ↦ err e ]
      | err e ↦ err e
    ]

-- FindPendingReferences, of a positive limit
unfoldable pub find_pending_references : Env → ℕ → Action (List Transaction)
unfolding due_rows first_rows
find_pending_references env limit w =
    let query : Action (List Transaction) = do
      rows ←
          map_err (Error.wrap "query pending reference transactions")
            (pool_rows env (λ t. first_rows limit (due_rows (env.now w.calls) t.transactions)))
      lift (scan_transactions rows)
    in query w

-- processPending, whose errors are logged only
unfoldable pub process_pending : Env → Transaction → World → World
process_pending env x w = let (r, w') = resolve_pending_reference env x.id w in w'

-- `done` says whether the context has ended, by the number of calls made so far.
unfoldable pub process_all : Env → (ℕ → Bool) → List Transaction → World → World
process_all env done [] w = w
process_all env done (x ∷ xs) w =
    let rest = process_all env done xs (process_pending env x w) in if done w.calls then w else rest

unfoldable pub resolve_found : Env → (ℕ → Bool) → Result (List Transaction) → World → World
unfolding process_all
resolve_found env done (err e) w = w
resolve_found env done (ok xs) w = process_all env done xs w

-- One round of the loop in Start
unfoldable pub reference_round : Env → (ℕ → Bool) → World → World
unfolding resolve_found
reference_round env done w =
    let (r, w') = find_pending_references env 10 w in resolve_found env done r w'
