-- ===== src/Store/OutboxRepo.antt =====
-- The outbox of inbox_outbox_repository.go.
use betting_processing_go.Prelude.{
  ℕ, zero, suc, ◌+◌, ◌*◌, ◌^◌, min, leb, String, Bool, false, none, some, List, [], ◌∷◌, map,
  if◌then◌else◌,
}
use betting_processing_go.Prelude.Text.{str_eq}
use betting_processing_go.Errors.{Error, Result, ok, err}
use betting_processing_go.Wallet.{Time}
use betting_processing_go.Wager.{second}
use betting_processing_go.Store.Schema.{OutboxRow}
use betting_processing_go.Store.Session.{
  Env, Action, map_err, or_else, pool_read, pool_rows, pool_exec, ◌>>=◌,
}

-- The WHERE clause of FindPending
unfoldable pub is_pending : Time → OutboxRow → Bool
is_pending now r = elim r.published_at [ none ↦ leb r.next_attempt_at now | some at ↦ false ]

-- The pending rows, those whose turn came first at the head. Rows of the same time stay in the order of
-- the table, about which the database says nothing.
unfoldable pub insert_by_turn : OutboxRow → List OutboxRow → List OutboxRow
insert_by_turn x [] = x ∷ []
insert_by_turn x (y ∷ ys) =
    let rest = insert_by_turn x ys in
    if leb x.next_attempt_at y.next_attempt_at then x ∷ y ∷ ys else y ∷ rest

unfoldable pub pending_rows : Time → List OutboxRow → List OutboxRow
unfolding insert_by_turn is_pending
pending_rows now [] = []
pending_rows now (x ∷ xs) =
    let rest = pending_rows now xs in if is_pending now x then insert_by_turn x rest else rest

-- LIMIT
unfoldable pub first_events : ℕ → List OutboxRow → List OutboxRow
first_events n [] = []
first_events zero (x ∷ xs) = []
first_events (suc n) (x ∷ xs) = x ∷ first_events n xs

-- FindPending, of a positive limit
unfoldable pub find_pending : Env → ℕ → Action (List OutboxRow)
unfolding pending_rows first_events
find_pending env limit w =
    map_err (Error.wrap "query pending outbox events")
      (pool_rows env (λ t. first_events limit (pending_rows (env.now w.calls) t.outbox))) w

unfoldable pub set_published : String → Time → OutboxRow → OutboxRow
set_published id now r = if str_eq r.id id then record r { published_at = some now } else r

-- MarkPublished
unfoldable pub mark_published : Env → String → Action (Unit {0})
unfolding set_published
mark_published env id w =
    map_err (Error.wrap "mark outbox published")
      (pool_exec env
        (λ t. ok (tt, record t { outbox = map (set_published id (env.now w.calls)) t.outbox })))
      w

unfoldable pub attempts_of : String → List OutboxRow → Result ℕ
attempts_of id [] = err (Error.external "no rows in result set")
attempts_of id (r ∷ rs) =
    let rest = attempts_of id rs in if str_eq r.id id then ok r.attempts else rest

-- getAttempts
unfoldable pub get_attempts : Env → String → Action ℕ
unfolding attempts_of
get_attempts env id = or_else 0 (pool_read env (λ t. attempts_of id t.outbox))

unfoldable pub set_failed : String → Time → String → ℕ → OutboxRow → OutboxRow
set_failed id now last_error attempts r =
    if str_eq r.id id
    then record r {
      attempts = r.attempts + 1;
      last_error = last_error;
      next_attempt_at = now + 2 ^ min attempts 5 * second;
    }
    else r

unfoldable pub write_failed : Env → String → String → ℕ → Action (Unit {0})
unfolding set_failed
write_failed env id last_error attempts w =
    map_err (Error.wrap "increment outbox attempts")
      (pool_exec env (λ t. ok (
        tt,
        record t { outbox = map (set_failed id (env.now w.calls) last_error attempts) t.outbox },
      )))
      w

-- IncrementAttempts
unfoldable pub increment_attempts : Env → String → String → Action (Unit {0})
unfolding write_failed
increment_attempts env id last_error = do
  attempts ← get_attempts env id
  write_failed env id last_error attempts
