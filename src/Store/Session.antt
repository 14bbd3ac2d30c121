-- ===== src/Store/Session.antt =====
-- tx_manager.go: calls of the database, which may fail, inside a transaction and outside of one.
--
-- What the code does not decide is an argument: for each call of the database its failure, the id that
-- gen_random_uuid() gives, the time that now() gives and the number of rows that arrive before a
-- connection breaks. A call is counted whether it fails or not. The
-- statements of other sessions are not modelled: `FOR UPDATE` and the constraints are what the code
-- relies on against them.
use betting_processing_go.Prelude.{
  ℕ, ◌+◌, String, Bool, true, false, Option, none, some, List, take,
}
use betting_processing_go.Errors.{Error, Result, ok, err}
use betting_processing_go.Wallet.{Time}
use betting_processing_go.Store.Schema.{Tables}

-- A call fails before it has an effect, or its reply is lost after it had one.
pub data Fault : Type 0 where
  refused reply_lost : String → Fault

pub record Env : Type 0 where
  pub fault : ℕ → Option Fault
  pub uuid : ℕ → String
  pub now : ℕ → Time
  pub delivered : ℕ → ℕ

-- The committed tables, what the open transaction has made of them, whether a failed statement
-- aborted it, and the number of calls so far.
pub record World : Type 0 where
  pub committed : Tables
  pub current : Tables
  pub aborted : Bool
  pub calls : ℕ

abbrev pub Action : Type 0 → Type 0
Action A = World → Result A × World

infixl 5 ◌>>=◌ ◌>>◌
unfoldable pub ◌>>=◌ : {A B : Type 0} → Action A → (A → Action B) → Action B
(m >>= f) w = let (r, w') = m w in elim r [ ok a ↦ f a w' | err e ↦ (err e, w') ]

abbrev pub ◌>>◌ : {B : Type 0} → Action (Unit {0}) → Action B → Action B
m >> k = m >>= λ _. k

-- A result that needs no database.
unfoldable pub lift : {A : Type 0} → Result A → Action A
lift r w = (r, w)

abbrev pub tick : World → World
tick w = record w { calls = w.calls + 1 }

-- Replaces the error by a function of it.
unfoldable pub map_err : {A : Type 0} → (Error → Error) → Action A → Action A
map_err f m w = let (r, w') = m w in elim r [ ok a ↦ (ok a, w') | err e ↦ (err (f e), w') ]

-- A read of the committed tables, outside a transaction.
unfoldable pub read_reply : {A : Type 0} → Option Fault → Result A → Result A
read_reply none r = r
read_reply (some (refused text)) r = err (Error.external text)
read_reply (some (reply_lost text)) r = err (Error.external text)

unfoldable pub pool_read : {A : Type 0} → Env → (Tables → Result A) → Action A
unfolding read_reply
pool_read env f w = (read_reply (env.fault w.calls) (f w.committed), tick w)

-- The rows that a query outside of a transaction gives. Where the connection breaks while they are read,
-- rows.Next ends the loop as it does at the last row, and the code does not ask for rows.Err().
unfoldable pub cut_off : {A : Type 0} → Option Fault → ℕ → List A → Result (List A)
cut_off none count rows = ok rows
cut_off (some (refused text)) count rows = err (Error.external text)
cut_off (some (reply_lost text)) count rows = ok (take count rows)

unfoldable pub pool_rows : {A : Type 0} → Env → (Tables → List A) → Action (List A)
unfolding cut_off
pool_rows env f w = (cut_off (env.fault w.calls) (env.delivered w.calls) (f w.committed), tick w)

-- A statement outside of a transaction, which commits by itself.
unfoldable pub exec_reply : {A : Type 0} → Option Fault → Result (A × Tables) → Action A
exec_reply none (ok (a, t)) w = (ok a, record (tick w) { committed = t })
exec_reply none (err e) w = (err e, tick w)
exec_reply (some (refused text)) r w = (err (Error.external text), tick w)
exec_reply (some (reply_lost text)) (ok (a, t)) w =
    (err (Error.external text), record (tick w) { committed = t })
exec_reply (some (reply_lost text)) (err e) w = (err (Error.external text), tick w)

unfoldable pub pool_exec : {A : Type 0} → Env → (Tables → Result (A × Tables)) → Action A
unfolding exec_reply
pool_exec env f w = exec_reply (env.fault w.calls) (f w.committed) w

-- Begin
unfoldable pub begin_reply : Option Fault → Action (Unit {0})
begin_reply none w = (ok tt, record (tick w) { current = w.committed; aborted = false })
begin_reply (some (refused text)) w =
    (err (Error.wrap "begin transaction" (Error.external text)), tick w)
begin_reply (some (reply_lost text)) w =
    (err (Error.wrap "begin transaction" (Error.external text)), tick w)

unfoldable pub begin_tx : Env → Action (Unit {0})
unfolding begin_reply
begin_tx env w = begin_reply (env.fault w.calls) w

-- A statement of the open transaction; one that fails aborts the transaction.
unfoldable pub tx_reply : {A : Type 0} → Bool → Option Fault → Result (A × Tables) → Action A
tx_reply true fault r w = (err (Error.external "current transaction is aborted"), tick w)
tx_reply false none (ok (a, t)) w = (ok a, record (tick w) { current = t })
tx_reply false none (err e) w = (err e, record (tick w) { aborted = true })
tx_reply false (some (refused text)) r w =
    (err (Error.external text), record (tick w) { aborted = true })
tx_reply false (some (reply_lost text)) r w =
    (err (Error.external text), record (tick w) { aborted = true })

unfoldable pub tx_exec : {A : Type 0} → Env → (Tables → Result (A × Tables)) → Action A
unfolding tx_reply
tx_exec env f w = tx_reply w.aborted (env.fault w.calls) (f w.current) w

-- Commit. An aborted transaction is rolled back instead, which the driver reports as an error. Where the
-- reply is lost the transaction is committed and the caller is told that it is not.
unfoldable pub commit_reply : Bool → Option Fault → Action (Unit {0})
commit_reply true fault w =
    (err (Error.external "commit unexpectedly resulted in rollback"), tick w)
commit_reply false none w = (ok tt, record (tick w) { committed = w.current })
commit_reply false (some (refused text)) w = (err (Error.external text), tick w)
commit_reply false (some (reply_lost text)) w =
    (err (Error.external text), record (tick w) { committed = w.current })

unfoldable pub commit_tx : Env → Action (Unit {0})
unfolding commit_reply
commit_tx env w = commit_reply w.aborted (env.fault w.calls) w

-- Rollback. The code ignores its result, and a transaction that cannot be rolled back ends with its
-- connection.
unfoldable pub rollback_tx : Action (Unit {0})
rollback_tx w = (ok tt, record (tick w) { current = w.committed; aborted = false })

-- The result of a call whose error the code looks at itself.
unfoldable pub attempt : {A : Type 0} → Action A → Action (Result A)
attempt m w = let (r, w') = m w in (ok r, w')

-- `x, _ := m`, with the zero value of the type for an error
unfoldable pub or_else : {A : Type 0} → A → Action A → Action A
or_else zero m w = let (r, w') = m w in elim r [ ok a ↦ (ok a, w') | err e ↦ (ok zero, w') ]

-- time.Now
unfoldable pub read_clock : Env → Action Time
read_clock env w = (ok (env.now w.calls), w)
