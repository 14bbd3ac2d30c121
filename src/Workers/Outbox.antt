-- ===== src/Workers/Outbox.antt =====
-- outbox_publisher.go. `send` is the function that publishes, by the number of calls made so far, `done`
-- says whether the context has ended by then, and `stopped` is as in Workers.Messages.
use betting_processing_go.Prelude.{ℕ, leb, String, Bool, List, [], ◌∷◌, if◌then◌else◌}
use betting_processing_go.Errors.{Result, ok, err}
use betting_processing_go.ErrorTexts.{error_text}
use betting_processing_go.Store.{
  Env, World, OutboxRow, find_pending, mark_published, increment_attempts,
}
use betting_processing_go.Workers.Messages.{is_cancelled}

abbrev pub max_attempts : ℕ
max_attempts = 5

-- What surrounds the publisher.
pub record Outside : Type 0 where
  pub send : ℕ → OutboxRow → Result (Unit {0})
  pub done : ℕ → Bool
  pub stopped : String → Bool

unfoldable pub after_send : Env → Outside → OutboxRow → Result (Unit {0}) → World → World
unfolding is_cancelled
after_send env out event (ok u) w = let (r, w') = mark_published env event.id w in w'
after_send env out event (err e) w =
    let (r, w') = increment_attempts env event.id (error_text e) w in
    if is_cancelled out.stopped e then w else w'

-- publish, whose errors are logged only
unfoldable pub publish_event : Env → Outside → OutboxRow → World → World
unfolding after_send
publish_event env out event w =
    if leb max_attempts event.attempts
    then w
    else if out.done w.calls
    then w
    else after_send env out event (out.send w.calls event) w

unfoldable pub publish_all : Env → Outside → List OutboxRow → World → World
publish_all env out [] w = w
publish_all env out (event ∷ events) w =
    let rest = publish_all env out events (publish_event env out event w) in
    if out.done w.calls then w else rest

unfoldable pub publish_found : Env → Outside → Result (List OutboxRow) → World → World
unfolding publish_all
publish_found env out (err e) w = w
publish_found env out (ok events) w = publish_all env out events w

-- One round of the loop in Start
unfoldable pub publish_round : Env → Outside → World → World
unfolding publish_found
publish_round env out w = let (r, w') = find_pending env 10 w in publish_found env out r w'
