-- ===== src/Workers/Publishing.antt =====
-- What a round of the outbox publisher does.
use betting_processing_go.Prelude.{
  ℕ, zero, suc, take, leb, String, ◌≡◌, refl, ap, ◌∙◌, true, false, ◌&&◌, inl, inr, Option, none,
  some, List, [], ◌∷◌, map, any, All, Bool-cases,
}
use betting_processing_go.Prelude.Text.{str_eq}
use betting_processing_go.Errors.{Error, Result, ok, err}
use betting_processing_go.Wallet.{Time}
use betting_processing_go.Store.{
  Env, World, Tables, OutboxRow, Fault, refused, reply_lost, pool_exec, exec_reply, cut_off,
  pool_rows, tick, map_err, is_pending, pending_rows, first_events, find_pending, set_published,
  mark_published, get_attempts, write_failed, increment_attempts,
}
use betting_processing_go.Store.Frame.{formed_frame}
use betting_processing_go.Store.Statements.{mail-Sound}
use betting_processing_go.Store.During.{
  Keeps, bind-During, map_err-During, or_else-Keeps, pool_read-Keeps, pool_rows-Keeps,
  committed-Keeps,
}
use betting_processing_go.WagerService.Sound.Statements.{Good, stored_mail}
use betting_processing_go.ErrorTexts.{error_text}
use betting_processing_go.Workers.Messages.{is_cancelled}
use betting_processing_go.Workers.Outbox.{
  Outside, max_attempts, after_send, publish_event, publish_all, publish_found, publish_round,
}

-- The event has used up its attempts.
abbrev pub IsExhausted : OutboxRow → Type 0
IsExhausted event = leb max_attempts event.attempts ≡ true

module _ (env : Env) (out : Outside) where
  publish_event_exhausted :
      (event : OutboxRow) (w : World) → IsExhausted event → publish_event env out event w ≡ w
  unfolding publish_event
  publish_event_exhausted event w h = rw h refl

  publish_all_exhausted :
      (events : List OutboxRow) (w : World)
      → All IsExhausted events
      → publish_all env out events w ≡ w
  unfolding publish_all
  publish_all_exhausted [] w h = refl
  publish_all_exhausted (event ∷ events) w (h, hs) = elim (Bool-cases (out.done w.calls)) [
    | inl d ↦ rw d refl
    | inr d ↦ rw d (
        ap (publish_all env out events) (publish_event_exhausted event w h)
        ∙ publish_all_exhausted events w hs)
  ]

  take-IsExhausted :
      (n : ℕ) (events : List OutboxRow) → All IsExhausted events → All IsExhausted (take n events)
  take-IsExhausted zero events h = tt
  take-IsExhausted (suc n) [] h = tt
  take-IsExhausted (suc n) (event ∷ events) (h, hs) = (h, take-IsExhausted n events hs)

  starved_by :
      (fault : Option Fault) (count : ℕ) (events : List OutboxRow) (w : World)
      → All IsExhausted events
      → (let (r, w') = elim (cut_off fault count events) as (λ _. Result (List OutboxRow) × World) [
        | ok a ↦ (ok a, w)
        | err e ↦ (err (Error.wrap "query pending outbox events" e), w)
      ] in
          publish_found env out r w')
        ≡ w
  unfolding cut_off publish_found
  starved_by none count events w h = publish_all_exhausted events w h
  starved_by (some (refused text)) count events w h = refl
  starved_by (some (reply_lost text)) count events w h =
      publish_all_exhausted _ w (take-IsExhausted count events h)

  -- A round that finds exhausted events only.
  pub publish_round_exhausted :
      (w : World)
      → All IsExhausted (first_events 10 (pending_rows (env.now w.calls) w.committed.outbox))
      → publish_round env out w ≡ tick w
  unfolding publish_round find_pending map_err pool_rows
  publish_round_exhausted w h = starved_by (env.fault w.calls) (env.delivered w.calls) _ (tick w) h

-- A row of the event that is not pending.
published_rows :
    (id : String) (now later : Time) (rows : List OutboxRow)
    → any (λ r. str_eq r.id id && is_pending later r) (map (set_published id now) rows) ≡ false
unfolding set_published is_pending
published_rows id now later [] = refl
published_rows id now later (r ∷ rs) =
    let rest : any (λ x. str_eq x.id id && is_pending later x) (map (set_published id now) rs)
        ≡ false =
      published_rows id now later rs in
    elim (Bool-cases (str_eq r.id id)) [
      | inl e ↦ rw (e, e, rest) refl
      | inr e ↦ rw (e, e, rest) refl
    ]

recorded :
    (env : Env) (out : Outside) (event : OutboxRow) (w : World)
    → env.fault w.calls ≡ none
    → (after_send env out event (ok tt) w).committed.outbox
      ≡ map (set_published event.id (env.now w.calls)) w.committed.outbox
unfolding after_send mark_published map_err pool_exec exec_reply
recorded env out event w f =
    ap
      (λ fault.
        let (r, v) =
          map_err (Error.wrap "mark outbox published")
            (exec_reply fault (
              ok (
                tt,
                record w.committed {
                  outbox = map (set_published event.id (env.now w.calls)) w.committed.outbox;
                },
              )))
            w in
        v.committed.outbox)
      f

-- An event that has attempts left, where the context has not ended, the queue takes the event and the
-- database records it: after publish no row of the event is pending, at any time.
pub publish_event-published :
    (env : Env) (out : Outside) (event : OutboxRow) (w : World) (later : Time)
    → leb max_attempts event.attempts ≡ false
    → out.done w.calls ≡ false
    → out.send w.calls event ≡ ok tt
    → env.fault w.calls ≡ none
    → any
        (λ r. str_eq r.id event.id && is_pending later r)
        (publish_event env out event w).committed.outbox
      ≡ false
unfolding publish_event
publish_event-published env out event w later h d s f =
    rw (h, d, s, recorded env out event w f)
      (published_rows event.id (env.now w.calls) later w.committed.outbox)

module _ (env : Env) where
  exec_reply-Keeps :
      {A : Type 0} (fault : Option Fault) (r : Result (A × Tables)) (w : World)
      → Good w.committed
      → ((a : A) (t : Tables) → r ≡ ok (a, t) → Good t)
      → Keeps Good (exec_reply fault r w)
  unfolding exec_reply
  exec_reply-Keeps none (ok (a, t)) w h k = record { holds = (k a t refl, tt) }
  exec_reply-Keeps none (err e) w h k = record { holds = h }
  exec_reply-Keeps (some (refused text)) r w h k = record { holds = h }
  exec_reply-Keeps (some (reply_lost text)) (ok (a, t)) w h k = record { holds = k a t refl }
  exec_reply-Keeps (some (reply_lost text)) (err e) w h k = record { holds = h }

  mark_published-Keeps :
      (id : String) (w : World) → Good w.committed → Keeps Good (mark_published env id w)
  unfolding mark_published pool_exec
  mark_published-Keeps id w h = map_err-During Good _ _ w (
      exec_reply-Keeps _ _ w h (λ u t e.
        stored_mail tt u _ t (mail-Sound formed_frame w.committed _ w.committed.inbox h) e))

  write_failed-Keeps :
      (id text : String) (n : ℕ) (w : World)
      → Good w.committed
      → Keeps Good (write_failed env id text n w)
  unfolding write_failed pool_exec
  write_failed-Keeps id text n w h = map_err-During Good _ _ w (
      exec_reply-Keeps _ _ w h (λ u t e.
        stored_mail tt u _ t (mail-Sound formed_frame w.committed _ w.committed.inbox h) e))

  increment_attempts-Keeps :
      (id text : String) (w : World)
      → Good w.committed
      → Keeps Good (increment_attempts env id text w)
  unfolding increment_attempts get_attempts
  increment_attempts-Keeps id text w h =
      bind-During Good (λ _ _. Unit {0}) _ _ w
        (or_else-Keeps Good 0 _ w (pool_read-Keeps Good env _ w h))
        (λ n w1 h1 u. write_failed-Keeps id text n w1 h1)

  module _ (out : Outside) where
    after_send-Good :
        (event : OutboxRow) (r : Result (Unit {0})) (w : World)
        → Good w.committed
        → Good (after_send env out event r w).committed
    unfolding after_send
    after_send-Good event (ok u) w h = committed-Keeps Good _ (mark_published-Keeps event.id w h)
    after_send-Good event (err e) w h = elim (Bool-cases (is_cancelled out.stopped e)) [
      | inl c ↦ rw c h
      | inr c ↦ rw c (committed-Keeps Good _ (increment_attempts-Keeps event.id (error_text e) w h))
    ]

    publish_event-Good :
        (event : OutboxRow) (w : World)
        → Good w.committed
        → Good (publish_event env out event w).committed
    unfolding publish_event
    publish_event-Good event w h = elim (Bool-cases (leb max_attempts event.attempts)) [
      | inl a ↦ rw a h
      | inr a ↦ elim (Bool-cases (out.done w.calls)) [
        | inl d ↦ rw (a, d) h
        | inr d ↦ rw (a, d) (after_send-Good event (out.send w.calls event) w h)
      ]
    ]

    publish_all-Good :
        (events : List OutboxRow) (w : World)
        → Good w.committed
        → Good (publish_all env out events w).committed
    unfolding publish_all
    publish_all-Good [] w h = h
    publish_all-Good (event ∷ events) w h = elim (Bool-cases (out.done w.calls)) [
      | inl d ↦ rw d h
      | inr d ↦ rw d (publish_all-Good events _ (publish_event-Good event w h))
    ]

    publish_found-Good :
        (p : Result (List OutboxRow) × World)
        → Keeps Good p
        → let (r, w) = p in Good (publish_found env out r w).committed
    unfolding publish_found
    publish_found-Good (ok events, w) h = let (g, u) = h.holds in publish_all-Good events w g
    publish_found-Good (err e, w) h = h.holds

    -- Whatever the database and the queue do with each call, a round of the publisher leaves tables
    -- whose books balance, whose keys are unique and whose amounts are int64 wherever it found such
    -- tables.
    pub publish_round-Good :
        (w : World) → Good w.committed → Good (publish_round env out w).committed
    unfolding publish_round find_pending
    publish_round-Good w h =
        publish_found-Good _ (map_err-During Good _ _ w (pool_rows-Keeps Good env _ w h))
