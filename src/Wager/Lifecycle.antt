-- ===== src/Wager/Lifecycle.antt =====
-- transaction.go: the state machine of a transaction. Its diagram is that of isValidTransition, which has
-- two edges to FAILED that section 12 of ARCHITECTURE.md does not list.
use betting_processing_go.Prelude.{
  ℕ, ◌+◌, ◌*◌, ◌^◌, ◌≡◌, ◌≢◌, ◌⊎◌, inl, inr, refl, ap, ◌∙◌, min, List, [], ◌∷◌, ltb, Bool-cases,
  Bool, true, false, Option, none, some, arith, if◌then◌else◌,
}
use betting_processing_go.Errors.{Result, ok, err, WagerError, wager_err}
use betting_processing_go.Wallet.{Time}
use betting_processing_go.Wager.Defs.{
  TransactionStatus, pending, pending_reference, processed, rejected, failed, Transaction,
  is_terminal, is_terminal_status, is_valid_transition, processed_time, transition_to, backoff,
  second, increment_ref_attempts,
}

-- The edges that isValidTransition allows.
infix 40 ◌⟶◌ ◌⟶*◌
pub data ◌⟶◌ : TransactionStatus → TransactionStatus → Type 0 where
  process : pending ⟶ processed
  reject : pending ⟶ rejected
  fail : pending ⟶ failed
  await : pending ⟶ pending_reference
  resolve : pending_reference ⟶ processed
  refuse : pending_reference ⟶ rejected
  give_up : pending_reference ⟶ failed

pub data ◌⟶*◌ : TransactionStatus → TransactionStatus → Type 0 where
  here : {s : TransactionStatus} → s ⟶* s
  next : {s t u : TransactionStatus} → s ⟶* t → t ⟶ u → s ⟶* u

ruleset edges = (process, reject, fail, await, resolve, refuse, give_up)

valid_edge : (s t : TransactionStatus) → is_valid_transition s t ≡ true → s ⟶ t
unfolding is_valid_transition
valid_edge s t h = grind (arith, edges)

edge_valid :
    {s t : TransactionStatus}
    → s ⟶ t
    → (is_valid_transition s t ≡ true) × (is_terminal_status s ≡ false)
unfolding is_valid_transition is_terminal_status
edge_valid process = (refl, refl)
edge_valid reject = (refl, refl)
edge_valid fail = (refl, refl)
edge_valid await = (refl, refl)
edge_valid resolve = (refl, refl)
edge_valid refuse = (refl, refl)
edge_valid give_up = (refl, refl)

-- The transaction after a transition, field by field.
abbrev pub moved : Time → TransactionStatus → Transaction → Transaction
moved now s t = record t {
  status = s;
  updated_at = now;
  processed_at = processed_time now s t.processed_at;
}

-- The permitted transitions of section 12 of ARCHITECTURE.md.
pub data Documented : TransactionStatus → TransactionStatus → Type 0 where
  doc_process : Documented pending processed
  doc_reject : Documented pending rejected
  doc_await : Documented pending pending_reference
  doc_resolve : Documented pending_reference processed
  doc_refuse : Documented pending_reference rejected

edge-Documented : {s t : TransactionStatus} → s ⟶ t → Documented s t ⊎ (t ≡ failed)
edge-Documented process = inl doc_process
edge-Documented reject = inl doc_reject
edge-Documented fail = inr refl
edge-Documented await = inl doc_await
edge-Documented resolve = inl doc_resolve
edge-Documented refuse = inl doc_refuse
edge-Documented give_up = inr refl

Documented-edge : {s t : TransactionStatus} → Documented s t → s ⟶ t
Documented-edge doc_process = process
Documented-edge doc_reject = reject
Documented-edge doc_await = await
Documented-edge doc_resolve = resolve
Documented-edge doc_refuse = refuse

-- TransitionTo succeeds exactly along an edge that isValidTransition allows; then it changes the status
-- and the times alone, and otherwise it returns the transition error. These edges are those that section
-- 12 of ARCHITECTURE.md lists, and others that lead to FAILED, which it does not list.
pub transition_to-edge :
    (now : Time) (s : TransactionStatus) (t : Transaction)
    → (t.status ⟶ s → transition_to now s t ≡ ok (moved now s t))
      × (¬ (t.status ⟶ s) → transition_to now s t ≡ wager_err WagerError.invalid_state_transition)
      × (t.status ⟶ s → Documented t.status s ⊎ (s ≡ failed))
      × (Documented t.status s → t.status ⟶ s)
unfolding transition_to is_terminal
transition_to-edge now s t = (
  λ e. ground (arith, edge_valid e),
  λ no_edge.
      ground
        (arith, λ (h : is_valid_transition t.status s ≡ true). no_edge (valid_edge t.status s h)),
  edge-Documented,
  Documented-edge,
)

-- The callers ignore the error of TransitionTo and go on with the transaction as it is.
abbrev pub or_same : Transaction → Result Transaction → Transaction
or_same t (ok t') = t'
or_same t (err e) = t

abbrev pub attempt : Time × TransactionStatus → Transaction → Transaction
attempt (now, s) t = or_same t (transition_to now s t)

unfoldable pub attempts : List (Time × TransactionStatus) → Transaction → Transaction
attempts [] t = t
attempts (c ∷ cs) t = attempts cs (attempt c t)

attempt_moves :
    (now : Time) (s : TransactionStatus) (t : Transaction)
    → (t.status ⟶ s) × (attempt (now, s) t ≡ moved now s t) ⊎ (attempt (now, s) t ≡ t)
attempt_moves now s t =
    let (along, across, listed, allowed) = transition_to-edge now s t in
    elim (Bool-cases (is_valid_transition t.status s)) [
      | inl v ↦ (let e = valid_edge t.status s v in inl (e, ap (or_same t) (along e)))
      | inr n ↦ inr (ap (or_same t) (across (λ e. absurd_bool n (edge_valid e).0)))
    ]
  where
    absurd_bool : {b : Bool} → b ≡ false → b ≡ true → ⊥
    absurd_bool p q = cc

⟶*-join : {s t u : TransactionStatus} → s ⟶* t → t ⟶* u → s ⟶* u
⟶*-join p here = p
⟶*-join p (next q e) = next (⟶*-join p q) e

attempt-⟶* :
    (now : Time) (s : TransactionStatus) (t : Transaction) → t.status ⟶* (attempt (now, s) t).status
attempt-⟶* now s t = elim (attempt_moves now s t) [
  | inl (e, q) ↦ rw q (next here e)
  | inr q ↦ rw q here
]

-- Whatever transitions are asked for, and in whatever order, the status moves along
-- the edges that isValidTransition allows, those to FAILED included.
pub attempts-⟶* :
    (cs : List (Time × TransactionStatus)) (t : Transaction) → t.status ⟶* (attempts cs t).status
unfolding attempts
attempts-⟶* [] t = here
attempts-⟶* ((now, s) ∷ cs) t = ⟶*-join (attempt-⟶* now s t) (attempts-⟶* cs (attempt (now, s) t))

-- A terminal transaction is final: no sequence of transitions changes any field of it.
pub attempts_terminal :
    (cs : List (Time × TransactionStatus)) (t : Transaction)
    → is_terminal t ≡ true
    → attempts cs t ≡ t
unfolding attempts
attempts_terminal [] t h = refl
attempts_terminal ((now, s) ∷ cs) t h =
    let e : attempt (now, s) t ≡ t = unfold transition_to in rw h in rw e (attempts_terminal cs t h)

-- A processed transaction has its processing time, and no other has one.
pub record IsTimed (t : Transaction) : Type 0 where
  pub has_time : t.status ≡ processed → t.processed_at ≢ none
  pub no_time : t.status ≢ processed → t.processed_at ≡ none

edge-ne-processed : {s t : TransactionStatus} → s ⟶ t → s ≢ processed
edge-ne-processed process = cc
edge-ne-processed reject = cc
edge-ne-processed fail = cc
edge-ne-processed await = cc
edge-ne-processed resolve = cc
edge-ne-processed refuse = cc
edge-ne-processed give_up = cc

processed_time-cases :
    (now : Time) (s : TransactionStatus) (old : Option Time)
    → (s ≡ processed → processed_time now s old ≢ none)
      × (s ≢ processed → processed_time now s old ≡ old)
unfolding processed_time
processed_time-cases now s old = ground arith

moved-IsTimed :
    (now : Time) (s : TransactionStatus) (t : Transaction)
    → t.status ⟶ s
    → IsTimed t
    → IsTimed (moved now s t)
moved-IsTimed now s t e h =
    let (timed, untimed) = processed_time-cases now s t.processed_at in
    record { has_time = timed; no_time = λ n. untimed n ∙ h.no_time (edge-ne-processed e) }

-- Every sequence of transitions keeps the processing time and the status in step.
pub attempts-IsTimed :
    (cs : List (Time × TransactionStatus)) (t : Transaction) → IsTimed t → IsTimed (attempts cs t)
unfolding attempts
attempts-IsTimed [] t h = h
attempts-IsTimed ((now, s) ∷ cs) t h = elim (attempt_moves now s t) [
  | inl (e, q) ↦ attempts-IsTimed cs (attempt (now, s) t) (rw q (moved-IsTimed now s t e h))
  | inr q ↦ attempts-IsTimed cs (attempt (now, s) t) (rw q h)
]

backoff-cases : (n : ℕ) → backoff (n + 1) ≡ (if ltb n 5 then 2 ^ (n + 1) else 64)
unfolding backoff
backoff-cases n = elim (Bool-cases (ltb n 5)) [
  | inl small ↦ (let e : min (n + 1) 6 ≡ n + 1 = ground arith in rw (small, e))
  | inr large ↦ (let e : min (n + 1) 6 ≡ 6 = ground arith in rw (large, e))
]

-- The delay before the next attempt doubles from two seconds and stays at 64 from the sixth on.
pub increment_ref_attempts-delay :
    (now : Time) (t : Transaction)
    → ((increment_ref_attempts now t).ref_attempts ≡ t.ref_attempts + 1)
      × ((increment_ref_attempts now t).ref_next_attempt_at
          ≡ some (now + (if ltb t.ref_attempts 5 then 2 ^ (t.ref_attempts + 1) else 64) * second))
unfolding increment_ref_attempts
increment_ref_attempts-delay now t =
    (refl, ap (λ k. some (now + k * second)) (backoff-cases t.ref_attempts))
