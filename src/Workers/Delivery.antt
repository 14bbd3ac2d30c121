-- ===== src/Workers/Delivery.antt =====
-- The queue consumer and the reference worker on the tables: the invariant, and repeated delivery.
use betting_processing_go.Prelude.{
  ℕ, Bool-cases, inl, inr, ◌+◌, String, ◌≡◌, refl, ap, ◌∙◌, Bool, ◌&&◌, some, none, List, [], ◌∷◌,
}
use betting_processing_go.Errors.{
  Result, ok, err, WagerError, wager_err, errors_is, same_sentinel, sentinel_discrete,
}
use betting_processing_go.Money.{Money}
use betting_processing_go.Wager.{Transaction}
use betting_processing_go.Wager.Reference.{is_terminal_business_error}
use betting_processing_go.Store.{Env, World, Tables, column_is, find_row, scan_transaction}
use betting_processing_go.Store.Throughout.{
  bind-Throughout, map_err-Throughout, pool_rows-Throughout, lift-Throughout,
}
use betting_processing_go.WagerService.{Digest, ProcessResult, choose_key}
use betting_processing_go.WagerService.Sound.Statements.{Good}
use betting_processing_go.WagerService.Books.{
  process_transaction-Good, resolve_pending_reference-Good,
}
use betting_processing_go.WagerService.Replay.{
  replay_of, choose_key-IsKey, process_transaction-replay,
}
use betting_processing_go.Prelude.{◌⊎◌, inl, inr}
use betting_processing_go.Store.{tick}
use betting_processing_go.Workers.Messages.{Disposal}
use betting_processing_go.Workers.Messages.{
  Message, JobEnvelope, Decode, deleted, dispose, is_cancelled, message_key, message_id_of,
  aws_string_value, process_envelope, process_message, process_messages,
}
use betting_processing_go.Workers.References.{
  find_pending_references, process_pending, process_all, resolve_found, reference_round,
}

module _ (env : Env) (digest : Digest) (decode : Decode) (stopped : String → Bool) where
  process_envelope-Good :
      (message : Message) (r : Result JobEnvelope) (w : World)
      → Good w.committed
      → let (d, w') = process_envelope env digest stopped message r w in Good w'.committed
  unfolding process_envelope
  process_envelope-Good message (err e) w h = h
  process_envelope-Good message (ok envelope) w h =
      process_transaction-Good env digest envelope.data_ (message_key envelope.data_)
        (message_id_of message envelope) w h

  process_message-Good :
      (message : Message) (w : World)
      → Good w.committed
      → let (d, w') = process_message env digest decode stopped message w in Good w'.committed
  unfolding process_message
  process_message-Good message w h = process_envelope-Good message _ w h

  -- Whatever messages the queue delivers, in whatever order and however often, whatever the database does
  -- with each call and whenever the context ends, their processing leaves tables whose books balance, whose keys are unique and
  -- whose amounts are int64 wherever it found such tables.
  pub process_messages-Good :
      (done : ℕ → Bool) (messages : List Message) (w : World)
      → Good w.committed
      → Good (process_messages env digest decode stopped done messages w).committed
  unfolding process_messages
  process_messages-Good done [] w h = h
  process_messages-Good done (m ∷ ms) w h = elim (Bool-cases (done w.calls)) [
    | inl d ↦ rw d h
    | inr d ↦ rw d (process_messages-Good done ms _ (process_message-Good m w h))
  ]

module _ (env : Env) (done : ℕ → Bool) where
  process_all-Good :
      (xs : List Transaction) (w : World)
      → Good w.committed
      → Good (process_all env done xs w).committed
  unfolding process_all process_pending
  process_all-Good [] w h = h
  process_all-Good (x ∷ xs) w h = elim (Bool-cases (done w.calls)) [
    | inl d ↦ rw d h
    | inr d ↦ rw d (process_all-Good xs _ (resolve_pending_reference-Good env x.id w h))
  ]

  resolve_found-Good :
      (r : Result (List Transaction)) (w : World)
      → Good w.committed
      → Good (resolve_found env done r w).committed
  unfolding resolve_found
  resolve_found-Good (err e) w h = h
  resolve_found-Good (ok xs) w h = process_all-Good xs w h

  found-Good :
      (w : World)
      → Good w.committed
      → let (r, w') = find_pending_references env 10 w in Good w'.committed
  unfolding find_pending_references
  found-Good w h =
      let Any : Tables → Type 0 = λ _. Unit {0} in
      (bind-Throughout Good Any _ _ w
        (map_err-Throughout Good Any _ _ w (pool_rows-Throughout Good Any env _ w h tt))
        (λ rows w1 h1 u. lift-Throughout Good Any _ w1 h1 tt)).committed

  round-Good :
      (p : Result (List Transaction) × World)
      → (let (r, w) = p in Good w.committed)
      → let (r, w) = p in Good (resolve_found env done r w).committed
  round-Good (r, w) h = resolve_found-Good r w h

  -- Whatever the database does with each call, a round of the worker on pending references leaves tables
  -- whose books balance, whose keys are unique and whose amounts are int64 wherever it found such tables.
  pub reference_round-Good :
      (w : World) → Good w.committed → Good (reference_round env done w).committed
  unfolding reference_round
  reference_round-Good w h = round-Good (find_pending_references env 10 w) (found-Good w h)

module _ (digest : Digest) (stopped : String → Bool) where
  conflict-deleted :
      dispose stopped (wager_err {A = ProcessResult} WagerError.payload_conflict) ≡ deleted
  unfolding dispose is_cancelled is_terminal_business_error errors_is same_sentinel
      sentinel_discrete
  conflict-deleted = refl

  replay-deleted : (result : ProcessResult) → dispose stopped (ok result) ≡ deleted
  unfolding dispose
  replay-deleted result = refl

  -- Both outcomes of a replay.
  replayed-deleted :
      (p : Result ProcessResult × World) (w : World) (result : ProcessResult) (P Q : Type 0)
      → (P × (p ≡ (wager_err WagerError.payload_conflict, w))) ⊎ (Q × (p ≡ (ok result, w)))
      → ◌≡◌ {A = Disposal × World} (let (r, v) = p in (dispose stopped r, v)) (deleted, w)
  replayed-deleted p w result P Q (inl (other, e)) =
      ap (λ (q : Result ProcessResult × World). let (r, v) = q in (dispose stopped r, v)) e
      ∙ ap (λ x. (x, w)) conflict-deleted
  replayed-deleted p w result P Q (inr (same, e)) =
      ap (λ (q : Result ProcessResult × World). let (r, v) = q in (dispose stopped r, v)) e
      ∙ ap (λ x. (x, w)) (replay-deleted result)

-- A message whose request is stored already, under its key and with its balance, the lookup not failing:
-- the worker has the message deleted, whether the payload is the stored one or not, and no table changes.
pub process_message-redelivered :
    (env : Env) (digest : Digest) (decode : Decode) (stopped : String → Bool) (message : Message)
    (envelope : JobEnvelope) (w : World) (existing : Transaction) (balance : Money)
    → decode (aws_string_value message.body) ≡ ok envelope
    → env.fault w.calls ≡ none
    → scan_transaction (
        find_row
          (λ x.
            column_is x.provider envelope.data_.provider_id
            && column_is x.idempotency_key (choose_key envelope.data_ (message_key envelope.data_)))
          w.committed.transactions)
      ≡ ok existing
    → existing.result_balance ≡ some balance
    → process_message env digest decode stopped message w
      ≡ (deleted, record w { calls = w.calls + 1 })
unfolding process_message process_envelope
process_message-redelivered env digest decode stopped message envelope w existing balance d f e b =
    ap (λ r. process_envelope env digest stopped message r w) d
    ∙ replayed-deleted digest stopped _ (tick w) (replay_of existing balance) _ _
        (process_transaction-replay env digest envelope.data_ (message_key envelope.data_)
          (choose_key envelope.data_ (message_key envelope.data_)) (message_id_of message envelope)
          w (tick w) existing balance (choose_key-IsKey envelope.data_ (message_key envelope.data_))
          f e (inl (b, refl))).0
