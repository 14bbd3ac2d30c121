-- ===== src/WagerService/Sound/Statements.antt =====
-- The statements that the service writes, on any property of the tables that they keep.
use betting_processing_go.Prelude.{String, ◌≡◌, refl, subst, Bool, List, [], ◌∷◌, arith}
use betting_processing_go.Prelude.Text.{str_eq}
use betting_processing_go.Prelude.Int.{ℤ}
use betting_processing_go.Prelude.Int64.{IsInt64}
use betting_processing_go.Errors.{Error, Result, ok, err}
use betting_processing_go.Money.{Money}
use betting_processing_go.Wallet.{Direction, Time}
use betting_processing_go.Wallet.EntryMath.{signed}
use betting_processing_go.Wager.{Transaction, TransactionStatus}
use betting_processing_go.Store.{
  Env, World, Tables, OutboxRow, InboxRow, Event, marshal_event, insert_transaction,
  update_transaction, set_status, set_reference, count_attempt, create_transaction_tx,
  update_status_tx, set_internal_reference_tx, increment_ref_attempts_tx,
  create_wallet_ledger_entry_tx, record_received_tx, receive_message, mark_completed_tx, or_else,
}
use betting_processing_go.Store.During.{
  During, bind-During, map_err-During, return-During, tx_exec-During, if-During,
}
use betting_processing_go.Store.Throughout.{tx_exec-Throughout, map_err-Throughout, or_else-During}
use betting_processing_go.Store.Reconciled.{insert_ledger-Reconciled}
use betting_processing_go.Store.Frame.{Sound, Owed, formed_frame}
use betting_processing_go.Store.Statements.{
  stored_tables, mail-Sound, mail-Owed, insert_transaction-Sound, insert_transaction-Owed,
  outbox-Sound,
}
use betting_processing_go.WagerService.Events.{emit, emit_all, insert_payload}
use betting_processing_go.WagerService.Steps.{record_inbox, complete_inbox}

-- Balanced books, unique keys and int64 amounts.
abbrev pub Good : Tables → Type 0
Good t = Sound formed_frame t

abbrev pub Owes : String → ℤ → Tables → Type 0
Owes id z t = Owed formed_frame id z t

-- A property that the statements on transactions and messages keep.
pub record Steady (Q : Tables → Type 0) : Type 0 where
  pub insert :
      (x : Transaction) (t t' : Tables) (id : String)
      → IsInt64 x.amount.amount
      → Q t
      → insert_transaction x t ≡ ok (id, t')
      → Q t'
  pub update :
      (id : String) (f : Transaction → Transaction) (t t' : Tables)
      → ((x : Transaction) → (f x).amount ≡ x.amount)
      → Q t
      → update_transaction id f t ≡ ok (tt, t')
      → Q t'
  pub mail :
      (t : Tables) (outbox : List OutboxRow) (inbox : List InboxRow)
      → Q t
      → Q (record t { outbox = outbox; inbox = inbox })

update_parts :
    (id : String) (f : Transaction → Transaction) (t t' : Tables)
    → update_transaction id f t ≡ ok (tt, t')
    → (t'.wallets ≡ t.wallets) × (t'.ledger ≡ t.ledger)
unfolding update_transaction
update_parts id f t t' e = ground arith

pub Good-Steady : Steady Good
Good-Steady = record {
  insert = λ x t t' id a s e. insert_transaction-Sound formed_frame x t t' id a s e;
  update = λ id f t t' k s e.
      let (wallets, ledger) = update_parts id f t t' e in
      record {
        reconciled = record { balance = λ j. rw (wallets, ledger) (s.reconciled.balance j) };
        frame = formed_frame.status id f t t' k s.frame e;
      };
  mail = λ t outbox inbox s. mail-Sound formed_frame t outbox inbox s;
}

pub Owes-Steady : (id : String) (z : ℤ) → Steady (Owes id z)
Owes-Steady i z = record {
  insert = λ x t t' id a s e. insert_transaction-Owed formed_frame x t t' id i z a s e;
  update = λ id f t t' k s e.
      let (wallets, ledger) = update_parts id f t t' e in
      record {
        owing = record { balance = λ j. rw (wallets, ledger) (s.owing.balance j) };
        frame = formed_frame.status id f t t' k s.frame e;
      };
  mail = λ t outbox inbox s. mail-Owed formed_frame t outbox inbox s;
}

received_tables :
    (a b c : String) (now : Time) (t t' : Tables) (found : Bool)
    → Path (Result (Bool × Tables)) (ok (receive_message a b c now t)) (ok (found, t'))
    → (t'.wallets ≡ t.wallets)
      × (t'.transactions ≡ t.transactions)
      × (t'.ledger ≡ t.ledger)
      × (t'.outbox ≡ t.outbox)
unfolding receive_message
received_tables a b c now t t' found e = ground arith

same_but_inbox :
    (t t' : Tables)
    → (t'.wallets ≡ t.wallets)
      × (t'.transactions ≡ t.transactions)
      × (t'.ledger ≡ t.ledger)
      × (t'.outbox ≡ t.outbox)
    → record t { outbox = t.outbox; inbox = t'.inbox } ≡ t'
same_but_inbox t t' (a, b, c, d) = cc

receive_message-Steady :
    (Q : Tables → Type 0) (s : Steady Q) (a b c : String) (now : Time) (t t' : Tables)
    (found : Bool)
    → Q t
    → Path (Result (Bool × Tables)) (ok (receive_message a b c now t)) (ok (found, t'))
    → Q t'
receive_message-Steady Q s a b c now t t' found q e =
    subst Q (same_but_inbox t t' (received_tables a b c now t t' found e))
      (s.mail t t.outbox t'.inbox q)

module _ (env : Env) (P Q : Tables → Type 0) (s : Steady Q) where
  pub create_transaction_tx-During :
      (x : Transaction) (w : World)
      → IsInt64 x.amount.amount
      → P w.committed
      → Q w.current
      → During P (λ _ t. Q t) (create_transaction_tx env x w)
  unfolding create_transaction_tx
  create_transaction_tx-During x w a h q =
      map_err-During P _ _ w
        (tx_exec-During P env _ w h (λ id t e. s.insert _ w.current t id a q e))

  pub update_status_tx-During :
      (id : String) (status : TransactionStatus) (code : String) (w : World)
      → P w.committed
      → Q w.current
      → During P (λ _ t. Q t) (update_status_tx env id status code w)
  unfolding update_status_tx set_status
  update_status_tx-During id status code w h q =
      map_err-During P _ _ w
        (tx_exec-During P env _ w h (λ u t e. s.update id _ w.current t (λ x. refl) q e))

  pub set_internal_reference_tx-During :
      (id reference : String) (w : World)
      → P w.committed
      → Q w.current
      → During P (λ _ t. Q t) (set_internal_reference_tx env id reference w)
  unfolding set_internal_reference_tx set_reference
  set_internal_reference_tx-During id reference w h q =
      map_err-During P _ _ w
        (tx_exec-During P env _ w h (λ u t e. s.update id _ w.current t (λ x. refl) q e))

  pub record_inbox-During :
      (message_id : String) (w : World)
      → P w.committed
      → Q w.current
      → During P (λ _ t. Q t) (record_inbox env message_id w)
  unfolding record_inbox record_received_tx
  record_inbox-During message_id w h q =
      if-During P (str_eq message_id "") _ _ w (λ e. return-During P tt w h q)
        (λ e.
          bind-During P (λ _ t. Q t) _ _ w
            (map_err-During P _ _ w (
              map_err-During P _ _ w (
                tx_exec-During P env _ w h
                  (λ found t e. receive_message-Steady Q s _ _ _ _ w.current t found q e))))
            (λ found w1 h1 q1. return-During P tt w1 h1 q1))

refused_payload :
    (u : Unit {0}) (t : Tables)
    → ¬ Path
        (Result (Unit {0} × Tables))
        (err (Error.external "null value violates not-null constraint"))
        (ok (u, t))
refused_payload u t e = cc

pub stored_mail :
    {A : Type 0} (a b : A) (t t' : Tables)
    → Good t
    → Path (Result (A × Tables)) (ok (a, t)) (ok (b, t'))
    → Good t'
stored_mail a b t t' g e = subst Good (stored_tables a b t t' e) g

module _ (env : Env) (P : Tables → Type 0) where
  insert_payload-Good :
      (event : Event) (r : Result Event) (w : World)
      → P w.committed
      → Good w.current
      → During P (λ _ t. Good t) (insert_payload env event r w)
  unfolding insert_payload
  insert_payload-Good event (ok payload) w h g = outbox-Sound formed_frame env P _ _ _ payload w h g
  insert_payload-Good event (err e) w h g =
      map_err-During P _ _ w (tx_exec-During P env _ w h (λ u t q. absurd (refused_payload u t q)))

  -- An event whose payload the marshaller refuses is not written.
  pub emit-Good :
      (context : String) (event : Event) (w : World)
      → P w.committed
      → Good w.current
      → During P (λ _ t. Good t) (emit env context event w)
  unfolding emit
  emit-Good context event w h g =
      map_err-During P _ _ w (insert_payload-Good event (marshal_event event) w h g)

  pub emit_all-Good :
      (context : String) (events : List Event) (w : World)
      → P w.committed
      → Good w.current
      → During P (λ _ t. Good t) (emit_all env context events w)
  unfolding emit_all
  emit_all-Good context [] w h g = return-During P tt w h g
  emit_all-Good context (event ∷ events) w h g =
      bind-During P (λ _ t. Good t) _ _ w (emit-Good context event w h g)
        (λ u w1 h1 g1. emit_all-Good context events w1 h1 g1)

  pub ledger_entry-Good :
      (wallet_id tx_id : String) (d : Direction) (amount before after : Money) (w : World)
      → P w.committed
      → Owes wallet_id (signed d amount.amount) w.current
      → During P
          (λ _ t. Good t)
          (create_wallet_ledger_entry_tx env wallet_id tx_id d amount before after w)
  unfolding create_wallet_ledger_entry_tx
  ledger_entry-Good wallet_id tx_id d amount before after w h r = map_err-During P _ _ w (
      tx_exec-During P env _ w h (λ id t e. record {
        reconciled = insert_ledger-Reconciled _ w.current t id r.owing e;
        frame = formed_frame.entry _ w.current t id r.frame e;
      }))

module _ (env : Env) where
  -- Statements whose error the code ignores.
  pub complete_inbox-Good :
      (message_id : String) (w : World)
      → Good w.committed
      → Good w.current
      → During Good (λ _ t. Good t) (complete_inbox env message_id w)
  unfolding complete_inbox mark_completed_tx
  complete_inbox-Good message_id w h g =
      if-During Good (str_eq message_id "") _ _ w (λ e. return-During Good tt w h g)
        (λ e. or_else-During Good Good tt _ w (
          map_err-Throughout Good Good _ _ w (
            tx_exec-Throughout Good Good env _ w h g (λ u t q.
              stored_mail tt u _ t (mail-Sound formed_frame w.current w.current.outbox _ g) q))))

  pub increment_ref_attempts-Good :
      (id : String) (w : World)
      → Good w.committed
      → Good w.current
      → During Good (λ _ t. Good t) (or_else tt (increment_ref_attempts_tx env id) w)
  unfolding increment_ref_attempts_tx count_attempt
  increment_ref_attempts-Good id w h g = or_else-During Good Good tt _ w (
      map_err-Throughout Good Good _ _ w (
        tx_exec-Throughout Good Good env _ w h g
          (λ u t e. Good-Steady.update id _ w.current t (λ x. refl) g e)))
