-- ===== src/WagerService/Replay.antt =====
-- A request whose idempotency key is there already.
use betting_processing_go.Prelude.{
  ◌+◌, String, ◌≡◌, refl, true, inl, inr, ◌&&◌, some, none, Bool-cases,
}
use betting_processing_go.Errors.{Result, ok, WagerError, wager_err}
use betting_processing_go.Money.{Money}
use betting_processing_go.Wager.{Transaction}
use betting_processing_go.Store.{
  Env, World, Action, column_is, find_row, scan_transaction, find_by_idempotency_key,
  query_transaction, lift, attempt,
}
use betting_processing_go.Store.Runs.{bind_ok, map_err_ok, lift_ok, pool_read_ok}
use betting_processing_go.Store.{tick}
use betting_processing_go.Store.During.{Throughout}
use betting_processing_go.Prelude.{◌≢◌, ◌⊎◌, arith, ap, sym, subst, false}
use betting_processing_go.Prelude.Text.{str_eq, str_append, eq_iff}
use betting_processing_go.WagerService.Sound.Reads.{get_wallet_balance-Throughout}
use betting_processing_go.WagerService.Process.{compute_payload_hash}
use betting_processing_go.WagerService.Steps.{ProcessResult, get_wallet_balance}
use betting_processing_go.WagerService.Process.{
  Request, Digest, choose_key, conflicts, process_found, process_transaction, handle_replay,
  replayed_balance,
}

-- The result that is given back for a stored transaction and its balance.
abbrev pub replay_of : Transaction → Money → ProcessResult
replay_of existing balance = record {
  transaction_id = existing.id;
  status = existing.status;
  balance = balance;
  idempotent_replay = true;
}

attempted :
    {A : Type 0} (m : Action A) (w w' : World) (r : Result A)
    → m w ≡ (r, w')
    → attempt m w ≡ (ok r, w')
unfolding attempt
attempted m w w' r e = rw e refl

found_key :
    (env : Env) (provider key : String) (w : World) (existing : Transaction)
    → env.fault w.calls ≡ none
    → scan_transaction (
        find_row
          (λ x. column_is x.provider provider && column_is x.idempotency_key key)
          w.committed.transactions)
      ≡ ok existing
    → attempt (find_by_idempotency_key env provider key) w
      ≡ (ok (ok existing), record w { calls = w.calls + 1 })
unfolding find_by_idempotency_key query_transaction
found_key env provider key w existing f e =
    attempted _ w _ (ok existing)
      (bind_ok _ _ w (map_err_ok _ _ w (pool_read_ok env _ w f refl)) (lift_ok _ _ e))

-- The key of a request: the argument, or else the request's own, or else its provider and external id.
abbrev pub IsKey : Request → String → String → Type 0
IsKey req idempotency_key key =
    ((idempotency_key ≢ "") × (key ≡ idempotency_key))
    ⊎ (((idempotency_key ≡ "") × (req.idempotency_key ≢ "") × (key ≡ req.idempotency_key))
        ⊎ ((idempotency_key ≡ "")
            × (req.idempotency_key ≡ "")
            × (key ≡ str_append (str_append req.provider_id ":") req.external_transaction_id)))

chosen :
    (req : Request) (idempotency_key key : String)
    → IsKey req idempotency_key key
    → choose_key req idempotency_key ≡ key
unfolding choose_key
chosen req k key h = ground (arith, eq_iff k "", eq_iff req.idempotency_key "")

differs : (x y : String) → str_eq x y ≡ false → x ≢ y
differs x y b e = cc (b, (eq_iff x y).1 e)

pub choose_key-IsKey : (req : Request) (key : String) → IsKey req key (choose_key req key)
unfolding choose_key
choose_key-IsKey req key = elim (Bool-cases (str_eq key "")) [
  | inl b ↦ elim (Bool-cases (str_eq req.idempotency_key "")) [
    | inl c ↦ rw (b, c) (inr (inr ((eq_iff key "").0 b, (eq_iff req.idempotency_key "").0 c, refl)))
    | inr c ↦ rw (b, c) (inr (inl ((eq_iff key "").0 b, differs req.idempotency_key "" c, refl)))
  ]
  | inr b ↦ rw b (inl (differs key "" b, refl))
]

-- The balance that a stored transaction has, or else that of its wallet, which a call of the database reads.
abbrev pub HasBalance : Env → Transaction → Money → World → World → Type 0
HasBalance env existing balance w w' =
    ((existing.result_balance ≡ some balance) × (w' ≡ w))
    ⊎ ((existing.result_balance ≡ none)
        × (get_wallet_balance env existing.wallet_id w ≡ (ok balance, w')))

balance_read :
    (env : Env) (existing : Transaction) (balance : Money) (w w' : World)
    → HasBalance env existing balance w w'
    → replayed_balance env existing existing.result_balance w ≡ (ok balance, w')
unfolding replayed_balance lift
balance_read env existing balance w w' (inl (b, e)) = rw b (ap (λ v. (ok balance, v)) (sym e))
balance_read env existing balance w w' (inr (b, e)) = rw b e

handled :
    (env : Env) (existing : Transaction) (balance : Money) (w w' : World)
    → HasBalance env existing balance w w'
    → handle_replay env existing w ≡ (ok (replay_of existing balance), w')
unfolding handle_replay
handled env existing balance w w' h =
    bind_ok _ _ w (balance_read env existing balance w w' h) (lift_ok _ _ refl)

-- The stored hash is empty or that of the request, or it is another one.
abbrev pub SamePayload : Digest → Request → Transaction → Type 0
SamePayload digest req existing =
    (existing.payload_hash ≡ "") ⊎ (existing.payload_hash ≡ compute_payload_hash digest req)

abbrev pub OtherPayload : Digest → Request → Transaction → Type 0
OtherPayload digest req existing =
    (existing.payload_hash ≢ "") × (existing.payload_hash ≢ compute_payload_hash digest req)

same_hash :
    (digest : Digest) (req : Request) (existing : Transaction)
    → conflicts digest req existing ≡ false
    → SamePayload digest req existing
unfolding conflicts
same_hash digest req existing c =
    let hash = compute_payload_hash digest req in
    elim (Bool-cases (str_eq existing.payload_hash "")) [
      | inl b ↦ inl ((eq_iff existing.payload_hash "").0 b)
      | inr b ↦ inr ((eq_iff existing.payload_hash hash).0 (ground arith))
    ]

other_hash :
    (digest : Digest) (req : Request) (existing : Transaction)
    → conflicts digest req existing ≡ true
    → OtherPayload digest req existing
unfolding conflicts
other_hash digest req existing c =
    let hash = compute_payload_hash digest req in
    let (e, e') = eq_iff existing.payload_hash "" in
    let (f, f') = eq_iff existing.payload_hash hash in
    (λ same. absurd (ground (arith, e' same)), λ same. absurd (ground (arith, f' same)))

answered :
    (env : Env) (digest : Digest) (req : Request) (key message_id : String) (w w' : World)
    (existing : Transaction) (balance : Money)
    → HasBalance env existing balance w w'
    → (OtherPayload digest req existing
        × (process_found env digest req key message_id (ok existing) w
            ≡ (wager_err WagerError.payload_conflict, w)))
      ⊎ (SamePayload digest req existing
          × (process_found env digest req key message_id (ok existing) w
              ≡ (ok (replay_of existing balance), w')))
unfolding process_found lift
answered env digest req key message_id w w' existing balance h =
    elim (Bool-cases (conflicts digest req existing)) [
      | inl c ↦ inl (other_hash digest req existing c, rw c refl)
      | inr c ↦ inr (same_hash digest req existing c, rw c (handled env existing balance w w' h))
    ]

runs :
    (env : Env) (digest : Digest) (req : Request) (idempotency_key key message_id : String)
    (w : World) (existing : Transaction)
    → IsKey req idempotency_key key
    → env.fault w.calls ≡ none
    → scan_transaction (
        find_row
          (λ x. column_is x.provider req.provider_id && column_is x.idempotency_key key)
          w.committed.transactions)
      ≡ ok existing
    → (q : Result ProcessResult × World)
    → process_found env digest req key message_id (ok existing) (tick w) ≡ q
    → process_transaction env digest req idempotency_key message_id w ≡ q
unfolding process_transaction
runs env digest req idempotency_key key message_id w existing n f e q h =
    rw (chosen req idempotency_key key n)
      (bind_ok _ _ w (found_key env req.provider_id key w existing f e) h)

-- The lookup of a balance changes no table.
pub unchanged :
    (env : Env) (existing : Transaction) (balance : Money) (w w' : World)
    → HasBalance env existing balance w w'
    → w'.committed ≡ w.committed
unchanged env existing balance w w' (inl (b, e)) = ap (λ (v : World). v.committed) e
unchanged env existing balance w w' (inr (b, e)) =
    (subst (λ q. Throughout (λ t. t ≡ w.committed) (λ _. Unit {0}) q) e
      (get_wallet_balance-Throughout (λ t. t ≡ w.committed) (λ _. Unit {0}) env existing.wallet_id w
        refl tt)).committed

-- A request whose idempotency key, which is the argument, or else its own, or else made of its provider and
-- its external id, the committed tables hold, the lookup not failing, and whose stored transaction has a
-- balance, its own or else that of its wallet, which is read: where the stored payload hash is neither
-- empty nor the hash of this request, it is refused with ErrPayloadConflict, and else the stored
-- transaction's id and status and that balance are given back, marked as a replay. No table changes.
pub process_transaction-replay :
    (env : Env) (digest : Digest) (req : Request) (idempotency_key key message_id : String)
    (w w' : World) (existing : Transaction) (balance : Money)
    → IsKey req idempotency_key key
    → env.fault w.calls ≡ none
    → scan_transaction (
        find_row
          (λ x. column_is x.provider req.provider_id && column_is x.idempotency_key key)
          w.committed.transactions)
      ≡ ok existing
    → HasBalance env existing balance (tick w) w'
    → ((OtherPayload digest req existing
          × (process_transaction env digest req idempotency_key message_id w
              ≡ (wager_err WagerError.payload_conflict, tick w)))
        ⊎ (SamePayload digest req existing
            × (process_transaction env digest req idempotency_key message_id w
                ≡ (ok (replay_of existing balance), w'))))
      × (w'.committed ≡ w.committed)
unfolding process_transaction
process_transaction-replay env digest req idempotency_key key message_id w w' existing balance n f e
      b =
    let run = runs env digest req idempotency_key key message_id w existing n f e in
    (
      elim (answered env digest req key message_id (tick w) w' existing balance b) [
        | inl h ↦ inl (h.0, run _ h.1)
        | inr h ↦ inr (h.0, run _ h.1)
      ],
      unchanged env existing balance (tick w) w' b,
    )
