-- ===== src/Handlers/Shown.antt =====
-- What the replies to a provider show: whose the wallets and the transactions are.
use betting_processing_go.Prelude.{
  ◌≡◌, ap, ◌∙◌, String, Bool, true, false, not, ◌||◌, ◌&&◌, inl, inr, Option, none, some, List, [],
  ◌∷◌, All, arith, Bool-cases, if◌then◌else◌,
}
use betting_processing_go.Prelude.Text.{str_eq, eq_iff, trim_string}
use betting_processing_go.Prelude.Text.Trim.{trim_string_idem}
use betting_processing_go.Errors.{
  Error, Result, ok, err, WagerError, WalletError, Sentinel, errors_is,
}
use betting_processing_go.Wallet.{Wallet, rehydrate_wallet}
use betting_processing_go.Wager.{Transaction}
use betting_processing_go.Store.{
  Env, World, Action, lift, attempt, scan_transaction, column_is, find_row, find_by_external_id,
  query_transaction, ◌>>=◌,
}
use betting_processing_go.Store.During.{
  During, OnOk, bind-During, attempt-During, return-During, lift-During, map_err-During,
  pool_read-During, if-During,
}
use betting_processing_go.WagerService.{Digest, ProcessResult}
use betting_processing_go.Handlers.Responses.{
  Reply, Body, transaction_body, wallet_body, ledger_body, reconciliation_body, write_json,
  is_blank, unless_refused, foreign_to,
}
use betting_processing_go.Handlers.Transactions.{
  WagerTransactionRequest, lacks_fields, check_owner, check_provider, error_reply, process_reply,
  submit, create_decoded, create_transaction, transaction_failure, transaction_reply,
  get_transaction, get_by_external_id,
}
use betting_processing_go.Handlers.Wallets.{
  created_reply, wallet_failure, wallet_mismatch, wallet_reply, owner_refusal,
}
use betting_processing_go.Handlers.Serve.{}
use betting_processing_go.Handlers.Owners.{scanned_provider}

-- A wallet or a transaction in the body is the provider's, up to spaces around the names of a wallet, and
-- a ledger or a reconciliation is that of the wallet which the path names.
abbrev pub Shows : String → String → Body → Type 0
Shows p id (transaction_body v) = v.provider_id ≡ p
Shows p id (wallet_body v) = trim_string v.provider_id ≡ trim_string p
Shows p id (ledger_body v) = (v.wallet_id ≡ id) × All (λ e. e.wallet_id ≡ id) v.entries
Shows p id (reconciliation_body v) = v.wallet_id ≡ id
Shows p id _ = Unit

abbrev pub ShowsSome : String → String → Option Reply → Type 0
ShowsSome p id none = Unit
ShowsSome p id (some r) = Shows p id r.body

abbrev pub Yields : {A : Type 0} → (A → Type 0) → Result A × World → Type 0
Yields Q q = During (λ _. Unit {0}) (λ a _. Q a) q

module _ {A : Type 0} where
  pub anything : (q : Result A × World) → Yields (λ _. Unit {0}) q
  anything (ok a, w) = record { holds = (tt, tt) }
  anything (err e, w) = record { holds = tt }

  pub gives : (Q : A → Type 0) (a : A) (w : World) → Q a → Yields Q (lift (ok a) w)
  gives Q a w h = return-During (λ _. Unit {0}) a w tt h

module _ {A B : Type 0} where
  pub then-Yields :
      (Q : A → Type 0) (S : B → Type 0) (m : Action A) (f : A → Action B) (w : World)
      → Yields Q (m w)
      → ((a : A) (w' : World) → Q a → Yields S (f a w'))
      → Yields S ((m >>= f) w)
  then-Yields Q S m f w h k =
      bind-During (λ _. Unit {0}) (λ a _. Q a) m f w h (λ a w' _ q. k a w' q)

  pub attempt-Yields :
      (Q : A → Type 0) (S : B → Type 0) (m : Action A) (g : Result A → B) (w : World)
      → Yields Q (m w)
      → ((a : A) → Q a → S (g (ok a)))
      → ((e : Error) → S (g (err e)))
      → Yields S ((attempt m >>= λ r. lift (ok (g r))) w)
  attempt-Yields Q S m g w h k l =
      bind-During (λ _. Unit {0}) (OnOk (λ a _. Q a)) _ _ w (attempt-During (λ _. Unit {0}) m w h)
        (λ r w1 _ q. return-During (λ _. Unit {0}) (g r) w1 tt (judge r w1 q))
    where
      judge : (r : Result A) (w1 : World) → OnOk (λ a _. Q a) r w1.current → S (g r)
      judge (ok a) w1 q = k a q
      judge (err e) w1 q = l e

module _ (p id : String) where
  either :
      (b : Bool) (r s : Reply)
      → Shows p id r.body
      → Shows p id s.body
      → Shows p id (if b then r else s).body
  either true r s h k = h
  either false r s h k = k

  pub error_reply-Shows : (e : Error) → Shows p id (error_reply e).body
  unfolding error_reply
  error_reply-Shows e = either (errors_is (Sentinel.wager WagerError.payload_conflict) e) _ _ tt (
      either (errors_is (Sentinel.wager WagerError.opening_rejected) e) _ _ tt (
        either (errors_is (Sentinel.wager WagerError.invalid_money) e) _ _ tt (
          either (errors_is (Sentinel.wager WagerError.invalid_transaction_type) e) _ _ tt (
            either (errors_is (Sentinel.wallet WalletError.insufficient_balance) e) _ _ tt
              (either (errors_is (Sentinel.wallet WalletError.concurrent_update) e) _ _ tt tt)))))

  pub wallet_failure-Shows : (e : Error) → Shows p id (wallet_failure e).body
  unfolding wallet_failure
  wallet_failure-Shows e =
      either (errors_is (Sentinel.wallet WalletError.wallet_not_found) e) _ _ tt tt

  pub transaction_failure-Shows : (e : Error) → Shows p id (transaction_failure e).body
  unfolding transaction_failure
  transaction_failure-Shows e =
      either (errors_is (Sentinel.wager WagerError.transaction_not_found) e) _ _ tt tt

  transaction_reply-Shows :
      (tx : Transaction) → Shows p id (transaction_reply (some p) (ok tx)).body
  unfolding transaction_reply foreign_to
  transaction_reply-Shows tx = elim (Bool-cases (str_eq tx.provider p)) [
    | inl b ↦ rw b ((eq_iff tx.provider p).0 b)
    | inr b ↦ rw b tt
  ]

  pub wallet_reply-Shows : (x : Wallet) → Shows p id (wallet_reply (some p) (ok x)).body
  unfolding wallet_reply foreign_to wallet_mismatch
  wallet_reply-Shows x = elim (Bool-cases (str_eq x.provider_id p)) [
    | inl b ↦ rw b (ap trim_string ((eq_iff x.provider_id p).0 b))
    | inr b ↦ rw b tt
  ]

  pub created_failure-Shows : (e : Error) → Shows p id (created_reply (err e)).body
  unfolding created_reply
  created_failure-Shows e =
      either (errors_is (Sentinel.wallet WalletError.duplicate_wallet) e) _ _ tt tt

  pub rehydrated :
      (x : Wallet) (r : Wallet)
      → x.provider_id ≡ p
      → rehydrate_wallet x ≡ ok r
      → trim_string r.provider_id ≡ trim_string p
  unfolding rehydrate_wallet
  rehydrated x r e h = ground (arith, trim_string_idem p)

  found_by :
      (pred : Transaction → Bool) (rows : List Transaction) (x : Transaction)
      → find_row pred rows ≡ some x
      → pred x ≡ true
  unfolding find_row
  found_by pred [] x e = absurd (cc)
  found_by pred (r ∷ rows) x e = elim (Bool-cases (pred r)) [
    | inl b ↦ ground arith
    | inr b ↦ found_by pred rows x (ground arith)
  ]

  pub unless-Yields :
      (o : Option Reply) (m : Action Reply) (w : World)
      → ShowsSome p id o
      → Yields (λ r. Shows p id r.body) (m w)
      → Yields (λ r. Shows p id r.body) (unless_refused o m w)
  unfolding unless_refused
  unless-Yields (some r) m w s h = gives (λ r. Shows p id r.body) r w s
  unless-Yields none m w s h = h

  pub choose-Yields :
      (b : Bool) (m n : Action Reply) (w : World)
      → Yields (λ r. Shows p id r.body) (m w)
      → Yields (λ r. Shows p id r.body) (n w)
      → Yields (λ r. Shows p id r.body) ((if b then m else n) w)
  choose-Yields true m n w h k = h
  choose-Yields false m n w h k = k

  module _ (env : Env) where
    check_owner-Shows : (x : Wallet) → ShowsSome p id (check_owner p (ok x))
    unfolding check_owner
    check_owner-Shows x = elim (Bool-cases (str_eq x.provider_id p)) [
      | inl b ↦ rw b tt
      | inr b ↦ rw b tt
    ]

    pub owner_refusal-Shows : (x : Wallet) → ShowsSome p id (owner_refusal p (ok x))
    unfolding owner_refusal wallet_mismatch
    owner_refusal-Shows x = elim (Bool-cases (str_eq x.provider_id p)) [
      | inl b ↦ rw b tt
      | inr b ↦ rw b tt
    ]

    check_provider-Yields :
        (req : WagerTransactionRequest) (w : World)
        → Yields (ShowsSome p id) (check_provider env (some p) req w)
    unfolding check_provider check_owner
    check_provider-Yields req w =
        if-During (λ _. Unit {0}) (str_eq req.provider_id p) _ _ w
          (λ e.
            attempt-Yields (λ _. Unit {0}) (ShowsSome p id) _ (check_owner p) w (anything _)
              (λ x _. check_owner-Shows x) (λ e. tt))
          (λ e. gives (ShowsSome p id) _ w tt)

    process_reply-Shows : (o : Result ProcessResult) → Shows p id (process_reply o).body
    unfolding process_reply
    process_reply-Shows (ok r) = tt
    process_reply-Shows (err e) = error_reply-Shows e

    pub create-Yields :
        (digest : Digest) (key : String) (body : Option WagerTransactionRequest) (w : World)
        → Yields (λ r. Shows p id r.body) (create_transaction env digest key (some p) body w)
    unfolding create_transaction create_decoded submit write_json
    create-Yields digest key none w =
        choose-Yields (is_blank key) _ _ w (gives (λ r. Shows p id r.body) _ w tt)
          (gives (λ r. Shows p id r.body) _ w tt)
    create-Yields digest key (some req) w =
        choose-Yields (is_blank key) _ _ w (gives (λ r. Shows p id r.body) _ w tt) (
          choose-Yields (lacks_fields req) _ _ w (gives (λ r. Shows p id r.body) _ w tt) (
            then-Yields (ShowsSome p id) (λ r. Shows p id r.body) _ _ w
              (check_provider-Yields req w)
              (λ o w1 s. unless-Yields o _ w1 s (
                choose-Yields
                  (not (str_eq req.kind "LOSS")
                    && (is_blank req.money.amount || is_blank req.money.currency))
                  _ _ w1 (gives (λ r. Shows p id r.body) _ w1 tt)
                  (attempt-Yields (λ _. Unit {0}) (λ r. Shows p id r.body) _ process_reply w1
                    (anything _) (λ a _. process_reply-Shows (ok a))
                    (λ e. process_reply-Shows (err e)))))))

    pub get_transaction-Yields :
        (tx_id : String) (w : World)
        → Yields (λ r. Shows p id r.body) (get_transaction env (some p) tx_id w)
    unfolding get_transaction write_json
    get_transaction-Yields tx_id w =
        choose-Yields (is_blank tx_id) _ _ w (gives (λ r. Shows p id r.body) _ w tt) (
          attempt-Yields (λ _. Unit {0}) (λ r. Shows p id r.body) _ (transaction_reply (some p)) w
            (anything _) (λ x _. transaction_reply-Shows x) (λ e. transaction_failure-Shows e))

    found_transaction :
        (tx_id : String) (row : Option Transaction) (x : Transaction)
        → ((r : Transaction) → row ≡ some r → r.provider ≡ p)
        → scan_transaction row ≡ ok x
        → x.provider ≡ p
    found_transaction tx_id row x k e =
        let (r, there, same) = scanned_provider row x e in same ∙ k r there

    column_of :
        (x : Transaction) (tx_id : String)
        → (column_is x.provider p && column_is x.external_id tx_id) ≡ true
        → x.provider ≡ p
    unfolding column_is
    column_of x tx_id h = ground (arith, eq_iff x.provider p)

    find_by_external_id-Yields :
        (tx_id : String) (w : World)
        → Yields (λ x. x.provider ≡ p) (find_by_external_id env p tx_id w)
    unfolding find_by_external_id query_transaction
    find_by_external_id-Yields tx_id w =
        then-Yields (λ row. (r : Transaction) → row ≡ some r → r.provider ≡ p) (λ x. x.provider ≡ p)
          _ _ w
          (map_err-During (λ _. Unit {0}) _ _ w
            (pool_read-During (λ _. Unit {0})
              (λ row. (r : Transaction) → row ≡ some r → r.provider ≡ p) env _ w tt
              (λ row e r there. column_of r tx_id (
                found_by (λ x. column_is x.provider p && column_is x.external_id tx_id)
                  w.committed.transactions r (cc)))))
          (λ row w1 k.
            lift-During (λ _. Unit {0}) _ w1 tt (λ x e. found_transaction tx_id row x k e))

    pub get_by_external_id-Yields :
        (other tx_id : String) (w : World)
        → Yields (λ r. Shows p id r.body) (get_by_external_id env (some p) other tx_id w)
    unfolding get_by_external_id write_json foreign_to transaction_reply
    get_by_external_id-Yields other tx_id w =
        choose-Yields (is_blank other || is_blank tx_id) _ _ w
          (gives (λ r. Shows p id r.body) _ w tt)
          (elim (Bool-cases (str_eq other p)) [
            | inl b ↦
                rw (b, (eq_iff other p).0 b)
                  (attempt-Yields (λ x. x.provider ≡ p) (λ r. Shows p id r.body) _
                    (transaction_reply none) w (find_by_external_id-Yields tx_id w) (λ x q. q)
                    (λ e. transaction_failure-Shows e))
            | inr b ↦ rw b (gives (λ r. Shows p id r.body) _ w tt)
          ])
