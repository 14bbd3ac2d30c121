-- ===== src/Handlers/Refusals.antt =====
-- The checks of the handlers.
use betting_processing_go.Prelude.{
  ◌≡◌, subst, String, ◌⊎◌, inl, inr, Option, none, some, arith, Bool-cases,
}
use betting_processing_go.Prelude.Text.{str_eq, eq_iff}
use betting_processing_go.Errors.{
  Error, Result, ok, err, WagerError, WalletError, Sentinel, errors_is,
}
use betting_processing_go.Wallet.{Wallet}
use betting_processing_go.Wager.{Transaction}
use betting_processing_go.Store.{Env, World, Tables, Action, lift, attempt, ◌>>=◌}
use betting_processing_go.Store.During.{During, OnOk, bind-During, return-During, attempt-During}
use betting_processing_go.Handlers.Responses.{Reply, unless_refused, foreign_to}
use betting_processing_go.Handlers.Transactions.{
  check_owner, transaction_failure, transaction_reply,
}
use betting_processing_go.Handlers.Wallets.{
  wallet_failure, wallet_mismatch, wallet_reply, owner_refusal, check_wallet, reconcile_unless,
}
use betting_processing_go.Handlers.Serve.{reply_from}
use betting_processing_go.Handlers.Owners.{
  OwnsWallet, OwnsTransaction, Kept, Judged, Checked, granted, get_wallet-Owned,
}

module _ (A : Type 0) (t : Tables) where
  -- An attempt, and what is made of its result.
  pub judged_attempt :
      {B C : Type 0} (Q : B → Type 0) (S : C → Type 0) (m : Action B) (g : Result B → C) (w : World)
      → During (Kept A t) (λ x _. Q x) (m w)
      → ((x : B) → Q x → S (g (ok x)))
      → ((e : Error) → S (g (err e)))
      → During (Kept A t) (λ r _. S r) ((attempt m >>= λ r. lift (ok (g r))) w)
  judged_attempt {B} Q S m g w h k l =
      bind-During (Kept A t) (OnOk (λ x _. Q x)) _ _ w (attempt-During (Kept A t) m w h)
        (λ r w1 h1 q. return-During (Kept A t) (g r) w1 h1 (judge r w1 q))
    where
      judge : (r : Result B) (w1 : World) → OnOk (λ x _. Q x) r w1.current → S (g r)
      judge (ok x) w1 q = k x q
      judge (err e) w1 q = l e

  pub wallet_failure-Judged : (e : Error) → Judged A (wallet_failure e)
  unfolding wallet_failure
  wallet_failure-Judged e =
      elim (Bool-cases (errors_is (Sentinel.wallet WalletError.wallet_not_found) e)) [
        | inl b ↦ rw b (inr (omega arith))
        | inr b ↦ rw b (inr (omega arith))
      ]

  pub transaction_failure-Judged : (e : Error) → Judged A (transaction_failure e)
  unfolding transaction_failure
  transaction_failure-Judged e =
      elim (Bool-cases (errors_is (Sentinel.wager WagerError.transaction_not_found) e)) [
        | inl b ↦ rw b (inr (omega arith))
        | inr b ↦ rw b (inr (omega arith))
      ]

  -- What follows a check.
  pub unless-Judged :
      (o : Option Reply) (m : Action Reply) (w : World)
      → Kept A t w.committed
      → Checked A o
      → During (Kept A t) (λ r _. Judged A r) (unless_refused o m w)
  unfolding unless_refused
  unless-Judged (some r) m w h c = return-During (Kept A t) r w h c
  unless-Judged none m w h c = granted A t c (m w)

  abbrev pub JudgedSome : Option Reply → Type 0
  JudgedSome none = Unit
  JudgedSome (some r) = Judged A r

  granted_some :
      (a : A) (p : Result (Option Reply) × World) → During (Kept A t) (λ r _. JudgedSome r) p
  granted_some a (ok none, w) = record { holds = (inl a, tt) }
  granted_some a (ok (some r), w) = record { holds = (inl a, inl a) }
  granted_some a (err e, w) = record { holds = inl a }

  pub reconcile-Judged :
      (o : Option Reply) (m : Action (Option Reply)) (w : World)
      → Kept A t w.committed
      → Checked A o
      → During (Kept A t) (λ r _. JudgedSome r) (reconcile_unless o m w)
  unfolding reconcile_unless
  reconcile-Judged (some r) m w h c = return-During (Kept A t) (some r) w h c
  reconcile-Judged none m w h c = granted_some c (m w)

  pub reply_from-Judged :
      (m : Action Reply) (w : World)
      → During (Kept A t) (λ r _. Judged A r) (m w)
      → During (Kept A t) (λ r _. JudgedSome r) (reply_from m w)
  unfolding reply_from
  reply_from-Judged m w h =
      bind-During (Kept A t) (λ r _. Judged A r) _ _ w h
        (λ r w1 h1 q. return-During (Kept A t) (some r) w1 h1 q)

  module _ (env : Env) (p id : String) where
    same_owner :
        (x : Wallet) → A ⊎ OwnsWallet t x.provider_id id → x.provider_id ≡ p → A ⊎ OwnsWallet t p id
    same_owner x q e = subst (λ s. A ⊎ OwnsWallet t s id) e q

    allowed_by : (OwnsWallet t p id → A) → A ⊎ OwnsWallet t p id → A
    allowed_by k (inl a) = a
    allowed_by k (inr own) = k own

    owner_refusal-Checked :
        (k : OwnsWallet t p id → A) (x : Wallet)
        → A ⊎ OwnsWallet t x.provider_id id
        → Checked A (owner_refusal p (ok x))
    unfolding owner_refusal wallet_mismatch
    owner_refusal-Checked k x q = elim (Bool-cases (str_eq x.provider_id p)) [
      | inl b ↦ rw b (allowed_by k (same_owner x q ((eq_iff x.provider_id p).0 b)))
      | inr b ↦ rw b (inr (omega arith))
    ]

    owner_failure-Checked : (e : Error) → Checked A (owner_refusal p (err e))
    unfolding owner_refusal
    owner_failure-Checked e = wallet_failure-Judged e

    pub check_wallet-Checked :
        (k : OwnsWallet t p id → A) (w : World)
        → Kept A t w.committed
        → During (Kept A t) (λ o _. Checked A o) (check_wallet env (some p) id w)
    unfolding check_wallet
    check_wallet-Checked k w h =
        judged_attempt (λ x. A ⊎ OwnsWallet t x.provider_id id) (Checked A) _ (owner_refusal p) w
          (get_wallet-Owned A t env id w h) (owner_refusal-Checked k) owner_failure-Checked

    pub check_owner-Checked :
        (k : OwnsWallet t p id → A) (x : Wallet)
        → A ⊎ OwnsWallet t x.provider_id id
        → Checked A (check_owner p (ok x))
    unfolding check_owner
    check_owner-Checked k x q = elim (Bool-cases (str_eq x.provider_id p)) [
      | inl b ↦ rw b (allowed_by k (same_owner x q ((eq_iff x.provider_id p).0 b)))
      | inr b ↦ rw b (inr (omega arith))
    ]

    pub lookup_failure-Checked : (e : Error) → Checked A (check_owner p (err e))
    unfolding check_owner
    lookup_failure-Checked e = inr (omega arith)

    pub wallet_reply-Judged :
        (k : OwnsWallet t p id → A) (x : Wallet)
        → A ⊎ OwnsWallet t x.provider_id id
        → Judged A (wallet_reply (some p) (ok x))
    unfolding wallet_reply foreign_to wallet_mismatch
    wallet_reply-Judged k x q = elim (Bool-cases (str_eq x.provider_id p)) [
      | inl b ↦ inl (allowed_by k (same_owner x q ((eq_iff x.provider_id p).0 b)))
      | inr b ↦ rw b (inr (omega arith))
    ]

    pub transaction_reply-Judged :
        (k : OwnsTransaction t p id → A) (x : Transaction)
        → A ⊎ OwnsTransaction t x.provider id
        → Judged A (transaction_reply (some p) (ok x))
    unfolding transaction_reply foreign_to
    transaction_reply-Judged k x (inl a) = inl a
    transaction_reply-Judged k x (inr own) = elim (Bool-cases (str_eq x.provider p)) [
      | inl b ↦ inl (k (subst (λ s. OwnsTransaction t s id) ((eq_iff x.provider p).0 b) own))
      | inr b ↦ rw b (inr (omega arith))
    ]
