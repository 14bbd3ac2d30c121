-- ===== src/Store/LostUpdate.antt =====
-- wallet_repository.go: writers that expect a version of a wallet which another one has used.
use betting_processing_go.Prelude.{
  none, some, Option, ◌≡◌, refl, sym, ◌∙◌, subst, String, Bool, true, false, List, [], ◌∷◌,
  if◌then◌else◌,
}
use betting_processing_go.Prelude.Int.{ℤ}
use betting_processing_go.Errors.{Result, ok, err, WalletError, wallet_err}
use betting_processing_go.Wallet.{Time}
use betting_processing_go.Store.Rows.{update_wallets}
use betting_processing_go.Store.Schema.{Tables}
use betting_processing_go.Store.Session.{
  Env, World, lift, pool_exec, exec_reply, Fault, refused, reply_lost,
}
use betting_processing_go.Store.WalletRepo.{update_balance_tx}
use betting_processing_go.Store.WalletPool.{update_balance}
use betting_processing_go.Store.Locking.{
  Passed, Single, update_wallets-Passed, update_wallets-stale,
}
use betting_processing_go.Store.Succeeded.{}
use betting_processing_go.Store.During.{
  During, Keeps, bind-During, map_err-During, lift-During, return-During, tx_exec-During,
  begin_tx-During, commit_tx-Keeps, committed-Keeps,
}
use betting_processing_go.Store.Writers.{
  Way, pooled, in_transaction, Write, write_by, write, write_all, write-first,
}

module _ {A : Type 0} (P : Tables → Type 0) (Q : A → Type 0) where
  exec_reply-During :
      (fault : Option Fault) (r : Result (A × Tables)) (w : World)
      → P w.committed
      → ((a : A) (t : Tables) → r ≡ ok (a, t) → P t × Q a)
      → During P (λ a _. Q a) (exec_reply fault r w)
  unfolding exec_reply
  exec_reply-During none (ok (a, t)) w h k = record { holds = k a t refl }
  exec_reply-During none (err e) w h k = record { holds = h }
  exec_reply-During (some (refused text)) r w h k = record { holds = h }
  exec_reply-During (some (reply_lost text)) (ok (a, t)) w h k =
      let (p, q) = k a t refl in record { holds = p }
  exec_reply-During (some (reply_lost text)) (err e) w h k = record { holds = h }

module _ (env : Env) (x : Write) where
  -- Whatever statements keep `P`, a writer keeps.
  module _ (P : Tables → Type 0)
      (step : (now : Time) (found : Bool) (t t' : Tables)
        → P t
        → update_wallets x.id x.balance.amount x.version now t ≡ ok (found, t')
        → P t') where
    pooled-Keeps : (w : World) → P w.committed → Keeps P (write_by env pooled x w)
    unfolding write_by update_balance pool_exec
    pooled-Keeps w h =
        bind-During P (λ _ _. Unit {0}) _ _ w
          (map_err-During P _ _ w (
            exec_reply-During P (λ _. Unit {0}) _ _ w h
              (λ found t e. (step _ found w.committed t h e, tt))))
          (λ found v p q. lift-During P _ v p (λ _ _. tt))

    statement-During :
        (w : World)
        → P w.committed
        → P w.current
        → During P (λ _ t. P t) (update_balance_tx env x.id x.balance x.version w)
    unfolding update_balance_tx
    statement-During w h c =
        bind-During P (λ _ t. P t) _ _ w
          (map_err-During P _ _ w
            (tx_exec-During P env _ w h (λ found t e. step _ found w.current t c e)))
          (λ found v p q. lift-During P _ v p (λ _ _. q))

    transaction-Keeps : (w : World) → P w.committed → Keeps P (write_by env in_transaction x w)
    unfolding write_by
    transaction-Keeps w h =
        bind-During P (λ _ t. P t) _ _ w (begin_tx-During P env w h)
          (λ _ a p q.
            bind-During P (λ _ t. P t) _ _ a (statement-During a p q)
              (λ version b p' q'.
                bind-During P (λ _ _. Unit {0}) _ _ b (commit_tx-Keeps P env b p' q')
                  (λ _ c p'' _. return-During P version c p'' tt)))

  -- A writer whose version has passed fails and leaves the tables alone.
  module _ (before : Tables) (stale : Passed x.id x.version before) where
    refused_by :
        (now : Time) (found : Bool) (t t' : Tables)
        → t ≡ before
        → update_wallets x.id x.balance.amount x.version now t ≡ ok (found, t')
        → (t' ≡ before) × (found ≡ false)
    refused_by now found t t' same e =
        let (missed, kept) =
          update_wallets-stale x.id x.version x.balance.amount now found t t'
            (subst (Passed x.id x.version) (sym same) stale) e in
        (kept ∙ same, missed)

    not_found :
        (found : Bool) (v : ℤ) (w : World)
        → w.committed ≡ before
        → found ≡ false
        → During
            (λ t. t ≡ before)
            (λ _ _. ⊥)
            (lift (if found then ok v else wallet_err WalletError.concurrent_update) w)
    unfolding lift wallet_err
    not_found true v w h e = absurd (cc)
    not_found false v w h e = record { holds = h }

    pooled_refused :
        (w : World)
        → w.committed ≡ before
        → During (λ t. t ≡ before) (λ _ _. ⊥) (write_by env pooled x w)
    unfolding write_by update_balance pool_exec
    pooled_refused w h =
        bind-During _ (λ found _. found ≡ false) _ _ w
          (map_err-During _ _ _ w (
            exec_reply-During _ (λ found. found ≡ false) _ _ w h
              (λ found t e. refused_by _ found w.committed t h e)))
          (λ found v p q. not_found found _ v p q)

    statement_refused :
        (w : World)
        → w.committed ≡ before
        → w.current ≡ before
        → During (λ t. t ≡ before) (λ _ _. ⊥) (update_balance_tx env x.id x.balance x.version w)
    unfolding update_balance_tx
    statement_refused w h c =
        bind-During _ (λ found _. found ≡ false) _ _ w
          (map_err-During _ _ _ w (
            tx_exec-During _ env _ w h
              (λ found t e. let (kept, missed) = refused_by _ found w.current t c e in missed)))
          (λ found v p q. not_found found _ v p q)

    transaction_refused :
        (w : World)
        → w.committed ≡ before
        → During (λ t. t ≡ before) (λ _ _. ⊥) (write_by env in_transaction x w)
    unfolding write_by
    transaction_refused w h =
        bind-During _ (λ _ t. t ≡ before) _ _ w (begin_tx-During _ env w h)
          (λ _ a p q.
            bind-During _ (λ _ _. ⊥) _ _ a (statement_refused a p q) (λ _ b p' q'. absurd q'))

  write-Passed :
      (id : String) (v : ℤ) (w : World)
      → Passed id v w.committed
      → let (r, w') = write env x w in Passed id v w'.committed
  unfolding write
  write-Passed id v w h = by_way x.way
    where
      step :
          (now : Time) (found : Bool) (t t' : Tables)
          → Passed id v t
          → update_wallets x.id x.balance.amount x.version now t ≡ ok (found, t')
          → Passed id v t'
      step now found t t' =
          update_wallets-Passed id v x.id x.version x.balance.amount now found t t'

      by_way : (way : Way) → let (r, w') = write_by env way x w in Passed id v w'.committed
      by_way pooled = committed-Keeps _ _ (pooled-Keeps (Passed id v) step w h)
      by_way in_transaction = committed-Keeps _ _ (transaction-Keeps (Passed id v) step w h)

  stale_write-During :
      (w : World)
      → Passed x.id x.version w.committed
      → During (λ t. t ≡ w.committed) (λ _ _. ⊥) (write env x w)
  unfolding write
  stale_write-During w h = by_way x.way
    where
      by_way : (way : Way) → During (λ t. t ≡ w.committed) (λ _ _. ⊥) (write_by env way x w)
      by_way pooled = pooled_refused w.committed h w refl
      by_way in_transaction = transaction_refused w.committed h w refl

write_all-Passed :
    (env : Env) (xs : List Write) (id : String) (v : ℤ) (w : World)
    → Passed id v w.committed
    → Passed id v (write_all env xs w).committed
unfolding write_all
write_all-Passed env [] id v w h = h
write_all-Passed env (x ∷ xs) id v w h =
    let (r, w') = write env x w in write_all-Passed env xs id v w' (write-Passed env x id v w h)

abbrev pub is_error : {A : Type 0} → Result A → Bool
is_error (ok a) = false
is_error (err e) = true

refused_outcome :
    (t : Tables) (p : Result ℤ × World)
    → During (λ s. s ≡ t) (λ _ _. ⊥) p
    → let (r, w) = p in (is_error r ≡ true) × (w.committed ≡ t)
refused_outcome t (ok n, w) h = let (same, never) = h.holds in absurd never
refused_outcome t (err e, w) h = (refl, h.holds)

-- Where each wallet has one row: once a writer has changed a wallet's balance, by UpdateBalance or by
-- UpdateBalanceTx in a transaction that it commits, any later writer of that wallet that expects the
-- version which the first one expected fails and changes no committed table, whatever updates of any
-- wallets come between the two and whatever the database does with each call.
pub write_stale :
    (env : Env) (first later : Write) (between : List Write) (w w' : World) (version : ℤ)
    → Single w.committed.wallets
    → write env first w ≡ (ok version, w')
    → later.id ≡ first.id
    → later.version ≡ first.version
    → let before = write_all env between w' in
      let (r, after) = write env later before in
      (is_error r ≡ true) × (after.committed ≡ before.committed)
write_stale env first later between w w' version k e same_id same_version = refused_outcome _ _ (
    stale_write-During env later _ (
      subst (λ i. Passed i later.version (write_all env between w').committed) (sym same_id)
        (subst (λ v. Passed first.id v (write_all env between w').committed) (sym same_version)
          (write_all-Passed env between first.id first.version w'
            (write-first env first version w w' k e)))))
