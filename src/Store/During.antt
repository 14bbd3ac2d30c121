-- ===== src/Store/During.antt =====
-- Rules for actions. `During P Q` holds of the outcome of an action if the committed tables satisfy `P`
-- whether it succeeds or not, and where it succeeds its value and the tables of the open transaction
-- satisfy `Q`. `Keeps P` says nothing of the open transaction, and `Throughout P R` says that the
-- committed tables satisfy `P` and those of the open transaction `R`, also where the action fails.
use betting_processing_go.Prelude.{
  ◌≡◌, refl, Bool, true, false, Option, none, some, List, if◌then◌else◌,
}
use betting_processing_go.Errors.{Error, Result, ok, err}
use betting_processing_go.Wallet.{Time}
use betting_processing_go.Store.Schema.{Tables}
use betting_processing_go.Store.Session.{
  Env, World, Action, Fault, refused, reply_lost, lift, map_err, attempt, or_else, read_clock,
  tx_exec, tx_reply, begin_tx, begin_reply, commit_tx, commit_reply, rollback_tx, pool_read,
  read_reply, pool_rows, cut_off, tick, ◌>>=◌, ◌>>◌,
}

abbrev pub Outcome :
    {A : Type 0} → (Tables → Type 0) → (A → Tables → Type 0) → Result A × World → Type 0
Outcome P Q (ok a, w) = P w.committed × Q a w.current
Outcome P Q (err e, w) = P w.committed

pub record During {A : Type 0} (P : Tables → Type 0) (Q : A → Tables → Type 0)
    (p : Result A × World) : Type 0 where
  pub holds : Outcome P Q p

abbrev pub Keeps : {A : Type 0} → (Tables → Type 0) → Result A × World → Type 0
Keeps P p = During P (λ _ _. Unit {0}) p

pub record Throughout {A : Type 0} (P R : Tables → Type 0) (p : Result A × World) : Type 0 where
  pub committed : let (r, w) = p in P w.committed
  pub current : let (r, w) = p in R w.current

-- The predicate of a result that an attempt gives.
abbrev pub OnOk : {A : Type 0} → (A → Tables → Type 0) → Result A → Tables → Type 0
OnOk Q (ok a) t = Q a t
OnOk Q (err e) t = Unit

module _ {A B : Type 0} (P : Tables → Type 0) (Q : A → Tables → Type 0)
    {R : B → Tables → Type 0} where
  bind_result-During :
      (p : Result A × World) (f : A → Action B)
      → During P Q p
      → ((a : A) (w : World) → P w.committed → Q a w.current → During P R (f a w))
      → During P R (let (r, w) = p in elim r [ ok a ↦ f a w | err e ↦ (err e, w) ])
  bind_result-During (ok a, w) f h k = let (e, q) = h.holds in k a w e q
  bind_result-During (err e, w) f h k = record { holds = h.holds }

  pub bind-During :
      (m : Action A) (f : A → Action B) (w : World)
      → During P Q (m w)
      → ((a : A) (w' : World) → P w'.committed → Q a w'.current → During P R (f a w'))
      → During P R ((m >>= f) w)
  unfolding ◌>>=◌
  bind-During m f w h k = bind_result-During (m w) f h k

module _ {A : Type 0} (P : Tables → Type 0) {Q : A → Tables → Type 0} where
  map_result-During :
      (p : Result A × World) (g : Error → Error)
      → During P Q p
      → During P Q (let (r, w) = p in elim r [ ok a ↦ (ok a, w) | err e ↦ (err (g e), w) ])
  map_result-During (ok a, w) g h = record { holds = h.holds }
  map_result-During (err e, w) g h = record { holds = h.holds }

  pub map_err-During :
      (g : Error → Error) (m : Action A) (w : World) → During P Q (m w) → During P Q (map_err g m w)
  unfolding map_err
  map_err-During g m w h = map_result-During (m w) g h

  pub lift-During :
      (r : Result A) (w : World)
      → P w.committed
      → ((a : A) → r ≡ ok a → Q a w.current)
      → During P Q (lift r w)
  unfolding lift
  lift-During (ok a) w h k = record { holds = (h, k a refl) }
  lift-During (err e) w h k = record { holds = h }

  pub return-During :
      (a : A) (w : World) → P w.committed → Q a w.current → During P Q (lift (ok a) w)
  unfolding lift
  return-During a w h k = record { holds = (h, k) }

  -- A check before a step.
  pub check-During :
      (r : Result (Unit {0})) (k : Action A) (w : World)
      → P w.committed
      → During P Q (k w)
      → During P Q ((lift r >> k) w)
  unfolding lift ◌>>=◌
  check-During (ok u) k w h s = s
  check-During (err e) k w h s = record { holds = h }

  tx_reply-During :
      (b : Bool) (fault : Option Fault) (r : Result (A × Tables)) (w : World)
      → P w.committed
      → ((a : A) (t : Tables) → r ≡ ok (a, t) → Q a t)
      → During P Q (tx_reply b fault r w)
  unfolding tx_reply
  tx_reply-During true fault r w h k = record { holds = h }
  tx_reply-During false none (ok (a, t)) w h k = record { holds = (h, k a t refl) }
  tx_reply-During false none (err e) w h k = record { holds = h }
  tx_reply-During false (some (refused text)) r w h k = record { holds = h }
  tx_reply-During false (some (reply_lost text)) r w h k = record { holds = h }

  pub tx_exec-During :
      (env : Env) (f : Tables → Result (A × Tables)) (w : World)
      → P w.committed
      → ((a : A) (t : Tables) → f w.current ≡ ok (a, t) → Q a t)
      → During P Q (tx_exec env f w)
  unfolding tx_exec
  tx_exec-During env f w h k = tx_reply-During w.aborted (env.fault w.calls) (f w.current) w h k

  attempt_result-During :
      (p : Result A × World) → During P Q p → During P (OnOk Q) (let (r, w) = p in (ok r, w))
  attempt_result-During (ok a, w) h = record { holds = h.holds }
  attempt_result-During (err e, w) h = record { holds = (h.holds, tt) }

  pub attempt-During :
      (m : Action A) (w : World) → During P Q (m w) → During P (OnOk Q) (attempt m w)
  unfolding attempt
  attempt-During m w h = attempt_result-During (m w) h

module _ {A : Type 0} (P : Tables → Type 0) (Q : A → Type 0) where
  read_reply-During :
      (fault : Option Fault) (r : Result A) (w : World)
      → P w.committed
      → ((a : A) → r ≡ ok a → Q a)
      → During P (λ a _. Q a) (read_reply fault r, w)
  unfolding read_reply
  read_reply-During none (ok a) w h k = record { holds = (h, k a refl) }
  read_reply-During none (err e) w h k = record { holds = h }
  read_reply-During (some (refused text)) r w h k = record { holds = h }
  read_reply-During (some (reply_lost text)) r w h k = record { holds = h }

  -- What a read returns is in the committed tables.
  pub pool_read-During :
      (env : Env) (f : Tables → Result A) (w : World)
      → P w.committed
      → ((a : A) → f w.committed ≡ ok a → Q a)
      → During P (λ a _. Q a) (pool_read env f w)
  unfolding pool_read
  pool_read-During env f w h k = read_reply-During (env.fault w.calls) (f w.committed) _ h k

module _ {A : Type 0} (P : Tables → Type 0) where
  forget_result : {Q : A → Tables → Type 0} (p : Result A × World) → During P Q p → Keeps P p
  forget_result (ok a, w) h = let (e, q) = h.holds in record { holds = (e, tt) }
  forget_result (err e, w) h = record { holds = h.holds }

  pub During-Keeps : {Q : A → Tables → Type 0} {p : Result A × World} → During P Q p → Keeps P p
  During-Keeps h = forget_result _ h

  pub committed-Keeps : (p : Result A × World) → Keeps P p → let (r, w) = p in P w.committed
  committed-Keeps (ok a, w) h = let (e, q) = h.holds in e
  committed-Keeps (err e, w) h = h.holds

  pub read_result-Keeps : (r : Result A) (w : World) → P w.committed → Keeps P (r, w)
  read_result-Keeps (ok a) w h = record { holds = (h, tt) }
  read_result-Keeps (err e) w h = record { holds = h }

  -- A read leaves the committed tables alone.
  pub pool_read-Keeps :
      (env : Env) (f : Tables → Result A) (w : World) → P w.committed → Keeps P (pool_read env f w)
  unfolding pool_read
  pool_read-Keeps env f w h = read_result-Keeps _ _ h

  pub pool_rows-Keeps :
      (env : Env) (f : Tables → List A) (w : World) → P w.committed → Keeps P (pool_rows env f w)
  unfolding pool_rows
  pool_rows-Keeps env f w h =
      forget_rows (cut_off (env.fault w.calls) (env.delivered w.calls) (f w.committed)) h
    where
      forget_rows : (r : Result (List A)) → P w.committed → Keeps P (r, tick w)
      forget_rows (ok a) p = record { holds = (p, tt) }
      forget_rows (err e) p = record { holds = p }

  else_result-Keeps :
      (zero : A) (p : Result A × World)
      → Keeps P p
      → Keeps {A = A} P (let (r, w) = p in elim r [ ok a ↦ (ok a, w) | err e ↦ (ok zero, w) ])
  else_result-Keeps zero (ok a, w) h = record { holds = h.holds }
  else_result-Keeps zero (err e, w) h = record { holds = (h.holds, tt) }

  pub or_else-Keeps :
      (zero : A) (m : Action A) (w : World) → Keeps P (m w) → Keeps P (or_else zero m w)
  unfolding or_else
  or_else-Keeps zero m w h = else_result-Keeps zero (m w) h

module _ (P : Tables → Type 0) where
  begin_reply-During :
      (fault : Option Fault) (w : World)
      → P w.committed
      → During P (λ _ t. P t) (begin_reply fault w)
  unfolding begin_reply
  begin_reply-During none w h = record { holds = (h, h) }
  begin_reply-During (some (refused text)) w h = record { holds = h }
  begin_reply-During (some (reply_lost text)) w h = record { holds = h }

  -- A transaction starts from the committed tables.
  pub begin_tx-During :
      (env : Env) (w : World) → P w.committed → During P (λ _ t. P t) (begin_tx env w)
  unfolding begin_tx
  begin_tx-During env w h = begin_reply-During (env.fault w.calls) w h

  commit_reply-Keeps :
      (b : Bool) (fault : Option Fault) (w : World)
      → P w.committed
      → P w.current
      → Keeps P (commit_reply b fault w)
  unfolding commit_reply
  commit_reply-Keeps true fault w h k = record { holds = h }
  commit_reply-Keeps false none w h k = record { holds = (k, tt) }
  commit_reply-Keeps false (some (refused text)) w h k = record { holds = h }
  commit_reply-Keeps false (some (reply_lost text)) w h k = record { holds = k }

  -- A commit publishes the transaction's tables or none of them.
  pub commit_tx-Keeps :
      (env : Env) (w : World) → P w.committed → P w.current → Keeps P (commit_tx env w)
  unfolding commit_tx
  commit_tx-Keeps env w h k = commit_reply-Keeps w.aborted (env.fault w.calls) w h k

  pub rollback_tx-During : (w : World) → P w.committed → During P (λ _ t. P t) (rollback_tx w)
  unfolding rollback_tx
  rollback_tx-During w h = record { holds = (h, h) }

  pub read_clock-During :
      {Q : Tables → Type 0} (env : Env) (w : World)
      → P w.committed
      → Q w.current
      → During P (λ (_ : Time) t. Q t) (read_clock env w)
  unfolding read_clock
  read_clock-During env w h k = record { holds = (h, k) }

  -- A choice between two actions.
  pub if-During :
      {A : Type 0} {Q : A → Tables → Type 0} (b : Bool) (m n : Action A) (w : World)
      → (b ≡ true → During P Q (m w))
      → (b ≡ false → During P Q (n w))
      → During P Q ((if b then m else n) w)
  if-During true m n w h k = h refl
  if-During false m n w h k = k refl
