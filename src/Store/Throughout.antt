-- ===== src/Store/Throughout.antt =====
-- Rules for reads, and for statements whose error the code ignores: the tables of the transaction stay
-- as they were or become what the statement makes of them.
use betting_processing_go.Prelude.{◌≡◌, refl, Bool, true, false, Option, none, some, List}
use betting_processing_go.Errors.{Error, Result, ok, err}
use betting_processing_go.Store.Schema.{Tables}
use betting_processing_go.Store.Session.{
  Env, World, Action, Fault, refused, reply_lost, lift, map_err, attempt, or_else, pool_read,
  pool_rows, tx_exec, tx_reply, ◌>>=◌,
}
use betting_processing_go.Store.During.{During, Throughout}

module _ {A : Type 0} (P R : Tables → Type 0) where
  tx_reply-Throughout :
      (b : Bool) (fault : Option Fault) (r : Result (A × Tables)) (w : World)
      → P w.committed
      → R w.current
      → ((a : A) (t : Tables) → r ≡ ok (a, t) → R t)
      → Throughout P R (tx_reply b fault r w)
  unfolding tx_reply
  tx_reply-Throughout true fault r w h c k = record { committed = h; current = c }
  tx_reply-Throughout false none (ok (a, t)) w h c k = record {
    committed = h;
    current = k a t refl;
  }
  tx_reply-Throughout false none (err e) w h c k = record { committed = h; current = c }
  tx_reply-Throughout false (some (refused text)) r w h c k = record { committed = h; current = c }
  tx_reply-Throughout false (some (reply_lost text)) r w h c k = record {
    committed = h;
    current = c;
  }

  pub tx_exec-Throughout :
      (env : Env) (f : Tables → Result (A × Tables)) (w : World)
      → P w.committed
      → R w.current
      → ((a : A) (t : Tables) → f w.current ≡ ok (a, t) → R t)
      → Throughout P R (tx_exec env f w)
  unfolding tx_exec
  tx_exec-Throughout env f w h c k =
      tx_reply-Throughout w.aborted (env.fault w.calls) (f w.current) w h c k

  map_result-Throughout :
      (p : Result A × World) (g : Error → Error)
      → Throughout P R p
      → Throughout {A = A} P R
          (let (r, w) = p in elim r [ ok a ↦ (ok a, w) | err e ↦ (err (g e), w) ])
  map_result-Throughout (ok a, w) g h = record { committed = h.committed; current = h.current }
  map_result-Throughout (err e, w) g h = record { committed = h.committed; current = h.current }

  pub map_err-Throughout :
      (g : Error → Error) (m : Action A) (w : World)
      → Throughout P R (m w)
      → Throughout P R (map_err g m w)
  unfolding map_err
  map_err-Throughout g m w h = map_result-Throughout (m w) g h

  else_result-During :
      (zero : A) (p : Result A × World)
      → Throughout P R p
      → During P
          (λ (_ : A) t. R t)
          (let (r, w) = p in elim r [ ok a ↦ (ok a, w) | err e ↦ (ok zero, w) ])
  else_result-During zero (ok a, w) h = record { holds = (h.committed, h.current) }
  else_result-During zero (err e, w) h = record { holds = (h.committed, h.current) }

  pub or_else-During :
      (zero : A) (m : Action A) (w : World)
      → Throughout P R (m w)
      → During P (λ (_ : A) t. R t) (or_else zero m w)
  unfolding or_else
  or_else-During zero m w h = else_result-During zero (m w) h

  -- A read of the pool leaves all tables alone.
  pub pool_read-Throughout :
      (env : Env) (f : Tables → Result A) (w : World)
      → P w.committed
      → R w.current
      → Throughout P R (pool_read env f w)
  unfolding pool_read
  pool_read-Throughout env f w h c = record { committed = h; current = c }

  pub pool_rows-Throughout :
      (env : Env) (f : Tables → List A) (w : World)
      → P w.committed
      → R w.current
      → Throughout P R (pool_rows env f w)
  unfolding pool_rows
  pool_rows-Throughout env f w h c = record { committed = h; current = c }

  pub lift-Throughout :
      (r : Result A) (w : World) → P w.committed → R w.current → Throughout P R (lift r w)
  unfolding lift
  lift-Throughout r w h c = record { committed = h; current = c }

  result-During : (p : Result A × World) → Throughout P R p → During P (λ (_ : A) t. R t) p
  result-During (ok a, w) h = record { holds = (h.committed, h.current) }
  result-During (err e, w) h = record { holds = h.committed }

  pub Throughout-During : {p : Result A × World} → Throughout P R p → During P (λ (_ : A) t. R t) p
  Throughout-During h = result-During _ h

  attempted-Throughout :
      (p : Result A × World)
      → Throughout P R p
      → During P (λ (_ : Result A) t. R t) (let (r, w) = p in (ok r, w))
  attempted-Throughout (r, w) h = record { holds = (h.committed, h.current) }

  pub attempt-Throughout :
      (m : Action A) (w : World)
      → Throughout P R (m w)
      → During P (λ (_ : Result A) t. R t) (attempt m w)
  unfolding attempt
  attempt-Throughout m w h = attempted-Throughout (m w) h

module _ {A B : Type 0} (P R : Tables → Type 0) where
  bind_result-Throughout :
      (p : Result A × World) (f : A → Action B)
      → Throughout P R p
      → ((a : A) (w : World) → P w.committed → R w.current → Throughout P R (f a w))
      → Throughout {A = B} P R (let (r, w) = p in elim r [ ok a ↦ f a w | err e ↦ (err e, w) ])
  bind_result-Throughout (ok a, w) f h k = k a w h.committed h.current
  bind_result-Throughout (err e, w) f h k = record { committed = h.committed; current = h.current }

  pub bind-Throughout :
      (m : Action A) (f : A → Action B) (w : World)
      → Throughout P R (m w)
      → ((a : A) (w' : World) → P w'.committed → R w'.current → Throughout P R (f a w'))
      → Throughout P R ((m >>= f) w)
  unfolding ◌>>=◌
  bind-Throughout m f w h k = bind_result-Throughout (m w) f h k
