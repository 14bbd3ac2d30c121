-- ===== src/Store/Succeeded.antt =====
-- What an action that succeeded says of its steps.
use betting_processing_go.Prelude.{◌≡◌, refl, arith, Bool, true, false, Option, none, some}
use betting_processing_go.Errors.{Error, Result, ok, err}
use betting_processing_go.Store.Schema.{Tables}
use betting_processing_go.Store.Session.{
  World, Action, Fault, refused, reply_lost, map_err, exec_reply, begin_reply, tx_reply,
  commit_reply, ◌>>=◌,
}

module _ {A B C : Type 0} where
  bind_result_done :
      (p : Result A × World) (f : A → Action B) (b : B) (w' : World)
      → (let (r, w) = p in elim r [ ok a ↦ f a w | err e ↦ (err e, w) ]) ≡ (ok b, w')
      → ((a : A) (v : World) → p ≡ (ok a, v) → f a v ≡ (ok b, w') → C)
      → C
  bind_result_done (ok a, w) f b w' e k = k a w refl e
  bind_result_done (err x, w) f b w' e k = absurd (cc)

  pub bind_done :
      (m : Action A) (f : A → Action B) (w : World) (b : B) (w' : World)
      → (m >>= f) w ≡ (ok b, w')
      → ((a : A) (v : World) → m w ≡ (ok a, v) → f a v ≡ (ok b, w') → C)
      → C
  unfolding ◌>>=◌
  bind_done m f w b w' e k = bind_result_done (m w) f b w' e k

module _ {A : Type 0} where
  map_result_done :
      (g : Error → Error) (p : Result A × World) (a : A) (w' : World)
      → (let (r, w) = p in
          elim r as (λ _. Result A × World) [ ok b ↦ (ok b, w) | err e ↦ (err (g e), w) ])
        ≡ (ok a, w')
      → p ≡ (ok a, w')
  map_result_done g (ok b, w) a w' e = e
  map_result_done g (err x, w) a w' e = absurd (cc)

  pub map_err_done :
      (g : Error → Error) (m : Action A) (w : World) (a : A) (w' : World)
      → map_err g m w ≡ (ok a, w')
      → m w ≡ (ok a, w')
  unfolding map_err
  map_err_done g m w a w' e = map_result_done g (m w) a w' e

  pub exec_reply_done :
      (fault : Option Fault) (r : Result (A × Tables)) (w : World) (a : A) (w' : World)
      → exec_reply fault r w ≡ (ok a, w')
      → r ≡ ok (a, w'.committed)
  unfolding exec_reply
  exec_reply_done none (ok (b, t)) w a w' e = ground arith
  exec_reply_done none (err x) w a w' e = absurd (cc)
  exec_reply_done (some (refused text)) r w a w' e = absurd (cc)
  exec_reply_done (some (reply_lost text)) (ok (b, t)) w a w' e = absurd (cc)
  exec_reply_done (some (reply_lost text)) (err x) w a w' e = absurd (cc)

  pub tx_reply_done :
      (b : Bool) (fault : Option Fault) (r : Result (A × Tables)) (w : World) (a : A) (w' : World)
      → tx_reply b fault r w ≡ (ok a, w')
      → r ≡ ok (a, w'.current)
  unfolding tx_reply
  tx_reply_done true fault r w a w' e = absurd (cc)
  tx_reply_done false none (ok (b, t)) w a w' e = ground arith
  tx_reply_done false none (err x) w a w' e = absurd (cc)
  tx_reply_done false (some (refused text)) r w a w' e = absurd (cc)
  tx_reply_done false (some (reply_lost text)) r w a w' e = absurd (cc)

pub begin_reply_done :
    (fault : Option Fault) (w w' : World)
    → begin_reply fault w ≡ (ok tt, w')
    → w'.current ≡ w.committed
unfolding begin_reply
begin_reply_done none w w' e = ground arith
begin_reply_done (some (refused text)) w w' e = absurd (cc)
begin_reply_done (some (reply_lost text)) w w' e = absurd (cc)

pub commit_reply_done :
    (b : Bool) (fault : Option Fault) (w w' : World)
    → commit_reply b fault w ≡ (ok tt, w')
    → w'.committed ≡ w.current
unfolding commit_reply
commit_reply_done true fault w w' e = absurd (cc)
commit_reply_done false none w w' e = ground arith
commit_reply_done false (some (refused text)) w w' e = absurd (cc)
commit_reply_done false (some (reply_lost text)) w w' e = absurd (cc)
