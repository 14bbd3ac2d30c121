-- ===== src/Store/Runs.antt =====
-- Equations for actions that succeed, step by step.
use betting_processing_go.Prelude.{◌≡◌, ap, ◌∙◌, none}
use betting_processing_go.Errors.{Error, Result, ok, err}
use betting_processing_go.Store.Schema.{Tables}
use betting_processing_go.Store.Session.{
  Env, World, Action, tick, lift, map_err, pool_read, read_reply, ◌>>=◌,
}

module _ {A : Type 0} where
  pub bind_ok :
      {B : Type 0} (m : Action A) (f : A → Action B) (w : World) {a : A} {w' : World}
      {q : Result B × World}
      → m w ≡ (ok a, w')
      → f a w' ≡ q
      → (m >>= f) w ≡ q
  unfolding ◌>>=◌
  bind_ok m f w e h =
      ap
        (λ (p : Result A × World).
          let (r, w') = p in elim r [ ok a ↦ f a w' | err x ↦ (err x, w') ])
        e
      ∙ h

  pub map_err_ok :
      (g : Error → Error) (m : Action A) (w : World) {a : A} {w' : World}
      → m w ≡ (ok a, w')
      → map_err g m w ≡ (ok a, w')
  unfolding map_err
  map_err_ok g m w e =
      ap
        (λ (p : Result A × World).
          let (r, w') = p in
          elim r as (λ _. Result A × World) [ ok a ↦ (ok a, w') | err x ↦ (err (g x), w') ])
        e

  pub lift_ok : (r : Result A) (w : World) {a : A} → r ≡ ok a → lift r w ≡ (ok a, w)
  unfolding lift
  lift_ok r w e = ap (λ x. (x, w)) e

  pub pool_read_ok :
      (env : Env) (f : Tables → Result A) (w : World) {a : A}
      → env.fault w.calls ≡ none
      → f w.committed ≡ ok a
      → pool_read env f w ≡ (ok a, tick w)
  unfolding pool_read read_reply
  pool_read_ok env f w calm e = rw (calm, e)
