-- ===== src/WagerService/Sound/Steps.antt =====
-- The rejections of WagerService/Steps.antt, and the invariant.
use betting_processing_go.Prelude.{String, ◌≡◌, refl, sym, subst, arith}
use betting_processing_go.Prelude.Int64.{IsInt64}
use betting_processing_go.Errors.{Result, ok, err}
use betting_processing_go.Money.{no_money}
use betting_processing_go.Wallet.{Time}
use betting_processing_go.Wager.{Transaction, TransactionStatus, set_failure_code, transition_to}
use betting_processing_go.Store.{Env, World, Tables, Action, ◌>>=◌}
use betting_processing_go.Store.During.{
  During, Keeps, bind-During, map_err-During, return-During, begin_tx-During, commit_tx-Keeps,
  read_clock-During, or_else-Keeps,
}
use betting_processing_go.Store.Throughout.{Throughout-During}
use betting_processing_go.WagerService.Steps.{
  transition, fail_with, write_rejected, create_and_reject, rejection, reject,
}
use betting_processing_go.WagerService.Sound.Statements.{
  Good, Good-Steady, create_transaction_tx-During, emit-Good,
}
use betting_processing_go.WagerService.Sound.Reads.{get_wallet_balance-Throughout}

-- Two states of a transaction: neither its wallet nor its amount changes.
pub record Alike (tx tx' : Transaction) : Type 0 where
  pub wallet : tx'.wallet_id ≡ tx.wallet_id
  pub amount : tx'.amount ≡ tx.amount

abbrev pub HasInt64 : Transaction → Type 0
HasInt64 tx = IsInt64 tx.amount.amount

pub Alike-HasInt64 : (tx tx' : Transaction) → Alike tx tx' → HasInt64 tx → HasInt64 tx'
Alike-HasInt64 tx tx' a h = subst (λ m. IsInt64 m.amount) (sym a.amount) h

Alike-refl : (tx : Transaction) → Alike tx tx
Alike-refl tx = record { wallet = refl; amount = refl }

transition_to-Alike :
    (now : Time) (status : TransactionStatus) (tx tx' : Transaction)
    → transition_to now status tx ≡ ok tx'
    → Alike tx tx'
unfolding transition_to
transition_to-Alike now status tx tx' e = record { wallet = ground arith; amount = ground arith }

kept_or_moved :
    (tx : Transaction) (r : Result Transaction)
    → ((tx' : Transaction) → r ≡ ok tx' → Alike tx tx')
    → Alike tx (elim r [ ok tx' ↦ tx' | err e ↦ tx ])
kept_or_moved tx (ok tx') k = k tx' refl
kept_or_moved tx (err e) k = Alike-refl tx

module _ (env : Env) (P Q : Tables → Type 0) where
  pub transition-During :
      (status : TransactionStatus) (tx : Transaction) (w : World)
      → P w.committed
      → Q w.current
      → During P (λ tx' t. Alike tx tx' × Q t) (transition env status tx w)
  unfolding transition
  transition-During status tx w h q =
      bind-During P (λ _ t. Q t) _ _ w (read_clock-During P env w h q)
        (λ now w1 h1 q1.
          return-During P _ w1 h1
            (kept_or_moved tx _ (λ tx' e. transition_to-Alike now status tx tx' e), q1))

  pub fail_with-During :
      (code : String) (tx : Transaction) (w : World)
      → P w.committed
      → Q w.current
      → During P (λ tx' t. Alike tx tx' × Q t) (fail_with env code tx w)
  unfolding fail_with set_failure_code
  fail_with-During code tx w h q =
      bind-During P (λ _ t. Q t) _ _ w (read_clock-During P env w h q)
        (λ now w1 h1 q1. return-During P _ w1 h1 (record { wallet = refl; amount = refl }, q1))

module _ (env : Env) where
  write_rejected-Good :
      (code : String) (tx : Transaction) (w : World)
      → HasInt64 tx
      → Good w.committed
      → Good w.current
      → During Good (λ _ t. Good t) (write_rejected env code tx w)
  unfolding write_rejected
  write_rejected-Good code tx w a h g =
      bind-During Good (λ _ t. Good t) _ _ w
        (map_err-During Good _ _ w
          (create_transaction_tx-During env Good Good Good-Steady tx w a h g))
        (λ id w1 h1 g1.
          bind-During Good (λ _ t. Good t) _ _ w1 (emit-Good env Good _ _ w1 h1 g1)
            (λ u w2 h2 g2. return-During Good _ w2 h2 g2))

  pub rejection-Keeps :
      (tx : Transaction) (w : World) → Good w.committed → Keeps Good (rejection env tx w)
  unfolding rejection
  rejection-Keeps tx w h =
      bind-During Good (λ _ _. Unit {0}) _ _ w
        (or_else-Keeps Good no_money _ w (
          Throughout-During Good (λ _. Unit {0})
            (get_wallet_balance-Throughout Good (λ _. Unit {0}) env tx.wallet_id w h tt)))
        (λ balance w1 h1 u. return-During Good _ w1 h1 tt)

  -- The transaction that a rejection stores.
  refused_states :
      {B : Type 0} (code : String) (tx : Transaction) (status : TransactionStatus)
      (f : Transaction → Action B) (w : World)
      → HasInt64 tx
      → Good w.committed
      → ((tx' : Transaction) (w' : World)
          → HasInt64 tx'
          → Good w'.committed
          → Keeps Good (f tx' w'))
      → Keeps Good ((fail_with env code tx >>= λ tx1. transition env status tx1 >>= f) w)
  refused_states code tx status f w a h k =
      bind-During Good (λ tx1 _. Alike tx tx1 × Unit {0}) _ _ w
        (fail_with-During env Good (λ _. Unit {0}) code tx w h tt)
        (λ tx1 w1 h1 (s1, u).
          bind-During Good (λ tx2 _. Alike tx1 tx2 × Unit {0}) _ _ w1
            (transition-During env Good (λ _. Unit {0}) status tx1 w1 h1 tt)
            (λ tx2 w2 h2 (s2, u).
              k tx2 w2 (Alike-HasInt64 tx1 tx2 s2 (Alike-HasInt64 tx tx1 s1 a)) h2))

  pub create_and_reject-Keeps :
      (code : String) (tx : Transaction) (w : World)
      → HasInt64 tx
      → Good w.committed
      → Keeps Good (create_and_reject env code tx w)
  unfolding create_and_reject
  create_and_reject-Keeps code tx w a h = refused_states code tx _ _ w a h (λ tx2 w2 a2 h2.
      bind-During Good (λ _ t. Good t) _ _ w2
        (map_err-During Good _ _ w2 (begin_tx-During Good env w2 h2))
        (λ u w3 h3 g3.
          bind-During Good (λ _ t. Good t) _ _ w3 (write_rejected-Good code tx2 w3 a2 h3 g3)
            (λ tx3 w4 h4 g4. commit_tx-Keeps Good env w4 h4 g4)))

  pub reject-Keeps :
      (code : String) (tx : Transaction) (w : World)
      → HasInt64 tx
      → Good w.committed
      → Keeps Good (reject env code tx w)
  unfolding reject
  reject-Keeps code tx w a h = refused_states code tx _ _ w a h (λ tx2 w2 a2 h2.
      bind-During Good (λ _ t. Good t) _ _ w2
        (map_err-During Good _ _ w2 (begin_tx-During Good env w2 h2))
        (λ u w3 h3 g3.
          bind-During Good (λ _ t. Good t) _ _ w3 (write_rejected-Good code tx2 w3 a2 h3 g3)
            (λ tx3 w4 h4 g4.
              bind-During Good (λ _ _. Unit {0}) _ _ w4
                (map_err-During Good _ _ w4 (commit_tx-Keeps Good env w4 h4 g4))
                (λ u w5 h5 g5. rejection-Keeps tx3 w5 h5))))
