-- ===== src/WagerService/Sound/Rows.antt =====
-- The amounts of the transactions that are read from the tables.
use betting_processing_go.Prelude.{
  String, ◌≡◌, sym, subst, Bool, Option, none, some, List, [], ◌∷◌, All, arith, inl, inr,
  Bool-cases,
}
use betting_processing_go.Prelude.Int64.{IsInt64}
use betting_processing_go.Errors.{Result, ok}
use betting_processing_go.Money.{new_money}
use betting_processing_go.Wager.{Transaction}
use betting_processing_go.Store.{
  Env, World, find_row, scan_transaction, scan_balance, query_transaction, find_transaction,
}
use betting_processing_go.Store.During.{
  During, bind-During, map_err-During, lift-During, pool_read-During,
}
use betting_processing_go.WagerService.Sound.Statements.{Good}
use betting_processing_go.WagerService.Sound.Steps.{HasInt64}

RowHasInt64 : Option Transaction → Type 0
RowHasInt64 none = Unit
RowHasInt64 (some x) = HasInt64 x

find_row-RowHasInt64 :
    (p : Transaction → Bool) (xs : List Transaction) → All HasInt64 xs → RowHasInt64 (find_row p xs)
unfolding RowHasInt64 find_row
find_row-RowHasInt64 p [] h = tt
find_row-RowHasInt64 p (x ∷ xs) (h, hs) = elim (Bool-cases (p x)) [
  | inl e ↦ rw e h
  | inr e ↦ rw e (find_row-RowHasInt64 p xs hs)
]

scan_transaction-HasInt64 :
    (o : Option Transaction) (tx : Transaction)
    → RowHasInt64 o
    → scan_transaction o ≡ ok tx
    → HasInt64 tx
unfolding RowHasInt64 scan_transaction scan_balance new_money
scan_transaction-HasInt64 none tx h e = absurd (cc)
scan_transaction-HasInt64 (some x) tx h e =
    let same : tx.amount.amount ≡ x.amount.amount = ground arith in subst IsInt64 (sym same) h

found_by : {A : Type 0} {a b : A} → Path (Result A) (ok a) (ok b) → a ≡ b
found_by e = cc

module _ (env : Env) where
  query_transaction-HasInt64 :
      (p : Transaction → Bool) (w : World)
      → Good w.committed
      → During Good (λ tx _. HasInt64 tx) (query_transaction env p w)
  unfolding query_transaction
  query_transaction-HasInt64 p w h =
      bind-During Good (λ o _. RowHasInt64 o) _ _ w
        (map_err-During Good _ _ w (
          pool_read-During Good RowHasInt64 env _ w h
            (λ o e. subst RowHasInt64 (found_by e) (find_row-RowHasInt64 p _ h.frame.amounts))))
        (λ o w1 h1 a. lift-During Good _ w1 h1 (λ tx e. scan_transaction-HasInt64 o tx a e))

  pub find_transaction-HasInt64 :
      (id : String) (w : World)
      → Good w.committed
      → During Good (λ tx _. HasInt64 tx) (find_transaction env id w)
  unfolding find_transaction
  find_transaction-HasInt64 id w h = query_transaction-HasInt64 _ w h
