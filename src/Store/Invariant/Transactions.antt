-- ===== src/Store/Invariant/Transactions.antt =====
-- The statements on transactions, and the invariant.
use betting_processing_go.Prelude.{
  String, ◌≡◌, refl, sym, subst, true, false, inl, inr, List, [], ◌∷◌, map, any, All, arith,
  Bool-cases,
}
use betting_processing_go.Prelude.Text.{str_eq}
use betting_processing_go.Prelude.Int64.{IsInt64}
use betting_processing_go.Errors.{ok}
use betting_processing_go.Wager.{Transaction}
use betting_processing_go.Store.Schema.{Tables}
use betting_processing_go.Store.Rows.{}
use betting_processing_go.Store.TransactionRows.{
  no_clash, transaction_clash, insert_transaction, update_transaction, set_row,
}
use betting_processing_go.Store.Invariant.{Formed}

insert_transaction_lem :
    (x : Transaction) (t t' : Tables) (id : String)
    → insert_transaction x t ≡ ok (id, t')
    → (any (transaction_clash x) t.transactions ≡ false)
      × (t' ≡ record t { transactions = x ∷ t.transactions })
unfolding insert_transaction
insert_transaction_lem x t t' id e = ground arith

pub insert_transaction-Formed :
    (x : Transaction) (t t' : Tables) (id : String)
    → IsInt64 x.amount.amount
    → Formed t
    → insert_transaction x t ≡ ok (id, t')
    → Formed t'
unfolding no_clash
insert_transaction-Formed x t t' id int64 f e =
    let (new, shape) = insert_transaction_lem x t t' id e in
    subst Formed (sym shape) (record {
      keyed = f.keyed;
      distinct = rw (new, f.distinct) refl;
      amounts = (int64, f.amounts);
    })

update_transaction_lem :
    (id : String) (f : Transaction → Transaction) (t t' : Tables)
    → update_transaction id f t ≡ ok (tt, t')
    → (no_clash (map (set_row id f) t.transactions) ≡ true)
      × (t' ≡ record t { transactions = map (set_row id f) t.transactions })
unfolding update_transaction
update_transaction_lem id f t t' e = ground arith

set_row-amounts :
    (id : String) (f : Transaction → Transaction) (xs : List Transaction)
    → ((x : Transaction) → (f x).amount ≡ x.amount)
    → All (λ x. IsInt64 x.amount.amount) xs
    → All (λ x. IsInt64 x.amount.amount) (map (set_row id f) xs)
unfolding set_row
set_row-amounts id f [] k h = tt
set_row-amounts id f (x ∷ xs) k (h, hs) = (
  elim (Bool-cases (str_eq x.id id)) [
    | inl e ↦ rw e (subst (λ m. IsInt64 m.amount) (sym (k x)) h)
    | inr e ↦ rw e h
  ],
  set_row-amounts id f xs k hs,
)

-- An update of a transaction that leaves its amount alone.
pub update_transaction-Formed :
    (id : String) (f : Transaction → Transaction) (t t' : Tables)
    → ((x : Transaction) → (f x).amount ≡ x.amount)
    → Formed t
    → update_transaction id f t ≡ ok (tt, t')
    → Formed t'
update_transaction-Formed id f t t' k s e =
    let (distinct, shape) = update_transaction_lem id f t t' e in
    subst Formed (sym shape) (record {
      keyed = s.keyed;
      distinct = distinct;
      amounts = set_row-amounts id f t.transactions k s.amounts;
    })
