-- ===== src/Store/Invariant/Wallets.antt =====
-- The statements on wallets and the ledger, and the invariant.
use betting_processing_go.Prelude.{
  String, ◌≡◌, refl, sym, subst, ◌∙◌, Bool, false, List, [], ◌∷◌, map, any, arith,
}
use betting_processing_go.Prelude.Text.{str_eq, eq_iff, trim_string}
use betting_processing_go.Prelude.Int.{ℤ}
use betting_processing_go.Prelude.Int64.{IsInt64}
use betting_processing_go.Errors.{ok}
use betting_processing_go.Wallet.{Time}
use betting_processing_go.Store.Schema.{WalletRow, LedgerRow, Tables}
use betting_processing_go.Store.Rows.{
  update_row, row_matches, set_balance, update_wallets, insert_wallet, insert_ledger, wallet_clash,
}
use betting_processing_go.Store.TransactionRows.{}
use betting_processing_go.Store.Update.{Keyed}
use betting_processing_go.Store.Invariant.{Formed}

fresh_id :
    (r : WalletRow) (rs : List WalletRow)
    → any (wallet_clash r) rs ≡ false
    → any (λ s. str_eq s.id r.id) rs ≡ false
unfolding wallet_clash
fresh_id r [] h = refl
fresh_id r (s ∷ rs) h = ground (arith, fresh_id r rs, eq_iff r.id s.id, eq_iff s.id r.id)

insert_wallet_lem :
    (r : WalletRow) (t t' : Tables) (id : String)
    → insert_wallet r t ≡ ok (id, t')
    → (any (wallet_clash r) t.wallets ≡ false) × (t' ≡ record t { wallets = r ∷ t.wallets })
unfolding insert_wallet
insert_wallet_lem r t t' id e = ground arith

pub insert_wallet-Formed :
    (r : WalletRow) (t t' : Tables) (id : String)
    → trim_string r.id ≡ r.id
    → IsInt64 r.balance
    → Formed t
    → insert_wallet r t ≡ ok (id, t')
    → Formed t'
insert_wallet-Formed r t t' id trimmed int64 f e =
    let (new, shape) = insert_wallet_lem r t t' id e in
    subst Formed (sym shape) (record {
      keyed = (fresh_id r t.wallets new, trimmed, int64, f.keyed);
      distinct = f.distinct;
      amounts = f.amounts;
    })

pub insert_ledger-Formed :
    (e : LedgerRow) (t t' : Tables) (id : String)
    → Formed t
    → insert_ledger e t ≡ ok (id, t')
    → Formed t'
unfolding insert_ledger
insert_ledger-Formed e t t' id f p =
    let shape : t' ≡ record t { ledger = e ∷ t.ledger } = ground arith in
    subst Formed (sym shape)
      (record { keyed = f.keyed; distinct = f.distinct; amounts = f.amounts })

update_row-ids :
    (id j : String) (b v : ℤ) (now : Time) (rs : List WalletRow)
    → any (λ s. str_eq s.id j) (map (update_row id b v now) rs) ≡ any (λ s. str_eq s.id j) rs
unfolding update_row row_matches set_balance
update_row-ids id j b v now [] = refl
update_row-ids id j b v now (r ∷ rs) = ground (arith, update_row-ids id j b v now rs)

update_row-id :
    (id : String) (b v : ℤ) (now : Time) (r : WalletRow) → (update_row id b v now r).id ≡ r.id
unfolding update_row row_matches set_balance
update_row-id id b v now r = ground arith

update_row-IsInt64 :
    (id : String) (b v : ℤ) (now : Time) (r : WalletRow)
    → IsInt64 b
    → IsInt64 r.balance
    → IsInt64 (update_row id b v now r).balance
unfolding update_row row_matches set_balance
update_row-IsInt64 id b v now r h k = ground arith

update_row-Keyed :
    (id : String) (b v : ℤ) (now : Time) (rs : List WalletRow)
    → IsInt64 b
    → Keyed rs
    → Keyed (map (update_row id b v now) rs)
update_row-Keyed id b v now [] h k = tt
update_row-Keyed id b v now (r ∷ rs) h (once, trimmed, int64, k) =
    let same = sym (update_row-id id b v now r) in
    (
      subst (λ i. any (λ s. str_eq s.id i) (map (update_row id b v now) rs) ≡ false) same
          (update_row-ids id r.id b v now rs ∙ once),
      subst (λ i. trim_string i ≡ i) same trimmed,
      update_row-IsInt64 id b v now r h int64,
      update_row-Keyed id b v now rs h k,
    )

pub update_wallets-Formed :
    (id : String) (b v : ℤ) (now : Time) (t t' : Tables) (found : Bool)
    → IsInt64 b
    → Formed t
    → update_wallets id b v now t ≡ ok (found, t')
    → Formed t'
unfolding update_wallets
update_wallets-Formed id b v now t t' found int64 f e =
    let shape : t' ≡ record t { wallets = map (update_row id b v now) t.wallets } = ground arith in
    subst Formed (sym shape) (record {
      keyed = update_row-Keyed id b v now t.wallets int64 f.keyed;
      distinct = f.distinct;
      amounts = f.amounts;
    })
