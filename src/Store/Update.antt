-- ===== src/Store/Update.antt =====
-- The update of one wallet's balance: what it does to the balances that the wallets hold.
use betting_processing_go.Prelude.{
  String, ◌≡◌, refl, subst, Bool, true, false, inl, inr, some, List, [], ◌∷◌, map, any, arith,
  Bool-cases,
}
use betting_processing_go.Prelude.Text.{str_eq, eq_iff, trim_string}
use betting_processing_go.Prelude.Int.{ℤ, pos, ◌+ℤ◌, ◌-ℤ◌, int_laws}
use betting_processing_go.Prelude.Int64.{IsInt64}
use betting_processing_go.Errors.{ok}
use betting_processing_go.Money.{brl, new_money, valid, is_negative}
use betting_processing_go.Wallet.{Wallet, Time, rehydrate_wallet}
use betting_processing_go.Wallet.Balance.{IsValid}
use betting_processing_go.Store.Schema.{WalletRow, Tables}
use betting_processing_go.Store.Rows.{
  find_row, load_wallet, row_matches, set_balance, update_row, update_wallets,
}
use betting_processing_go.Store.Reconciled.{at_id, stored, Owing, Reconciled}

-- What the columns and the primary key say of the rows: an id is a UUID without spaces and stands once,
-- and a balance is a BIGINT.
abbrev pub Keyed : List WalletRow → Type 0
Keyed [] = Unit
Keyed (r ∷ rs) =
    (any (λ s. str_eq s.id r.id) rs ≡ false)
    × (trim_string r.id ≡ r.id)
    × IsInt64 r.balance
    × Keyed rs

moved_by : (b old rest : ℤ) → b +ℤ rest ≡ b -ℤ old +ℤ (old +ℤ rest)
moved_by b old rest = omega int_laws

nothing_moved : (rest : ℤ) → pos 0 +ℤ rest ≡ pos 0 +ℤ (pos 0 +ℤ rest)
nothing_moved rest = omega int_laws

swapped : (a b rest : ℤ) → a +ℤ (b +ℤ rest) ≡ b +ℤ (a +ℤ rest)
swapped a b rest = omega int_laws

module _ (id : String) (b : ℤ) (now : Time) (j : String) where
  update_absent :
      (v : ℤ) (rs : List WalletRow)
      → any (λ s. str_eq s.id id) rs ≡ false
      → stored j (map (update_row id b v now) rs) ≡ stored j rs
  unfolding update_row row_matches
  update_absent v [] h = refl
  update_absent v (r ∷ rs) h = ground (arith, update_absent v rs)

  at_moved :
      (old rest : ℤ) → at_id id j b +ℤ rest ≡ at_id id j (b -ℤ old) +ℤ (at_id id j old +ℤ rest)
  at_moved old rest = ground (arith, moved_by b old rest, nothing_moved rest)

  update_head :
      (r row : WalletRow) (rs : List WalletRow)
      → any (λ s. str_eq s.id r.id) rs ≡ false
      → str_eq r.id id ≡ true
      → r ≡ row
      → stored j (map (update_row id b row.version now) (r ∷ rs))
        ≡ at_id id j (b -ℤ row.balance) +ℤ stored j (r ∷ rs)
  unfolding update_row row_matches set_balance
  update_head r row rs once e same =
      let (there, back) = eq_iff r.id id in
      let absent = subst (λ i. any (λ s. str_eq s.id i) rs ≡ false) (there e) once in
      ground
        (arith, there e, update_absent row.version rs absent, at_moved row.balance (stored j rs))

  update_tail :
      (r row : WalletRow) (rs : List WalletRow)
      → str_eq r.id id ≡ false
      → stored j (map (update_row id b row.version now) rs)
        ≡ at_id id j (b -ℤ row.balance) +ℤ stored j rs
      → stored j (map (update_row id b row.version now) (r ∷ rs))
        ≡ at_id id j (b -ℤ row.balance) +ℤ stored j (r ∷ rs)
  unfolding update_row row_matches
  update_tail r row rs e h =
      ground (arith, swapped (at_id r.id j r.balance) (at_id id j (b -ℤ row.balance)) (stored j rs))

  update_present :
      (rows : List WalletRow) (row : WalletRow)
      → Keyed rows
      → find_row (λ r. str_eq r.id id) rows ≡ some row
      → stored j (map (update_row id b row.version now) rows)
        ≡ at_id id j (b -ℤ row.balance) +ℤ stored j rows
  unfolding find_row
  update_present [] row k h = absurd (cc)
  update_present (r ∷ rs) row (once, trimmed, int64, k) h = elim (Bool-cases (str_eq r.id id)) [
    | inl e ↦ update_head r row rs once e (ground arith)
    | inr e ↦ update_tail r row rs e (update_present rs row k (ground arith))
  ]

pub found_row :
    (id : String) (rows : List WalletRow) (row : WalletRow)
    → Keyed rows
    → find_row (λ r. str_eq r.id id) rows ≡ some row
    → (row.id ≡ id) × (trim_string row.id ≡ row.id) × IsInt64 row.balance
unfolding find_row
found_row id [] row k h = absurd (cc)
found_row id (r ∷ rs) row (once, trimmed, int64, k) h = elim (Bool-cases (str_eq r.id id)) [
  | inl e ↦ ground (arith, eq_iff r.id id)
  | inr e ↦ ground (arith, found_row id rs row k)
]

pub loaded :
    (row : WalletRow) (w : Wallet)
    → IsInt64 row.balance
    → load_wallet (some row) ≡ ok w
    → (w.id ≡ trim_string row.id)
      × (w.version ≡ row.version)
      × (w.balance.amount ≡ row.balance)
      × IsValid w
unfolding load_wallet new_money valid rehydrate_wallet is_negative
loaded row w h e = ground (arith, eq_iff row.currency brl)

-- The update of a wallet that was read in the same transaction makes it hold the difference more than
-- the ledger says.
pub update_wallets-Owing :
    (id : String) (b : ℤ) (now : Time) (row : WalletRow) (t t' : Tables) (found : Bool)
    → Reconciled t
    → Keyed t.wallets
    → find_row (λ r. str_eq r.id id) t.wallets ≡ some row
    → update_wallets id b row.version now t ≡ ok (found, t')
    → Owing id (b -ℤ row.balance) t'
unfolding update_wallets
update_wallets-Owing id b now row t t' found h k f e = record {
  balance = λ j. ground (arith, h.balance j, update_present id b now j t.wallets row k f);
}
