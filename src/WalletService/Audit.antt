-- ===== src/WalletService/Audit.antt =====
-- Reconcile: what it reports of the wallet and the ledger.
use betting_processing_go.Prelude.{
  ℕ, ◌≡◌, ◌↔◌, refl, sym, subst, ap, ◌∙◌, String, Bool, true, false, inl, inr, Option, none, some,
  List, [], ◌∷◌, any, arith, Bool-cases,
}
use betting_processing_go.Prelude.Text.{str_eq, eq_iff}
use betting_processing_go.Prelude.Int.{ℤ, pos, eqb_ℤ, ◌+ℤ◌, ◌-ℤ◌, int_laws, -ℤ_parts, eq_of_parts}
use betting_processing_go.Prelude.Int64.{IsInt64}
use betting_processing_go.Errors.{ok}
use betting_processing_go.Money.{brl, new_money, valid, is_zero}
use betting_processing_go.Money.Arithmetic.{subtract-exact}
use betting_processing_go.Wallet.{Wallet}
use betting_processing_go.Wallet.Balance.{IsValid, brl_of}
use betting_processing_go.Store.{
  Env, World, Tables, WalletRow, Reader, find_row, load_wallet, find_by_id, sum_by_wallet_id,
  sum_entries,
}
use betting_processing_go.Store.During.{
  During, bind-During, map_err-During, lift-During, check-During, pool_read-During,
}
use betting_processing_go.Store.Reconciled.{stored, ledger_sum}
use betting_processing_go.Store.Update.{Keyed, found_row, loaded}
use betting_processing_go.WalletService.Compare.{
  ReconciliationResult, compare_books, compare_counted,
}
use betting_processing_go.WalletService.Ledger.{reconcile}
use betting_processing_go.WalletService.Reconciling.{count_entries-Keeps}

absorbed : (rest : ℤ) → pos 0 +ℤ rest ≡ rest
absorbed rest = omega int_laws

alone : (z : ℤ) → z +ℤ pos 0 ≡ z
alone z = omega int_laws

stored_absent :
    (id : String) (rs : List WalletRow)
    → any (λ s. str_eq s.id id) rs ≡ false
    → stored id rs ≡ pos 0
stored_absent id [] h = refl
stored_absent id (r ∷ rs) h = ground (arith, stored_absent id rs, absorbed (stored id rs))

-- The row with an id holds what the wallets hold under it.
pub find_row-stored :
    (id : String) (rows : List WalletRow) (row : WalletRow)
    → Keyed rows
    → find_row (λ r. str_eq r.id id) rows ≡ some row
    → stored id rows ≡ row.balance
unfolding find_row
find_row-stored id [] row k h = absurd (cc)
find_row-stored id (r ∷ rs) row (once, trimmed, int64, k) h = elim (Bool-cases (str_eq r.id id)) [
  | inl e ↦
      let absent =
        stored_absent id rs
          (subst (λ i. any (λ s. str_eq s.id i) rs ≡ false) ((eq_iff r.id id).0 e) once) in
      ground (arith, absent, alone r.balance)
  | inr e ↦ ground (arith, find_row-stored id rs row k, absorbed (stored id rs))
]

-- What a result should be, by the tables.
pub record Reports (t : Tables) (wallet_id : String) (r : ReconciliationResult) : Type 0 where
  pub named : r.wallet_id ≡ wallet_id
  pub stored_balance : r.stored_balance ≡ brl_of (stored wallet_id t.wallets)
  pub calculated_balance : r.calculated_balance ≡ brl_of (ledger_sum wallet_id t.ledger)
  pub difference :
      r.difference ≡ brl_of (stored wallet_id t.wallets -ℤ ledger_sum wallet_id t.ledger)
  pub verdict : (r.consistent ≡ true) ↔ (stored wallet_id t.wallets ≡ ledger_sum wallet_id t.ledger)

zero_difference : (a b : ℤ) → (eqb_ℤ (a -ℤ b) (pos 0) ≡ true) ↔ (a ≡ b)
zero_difference a b =
    (λ e. ground (arith, -ℤ_parts a b, eq_of_parts a b), λ e. ground (arith, -ℤ_parts a b))

compare_books-exact :
    (wallet_id : String) (w : Wallet) (sum : ℤ) (checked : ℕ) (r : ReconciliationResult)
    → IsValid w
    → IsInt64 sum
    → compare_books wallet_id w sum checked ≡ ok r
    → (r.wallet_id ≡ wallet_id)
      × (r.stored_balance ≡ w.balance)
      × (r.calculated_balance ≡ brl_of sum)
      × (r.difference ≡ brl_of (w.balance.amount -ℤ sum))
      × (r.consistent ≡ eqb_ℤ (w.balance.amount -ℤ sum) (pos 0))
unfolding compare_books new_money valid is_zero
compare_books-exact wallet_id w sum checked r v h e =
    ground (arith, subtract-exact w.balance (brl_of sum) v.balance_int64 h, eq_iff w.currency brl)

sum_entries-exact :
    (id : String) (t : Tables) (z : ℤ)
    → sum_entries id t ≡ ok z
    → (z ≡ ledger_sum id t.ledger) × IsInt64 z
unfolding sum_entries
sum_entries-exact id t z e = ground arith

-- A pinned property: the committed tables are these.
abbrev Same : Tables → Tables → Type 0
Same t t' = t' ≡ t

abbrev Reported : Tables → String → Option ReconciliationResult → Type 0
Reported t id none = Unit
Reported t id (some r) = Reports t id r

found_wallet :
    (row : Option WalletRow) (w : Wallet)
    → load_wallet row ≡ ok w
    → (x : WalletRow) × (row ≡ some x) × (load_wallet (some x) ≡ ok w)
unfolding load_wallet
found_wallet none w e = absurd (cc)
found_wallet (some x) w e = (x, refl, e)

module _ (t : Tables) (id : String) where
  abbrev IsWallet : Wallet → Type 0
  IsWallet w =
      (row : WalletRow) × (find_row (λ r. str_eq r.id id) t.wallets ≡ some row)
      × (load_wallet (some row) ≡ ok w)

  find_by_id-IsWallet :
      (env : Env) (w : World)
      → w.committed ≡ t
      → During (Same t) (λ x _. IsWallet x) (find_by_id env id w)
  unfolding find_by_id
  find_by_id-IsWallet env w h =
      bind-During (Same t) (λ row _. row ≡ find_row (λ r. str_eq r.id id) t.wallets) _ _ w
        (map_err-During (Same t) _ _ w (
          pool_read-During (Same t) (λ row. row ≡ find_row (λ r. str_eq r.id id) t.wallets) env _ w
            h (λ a e. cc (ap (λ x. find_row (λ r. str_eq r.id id) x.wallets) h))))
        (λ row w1 h1 same.
          lift-During (Same t) _ w1 h1
            (λ a e. let (x, there, load) = found_wallet row a e in (x, sym same ∙ there, load)))

module _ (t : Tables) (id : String) (k : Keyed t.wallets) where
  report_books :
      (row : WalletRow) (w : Wallet) (sum : ℤ) (checked : ℕ) (r : ReconciliationResult)
      → find_row (λ r. str_eq r.id id) t.wallets ≡ some row
      → load_wallet (some row) ≡ ok w
      → sum_entries id t ≡ ok sum
      → compare_books id w sum checked ≡ ok r
      → Reports t id r
  report_books row w sum checked r found load total e =
      let (same_id, trimmed, int64) = found_row id t.wallets row k found in
      let (named, version, balance, valid) = loaded row w int64 load in
      let (total', int64') = sum_entries-exact id t sum total in
      let (a, b, c, d, v) = compare_books-exact id w sum checked r valid int64' e in
      let held : w.balance.amount ≡ stored id t.wallets =
        balance ∙ sym (find_row-stored id t.wallets row k found) in
      let z = zero_difference (stored id t.wallets) (ledger_sum id t.ledger) in
      record {
        named = a;
        stored_balance = ground (arith, b, held, valid.balance_currency);
        calculated_balance = ground (arith, c, total');
        difference = ground (arith, d, held, total');
        verdict =
            subst (λ (x : Bool). (x ≡ true) ↔ (stored id t.wallets ≡ ledger_sum id t.ledger))
              (sym (ground (arith, v, held, total'))) z;
      }

  report :
      (w : Wallet) (sum : ℤ) (o : Option ℕ) (r : Option ReconciliationResult)
      → IsWallet t id w
      → sum_entries id t ≡ ok sum
      → compare_counted id w sum o ≡ ok r
      → Reported t id r
  unfolding compare_counted
  report w sum o none v total e = tt
  report w sum none (some r) v total e = absurd (cc)
  report w sum (some checked) (some r) (row, found, load) total e =
      report_books row w sum checked r found load total (ground arith)

  reconcile-Reported :
      (fuel : ℕ) (env : Env) (R : Reader) (w : World)
      → w.committed ≡ t
      → During (Same t) (λ r _. Reported t id r) (reconcile fuel env R id w)
  unfolding reconcile sum_by_wallet_id
  reconcile-Reported fuel env R w h = check-During (Same t) _ _ w h (
      bind-During (Same t) (λ x _. IsWallet t id x) _ _ w (find_by_id-IsWallet t id env w h)
        (λ wallet w1 h1 v.
          bind-During (Same t) (λ sum _. sum_entries id t ≡ ok sum) _ _ w1
            (map_err-During (Same t) _ _ w1 (
              map_err-During (Same t) _ _ w1 (
                pool_read-During (Same t) (λ sum. sum_entries id t ≡ ok sum) env _ w1 h1
                  (λ sum e. ap (sum_entries id) (sym h1) ∙ e))))
            (λ sum w2 h2 total.
              bind-During (Same t) (λ _ _. Unit {0}) _ _ w2
                (count_entries-Keeps (Same t) env R id fuel 0 [] w2 h2)
                (λ o w3 h3 u.
                  lift-During (Same t) _ w3 h3 (λ r e. report wallet sum o r v total e)))))

-- What Reconcile reports, whatever the database does with each call: the balance that the wallets hold
-- under the id, the sum of the ledger's entries for it, their exact difference, and `Consistent` exactly
-- where the two agree. The committed tables stay as they are. Wallets must have one row with a given id,
-- ids without spaces and int64 balances.
pub reconcile-Reports :
    (fuel : ℕ) (env : Env) (R : Reader) (id : String) (w w' : World) (r : ReconciliationResult)
    → Keyed w.committed.wallets
    → reconcile fuel env R id w ≡ (ok (some r), w')
    → Reports w.committed id r × (w'.committed ≡ w.committed)
reconcile-Reports fuel env R id w w' r k e =
    let (same, reports) =
      (subst (λ p. During (Same w.committed) (λ r _. Reported w.committed id r) p) e
        (reconcile-Reported w.committed id k fuel env R w refl)).holds in
    (reports, same)
