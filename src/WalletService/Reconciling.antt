-- ===== src/WalletService/Reconciling.antt =====
-- Reconcile: its loop.
use betting_processing_go.Prelude.{
  ℕ, zero, suc, ◌+◌, ◌≡◌, ◌≢◌, refl, String, ◌||◌, inl, inr, Option, none, some, List, [], ◌∷◌,
  ◌++◌, length, arith,
}
use betting_processing_go.Prelude.Text.{Text, codes}
use betting_processing_go.Prelude.Int.{ℤ, pos}
use betting_processing_go.Errors.{Result, ok}
use betting_processing_go.Money.{text_eq}
use betting_processing_go.Wallet.{Wallet, LedgerEntry}
use betting_processing_go.Store.{
  Env, World, Tables, Reader, Action, colon, find_by_wallet_id, sum_by_wallet_id,
}
use betting_processing_go.Store.During.{
  During, Keeps, bind-During, map_err-During, lift-During, return-During, check-During, if-During,
  pool_read-Keeps,
}
use betting_processing_go.WalletService.Books.{find_by_id-Keeps}
use betting_processing_go.WalletService.Compare.{ReconciliationResult, compare_counted}
use betting_processing_go.WalletService.Ledger.{next_round, count_entries, reconcile}
use betting_processing_go.WalletService.Pages.{
  HasClock, During-outcome, IsIssued, Issued, find_by_wallet_id-Issued, find_by_wallet_id-refused,
}

module _ (P : Tables → Type 0) (env : Env) (R : Reader) (wallet_id : String) where
  next_round-Keeps :
      (k : ℕ → Text → Action (Option ℕ)) (checked : ℕ) (cursor : Text) (es : List LedgerEntry)
      (next : Text) (w : World)
      → P w.committed
      → ((n : ℕ) → Keeps P (k n next w))
      → Keeps P (next_round k checked cursor (es, next) w)
  unfolding next_round
  next_round-Keeps k checked cursor es next w h rec =
      if-During P (text_eq next [] || text_eq next cursor) _ _ w (λ e. return-During P _ w h tt)
        (λ e. rec (checked + length es))

  pub count_entries-Keeps :
      (fuel checked : ℕ) (cursor : Text) (w : World)
      → P w.committed
      → Keeps P (count_entries fuel env R wallet_id checked cursor w)
  unfolding count_entries
  count_entries-Keeps zero checked cursor w h = return-During P _ w h tt
  count_entries-Keeps (suc fuel) checked cursor w h =
      bind-During P (λ page _. Issued R page) _ _ w
        (map_err-During P _ _ w (find_by_wallet_id-Issued P env R wallet_id cursor (pos 1000) w h))
        (λ (es, next) w1 h1 q.
          next_round-Keeps (count_entries fuel env R wallet_id) checked cursor es next w1 h1
            (λ n. count_entries-Keeps fuel n next w1 h1))

module _ (P : Tables → Type 0) (env : Env) (wallet_id : String) where
  pub sum_by_wallet_id-Keeps :
      (w : World) → P w.committed → Keeps P (sum_by_wallet_id env wallet_id w)
  unfolding sum_by_wallet_id
  sum_by_wallet_id-Keeps w h = map_err-During P _ _ w (pool_read-Keeps P env _ w h)

module _ (env : Env) (R : Reader) (C : HasClock R) (wallet_id : String) where
  -- An outcome that is not the end of the fuel.
  abbrev Ends : {A : Type 0} → Result (Option A) × World → Type 0
  Ends p = During (λ t. Unit {0}) (λ o _. o ≢ none) p

  refused_page :
      (e : LedgerEntry) (w : World)
      → During {A = List LedgerEntry × Text}
          (λ t. Unit {0})
          (λ _ _. ⊥)
          (find_by_wallet_id env R wallet_id
            (R.format_time e.created_at ++ colon ∷ codes e.id)
            (pos 1000)
            w)
  refused_page e w =
      rw (find_by_wallet_id-refused R C env e wallet_id (pos 1000) w) (record { holds = tt })

  second_round-Ends :
      (fuel checked : ℕ) (next : Text) (w : World)
      → IsIssued R next
      → next ≢ []
      → Ends (count_entries (suc fuel) env R wallet_id checked next w)
  unfolding count_entries
  second_round-Ends fuel checked next w (inl nothing) ne = absurd (ne nothing)
  second_round-Ends fuel checked next w (inr (e, shape)) ne = rw shape (
      bind-During (λ t. Unit {0}) (λ _ _. ⊥) _ _ w
        (map_err-During (λ t. Unit {0}) _ _ w (refused_page e w)) (λ a w1 h q. absurd q))

  first_round-Ends :
      (fuel checked : ℕ) (es : List LedgerEntry) (next : Text) (w : World)
      → IsIssued R next
      → Ends (next_round (count_entries (suc fuel) env R wallet_id) checked [] (es, next) w)
  unfolding next_round text_eq
  first_round-Ends fuel checked es next w issued =
      if-During (λ t. Unit {0}) (text_eq next [] || text_eq next []) _ _ w
        (λ e. return-During (λ t. Unit {0}) _ w tt (cc))
        (λ e.
          second_round-Ends fuel (checked + length es) next w issued (λ z. ground (arith, z, e)))

  count_entries-Ends :
      (fuel : ℕ) (w : World) → Ends (count_entries (suc (suc fuel)) env R wallet_id 0 [] w)
  unfolding count_entries
  count_entries-Ends fuel w =
      let P = λ (t : Tables). Unit {0} in
      bind-During P (λ page _. Issued R page) _ _ w
        (map_err-During P _ _ w (find_by_wallet_id-Issued P env R wallet_id [] (pos 1000) w tt))
        (λ (es, next) w1 h1 q. first_round-Ends fuel 0 es next w1 q)

  compare_counted-ne-none :
      (wallet : Wallet) (sum : ℤ) (o : Option ℕ) (r : Option ReconciliationResult)
      → o ≢ none
      → compare_counted wallet_id wallet sum o ≡ ok r
      → r ≢ none
  unfolding compare_counted
  compare_counted-ne-none wallet sum none r ne e = absurd (ne refl)
  compare_counted-ne-none wallet sum (some checked) r ne e = ground arith

  reconcile-Ends : (fuel : ℕ) (w : World) → Ends (reconcile (suc (suc fuel)) env R wallet_id w)
  unfolding reconcile
  reconcile-Ends fuel w =
      let P = λ (t : Tables). Unit {0} in
      check-During P _ _ w tt (
        bind-During P (λ _ _. Unit {0}) _ _ w (find_by_id-Keeps P env wallet_id w tt)
          (λ wallet w1 h1 q1.
            bind-During P (λ _ _. Unit {0}) _ _ w1
              (map_err-During P _ _ w1 (sum_by_wallet_id-Keeps P env wallet_id w1 tt))
              (λ sum w2 h2 q2.
                bind-During P (λ o _. o ≢ none) _ _ w2 (count_entries-Ends fuel w2)
                  (λ o w3 h3 q3.
                    lift-During P _ w3 tt (λ r e. compare_counted-ne-none wallet sum o r q3 e)))))

-- Reconcile ends: with fuel for two pages or more the loop is left by its test or by an error, whatever
-- the database does with each call. The format and the parser of times are as documented.
pub reconcile_ends :
    (R : Reader) (C : HasClock R) (fuel : ℕ) (env : Env) (wallet_id : String) (w w' : World)
    → reconcile (suc (suc fuel)) env R wallet_id w ≢ (ok none, w')
reconcile_ends R C fuel env wallet_id w w' e =
    During-outcome (λ t. Unit {0}) (λ o. o ≢ none) _ w' (reconcile-Ends env R C wallet_id fuel w) e
      refl
