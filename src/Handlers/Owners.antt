-- ===== src/Handlers/Owners.antt =====
-- Lookups, and whose the rows are that they find.
use betting_processing_go.Prelude.{
  ◌≤◌, ◌≡◌, refl, sym, ◌∙◌, ap, String, ◌⊎◌, inl, inr, Option, none, some, arith,
}
use betting_processing_go.Prelude.Text.{str_eq, trim_string}
use betting_processing_go.Errors.{Result, ok, err}
use betting_processing_go.Wallet.{Wallet, rehydrate_wallet}
use betting_processing_go.Wager.{Transaction}
use betting_processing_go.Store.{
  Env, World, Tables, WalletRow, find_row, load_wallet, scan_transaction, lift, find_by_id,
  find_transaction, query_transaction,
}
use betting_processing_go.Store.During.{
  During, bind-During, map_err-During, lift-During, return-During, check-During, pool_read-During,
}
use betting_processing_go.WalletService.{get_wallet}
use betting_processing_go.Handlers.Responses.{Reply}
use betting_processing_go.Handlers.Transactions.{}
use betting_processing_go.Handlers.Wallets.{}

-- The wallet with this id is the provider's.
abbrev pub OwnsWallet : Tables → String → String → Type 0
OwnsWallet t provider_id id =
    (row : WalletRow) × (find_row (λ r. str_eq r.id id) t.wallets ≡ some row)
    × (trim_string row.provider_id ≡ provider_id)

-- The transaction with this id is the provider's.
abbrev pub OwnsTransaction : Tables → String → String → Type 0
OwnsTransaction t provider_id id =
    (tx : Transaction) × (find_row (λ x. str_eq x.id id) t.transactions ≡ some tx)
    × (tx.provider ≡ provider_id)

-- Either the request is allowed, which is `A`, or nothing has changed so far.
abbrev pub Kept : Type 0 → Tables → Tables → Type 0
Kept A t t' = A ⊎ (t' ≡ t)

-- Either the request is allowed or it is refused.
abbrev pub Judged : Type 0 → Reply → Type 0
Judged A r = A ⊎ (300 ≤ r.status)

-- A check refuses, or the request is allowed.
abbrev pub Checked : Type 0 → Option Reply → Type 0
Checked A none = A
Checked A (some r) = Judged A r

loaded_provider :
    (row : Option WalletRow) (x : Wallet)
    → load_wallet row ≡ ok x
    → (r : WalletRow) × (row ≡ some r) × (x.provider_id ≡ trim_string r.provider_id)
unfolding load_wallet rehydrate_wallet
loaded_provider none x e = absurd (cc)
loaded_provider (some r) x e = (r, refl, ground arith)

pub scanned_provider :
    (row : Option Transaction) (x : Transaction)
    → scan_transaction row ≡ ok x
    → (r : Transaction) × (row ≡ some r) × (x.provider ≡ r.provider)
unfolding scan_transaction
scanned_provider none x e = absurd (cc)
scanned_provider (some r) x e = (r, refl, ground arith)

module _ (A : Type 0) (t : Tables) where
  pub granted :
      {B : Type 0} {Q : B → Type 0} (a : A) (p : Result B × World)
      → During (Kept A t) (λ r _. A ⊎ Q r) p
  granted a (ok r, w) = record { holds = (inl a, inl a) }
  granted a (err e, w) = record { holds = inl a }

  pub refused :
      (reply : Reply) (w : World)
      → Kept A t w.committed
      → 300 ≤ reply.status
      → During (Kept A t) (λ r _. Judged A r) (lift (ok reply) w)
  refused reply w h b = return-During (Kept A t) _ w h (inr b)

  read_row :
      {B : Type 0} (f : Tables → B) (w : World) (a : B)
      → Kept A t w.committed
      → ◌≡◌ {A = Result B} (ok (f w.committed)) (ok a)
      → A ⊎ (a ≡ f t)
  read_row f w a (inl allowed) e = inl allowed
  read_row f w a (inr same) e = inr (cc (ap f same))

  module _ (env : Env) (id : String) where
    wallet_of :
        (row : Option WalletRow) (x : Wallet)
        → A ⊎ (row ≡ find_row (λ r. str_eq r.id id) t.wallets)
        → load_wallet row ≡ ok x
        → A ⊎ OwnsWallet t x.provider_id id
    wallet_of row x (inl a) e = inl a
    wallet_of row x (inr same) e =
        let (r, there, p) = loaded_provider row x e in inr (r, sym same ∙ there, sym p)

    pub get_wallet-Owned :
        (w : World)
        → Kept A t w.committed
        → During (Kept A t) (λ x _. A ⊎ OwnsWallet t x.provider_id id) (get_wallet env id w)
    unfolding get_wallet find_by_id
    get_wallet-Owned w h = check-During (Kept A t) _ _ w h (
        bind-During (Kept A t) (λ row _. A ⊎ (row ≡ find_row (λ r. str_eq r.id id) t.wallets)) _ _ w
          (map_err-During (Kept A t) _ _ w (
            pool_read-During (Kept A t)
              (λ row. A ⊎ (row ≡ find_row (λ r. str_eq r.id id) t.wallets)) env _ w h
              (λ row e. read_row (λ x. find_row (λ r. str_eq r.id id) x.wallets) w row h e)))
          (λ row w1 h1 q. lift-During (Kept A t) _ w1 h1 (λ x e. wallet_of row x q e)))

    transaction_of :
        (row : Option Transaction) (x : Transaction)
        → A ⊎ (row ≡ find_row (λ r. str_eq r.id id) t.transactions)
        → scan_transaction row ≡ ok x
        → A ⊎ OwnsTransaction t x.provider id
    transaction_of row x (inl a) e = inl a
    transaction_of row x (inr same) e =
        let (r, there, p) = scanned_provider row x e in inr (r, sym same ∙ there, sym p)

    pub find_transaction-Owned :
        (w : World)
        → Kept A t w.committed
        → During (Kept A t) (λ x _. A ⊎ OwnsTransaction t x.provider id) (find_transaction env id w)
    unfolding find_transaction query_transaction
    find_transaction-Owned w h =
        bind-During (Kept A t) (λ row _. A ⊎ (row ≡ find_row (λ r. str_eq r.id id) t.transactions))
          _ _ w
          (map_err-During (Kept A t) _ _ w (
            pool_read-During (Kept A t)
              (λ row. A ⊎ (row ≡ find_row (λ r. str_eq r.id id) t.transactions)) env _ w h
              (λ row e. read_row (λ x. find_row (λ r. str_eq r.id id) x.transactions) w row h e)))
          (λ row w1 h1 q. lift-During (Kept A t) _ w1 h1 (λ x e. transaction_of row x q e))
