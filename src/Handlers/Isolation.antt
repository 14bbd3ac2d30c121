-- ===== src/Handlers/Isolation.antt =====
-- The requests of an authenticated provider: what it may ask for, and what the replies show.
use betting_processing_go.Prelude.{◌≡◌, String, none, some}
use betting_processing_go.Store.{Tables}
use betting_processing_go.Store.During.{During}
use betting_processing_go.Handlers.Serve.{
  Route, post_transactions, get_transactions, get_provider_transactions, post_wallets, get_wallets,
  get_wallets_ledger, post_wallets_reconciliation,
}
use betting_processing_go.Handlers.Owners.{OwnsWallet, OwnsTransaction}

-- What a provider may ask for: transactions in its own name on its own wallets, its own transactions
-- and wallets, and any new wallet, which is its own.
abbrev pub Allowed : Tables → String → Route → Type 0
Allowed t provider_id (post_transactions key none) = ⊥
Allowed t provider_id (post_transactions key (some req)) =
    (req.provider_id ≡ provider_id) × OwnsWallet t provider_id req.wallet_id
Allowed t provider_id (get_transactions id) = OwnsTransaction t provider_id id
Allowed t provider_id (get_provider_transactions other id) = other ≡ provider_id
Allowed t provider_id (post_wallets body) = Unit
Allowed t provider_id (get_wallets id) = OwnsWallet t provider_id id
Allowed t provider_id (get_wallets_ledger id cursor limit) = OwnsWallet t provider_id id
Allowed t provider_id (post_wallets_reconciliation id) = OwnsWallet t provider_id id
