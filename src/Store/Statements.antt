-- ===== src/Store/Statements.antt =====
-- The statements inside a transaction: what they do to balanced books, in any frame.
use betting_processing_go.Prelude.{String, ◌≡◌, subst, List, arith}
use betting_processing_go.Prelude.Int.{ℤ}
use betting_processing_go.Errors.{Result, ok}
use betting_processing_go.Money.{Money, Currency}
use betting_processing_go.Wallet.{LedgerEntry}
use betting_processing_go.Wallet.EntryMath.{signed}
use betting_processing_go.Wager.{Transaction}
use betting_processing_go.Store.Events.{Event}
use betting_processing_go.Store.Schema.{Tables, OutboxRow, InboxRow}
use betting_processing_go.Store.TransactionRows.{insert_transaction}
use betting_processing_go.Store.Session.{Env, World}
use betting_processing_go.Store.WalletRepo.{
  create_wallet_tx, create_opening_tx, create_ledger_entry_tx, create_outbox_event_tx,
}
use betting_processing_go.Store.During.{During, map_err-During, tx_exec-During}
use betting_processing_go.Store.Reconciled.{
  insert_wallet-Owing, insert_transaction-Owing, insert_transaction-Reconciled,
  insert_ledger-Reconciled,
}
use betting_processing_go.Store.Frame.{Frame, Tidy, Sound, Owed}

pub stored_tables :
    {A : Type 0} (a b : A) (t t' : Tables)
    → Path (Result (A × Tables)) (ok (a, t)) (ok (b, t'))
    → t ≡ t'
stored_tables a b t t' e = ground arith

module _ (F : Frame) where
  pub mail-Sound :
      (t : Tables) (outbox : List OutboxRow) (inbox : List InboxRow)
      → Sound F t
      → Sound F (record t { outbox = outbox; inbox = inbox })
  mail-Sound t outbox inbox s = record {
    reconciled = record { balance = s.reconciled.balance };
    frame = F.mail t outbox inbox s.frame;
  }

  pub mail-Owed :
      {id : String} {z : ℤ} (t : Tables) (outbox : List OutboxRow) (inbox : List InboxRow)
      → Owed F id z t
      → Owed F id z (record t { outbox = outbox; inbox = inbox })
  mail-Owed t outbox inbox s = record {
    owing = record { balance = s.owing.balance };
    frame = F.mail t outbox inbox s.frame;
  }

  -- A new transaction changes no balance.
  pub insert_transaction-Owed :
      (x : Transaction) (t t' : Tables) (id j : String) (z : ℤ)
      → F.Amount x.amount.amount
      → Owed F j z t
      → insert_transaction x t ≡ ok (id, t')
      → Owed F j z t'
  insert_transaction-Owed x t t' id j z a o e = record {
    owing = insert_transaction-Owing x t t' id j z o.owing e;
    frame = F.transaction x t t' id a o.frame e;
  }

  pub insert_transaction-Sound :
      (x : Transaction) (t t' : Tables) (id : String)
      → F.Amount x.amount.amount
      → Sound F t
      → insert_transaction x t ≡ ok (id, t')
      → Sound F t'
  insert_transaction-Sound x t t' id a s e = record {
    reconciled = insert_transaction-Reconciled x t t' id s.reconciled e;
    frame = F.transaction x t t' id a s.frame e;
  }

  module _ (env : Env) (P : Tables → Type 0) where
    pub outbox-Sound :
        (a b k : String) (payload : Event) (w : World)
        → P w.committed
        → Sound F w.current
        → During P (λ _ t. Sound F t) (create_outbox_event_tx env a b k payload w)
    unfolding create_outbox_event_tx
    outbox-Sound a b k payload w h r = map_err-During P _ _ w (
        tx_exec-During P env _ w h (λ u t e.
          subst (Sound F) (stored_tables tt u _ t e) (mail-Sound w.current _ w.current.inbox r)))

    pub opening_tx-Owed :
        (wallet_id player_id : String) (m : Money) (k : Currency) (j : String) (z : ℤ) (w : World)
        → F.Amount m.amount
        → P w.committed
        → Owed F j z w.current
        → During P (λ _ t. Owed F j z t) (create_opening_tx env wallet_id player_id m k w)
    unfolding create_opening_tx
    opening_tx-Owed wallet_id player_id m k j z w a h r =
        map_err-During P _ _ w (
          tx_exec-During P env _ w h (λ id t e. insert_transaction-Owed _ w.current t id j z a r e))

    -- The entry of the moved amount settles the books.
    pub ledger_entry-Sound :
        (entry : LedgerEntry) (w : World)
        → P w.committed
        → Owed F entry.wallet_id (signed entry.direction entry.amount.amount) w.current
        → During P (λ _ t. Sound F t) (create_ledger_entry_tx env entry w)
    unfolding create_ledger_entry_tx
    ledger_entry-Sound entry w h r = map_err-During P _ _ w (
        tx_exec-During P env _ w h (λ id t e. record {
          reconciled = insert_ledger-Reconciled _ w.current t id r.owing e;
          frame = F.entry _ w.current t id r.frame e;
        }))

    -- A new wallet owes its balance to the ledger.
    pub wallet_tx-Owed :
        (player_id provider_id : String) (k : Currency) (m : Money) (w : World)
        → Tidy F env
        → F.Amount m.amount
        → P w.committed
        → Sound F w.current
        → During P (λ id t. Owed F id m.amount t) (create_wallet_tx env player_id provider_id k m w)
    unfolding create_wallet_tx
    wallet_tx-Owed player_id provider_id k m w tidy a h r = map_err-During P _ _ w (
        tx_exec-During P env _ w h (λ id t e.
          let (same, owing) = insert_wallet-Owing _ w.current t id r.reconciled e in
          record {
            owing = owing;
            frame = F.wallet _ w.current t id (tidy.ids w.calls) a r.frame e;
          }))
