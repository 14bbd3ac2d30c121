-- ===== src/WalletService/Opening.antt =====
-- CreateWallet and the tables.
use betting_processing_go.Prelude.{
  String, ◌≡◌, refl, Bool, true, false, if◌then◌else◌, List, [], ◌∷◌, arith,
}
use betting_processing_go.Prelude.Int.{◌+ℤ◌}
use betting_processing_go.Errors.{ok}
use betting_processing_go.Money.{Money, is_zero}
use betting_processing_go.Wallet.{Wallet, LedgerEntry, Direction, Time, new_ledger_entry}
use betting_processing_go.Wallet.EntryMath.{signed}
use betting_processing_go.Store.{Event, Env, World, Tables, lift}
use betting_processing_go.Store.During.{
  During, bind-During, map_err-During, lift-During, read_clock-During,
}
use betting_processing_go.Store.Frame.{Frame, Tidy, Sound, Owed}
use betting_processing_go.Store.Statements.{
  outbox-Sound, opening_tx-Owed, ledger_entry-Sound, wallet_tx-Owed,
}
use betting_processing_go.WalletService.Defs.{
  write_events, book_opening, write_opening, write_wallet,
}

-- The entry of an opening settles what the new wallet holds.
entry_owes :
    (F : Frame) (now : Time) (wallet_id transaction_id : String) (a x : Money) {e : LedgerEntry}
    {t : Tables}
    → new_ledger_entry now "" wallet_id transaction_id Direction.credit a x a ≡ ok e
    → Owed F wallet_id a.amount t
    → Owed F e.wallet_id (signed e.direction e.amount.amount) t
unfolding new_ledger_entry
entry_owes F now wallet_id transaction_id a x h r = record {
  owing = record { balance = λ j. ground (arith, r.owing.balance j) };
  frame = r.frame;
}

owes_nothing :
    (F : Frame) (id : String) (m : Money) (t : Tables)
    → is_zero m ≡ true
    → Owed F id m.amount t
    → Sound F t
unfolding is_zero ◌+ℤ◌
owes_nothing F id m t z r = record {
  reconciled = record { balance = λ j. ground (arith, r.owing.balance j) };
  frame = r.frame;
}

module _ (F : Frame) (env : Env) (P : Tables → Type 0) where
  write_events-Sound :
      (events : List Event) (w : World)
      → P w.committed
      → Sound F w.current
      → During P (λ _ t. Sound F t) (write_events env events w)
  unfolding write_events
  write_events-Sound [] w h r = lift-During P _ w h (λ u e. r)
  write_events-Sound (event ∷ events) w h r =
      bind-During P (λ _ t. Sound F t) _ _ w
        (map_err-During P _ _ w (lift-During P _ w h (λ payload e. r)))
        (λ payload w1 h1 r1.
          bind-During P (λ _ t. Sound F t) _ _ w1
            (outbox-Sound F env P event.aggregate_type event.aggregate_id event.event_type payload
              w1 h1 r1)
            (λ u w2 h2 r2. write_events-Sound events w2 h2 r2))

  book_opening-Sound :
      (wallet_id opening_id : String) (m zero : Money) (wallet : Wallet) (w : World)
      → P w.committed
      → Owed F wallet_id m.amount w.current
      → During P (λ _ t. Sound F t) (book_opening env wallet_id opening_id m zero wallet w)
  unfolding book_opening
  book_opening-Sound wallet_id opening_id m zero wallet w h r =
      bind-During P (λ _ t. Owed F wallet_id m.amount t) _ _ w (read_clock-During P env w h r)
        (λ now w1 h1 r1.
          bind-During P
            (λ entry t. Owed F entry.wallet_id (signed entry.direction entry.amount.amount) t) _ _
            w1
            (map_err-During P _ _ w1 (
              lift-During P _ w1 h1 (λ entry e. entry_owes F now wallet_id opening_id m zero e r1)))
            (λ entry w2 h2 r2.
              bind-During P (λ _ t. Sound F t) _ _ w2 (ledger_entry-Sound F env P entry w2 h2 r2)
                (λ id w3 h3 r3. write_events-Sound _ w3 h3 r3)))

  write_opening-Sound :
      (wallet_id player_id : String) (m : Money) (wallet : Wallet) (w : World)
      → F.Amount m.amount
      → P w.committed
      → Owed F wallet_id m.amount w.current
      → During P (λ _ t. Sound F t) (write_opening env wallet_id player_id m wallet w)
  unfolding write_opening
  write_opening-Sound wallet_id player_id m wallet w a h r =
      bind-During P (λ _ t. Owed F wallet_id m.amount t) _ _ w
        (opening_tx-Owed F env P wallet_id player_id m m.currency wallet_id m.amount w a h r)
        (λ opening_id w1 h1 r1.
          bind-During P (λ _ t. Owed F wallet_id m.amount t) _ _ w1
            (map_err-During P _ _ w1 (lift-During P _ w1 h1 (λ z e. r1)))
            (λ zero w2 h2 r2. book_opening-Sound wallet_id opening_id m zero wallet w2 h2 r2))

  open_or_not :
      (wallet_id player_id : String) (m : Money) (wallet : Wallet) (b : Bool) (w : World)
      → F.Amount m.amount
      → is_zero m ≡ b
      → P w.committed
      → Owed F wallet_id m.amount w.current
      → During P
          (λ _ t. Sound F t)
          ((if b then lift (ok tt) else write_opening env wallet_id player_id m wallet) w)
  open_or_not wallet_id player_id m wallet true w a z h r =
      lift-During P _ w h (λ u e. owes_nothing F wallet_id m w.current z r)
  open_or_not wallet_id player_id m wallet false w a z h r =
      write_opening-Sound wallet_id player_id m wallet w a h r

  pub write_wallet-Sound :
      (provider_id player_id : String) (m : Money) (w : World)
      → Tidy F env
      → F.Amount m.amount
      → P w.committed
      → Sound F w.current
      → During P (λ _ t. Sound F t) (write_wallet env provider_id player_id m w)
  unfolding write_wallet
  write_wallet-Sound provider_id player_id m w tidy a h r =
      bind-During P (λ id t. Owed F id m.amount t) _ _ w
        (map_err-During P _ _ w
          (wallet_tx-Owed F env P player_id provider_id m.currency m w tidy a h r))
        (λ id w1 h1 r1.
          bind-During P (λ _ t. Owed F id m.amount t) _ _ w1 (read_clock-During P env w1 h1 r1)
            (λ now w2 h2 r2.
              bind-During P (λ _ t. Owed F id m.amount t) _ _ w2
                (map_err-During P _ _ w2 (lift-During P _ w2 h2 (λ z e. r2)))
                (λ wallet w3 h3 r3.
                  bind-During P (λ _ t. Sound F t) _ _ w3
                    (open_or_not id player_id m wallet (is_zero m) w3 a refl h3 r3)
                    (λ u w4 h4 r4. lift-During P _ w4 h4 (λ z e. r4)))))
