-- ===== src/WalletService/Change.antt =====
-- applyBalanceChange inside a transaction.
use betting_processing_go.Prelude.{
  String, ◌≡◌, ◌∙◌, refl, sym, ap, subst, true, false, Option, none, some, arith,
}
use betting_processing_go.Prelude.Text.{str_eq}
use betting_processing_go.Prelude.Int.{ℤ, pos, ltb_ℤ, ◌+ℤ◌, ◌-ℤ◌, int_laws}
use betting_processing_go.Prelude.Int64.{IsInt64}
use betting_processing_go.Errors.{ok}
use betting_processing_go.Money.{Money}
use betting_processing_go.Wallet.{
  Wallet, BalanceChange, Direction, Time, debit, credit, other_direction,
}
use betting_processing_go.Wallet.Balance.{IsValid, Reports, debit-Reports, credit-Reports}
use betting_processing_go.Wallet.EntryMath.{signed}
use betting_processing_go.Store.{
  Env, World, Tables, WalletRow, find_row, load_wallet, update_wallets, find_by_id_for_update,
  update_balance_tx,
}
use betting_processing_go.Store.During.{
  During, bind-During, map_err-During, lift-During, return-During, check-During, tx_exec-During,
  read_clock-During,
}
use betting_processing_go.Store.Reconciled.{Reconciled}
use betting_processing_go.Store.Update.{Keyed, found_row, loaded, update_wallets-Owing}
use betting_processing_go.Store.Frame.{Frame, Sound, Owed, trivial_frame}
use betting_processing_go.WalletService.Defs.{move_balance, change_balance, apply_balance_change}

add_neg : (a b : ℤ) → a +ℤ (pos 0 -ℤ b) ≡ a -ℤ b
add_neg a b = omega int_laws

move_balance-Reports :
    (d : Direction) (now : Time) (amount : Money) (w w' : Wallet) (c : BalanceChange)
    → IsValid w
    → IsInt64 amount.amount
    → move_balance d now amount w ≡ ok (w', c)
    → (ltb_ℤ (pos 0) amount.amount ≡ true)
      × Reports w w' c (w.balance.amount +ℤ signed d amount.amount)
unfolding move_balance
move_balance-Reports debit now amount w w' c v h e =
    let (p, q, r) = debit-Reports now amount w w' c v h e in
    (p, subst (Reports w w' c) (sym (add_neg w.balance.amount amount.amount)) r)
move_balance-Reports credit now amount w w' c v h e = credit-Reports now amount w w' c v h e
move_balance-Reports (other_direction s) now amount w w' c v h e = absurd (cc)

-- A wallet that was read from the tables.
record Read (id : String) (t : Tables) (w : Wallet) : Type 0 where
  row : WalletRow
  found : find_row (λ r. str_eq r.id id) t.wallets ≡ some row
  same_id : w.id ≡ id
  same_version : w.version ≡ row.version
  same_balance : w.balance.amount ≡ row.balance
  valid : IsValid w

-- What a change did: the wallet holds the signed amount more than the ledger says, and the balances
-- that the change reports differ by it.
pub record Changed (F : Frame) (id : String) (z : ℤ) (change : BalanceChange) (t : Tables)
    : Type 0 where
  pub owed : Owed F id z t
  pub reported : change.balance_after.amount ≡ change.balance_before.amount +ℤ z

sum_less : (a b : ℤ) → a +ℤ b -ℤ a ≡ b
sum_less a b = omega int_laws

Changed-intro :
    (F : Frame) (id : String) (z : ℤ) (w w' : Wallet) (change : BalanceChange) (t : Tables)
    → Reports w w' change (w.balance.amount +ℤ z)
    → Owed F id (change.balance_after.amount -ℤ w.balance.amount) t
    → Changed F id z change t
Changed-intro F id z w w' change t reports owed =
    let after : change.balance_after.amount ≡ w.balance.amount +ℤ z =
      ap (λ m. m.amount) reports.after ∙ reports.moved in
    let difference : change.balance_after.amount -ℤ w.balance.amount ≡ z =
      ap (λ x. x -ℤ w.balance.amount) after ∙ sum_less w.balance.amount z in
    record {
      owed = subst (λ x. Owed F id x t) difference owed;
      reported = after ∙ ap (λ m. m.amount +ℤ z) (sym reports.before);
    }

after-IsInt64 :
    (w w' : Wallet) (change : BalanceChange) (z : ℤ)
    → Reports w w' change z
    → IsInt64 change.balance_after.amount
after-IsInt64 w w' change z reports =
    subst (λ m. IsInt64 m.amount) (sym reports.after) reports.valid.balance_int64

none_loaded : {w : Wallet} → ¬ (load_wallet none ≡ ok w)
unfolding load_wallet
none_loaded h = cc

Read-intro :
    (id : String) (o : Option WalletRow) (wallet : Wallet) (t : Tables)
    → Keyed t.wallets
    → find_row (λ r. str_eq r.id id) t.wallets ≡ o
    → load_wallet o ≡ ok wallet
    → Read id t wallet
Read-intro id none wallet t k f l = absurd (none_loaded l)
Read-intro id (some row) wallet t k f l =
    let (same, trimmed, int64) = found_row id t.wallets row k f in
    let (i, v, b, valid) = loaded row wallet int64 l in
    record {
      row = row;
      found = f;
      same_id = i ∙ trimmed ∙ same;
      same_version = v;
      same_balance = b;
      valid = valid;
    }

-- Every int64 is an amount of the frame.
abbrev pub TakesInt64 : Frame → Type 0
TakesInt64 F = (z : ℤ) → IsInt64 z → F.Amount z

module _ (F : Frame) (takes : TakesInt64 F) (env : Env) (P : Tables → Type 0) (id : String) where
  find-Read :
      (t : Tables) (w : World)
      → P w.committed
      → w.current ≡ t
      → Keyed t.wallets
      → During P (λ wallet t'. (t' ≡ t) × Read id t wallet) (find_by_id_for_update env id w)
  unfolding find_by_id_for_update
  find-Read t w h e k =
      bind-During P (λ o t'. (t' ≡ t) × (find_row (λ r. str_eq r.id id) t.wallets ≡ o)) _ _ w
        (map_err-During P _ _ w (tx_exec-During P env _ w h (λ o t' q. ground (arith, e, q))))
        (λ o w1 h1 (a, b). lift-During P _ w1 h1 (λ wallet l. (a, Read-intro id o wallet t k b l)))

  update-Owed :
      (t : Tables) (wallet : Wallet) (m : Money) (w : World)
      → IsInt64 m.amount
      → P w.committed
      → w.current ≡ t
      → Sound F t
      → Keyed t.wallets
      → Read id t wallet
      → During P
          (λ _ t'. Owed F id (m.amount -ℤ wallet.balance.amount) t')
          (update_balance_tx env wallet.id m wallet.version w)
  unfolding update_balance_tx
  update-Owed t wallet m w int64 h e s k read =
      bind-During P (λ _ t'. Owed F id (m.amount -ℤ wallet.balance.amount) t') _ _ w
        (map_err-During P _ _ w (
          tx_exec-During P env _ w h (λ found t' q.
            let q' : update_wallets id m.amount read.row.version (env.now w.calls) t
                ≡ ok (found, t') =
              rw (sym read.same_id, sym read.same_version, sym e) q in
            subst (λ x. Owed F id (m.amount -ℤ x) t') (sym read.same_balance)
              (record {
                owing =
                    update_wallets-Owing id m.amount (env.now w.calls) read.row t t' found
                      s.reconciled k read.found q';
                frame =
                    F.balance id m.amount read.row.version (env.now w.calls) t t' found
                      (takes m.amount int64) s.frame q';
              }))))
        (λ found w1 h1 q1. lift-During P _ w1 h1 (λ v l. q1))

  change_balance-Changed :
      (d : Direction) (amount : Money) (w : World)
      → P w.committed
      → Sound F w.current
      → Keyed w.current.wallets
      → IsInt64 amount.amount
      → During P
          (λ change t. Changed F id (signed d amount.amount) change t)
          (change_balance env id amount d w)
  unfolding change_balance
  change_balance-Changed d amount w h s k int64 =
      let t = w.current in
      bind-During P (λ wallet t'. (t' ≡ t) × Read id t wallet) _ _ w
        (map_err-During P _ _ w (find-Read t w h refl k))
        (λ wallet w1 h1 (e1, read).
          bind-During P (λ _ t'. t' ≡ t) _ _ w1 (read_clock-During P env w1 h1 e1)
            (λ now w2 h2 e2.
              bind-During P
                (λ (moved : Wallet × BalanceChange) t'.
                  (t' ≡ t) × (move_balance d now amount wallet ≡ ok moved))
                _ _ w2 (lift-During P _ w2 h2 (λ moved q. (e2, q)))
                (λ (w', change) w3 h3 (e3, q3).
                  let (p, reports) =
                    move_balance-Reports d now amount wallet w' change read.valid int64 q3 in
                  bind-During P
                    (λ _ t'. Owed F id (change.balance_after.amount -ℤ wallet.balance.amount) t') _
                    _ w3
                    (map_err-During P _ _ w3 (
                      update-Owed t wallet change.balance_after w3
                        (after-IsInt64 wallet w' change _ reports) h3 e3 s k read))
                    (λ v w4 h4 o.
                      return-During P change w4 h4
                        (Changed-intro F id _ wallet w' change w4.current reports o)))))

  -- With no transaction of its own.
  pub apply_balance_change-During :
      (amount : Money) (d : Direction) (w : World)
      → P w.committed
      → Sound F w.current
      → Keyed w.current.wallets
      → IsInt64 amount.amount
      → During P
          (λ change t. Changed F id (signed d amount.amount) change t)
          (apply_balance_change env false id amount d w)
  unfolding apply_balance_change
  apply_balance_change-During amount d w h s k int64 = check-During P _ _ w h (
      check-During P _ _ w h (
        bind-During P (λ _ t. Sound F t × Keyed t.wallets) _ _ w (return-During P tt w h (s, k))
          (λ u w1 h1 (s1, k1).
            bind-During P (λ change t. Changed F id (signed d amount.amount) change t) _ _ w1
              (change_balance-Changed d amount w1 h1 s1 k1 int64)
              (λ change w2 h2 s2.
                bind-During P (λ _ t. Changed F id (signed d amount.amount) change t) _ _ w2
                  (return-During P tt w2 h2 s2) (λ u w3 h3 s3. return-During P change w3 h3 s3)))))

-- Debit and Credit inside a transaction that the caller opened, whatever call of the database fails. The
-- transaction's tables must have balanced books, one row with a given id, ids without spaces and int64
-- balances, and the amount must be an int64. The committed tables stay as they are. Where the change
-- succeeds, the wallet holds the signed amount more than its ledger says, every other wallet still
-- agrees with its ledger, and the two reported balances differ by the signed amount.
pub apply_balance_change-Changed :
    (env : Env) (id : String) (amount : Money) (d : Direction) (w : World)
    → Reconciled w.current
    → Keyed w.current.wallets
    → IsInt64 amount.amount
    → During
        (λ c. c ≡ w.committed)
        (λ change t. Changed trivial_frame id (signed d amount.amount) change t)
        (apply_balance_change env false id amount d w)
apply_balance_change-Changed env id amount d w r k int64 =
    apply_balance_change-During trivial_frame (λ z h. tt) env (λ c. c ≡ w.committed) id amount d w
      refl (record { reconciled = r; frame = tt }) k int64
