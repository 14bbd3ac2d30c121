-- ===== src/Wallet/Identity.antt =====
-- wallet.go: NewWallet and RehydrateWallet, the two constructors of a wallet.
use betting_processing_go.Prelude.{◌<◌, ◌≤◌, ◌≡◌, ◌≢◌, String, arith}
use betting_processing_go.Prelude.Text.{eq_iff, trim_string}
use betting_processing_go.Prelude.Text.Trim.{trim_string_idem}
use betting_processing_go.Prelude.Int.{pos, ◌≤ℤ◌}
use betting_processing_go.Prelude.Int64.{IsInt64}
use betting_processing_go.Errors.{ok}
use betting_processing_go.Money.{Money, brl, is_negative}
use betting_processing_go.Wallet.Defs.{Wallet, Time, check_names, new_wallet, rehydrate_wallet}
use betting_processing_go.Wallet.Balance.{IsValid}

-- A wallet that NewWallet returns at a time other than Go's zero time is well formed, starts at
-- version 1 with the given balance, and is rebuilt unchanged from its fields.
pub rehydrate-new :
    (now : Time) (id player_id provider_id : String) (balance : Money) {w : Wallet}
    → 0 < now
    → IsInt64 balance.amount
    → new_wallet now id player_id provider_id balance ≡ ok w
    → (rehydrate_wallet w ≡ ok w) × IsValid w × (w.balance ≡ balance) × (w.version ≡ pos 1)
unfolding new_wallet rehydrate_wallet is_negative
rehydrate-new now id player_id provider_id balance {w} p h e = ground (
  arith,
  trim_string_idem id,
  trim_string_idem player_id,
  trim_string_idem provider_id,
  eq_iff balance.currency brl,
)

-- The wallet with its three names trimmed.
abbrev pub trimmed : Wallet → Wallet
trimmed w = record w {
  id = trim_string w.id;
  player_id = trim_string w.player_id;
  provider_id = trim_string w.provider_id;
}

-- RehydrateWallet accepts a wallet, whose balance is an int64, only if neither its id nor its player nor
-- its provider is blank, it is in BRL with a balance in the same currency of zero or more, its version is
-- positive and its two times are set and in order; what it makes is the wallet with its names trimmed.
pub rehydrate_sound :
    (w : Wallet) {r : Wallet}
    → IsInt64 w.balance.amount
    → rehydrate_wallet w ≡ ok r
    → IsValid r
      × (trim_string w.id ≢ "")
      × (trim_string w.player_id ≢ "")
      × (trim_string w.provider_id ≢ "")
      × (w.currency ≡ brl)
      × (pos 1 ≤ℤ w.version)
      × (0 < w.created_at)
      × (w.created_at ≤ w.updated_at)
      × (r ≡ trimmed w)
unfolding rehydrate_wallet is_negative check_names
rehydrate_sound w {r} h e = ground (
  arith,
  eq_iff (trim_string w.id) "",
  eq_iff (trim_string w.player_id) "",
  eq_iff (trim_string w.provider_id) "",
  eq_iff w.currency brl,
  eq_iff w.balance.currency w.currency,
)
