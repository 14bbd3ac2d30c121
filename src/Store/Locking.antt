-- ===== src/Store/Locking.antt =====
-- The version of a wallet as an optimistic lock: UpdateBalance and UpdateBalanceTx, in any order.
use betting_processing_go.Prelude.{
  ◌≡◌, refl, subst, String, Bool, true, false, not, ◌&&◌, inl, inr, List, [], ◌∷◌, map, any, arith,
  Bool-cases,
}
use betting_processing_go.Prelude.Text.{str_eq, eq_iff}
use betting_processing_go.Prelude.Int.{ℤ, pos, ltb_ℤ, +ℤ_parts}
use betting_processing_go.Errors.{ok}
use betting_processing_go.Wallet.{Time}
use betting_processing_go.Store.Schema.{WalletRow, Tables}
use betting_processing_go.Store.Rows.{row_matches, set_balance, update_row, update_wallets}

-- The row is not one of the wallet's, or its version is beyond `v`.
abbrev is_held : String → ℤ → WalletRow → Bool
is_held id v r = str_eq r.id id && not (ltb_ℤ v r.version)

abbrev pub Passed : String → ℤ → Tables → Type 0
Passed id v t = any (is_held id v) t.wallets ≡ false

-- No wallet has two rows.
abbrev pub Single : List WalletRow → Type 0
Single [] = Unit
Single (r ∷ rs) = (any (λ s. str_eq s.id r.id) rs ≡ false) × Single rs

module _ (id : String) (v : ℤ) where
  row_stays :
      (j : String) (u b : ℤ) (now : Time) (r : WalletRow)
      → is_held id v r ≡ false
      → is_held id v (update_row j b u now r) ≡ false
  unfolding update_row row_matches set_balance
  row_stays j u b now r h = ground (arith, +ℤ_parts r.version (pos 1))

  rows_stay :
      (j : String) (u b : ℤ) (now : Time) (rs : List WalletRow)
      → any (is_held id v) rs ≡ false
      → any (is_held id v) (map (update_row j b u now) rs) ≡ false
  rows_stay j u b now [] h = refl
  rows_stay j u b now (r ∷ rs) h = ground (arith, row_stays j u b now r, rows_stay j u b now rs)

  no_match :
      (rs : List WalletRow) → any (is_held id v) rs ≡ false → any (row_matches id v) rs ≡ false
  unfolding row_matches
  no_match [] h = refl
  no_match (r ∷ rs) h = ground (arith, no_match rs)

  unmoved :
      (b : ℤ) (now : Time) (rs : List WalletRow)
      → any (row_matches id v) rs ≡ false
      → map (update_row id b v now) rs ≡ rs
  unfolding update_row
  unmoved b now [] h = refl
  unmoved b now (r ∷ rs) h = ground (arith, unmoved b now rs)

  absent :
      (b : ℤ) (now : Time) (rs : List WalletRow)
      → any (λ s. str_eq s.id id) rs ≡ false
      → any (is_held id v) (map (update_row id b v now) rs) ≡ false
  unfolding update_row row_matches
  absent b now [] h = refl
  absent b now (r ∷ rs) h = ground (arith, absent b now rs)

  row_passes :
      (b : ℤ) (now : Time) (r : WalletRow)
      → row_matches id v r ≡ true
      → is_held id v (update_row id b v now r) ≡ false
  unfolding update_row row_matches set_balance
  row_passes b now r h = ground (arith, +ℤ_parts r.version (pos 1))

  nowhere :
      (rs : List WalletRow)
      → any (λ s. str_eq s.id id) rs ≡ false
      → any (row_matches id v) rs ≡ false
  unfolding row_matches
  nowhere [] h = refl
  nowhere (r ∷ rs) h = ground (arith, nowhere rs)

  once_by :
      (r : WalletRow) (rs : List WalletRow)
      → any (λ s. str_eq s.id r.id) rs ≡ false
      → str_eq r.id id ≡ true
      → any (λ s. str_eq s.id id) rs ≡ false
  once_by r rs once e =
      let (there, back) = eq_iff r.id id in
      subst (λ i. any (λ s. str_eq s.id i) rs ≡ false) (there e) once

  other_row :
      (b : ℤ) (now : Time) (r : WalletRow)
      → str_eq r.id id ≡ false
      → is_held id v (update_row id b v now r) ≡ false
  unfolding update_row row_matches
  other_row b now r e = ground arith

  rows_pass :
      (b : ℤ) (now : Time) (rs : List WalletRow)
      → Single rs
      → any (row_matches id v) rs ≡ true
      → any (is_held id v) (map (update_row id b v now) rs) ≡ false
  unfolding row_matches
  rows_pass b now [] k h = refl
  rows_pass b now (r ∷ rs) (once, k) h = elim (Bool-cases (str_eq r.id id)) [
    | inl e ↦
        let apart = once_by r rs once e in
        ground (arith, row_passes b now r, absent b now rs apart, nowhere rs apart)
    | inr e ↦ ground (arith, other_row b now r e, rows_pass b now rs k)
  ]

  -- A statement on any wallet keeps what has passed.
  pub update_wallets-Passed :
      (j : String) (u b : ℤ) (now : Time) (found : Bool) (t t' : Tables)
      → Passed id v t
      → update_wallets j b u now t ≡ ok (found, t')
      → Passed id v t'
  unfolding update_wallets
  update_wallets-Passed j u b now found t t' h e = ground (arith, rows_stay j u b now t.wallets h)

  pub update_wallets-stale :
      (b : ℤ) (now : Time) (found : Bool) (t t' : Tables)
      → Passed id v t
      → update_wallets id b v now t ≡ ok (found, t')
      → (found ≡ false) × (t' ≡ t)
  unfolding update_wallets
  update_wallets-stale b now found t t' h e =
      ground (arith, no_match t.wallets h, unmoved b now t.wallets (no_match t.wallets h))

  pub update_wallets-first :
      (b : ℤ) (now : Time) (t t' : Tables)
      → Single t.wallets
      → update_wallets id b v now t ≡ ok (true, t')
      → Passed id v t'
  unfolding update_wallets
  update_wallets-first b now t t' k e = ground (arith, rows_pass b now t.wallets k)
