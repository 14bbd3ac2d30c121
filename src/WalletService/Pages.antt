-- ===== src/WalletService/Pages.antt =====
-- The pages of the ledger: what a cursor is, and what becomes of it.
use betting_processing_go.Prelude.{
  ℕ, ◌≡◌, ◌≢◌, refl, sym, subst, ap, ◌∙◌, String, inl, inr, ◌⊎◌, some, List, [], ◌∷◌, ◌++◌, length,
  take, ltb, All, arith, Bool-cases, append_assoc,
}
use betting_processing_go.Prelude.Text.{Text, codes}
use betting_processing_go.Prelude.Int.{ℤ, pos}
use betting_processing_go.Prelude.Int64.{add64}
use betting_processing_go.Errors.{Error, Result, ok, err}
use betting_processing_go.Wallet.{Time, LedgerEntry}
use betting_processing_go.Store.{
  Env, World, Tables, Reader, colon, cut, decode_parts, decode_cursor, cursor_of, cut_page,
  page_size, find_by_wallet_id, lift, pool_query, LedgerRow, select_entries, ◌>>=◌,
}
use betting_processing_go.Store.During.{
  During, Keeps, bind-During, map_err-During, lift-During, return-During, read_result-Keeps,
}

-- What package time documents: time.RFC3339Nano has a colon between the hours and the minutes, and
-- time.Parse refuses a text that stops before it.
pub record HasClock (R : Reader) : Type 0 where
  pub head : Time → Text
  pub rest : Time → Text
  pub written : (t : Time) → R.format_time t ≡ head t ++ colon ∷ rest t
  pub no_colon : (t : Time) → All (λ c. c ≢ colon) (head t)
  pub problem : Time → Error
  pub refused : (t : Time) → R.parse_time (head t) ≡ err (problem t)

-- A cursor that FindByWalletID gives: none, or the place of an entry.
abbrev pub IsIssued : Reader → Text → Type 0
IsIssued R cursor =
    (cursor ≡ [])
    ⊎ ((e : LedgerEntry) × (cursor ≡ R.format_time e.created_at ++ colon ∷ codes e.id))

cursor_of-IsIssued : (R : Reader) (es : List LedgerEntry) → IsIssued R (cursor_of R es)
unfolding cursor_of
cursor_of-IsIssued R [] = inl refl
cursor_of-IsIssued R (e ∷ []) = inr (e, refl)
cursor_of-IsIssued R (e ∷ f ∷ es) = cursor_of-IsIssued R (f ∷ es)

abbrev pub Issued : Reader → List LedgerEntry × Text → Type 0
Issued R (es, cursor) = IsIssued R cursor

cut_page-Issued : (R : Reader) (n : ℕ) (es : List LedgerEntry) → Issued R (cut_page R n es)
unfolding cut_page
cut_page-Issued R n es = elim (Bool-cases (ltb n (length es))) [
  | inl more ↦ rw more (cursor_of-IsIssued R (take n es))
  | inr all ↦ rw all (inl refl)
]

cut-append : (s t : Text) → All (λ c. c ≢ colon) s → cut (s ++ colon ∷ t) ≡ some (s, t)
unfolding cut
cut-append [] t h = refl
cut-append (c ∷ s) t (hc, hs) = ground (arith, cut-append s t hs)

decode_append :
    (R : Reader) (s t : Text)
    → decode_cursor R (s ++ colon ∷ t) ≡ decode_parts R (cut (s ++ colon ∷ t))
unfolding decode_cursor
decode_append R [] t = refl
decode_append R (c ∷ s) t = refl

module _ (P : Tables → Type 0) (env : Env) (R : Reader) where
  pool_query-Keeps :
      (f : Tables → Result (List LedgerRow)) (w : World)
      → P w.committed
      → Keeps P (pool_query env R f w)
  unfolding pool_query
  pool_query-Keeps f w h = read_result-Keeps P _ _ h

  -- Whatever page is read, its cursor is that of an entry or none.
  pub find_by_wallet_id-Issued :
      (wallet_id : String) (cursor : Text) (limit : ℤ) (w : World)
      → P w.committed
      → During P (λ page _. Issued R page) (find_by_wallet_id env R wallet_id cursor limit w)
  unfolding find_by_wallet_id
  find_by_wallet_id-Issued wallet_id cursor limit w h =
      bind-During P (λ _ _. Unit {0}) _ _ w (lift-During P _ w h (λ a e. tt))
        (λ point w1 h1 u.
          bind-During P (λ _ _. Unit {0}) _ _ w1
            (map_err-During P _ _ w1 (
              pool_query-Keeps (select_entries R wallet_id point (add64 (page_size limit) (pos 1)))
                w1 h1))
            (λ rows w2 h2 u.
              bind-During P (λ _ _. Unit {0}) _ _ w2 (lift-During P _ w2 h2 (λ a e. tt))
                (λ entries w3 h3 u. return-During P _ w3 h3 (cut_page-Issued R _ entries))))

module _ (R : Reader) (C : HasClock R) where
  decode_issued :
      (t : Time) (s : Text)
      → decode_cursor R (R.format_time t ++ colon ∷ s)
        ≡ err (Error.wrap "parse cursor time" (C.problem t))
  unfolding decode_parts
  decode_issued t s =
      ap (λ x. decode_cursor R (x ++ colon ∷ s)) (C.written t)
      ∙ ap (decode_cursor R) (append_assoc (C.head t) (colon ∷ C.rest t) (colon ∷ s))
      ∙ decode_append R (C.head t) (C.rest t ++ colon ∷ s)
      ∙ ap (decode_parts R) (cut-append (C.head t) (C.rest t ++ colon ∷ s) (C.no_colon t))
      ∙ (rw (C.refused t))

  pub find_by_wallet_id-refused :
      (env : Env) (e : LedgerEntry) (wallet_id : String) (limit : ℤ) (w : World)
      → find_by_wallet_id env R wallet_id (R.format_time e.created_at ++ colon ∷ codes e.id) limit w
        ≡ (err (Error.wrap "parse cursor time" (C.problem e.created_at)), w)
  unfolding find_by_wallet_id lift ◌>>=◌
  find_by_wallet_id-refused env e wallet_id limit w = rw (decode_issued e.created_at (codes e.id))

pub During-outcome :
    {A : Type 0} (P : Tables → Type 0) (Q : A → Type 0) {a : A} (p : Result A × World) (w : World)
    → During P (λ a _. Q a) p
    → p ≡ (ok a, w)
    → Q a
During-outcome P Q (ok b, w') w h e = let (c, q) = h.holds in subst Q (cc) q
During-outcome P Q (err x, w') w h e = absurd (cc)

-- A cursor that a page of the ledger ends with is refused when it is sent back, whatever the wallet, the
-- limit and the database are by then: no entry after the first page can be read. The format and the
-- parser of times are as documented.
pub find_by_wallet_id-next :
    (R : Reader) (C : HasClock R) (env : Env) (wallet_id : String) (cursor : Text) (limit : ℤ)
    (w w' : World) (entries : List LedgerEntry) (next : Text)
    → find_by_wallet_id env R wallet_id cursor limit w ≡ (ok (entries, next), w')
    → next ≢ []
    → (e : LedgerEntry) × ((env' : Env) (wallet_id' : String) (limit' : ℤ) (w'' : World)
        → find_by_wallet_id env' R wallet_id' next limit' w''
          ≡ (err (Error.wrap "parse cursor time" (C.problem e.created_at)), w''))
find_by_wallet_id-next R C env wallet_id cursor limit w w' entries next e ne =
    let issued : IsIssued R next =
      During-outcome (λ t. Unit {0}) (Issued R) _ w'
        (find_by_wallet_id-Issued (λ t. Unit {0}) env R wallet_id cursor limit w tt) e in
    elim issued [
      | inl nothing ↦ absurd (ne nothing)
      | inr (entry, shape) ↦ (
        entry,
        λ env' wallet_id' limit' w''.
            subst
              (λ c.
                find_by_wallet_id env' R wallet_id' c limit' w''
                ≡ (err (Error.wrap "parse cursor time" (C.problem entry.created_at)), w''))
              (sym shape) (find_by_wallet_id-refused R C env' entry wallet_id' limit' w''),
      )
    ]
