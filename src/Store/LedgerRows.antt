-- ===== src/Store/LedgerRows.antt =====
-- ledger_repository.go: the queries on the ledger as functions of its rows, and its cursors.
--
-- What package time and PostgreSQL decide is an argument: the text of a time and its parser, the cast of
-- a text to a UUID, the order on UUIDs, and the number of rows that arrive before a connection breaks.
use betting_processing_go.Prelude.{
  ℕ, String, Bool, ◌||◌, ◌&&◌, Option, none, some, List, [], ◌∷◌, ◌++◌, length, take, ltb, ◌==◌,
  if◌then◌else◌,
}
use betting_processing_go.Prelude.Text.{Text, codes, str_eq}
use betting_processing_go.Prelude.Int.{ℤ, pos, pos_part, ltb_ℤ}
use betting_processing_go.Prelude.Int64.{max_int64, min_int64}
use betting_processing_go.Errors.{Error, Result, ok, err, wrapping, ◌>>=◌}
use betting_processing_go.Money.{Money, Currency, new_money, no_money}
use betting_processing_go.Wallet.{Time, LedgerEntry, rehydrate_ledger_entry}
use betting_processing_go.Store.Schema.{LedgerRow, Tables}
use betting_processing_go.Store.Reconciled.{ledger_sum}

pub record Reader : Type 0 where
  -- time.Time.Format and time.Parse, both with time.RFC3339Nano
  pub format_time : Time → Text
  pub parse_time : Text → Result Time
  -- `::uuid`
  pub parse_uuid : Text → Result String
  pub id_before : String → String → Bool
  -- For each call the number of rows that arrive where the connection breaks.
  pub delivered : ℕ → ℕ

-- `m, _ := money.NewMoney(amount, currency)`
unfoldable pub money_or_zero : ℤ → Currency → Money
money_or_zero amount currency = elim (new_money amount currency) [ ok m ↦ m | err e ↦ no_money ]

unfoldable pub load_entry : LedgerRow → Result LedgerEntry
unfolding money_or_zero
load_entry r = wrapping "rehydrate ledger entry" (
    rehydrate_ledger_entry r.id r.wallet_id r.transaction_id r.direction
      (money_or_zero r.amount r.currency) (money_or_zero r.balance_before r.currency)
      (money_or_zero r.balance_after r.currency) r.created_at)

-- The loop over the rows.
unfoldable pub load_entries : List LedgerRow → Result (List LedgerEntry)
load_entries [] = ok []
load_entries (r ∷ rs) = do entry ← load_entry r; entries ← load_entries rs; ok (entry ∷ entries)

-- `ORDER BY created_at ASC, id ASC`
unfoldable pub entry_before : Reader → LedgerRow → LedgerRow → Bool
entry_before R r s =
    ltb r.created_at s.created_at || (r.created_at == s.created_at && R.id_before r.id s.id)

unfoldable pub insert_ordered : Reader → LedgerRow → List LedgerRow → List LedgerRow
insert_ordered R r [] = r ∷ []
insert_ordered R r (s ∷ ss) =
    let rest = insert_ordered R r ss in if entry_before R s r then s ∷ rest else r ∷ s ∷ ss

-- The rows in their order, less those that a test refuses.
unfoldable pub ordered_rows : Reader → (LedgerRow → Bool) → List LedgerRow → List LedgerRow
unfolding insert_ordered entry_before
ordered_rows R p [] = []
ordered_rows R p (r ∷ rs) =
    let rest = ordered_rows R p rs in if p r then insert_ordered R r rest else rest

-- `(created_at, id) > ($2::timestamptz, $3::uuid)`
unfoldable pub after_point : Reader → Time → String → LedgerRow → Bool
after_point R time id r = ltb time r.created_at || (time == r.created_at && R.id_before id r.id)

-- `LIMIT`. A negative one is an error of the running query, which reaches the code as the end of the
-- rows, since it does not ask for rows.Err().
unfoldable pub limit_rows : ℤ → List LedgerRow → List LedgerRow
limit_rows limit rows = if ltb_ℤ limit (pos 0) then [] else take (pos_part limit) rows

-- The two queries of FindByWalletID, without a point to start after and with one.
unfoldable pub select_entries :
    Reader → String → Option (Time × Text) → ℤ → Tables → Result (List LedgerRow)
unfolding ordered_rows after_point limit_rows
select_entries R wallet_id none limit t =
    ok (limit_rows limit (ordered_rows R (λ r. str_eq r.wallet_id wallet_id) t.ledger))
select_entries R wallet_id (some (time, text)) limit t = do
  id ← R.parse_uuid text
  ok (
      limit_rows limit
        (ordered_rows R (λ r. str_eq r.wallet_id wallet_id && after_point R time id r) t.ledger))

abbrev pub colon : ℕ
colon = b':'

-- `strings.SplitN(s, ":", 2)`; `none` says that there is one part only.
unfoldable pub cut : Text → Option (Text × Text)
cut [] = none
cut (c ∷ s) =
    let rest = cut s in
    if c == colon then some ([], s) else elim rest [ none ↦ none | some (a, b) ↦ some (c ∷ a, b) ]

unfoldable pub decode_parts : Reader → Option (Text × Text) → Result (Option (Time × Text))
decode_parts R none = err (Error.external "invalid cursor format")
decode_parts R (some (clock, id)) = do
  time ← wrapping "parse cursor time" (R.parse_time clock)
  ok (some (time, id))

unfoldable pub decode_cursor : Reader → Text → Result (Option (Time × Text))
unfolding decode_parts cut
decode_cursor R [] = ok none
decode_cursor R (c ∷ s) = decode_parts R (cut (c ∷ s))

-- `fmt.Sprintf("%s:%s", last.CreatedAt().Format(time.RFC3339Nano), last.ID())` of the last entry; a page
-- that is cut off has one.
unfoldable pub cursor_of : Reader → List LedgerEntry → Text
cursor_of R [] = []
cursor_of R (e ∷ []) = R.format_time e.created_at ++ colon ∷ codes e.id
cursor_of R (e ∷ f ∷ es) = cursor_of R (f ∷ es)

-- The entries that are returned, with the next cursor.
unfoldable pub cut_page : Reader → ℕ → List LedgerEntry → List LedgerEntry × Text
unfolding cursor_of
cut_page R limit entries =
    if ltb limit (length entries)
    then (take limit entries, cursor_of R (take limit entries))
    else (entries, [])

-- `if limit <= 0 { limit = 50 }`
unfoldable pub page_size : ℤ → ℤ
page_size limit = if ltb_ℤ (pos 0) limit then limit else pos 50

-- The sum of SumByWalletID, which is scanned into an int64.
unfoldable pub sum_entries : String → Tables → Result ℤ
sum_entries wallet_id t =
    let sum = ledger_sum wallet_id t.ledger in
    if ltb_ℤ max_int64 sum || ltb_ℤ sum min_int64
    then err (Error.external "cannot scan the sum into an int64")
    else ok sum
