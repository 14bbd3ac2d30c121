-- ===== src/Store/Invariant/Once.antt =====
-- What the unique indexes of wager_transactions say of the rows.
use betting_processing_go.Prelude.{
  ℕ, ◌+◌, ◌≤◌, String, ◌≡◌, refl, ◌∙◌, ap, Bool, true, false, ◌&&◌, inl, inr, List, [], ◌∷◌, any,
  arith, Bool-cases, if◌then◌else◌,
}
use betting_processing_go.Prelude.Text.{str_eq, eq_iff}
use betting_processing_go.Wager.{Transaction}
use betting_processing_go.Store.TransactionRows.{
  no_clash, transaction_clash, same_key, same_reversal, same_opening, column_is, reverses,
  is_opening_type,
}

-- How many rows satisfy a test.
unfoldable pub count : (Transaction → Bool) → List Transaction → ℕ
count p [] = 0
count p (x ∷ xs) = let rest = count p xs in if p x then rest + 1 else rest

module _ (p : Transaction → Bool)
    (clash : (x y : Transaction) → p x ≡ true → p y ≡ true → transaction_clash x y ≡ true) where
  count_others :
      (x : Transaction) (xs : List Transaction)
      → p x ≡ true
      → any (transaction_clash x) xs ≡ false
      → count p xs ≡ 0
  unfolding count
  count_others x [] h e = refl
  count_others x (y ∷ ys) h e = elim (Bool-cases (p y)) [
    | inl q ↦ absurd (ground (arith, clash x y h q))
    | inr q ↦ ground (arith, count_others x ys h)
  ]

  pub count_once : (xs : List Transaction) → no_clash xs ≡ true → count p xs ≤ 1
  unfolding count no_clash
  count_once [] e = omega arith
  count_once (x ∷ xs) e = elim (Bool-cases (p x)) [
    | inl q ↦ ground (arith, count_others x xs q)
    | inr q ↦ ground (arith, count_once xs)
  ]

-- The rows of one idempotency key of a provider.
unfoldable pub has_key : String → String → Transaction → Bool
has_key provider key x = column_is x.provider provider && column_is x.idempotency_key key

-- The opening rows of one wallet.
unfoldable pub opens : String → Transaction → Bool
opens wallet_id x = is_opening_type x.transaction_type && str_eq x.wallet_id wallet_id

column_value : (column value : String) → column_is column value ≡ true → column ≡ value
unfolding column_is
column_value column value h = let (there, back) = eq_iff column value in there (ground arith)

reverses_column :
    (reference : String) (x : Transaction)
    → reverses reference x ≡ true
    → column_is x.internal_reference reference ≡ true
unfolding reverses
reverses_column reference x h = ground arith

both_true : {a b : Bool} → a && b ≡ true → (a ≡ true) × (b ≡ true)
both_true h = (ground arith, ground arith)

true_both : {a b : Bool} → a ≡ true → b ≡ true → a && b ≡ true
true_both h k = rw (h, k) refl

-- Two of the rows that one of the tests counts clash.
reverses_clash :
    (reference : String) (x y : Transaction)
    → reverses reference x ≡ true
    → reverses reference y ≡ true
    → transaction_clash x y ≡ true
unfolding transaction_clash same_reversal
reverses_clash reference x y h k =
    let ex : x.internal_reference ≡ reference = column_value _ _ (reverses_column reference x h) in
    let ey : y.internal_reference ≡ reference = column_value _ _ (reverses_column reference y k) in
    let same : same_reversal x y ≡ true =
      true_both (ap (λ r. reverses r x) ey ∙ h) (ap (λ r. reverses r y) ex ∙ k) in
    ground (arith, same)

keys_clash :
    (provider key : String) (x y : Transaction)
    → has_key provider key x ≡ true
    → has_key provider key y ≡ true
    → transaction_clash x y ≡ true
unfolding transaction_clash same_key has_key
keys_clash provider key x y h k =
    let x_columns : (column_is x.provider provider ≡ true)
        × (column_is x.idempotency_key key ≡ true) =
      both_true h in
    let y_columns : (column_is y.provider provider ≡ true)
        × (column_is y.idempotency_key key ≡ true) =
      both_true k in
    let (x1, x2) = x_columns in
    let (y1, y2) = y_columns in
    let ey : y.provider ≡ provider = column_value _ _ y1 in
    let ek : y.idempotency_key ≡ key = column_value _ _ y2 in
    let same : same_key x y ≡ true = rw (ey, ek, x1, x2) refl in ground (arith, same)

opens_clash :
    (wallet_id : String) (x y : Transaction)
    → opens wallet_id x ≡ true
    → opens wallet_id y ≡ true
    → transaction_clash x y ≡ true
unfolding transaction_clash same_opening opens
opens_clash wallet_id x y h k =
    let x_columns : (is_opening_type x.transaction_type ≡ true)
        × (str_eq x.wallet_id wallet_id ≡ true) =
      both_true h in
    let y_columns : (is_opening_type y.transaction_type ≡ true)
        × (str_eq y.wallet_id wallet_id ≡ true) =
      both_true k in
    let (x1, x2) = x_columns in
    let (y1, y2) = y_columns in
    let (there, back) = eq_iff y.wallet_id wallet_id in
    let same : same_opening x y ≡ true = rw (x1, y1, there y2, x2) refl in ground (arith, same)

-- One row for each thing that a unique index counts.
pub record OneEach (xs : List Transaction) : Type 0 where
  pub reversal : (reference : String) → count (reverses reference) xs ≤ 1
  pub key : (provider idempotency_key : String) → count (has_key provider idempotency_key) xs ≤ 1
  pub opening : (wallet_id : String) → count (opens wallet_id) xs ≤ 1

pub no_clash-OneEach : (xs : List Transaction) → no_clash xs ≡ true → OneEach xs
no_clash-OneEach xs e = record {
  reversal = λ reference. count_once _ (reverses_clash reference) xs e;
  key = λ provider k. count_once _ (keys_clash provider k) xs e;
  opening = λ wallet_id. count_once _ (opens_clash wallet_id) xs e;
}
