-- ===== src/Workers/Starved.antt =====
-- outbox_publisher.go: ten pending events without attempts left, over any number of rounds.
use betting_processing_go.Prelude.{
  ℕ, zero, suc, ◌+◌, ◌≤◌, ◌<◌, ◌≡◌, refl, sym, ap, ◌∙◌, subst, true, false, List, [], ◌∷◌, ◌++◌,
  All, length, leb, arith, inl, inr, Bool-cases,
}
use betting_processing_go.Wallet.{Time}
use betting_processing_go.Store.{
  Env, World, OutboxRow, is_pending, insert_by_turn, pending_rows, first_events, tick,
}
use betting_processing_go.Workers.Outbox.{Outside, publish_round}
use betting_processing_go.Workers.Publishing.{IsExhausted, publish_round_exhausted}

module _ (now : Time) where
  abbrev Early : List OutboxRow → Type 0
  Early rows = All (λ r. r.next_attempt_at ≤ now) rows

  abbrev Late : List OutboxRow → Type 0
  Late rows = All (λ r. now < r.next_attempt_at) rows

  insert_early :
      (x : OutboxRow) (ps late : List OutboxRow)
      → x.next_attempt_at ≤ now
      → Late late
      → insert_by_turn x (ps ++ late) ≡ insert_by_turn x ps ++ late
  unfolding insert_by_turn
  insert_early x [] [] h l = refl
  insert_early x [] (y ∷ late) h (later, l) = ground arith
  insert_early x (p ∷ ps) late h l = elim (Bool-cases (leb x.next_attempt_at p.next_attempt_at)) [
    | inl b ↦ rw b refl
    | inr b ↦ rw b (ap (λ rows. p ∷ rows) (insert_early x ps late h l))
  ]

  insert_late :
      (x : OutboxRow) (ps late : List OutboxRow)
      → now < x.next_attempt_at
      → Early ps
      → insert_by_turn x (ps ++ late) ≡ ps ++ insert_by_turn x late
  unfolding insert_by_turn
  insert_late x [] late h e = refl
  insert_late x (p ∷ ps) late h (early, e) =
      elim (Bool-cases (leb x.next_attempt_at p.next_attempt_at)) [
        | inl b ↦ absurd (ground arith)
        | inr b ↦ rw b (ap (λ rows. p ∷ rows) (insert_late x ps late h e))
      ]

  insert-Early :
      (x : OutboxRow) (ps : List OutboxRow)
      → x.next_attempt_at ≤ now
      → Early ps
      → Early (insert_by_turn x ps)
  unfolding insert_by_turn
  insert-Early x [] h e = (h, tt)
  insert-Early x (p ∷ ps) h (early, e) =
      elim (Bool-cases (leb x.next_attempt_at p.next_attempt_at)) [
        | inl b ↦ rw b (h, (early, e))
        | inr b ↦ rw b (early, insert-Early x ps h e)
      ]

  insert-Late :
      (x : OutboxRow) (ps : List OutboxRow)
      → now < x.next_attempt_at
      → Late ps
      → Late (insert_by_turn x ps)
  unfolding insert_by_turn
  insert-Late x [] h e = (h, tt)
  insert-Late x (p ∷ ps) h (later, e) =
      elim (Bool-cases (leb x.next_attempt_at p.next_attempt_at)) [
        | inl b ↦ rw b (h, (later, e))
        | inr b ↦ rw b (later, insert-Late x ps h e)
      ]

  -- What is pending at a later time: what was, and then what has become so.
  record Grown (later : Time) (rows : List OutboxRow) : Type 0 where
    pub more : List OutboxRow
    pub early : Early (pending_rows now rows)
    pub late : Late more
    pub split : pending_rows later rows ≡ pending_rows now rows ++ more

  module _ (later : Time) (order : now ≤ later) where
    joins_early :
        (x : OutboxRow) (rows : List OutboxRow)
        → x.next_attempt_at ≤ now
        → is_pending now x ≡ true
        → is_pending later x ≡ true
        → Grown later rows
        → Grown later (x ∷ rows)
    unfolding pending_rows
    joins_early x rows h a b g = record {
      more = g.more;
      early = rw a (insert-Early x _ h g.early);
      late = g.late;
      split =
          rw (a, b)
            (ap (insert_by_turn x) g.split
              ∙ insert_early x (pending_rows now rows) g.more h g.late);
    }

    joins_late :
        (x : OutboxRow) (rows : List OutboxRow)
        → now < x.next_attempt_at
        → is_pending now x ≡ false
        → is_pending later x ≡ true
        → Grown later rows
        → Grown later (x ∷ rows)
    unfolding pending_rows
    joins_late x rows h a b g = record {
      more = insert_by_turn x g.more;
      early = rw a g.early;
      late = insert-Late x g.more h g.late;
      split =
          rw (a, b)
            (ap (insert_by_turn x) g.split
              ∙ insert_late x (pending_rows now rows) g.more h g.early);
    }

    stays_out :
        (x : OutboxRow) (rows : List OutboxRow)
        → is_pending now x ≡ false
        → is_pending later x ≡ false
        → Grown later rows
        → Grown later (x ∷ rows)
    unfolding pending_rows
    stays_out x rows a b g = record {
      more = g.more;
      early = rw a g.early;
      late = g.late;
      split = rw (a, b) g.split;
    }

    turn :
        (x : OutboxRow)
        → is_pending now x ≡ true
        → (x.next_attempt_at ≤ now) × (is_pending later x ≡ true)
    unfolding is_pending
    turn x a = ground (arith, order)

    turn_late :
        (x : OutboxRow)
        → is_pending now x ≡ false
        → is_pending later x ≡ true
        → now < x.next_attempt_at
    unfolding is_pending
    turn_late x a b = ground arith

    grown : (rows : List OutboxRow) → Grown later rows
    unfolding pending_rows
    grown [] = record { more = []; early = tt; late = tt; split = refl }
    grown (x ∷ rows) = elim (Bool-cases (is_pending now x)) [
      | inl a ↦ let (h, b) = turn x a in joins_early x rows h a b (grown rows)
      | inr a ↦ elim (Bool-cases (is_pending later x)) [
        | inl b ↦ joins_late x rows (turn_late x a b) a b (grown rows)
        | inr b ↦ stays_out x rows a b (grown rows)
      ]
    ]

first_prefix :
    (n : ℕ) (ps more : List OutboxRow)
    → length (first_events n ps) ≡ n
    → first_events n (ps ++ more) ≡ first_events n ps
unfolding first_events
first_prefix zero [] [] h = refl
first_prefix zero [] (x ∷ more) h = refl
first_prefix zero (p ∷ ps) more h = refl
first_prefix (suc n) [] more h = absurd (ground arith)
first_prefix (suc n) (p ∷ ps) more h = ap (λ rows. p ∷ rows) (first_prefix n ps more (ground arith))

first_later :
    (now later : Time) (rows : List OutboxRow)
    → now ≤ later
    → length (first_events 10 (pending_rows now rows)) ≡ 10
    → first_events 10 (pending_rows later rows) ≡ first_events 10 (pending_rows now rows)
first_later now later rows order ten =
    let g = grown now later order rows in
    ap (first_events 10) g.split ∙ first_prefix 10 (pending_rows now rows) g.more ten

-- Rounds of the publisher, one after the other.
unfoldable pub publish_rounds : ℕ → Env → Outside → World → World
publish_rounds zero env out w = w
publish_rounds (suc n) env out w = publish_rounds n env out (publish_round env out w)

-- Where time does not run backwards and the first ten pending events are ten and have used up their five
-- attempts, no number of rounds of the publisher changes a table: no event is ever marked as published,
-- the later ones included.
pub publish_rounds_starved :
    (env : Env) (out : Outside) (n : ℕ) (w : World)
    → ((i : ℕ) → env.now i ≤ env.now (i + 1))
    → length (first_events 10 (pending_rows (env.now w.calls) w.committed.outbox)) ≡ 10
    → All IsExhausted (first_events 10 (pending_rows (env.now w.calls) w.committed.outbox))
    → (publish_rounds n env out w).committed ≡ w.committed
unfolding publish_rounds
publish_rounds_starved env out zero w clock ten h = refl
publish_rounds_starved env out (suc n) w clock ten h =
    let round = publish_round_exhausted env out w h in
    let same =
      first_later (env.now w.calls) (env.now (w.calls + 1)) w.committed.outbox (clock w.calls)
        ten in
    let tenth : length (first_events 10 (pending_rows (env.now (w.calls + 1)) w.committed.outbox))
        ≡ 10 =
      rw same ten in
    let spent : All IsExhausted
        (first_events 10 (pending_rows (env.now (w.calls + 1)) w.committed.outbox)) =
      rw same h in
    subst (λ v. (publish_rounds n env out v).committed ≡ w.committed) (sym round)
      (publish_rounds_starved env out n (tick w) clock tenth spent)
