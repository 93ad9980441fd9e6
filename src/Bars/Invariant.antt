-- ===== src/Bars/Invariant.antt =====
-- crates/domain/market-data/src/bar.rs: every candle that is kept, over any records.
use shinrai_trade.Common.{
  ℕ, ◌≡◌, inl, inr, refl, sym, ap, ◌∙◌, arith, Bool, true, false, Option, none, some, Option-cases,
  List, [], ◌∷◌, Result, ok, err, Result-cases, Bool-cases, ltb, nat_beq, nat_eq, pair_eq,
}
use shinrai_trade.Common.Int.{ℤ, pos, ◌≤ℤ◌, ltb_ℤ}
use shinrai_trade.Common.Maps.{AllEntries, insert-AllEntries, get, insert}
use shinrai_trade.Ledger.Entry.{InstrumentId}
use shinrai_trade.Feed.Consumer.{MdError, MdRecord}
use shinrai_trade.Bars.Bar.{BarInterval, OhlcvBar, bucket, new_bar, apply_print, apply_late}
use shinrai_trade.Bars.Aggregator.{
  BarStore, BarAggregator, store_get, store_insert, store_late, store_historical, apply_historical,
  first_print, apply_interval, apply_intervals, apply_trade_print, new_aggregator, start_bar,
  keep_store, Stepped, Applied, next_interval, with_closed, sorted_closed, is_trade,
}
use shinrai_trade.Bars.Shape.{IsBar, SameKey, apply_print-IsBar, apply_late-IsBar, new_bar-IsBar}

-- The open time is that of a bucket.
abbrev pub IsAligned : OhlcvBar → Type 0
IsAligned b = (ts : ℕ) × (b.open_ts ≡ bucket b.interval ts)

abbrev pub StoredAt : InstrumentId × (BarInterval × ℕ) → OhlcvBar → Type 0
StoredAt key b = ((b.instrument_id, (b.interval, b.open_ts)) ≡ key) × IsBar b × IsAligned b

abbrev pub WorkingAt : InstrumentId × BarInterval → OhlcvBar → Type 0
WorkingAt key b = ((b.instrument_id, b.interval) ≡ key) × IsBar b × IsAligned b

-- Each candle stands under its own key, is consistent and opens with a bucket.
pub record HasBars (a : BarAggregator) : Type 0 where
  pub stored : AllEntries StoredAt a.store
  pub running : AllEntries WorkingAt a.working

store_insert-StoredAt :
    (s : BarStore) (b : OhlcvBar)
    → IsBar b
    → IsAligned b
    → AllEntries StoredAt s
    → AllEntries StoredAt (store_insert s b)
unfolding store_insert
store_insert-StoredAt s b k l a =
    insert-AllEntries StoredAt (b.instrument_id, (b.interval, b.open_ts)) b s (refl, k, l) a

moved_key :
    (b c : OhlcvBar) (i : InstrumentId) (d : BarInterval) (t : ℕ)
    → IsBar c × SameKey b c
    → StoredAt (i, (d, t)) b
    → StoredAt (i, (d, t)) c
moved_key b c i d t (k, same) (own, k', (ts, at_ts)) =
    let (x, y, z) = same in
    ((λ j. (x j, (y j, z j))) ∙ own, k, (ts, z ∙ at_ts ∙ ap (λ w. bucket w ts) (sym y)))

store_late-StoredAt :
    (s : BarStore) (i : InstrumentId) (d : BarInterval) (t : ℕ) (p q : ℤ)
    → AllEntries StoredAt s
    → AllEntries StoredAt (store_late s i d t p q).1
unfolding store_late
store_late-StoredAt s i d t p q a = elim (Option-cases (store_get s i d t)) [
  | inl missing ↦ rw (missing, store_late) a
  | inr (b, found) ↦ elim (Result-cases (apply_late b p q)) [
    | inr (e, failed) ↦ rw (found, store_late) (rw failed a)
    | inl (c, late) ↦
        let own = a (i, (d, t)) b found in
        let (key, good, aligned) = own in
        rw (found, store_late)
          (rw late (
            insert-AllEntries StoredAt (i, (d, t)) c s
              (moved_key b c i d t (apply_late-IsBar b c p q late good) own) a))
  ]
]

store_historical-StoredAt :
    (late : Result MdError Bool × BarStore) (i : InstrumentId) (d : BarInterval) (ts : ℕ)
    (r : MdRecord)
    → pos 0 ≤ℤ r.qty
    → AllEntries StoredAt late.1
    → AllEntries StoredAt (store_historical late i d (bucket d ts) r).1
store_historical-StoredAt (err e, s) i d ts r k a = a
store_historical-StoredAt (ok true, s) i d ts r k a = a
store_historical-StoredAt (ok false, s) i d ts r k a =
    store_insert-StoredAt s (new_bar i d (bucket d ts) r.price r.qty)
      (new_bar-IsBar i d (bucket d ts) r.price r.qty k) (ts, refl) a

start_bar-HasBars :
    (a : BarAggregator) (r : MdRecord) (d : BarInterval)
    → pos 0 ≤ℤ r.qty
    → HasBars a
    → HasBars (start_bar a r d)
start_bar-HasBars a r d k h =
    let t = bucket d r.ts_logical in
    let b : OhlcvBar = new_bar r.instrument_id d t r.price r.qty in
    record {
      stored = h.stored;
      running =
          insert-AllEntries WorkingAt (r.instrument_id, d) b a.working
            (refl, new_bar-IsBar r.instrument_id d t r.price r.qty k, (r.ts_logical, refl))
            h.running;
    }

first_print-HasBars :
    (a : BarAggregator) (r : MdRecord) (d : BarInterval) (late : Result MdError Bool × BarStore)
    → pos 0 ≤ℤ r.qty
    → AllEntries StoredAt late.1
    → HasBars a
    → HasBars (first_print a r d late).1
first_print-HasBars a r d (err e, s) k l h = record { stored = l; running = h.running }
first_print-HasBars a r d (ok true, s) k l h = record { stored = l; running = h.running }
first_print-HasBars a r d (ok false, s) k l h =
    start_bar-HasBars (record a { store = s }) r d k (record { stored = l; running = h.running })

keep_store-HasBars :
    (a : BarAggregator) (late : Result MdError (Unit {0}) × BarStore)
    → AllEntries StoredAt late.1
    → HasBars a
    → HasBars (keep_store a late).1
keep_store-HasBars a (err e, s) l h = record { stored = l; running = h.running }
keep_store-HasBars a (ok u, s) l h = record { stored = l; running = h.running }

printed-HasBars :
    (a : BarAggregator) (r : MdRecord) (d : BarInterval) (b c : OhlcvBar)
    → get (r.instrument_id, d) a.working ≡ some b
    → apply_print b r.price r.qty ≡ ok c
    → HasBars a
    → HasBars (record a { working = insert (r.instrument_id, d) c a.working })
printed-HasBars a r d b c found printed h =
    let (own, good, (ts, at_ts)) = h.running (r.instrument_id, d) b found in
    let (kept, same) = apply_print-IsBar b c r.price r.qty printed good in
    let (x, y, z) = same in
    record {
      stored = h.stored;
      running =
          insert-AllEntries WorkingAt (r.instrument_id, d) c a.working
            ((λ j. (x j, y j)) ∙ own, kept, (ts, z ∙ at_ts ∙ ap (λ w. bucket w ts) (sym y)))
            h.running;
    }

apply_interval-HasBars :
    (a : BarAggregator) (r : MdRecord) (d : BarInterval)
    → pos 0 ≤ℤ r.qty
    → HasBars a
    → HasBars (apply_interval a r d).1
unfolding apply_interval apply_historical
apply_interval-HasBars a r d k h =
    let t = bucket d r.ts_logical in
    let late = store_late a.store r.instrument_id d t r.price r.qty in
    let kept = store_late-StoredAt a.store r.instrument_id d t r.price r.qty h.stored in
    elim (Option-cases (get (r.instrument_id, d) a.working)) [
      | inl missing ↦ rw (missing, apply_interval) (first_print-HasBars a r d late k kept h)
      | inr (b, found) ↦ elim (Bool-cases (nat_beq b.open_ts t)) [
        | inl here ↦ elim (Result-cases (apply_print b r.price r.qty)) [
          | inr (e, failed) ↦ rw (found, apply_interval) (rw here (rw failed h))
          | inl (c, printed) ↦
              rw (found, apply_interval)
                (rw here (rw printed (printed-HasBars a r d b c found printed h)))
        ]
        | inr elsewhere ↦ elim (Bool-cases (ltb b.open_ts t)) [
          | inl later ↦
              let (own, good, aligned) = h.running (r.instrument_id, d) b found in
              rw (found, apply_interval)
                (rw (elsewhere, later)
                  (start_bar-HasBars (record a { store = store_insert a.store b }) r d k
                    (record {
                      stored = store_insert-StoredAt a.store b good aligned h.stored;
                      running = h.running;
                    })))
          | inr earlier ↦
              rw (found, apply_interval)
                (rw (elsewhere, earlier)
                  (keep_store-HasBars a (apply_historical a.store r.instrument_id d t r)
                    (store_historical-StoredAt late r.instrument_id d r.ts_logical r k kept) h))
        ]
      ]
    ]

with_closed-HasBars :
    (b : Option OhlcvBar) (rest : Applied) → HasBars rest.1 → HasBars (with_closed b rest).1
with_closed-HasBars none rest h = h
with_closed-HasBars (some b) (err e, a) h = h
with_closed-HasBars (some b) (ok bs, a) h = h

next_interval-HasBars :
    (s : Stepped) (rest : Applied) → HasBars s.1 → HasBars rest.1 → HasBars (next_interval s rest).1
next_interval-HasBars (err e, a) rest h k = h
next_interval-HasBars (ok closed, a) rest h k = with_closed-HasBars closed rest k

apply_intervals-HasBars :
    (a : BarAggregator) (r : MdRecord) (ds : List BarInterval)
    → pos 0 ≤ℤ r.qty
    → HasBars a
    → HasBars (apply_intervals a r ds).1
unfolding apply_intervals
apply_intervals-HasBars a r [] k h = h
apply_intervals-HasBars a r (d ∷ ds) k h =
    let stepped = apply_interval-HasBars a r d k h in
    next_interval-HasBars (apply_interval a r d) (apply_intervals (apply_interval a r d).1 r ds)
      stepped (apply_intervals-HasBars (apply_interval a r d).1 r ds k stepped)

sorted_closed-HasBars : (rest : Applied) → HasBars rest.1 → HasBars (sorted_closed rest).1
sorted_closed-HasBars (err e, a) h = h
sorted_closed-HasBars (ok bs, a) h = h

-- If each closed or working candle of an aggregator stands under its own key, opens with a
-- bucket of its interval, has its first and last price between its lowest and highest, a
-- volume that is not negative and a count above zero, then the same holds after any record,
-- whatever it answers.
pub apply_trade_print-HasBars :
    (a : BarAggregator) (r : MdRecord) → HasBars a → HasBars (apply_trade_print a r).1
unfolding apply_trade_print
apply_trade_print-HasBars a r h = elim (Bool-cases (is_trade r.kind)) [
  | inr other ↦ rw other h
  | inl trade ↦ elim (Bool-cases (ltb_ℤ r.qty (pos 0))) [
    | inl negative ↦ rw (trade, negative) h
    | inr sized ↦
        rw (trade, sized)
          (sorted_closed-HasBars (apply_intervals a r a.intervals)
            (apply_intervals-HasBars a r a.intervals (ground arith) h))
  ]
]

pub new_aggregator-HasBars : (ds : List BarInterval) → HasBars (new_aggregator ds)
unfolding new_aggregator get
new_aggregator-HasBars ds = record {
  stored = λ k v h. ground arith;
  running = λ k v h. ground arith;
}
