-- ===== src/Bars/Aggregator.antt =====
-- crates/domain/market-data/src/bar.rs: the store of closed bars and the aggregator.
use shinrai_trade.Common.{
  ℕ, Bool, true, false, ◌&&◌, ◌||◌, Option, none, some, List, [], ◌∷◌, map, if◌then◌else◌, Result,
  ok, err, ltb, nat_beq, nat_eq, pair_eq,
}
use shinrai_trade.Common.Int.{ℤ, pos, ltb_ℤ}
use shinrai_trade.Common.Maps.{Map, get, insert}
use shinrai_trade.Common.Sets.{sort}
use shinrai_trade.Ledger.Entry.{InstrumentId}
use shinrai_trade.Feed.Consumer.{MdError, MdKind, MdRecord}
use shinrai_trade.Bars.Bar.{BarInterval, OhlcvBar, bucket, new_bar, apply_print, apply_late}

-- A `BTreeMap`, of which only `series` uses the order.
abbrev pub BarStore : Type 0
BarStore = Map (InstrumentId × (BarInterval × ℕ)) OhlcvBar

abbrev pub store_get : BarStore → InstrumentId → BarInterval → ℕ → Option OhlcvBar
store_get s i interval open_ts = get (i, (interval, open_ts)) s

unfoldable pub store_insert : BarStore → OhlcvBar → BarStore
store_insert s b = insert (b.instrument_id, (b.interval, b.open_ts)) b s

-- `BarStore::apply_late`
unfoldable pub store_late :
    BarStore → InstrumentId → BarInterval → ℕ → ℤ → ℤ → Result MdError Bool × BarStore
unfolding apply_late
store_late s i interval open_ts price qty = elim (store_get s i interval open_ts) [
  | none ↦ (ok false, s)
  | some bar ↦ elim (apply_late bar price qty) [
    | err e ↦ (err e, s)
    | ok changed ↦ (ok true, insert (i, (interval, open_ts)) changed s)
  ]
]

pub record BarAggregator : Type 0 where
  pub intervals : List BarInterval
  pub working : Map (InstrumentId × BarInterval) OhlcvBar
  pub store : BarStore

unfoldable pub dedup : List ℕ → List ℕ
dedup [] = []
dedup (a ∷ []) = a ∷ []
dedup (a ∷ b ∷ bs) = let rest = dedup (b ∷ bs) in if nat_beq a b then rest else a ∷ rest

unfoldable pub new_aggregator : List BarInterval → BarAggregator
unfolding dedup
new_aggregator intervals = record { intervals = dedup (sort intervals); working = []; store = [] }

-- The result and the state of one interval's step.
abbrev pub Stepped : Type 0
Stepped = Result MdError (Option OhlcvBar) × BarAggregator

abbrev pub start_bar : BarAggregator → MdRecord → BarInterval → BarAggregator
start_bar a r interval = record a {
  working =
      insert (r.instrument_id, interval)
        (new_bar r.instrument_id interval (bucket interval r.ts_logical) r.price r.qty) a.working;
}

abbrev pub store_historical :
    Result MdError Bool × BarStore
    → InstrumentId
    → BarInterval
    → ℕ
    → MdRecord
    → Result MdError (Unit {0}) × BarStore
store_historical (err e, s) i interval open_ts r = (err e, s)
store_historical (ok true, s) i interval open_ts r = (ok tt, s)
store_historical (ok false, s) i interval open_ts r =
    (ok tt, store_insert s (new_bar i interval open_ts r.price r.qty))

unfoldable pub apply_historical :
    BarStore → InstrumentId → BarInterval → ℕ → MdRecord → Result MdError (Unit {0}) × BarStore
unfolding store_late store_insert
apply_historical s i interval open_ts r =
    store_historical (store_late s i interval open_ts r.price r.qty) i interval open_ts r

abbrev pub keep_store : BarAggregator → Result MdError (Unit {0}) × BarStore → Stepped
keep_store a (err e, s) = (err e, record a { store = s })
keep_store a (ok u, s) = (ok none, record a { store = s })

abbrev pub first_print :
    BarAggregator → MdRecord → BarInterval → Result MdError Bool × BarStore → Stepped
first_print a r interval (err e, s) = (err e, record a { store = s })
first_print a r interval (ok true, s) = (ok none, record a { store = s })
first_print a r interval (ok false, s) = (ok none, start_bar (record a { store = s }) r interval)

abbrev pub same_bucket : BarAggregator → MdRecord → BarInterval → Result MdError OhlcvBar → Stepped
same_bucket a r interval (err e) = (err e, a)
same_bucket a r interval (ok bar) =
    (ok none, record a { working = insert (r.instrument_id, interval) bar a.working })

unfoldable pub apply_interval : BarAggregator → MdRecord → BarInterval → Stepped
unfolding bucket apply_print store_insert store_late apply_historical
apply_interval a r interval =
    let open_ts = bucket interval r.ts_logical in
    elim (get (r.instrument_id, interval) a.working) [
      | none ↦
          first_print a r interval
            (store_late a.store r.instrument_id interval open_ts r.price r.qty)
      | some bar ↦
          if nat_beq bar.open_ts open_ts
          then same_bucket a r interval (apply_print bar r.price r.qty)
          else if ltb bar.open_ts open_ts
          then (ok (some bar), start_bar (record a { store = store_insert a.store bar }) r interval)
          else keep_store a (apply_historical a.store r.instrument_id interval open_ts r)
    ]

-- `(interval, open_ts)`
abbrev bar_before : OhlcvBar → OhlcvBar → Bool
bar_before b c =
    ltb b.interval c.interval || (nat_beq b.interval c.interval && ltb b.open_ts c.open_ts)

-- `(instrument_id, interval, open_ts)`
abbrev closed_before : OhlcvBar → OhlcvBar → Bool
closed_before b c =
    ltb b.instrument_id c.instrument_id
    || (nat_beq b.instrument_id c.instrument_id && bar_before b c)

-- `sort_by_key`, which is stable, by the order of the keys.
unfoldable pub place_bar : (OhlcvBar → OhlcvBar → Bool) → OhlcvBar → List OhlcvBar → List OhlcvBar
place_bar before b [] = b ∷ []
place_bar before b (c ∷ cs) =
    let rest = place_bar before b cs in if before c b then c ∷ rest else b ∷ c ∷ cs

unfoldable pub sort_bars : (OhlcvBar → OhlcvBar → Bool) → List OhlcvBar → List OhlcvBar
unfolding place_bar
sort_bars before [] = []
sort_bars before (b ∷ bs) = place_bar before b (sort_bars before bs)

abbrev pub Applied : Type 0
Applied = Result MdError (List OhlcvBar) × BarAggregator

abbrev pub with_closed : Option OhlcvBar → Applied → Applied
with_closed none applied = applied
with_closed (some b) (err e, a) = (err e, a)
with_closed (some b) (ok bs, a) = (ok (b ∷ bs), a)

-- What follows on one interval's step.
abbrev pub next_interval : Stepped → Applied → Applied
next_interval (err e, a) rest = (err e, a)
next_interval (ok closed, a) rest = with_closed closed rest

-- The loop over the intervals; an error leaves what the intervals before have done.
unfoldable pub apply_intervals : BarAggregator → MdRecord → List BarInterval → Applied
unfolding apply_interval
apply_intervals a r [] = (ok [], a)
apply_intervals a r (i ∷ others) =
    let stepped = apply_interval a r i in next_interval stepped (apply_intervals stepped.1 r others)

abbrev pub is_trade : MdKind → Bool
is_trade MdKind.trade = true
is_trade _ = false

abbrev pub sorted_closed : Applied → Applied
sorted_closed (err e, a) = (err e, a)
sorted_closed (ok bs, a) = (ok (sort_bars bar_before bs), a)

unfoldable pub apply_trade_print : BarAggregator → MdRecord → Applied
unfolding apply_intervals sort_bars
apply_trade_print a r =
    if is_trade r.kind
    then if ltb_ℤ r.qty (pos 0)
      then (err MdError.invalid_quantity, a)
      else sorted_closed (apply_intervals a r a.intervals)
    else (ok [], a)

unfoldable pub store_all : List OhlcvBar → BarStore → BarStore
unfolding store_insert
store_all [] s = s
store_all (b ∷ bs) s = store_all bs (store_insert s b)

abbrev bar_of : (InstrumentId × BarInterval) × OhlcvBar → OhlcvBar
bar_of (key, b) = b

unfoldable pub close_open : BarAggregator → List OhlcvBar × BarAggregator
unfolding sort_bars store_all
close_open a =
    let closed = sort_bars closed_before (map bar_of a.working) in
    (closed, record a { working = []; store = store_all closed a.store })

-- The loop of `from_journal`.
unfoldable pub apply_all : BarAggregator → List MdRecord → Result MdError (Unit {0}) × BarAggregator
unfolding apply_trade_print
apply_all a [] = (ok tt, a)
apply_all a (r ∷ rs) =
    let (answer, b) = apply_trade_print a r in
    elim answer [ err e ↦ (err e, b) | ok closed ↦ apply_all b rs ]

abbrev finished : Result MdError (Unit {0}) × BarAggregator → Result MdError BarAggregator
finished (err e, a) = err e
finished (ok u, a) = ok (close_open a).1

unfoldable pub from_journal : List MdRecord → List BarInterval → Result MdError BarAggregator
unfolding new_aggregator apply_all close_open
from_journal journal intervals = finished (apply_all (new_aggregator intervals) journal)
