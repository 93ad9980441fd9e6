-- ===== src/Bars/Tests.antt =====
-- crates/domain/market-data/src/bar.rs: runs, and the theorem at a concrete aggregator.
use shinrai_trade.Common.Sets.{sort, place}
use shinrai_trade.Common.{ℕ, ◌≡◌, refl, some, List, [], ◌∷◌, nat_eq, pair_eq}
use shinrai_trade.Common.Int.{pos}
use shinrai_trade.Common.Maps.{get, insert}
use shinrai_trade.Feed.Consumer.{MdKind, MdRecord}
use shinrai_trade.Bars.Bar.{OhlcvBar}
use shinrai_trade.Bars.Aggregator.{
  BarAggregator, new_aggregator, apply_trade_print, close_open, store_get, apply_all,
}
use shinrai_trade.Bars.Invariant.{HasBars, apply_trade_print-HasBars, new_aggregator-HasBars}

abbrev print : ℕ → ℕ → ℕ → MdRecord
print ts price qty = record {
  instrument_id = 7;
  seq = 1;
  ts_logical = ts;
  kind = MdKind.trade;
  price = pos price;
  qty = pos qty;
}

abbrev tens : BarAggregator
tens = new_aggregator (10 ∷ 10 ∷ [])

-- Two prints in a bucket, one in the next, and a late one for the first.
abbrev prints : List MdRecord
prints = print 12 100 1 ∷ print 15 90 2 ∷ print 21 95 4 ∷ print 19 120 8 ∷ []

abbrev first_bar : OhlcvBar
first_bar = record {
  instrument_id = 7;
  interval = 10;
  open_ts = 10;
  open_price = pos 100;
  high = pos 120;
  low = pos 90;
  close = pos 90;
  volume = pos 11;
  trade_count = 3;
}

late_run : store_get (apply_all tens prints).1.store 7 10 10 ≡ some first_bar
unfolding get apply_all new_aggregator sort place insert
late_run = refl

-- A candle that was closed is replaced when its bucket is entered again from an earlier one.
abbrev closed_once : BarAggregator
closed_once = (close_open (apply_all tens (print 35 100 5 ∷ [])).1).1

abbrev closed_twice : BarAggregator
closed_twice = (close_open (apply_all closed_once (print 12 100 1 ∷ print 38 100 1 ∷ [])).1).1

abbrev third_bar : ℕ → OhlcvBar
third_bar qty = record {
  instrument_id = 7;
  interval = 10;
  open_ts = 30;
  open_price = pos 100;
  high = pos 100;
  low = pos 100;
  close = pos 100;
  volume = pos qty;
  trade_count = 1;
}

replaced_run :
    (store_get closed_once.store 7 10 30 ≡ some (third_bar 5))
    × (store_get closed_twice.store 7 10 30 ≡ some (third_bar 1))
unfolding get close_open apply_all new_aggregator sort place insert
replaced_run = (refl, refl)

apply_trade_print-HasBars_example : HasBars (apply_trade_print tens (print 12 100 1)).1
apply_trade_print-HasBars_example =
    apply_trade_print-HasBars tens (print 12 100 1) (new_aggregator-HasBars (10 ∷ 10 ∷ []))
