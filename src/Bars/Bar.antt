-- ===== src/Bars/Bar.antt =====
-- crates/domain/market-data/src/bar.rs: intervals and one candle. A method on `&mut self` that may
-- fail answers the changed candle, which its callers drop on an error.
use shinrai_trade.Common.{
  ℕ, ◌*◌, ◌/◌, ◌||◌, if◌then◌else◌, Result, ok, err, ◌>>=◌, ok_or, ltb, nat_beq,
}
use shinrai_trade.Common.Int.{ℤ, pos, ◌+ℤ◌, ltb_ℤ, i64_limit, checked}
use shinrai_trade.Ledger.Entry.{InstrumentId}
use shinrai_trade.Feed.Consumer.{MdError, next_after}

-- The `duration` of a window.
abbrev pub BarInterval : Type 0
BarInterval = ℕ

abbrev pub new_interval : ℕ → Result MdError BarInterval
new_interval duration = if nat_beq duration 0 then err MdError.invalid_interval else ok duration

-- `saturating_mul` of a `u64`.
unfoldable pub bucket : BarInterval → ℕ → ℕ
bucket duration ts =
    let product = ts / duration * duration in
    if ltb 18446744073709551615 product then 18446744073709551615 else product

pub record OhlcvBar : Type 0 where
  pub instrument_id : InstrumentId
  pub interval : BarInterval
  pub open_ts : ℕ
  pub open_price : ℤ
  pub high : ℤ
  pub low : ℤ
  pub close : ℤ
  pub volume : ℤ
  pub trade_count : ℕ

abbrev pub new_bar : InstrumentId → BarInterval → ℕ → ℤ → ℤ → OhlcvBar
new_bar i interval open_ts price qty = record {
  instrument_id = i;
  interval = interval;
  open_ts = open_ts;
  open_price = price;
  high = price;
  low = price;
  close = price;
  volume = qty;
  trade_count = 1;
}

unfoldable pub assert_invariants : OhlcvBar → Result MdError (Unit {0})
assert_invariants b =
    if ltb_ℤ b.volume (pos 0) || nat_beq b.trade_count 0
    then err MdError.invalid_quantity
    else if ltb_ℤ b.high b.open_price || ltb_ℤ b.high b.close || ltb_ℤ b.high b.low
    then err MdError.invalid_quantity
    else if ltb_ℤ b.open_price b.low || ltb_ℤ b.close b.low
    then err MdError.invalid_quantity
    else ok tt

abbrev pub widen : OhlcvBar → ℤ → OhlcvBar
widen b price = record b {
  high = if ltb_ℤ b.high price then price else b.high;
  low = if ltb_ℤ price b.low then price else b.low;
}

unfoldable pub add_volume : OhlcvBar → ℤ → Result MdError OhlcvBar
unfolding ◌+ℤ◌
add_volume b qty =
    if ltb_ℤ qty (pos 0)
    then err MdError.invalid_quantity
    else ok_or (checked i64_limit (b.volume +ℤ qty)) MdError.md_overflow >>= λ v.
        ok (record b { volume = v })

-- `saturating_add(1)` of the count.
abbrev counted : OhlcvBar → OhlcvBar
counted b = record b { trade_count = next_after b.trade_count }

unfoldable pub apply_print : OhlcvBar → ℤ → ℤ → Result MdError OhlcvBar
unfolding add_volume
apply_print b price qty =
    add_volume b qty >>= λ c. ok (widen (record (counted c) { close = price }) price)

unfoldable pub apply_late : OhlcvBar → ℤ → ℤ → Result MdError OhlcvBar
unfolding add_volume
apply_late b price qty = add_volume b qty >>= λ c. ok (widen (counted c) price)
