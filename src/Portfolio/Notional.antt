-- ===== src/Portfolio/Notional.antt =====
-- crates/domain/paper/src/{notional,error}.rs: the value of a quantity at a price.
use Prim.Native.String.{String}
use shinrai_trade.Common.{ℕ, ◌-◌, ◌^◌, if◌then◌else◌, Result, ok, err, ◌>>=◌, ok_or, ltb, nat_beq}
use shinrai_trade.Common.Int.{ℤ, pos, ◌*ℤ◌, ◌/ℤ◌, leb_ℤ, i128_limit, checked}
use shinrai_trade.Money.{Money, MoneyError, from_minor}
use shinrai_trade.Orders.Status.{OrderId, OrderError}
use shinrai_trade.Ledger.Entry.{LedgerError}
use shinrai_trade.Risk.Engine.{RiskRejectReason}
use shinrai_trade.Instruments.Grid.{InstrumentError, rem_euclid}
use shinrai_trade.Instruments.Product.{Instrument}

-- Of crates/protocols/execution/src/error.rs.
pub data ExecutionError : Type 0 where
  disconnected : ExecutionError
  unknown_order : OrderId → ExecutionError
  invalid_state : String → ExecutionError
  invalid_quantity invalid_identifier : ExecutionError
  transport : String → ExecutionError

pub data PaperError : Type 0 where
  money : MoneyError → PaperError
  instrument : InstrumentError → PaperError
  order : OrderError → PaperError
  ledger : LedgerError → PaperError
  venue : ExecutionError → PaperError
  unsupported_side inexact_notional : PaperError
  reservation_shortfall : OrderId → PaperError
  risk : RiskRejectReason → PaperError

abbrev pub paper_overflow : PaperError
paper_overflow = PaperError.money MoneyError.overflow

abbrev pub pow10_i128 : ℕ → Result PaperError ℤ
pow10_i128 exp = ok_or (checked i128_limit (pos (10 ^ exp))) paper_overflow

unfoldable pub scale_up : ℤ → ℕ → Result PaperError ℤ
unfolding ◌*ℤ◌
scale_up amount exp = do
  factor ← pow10_i128 exp
  ok_or (checked i128_limit (amount *ℤ factor)) paper_overflow

unfoldable pub scale_down : ℤ → ℕ → Result PaperError ℤ
unfolding ◌/ℤ◌ rem_euclid
scale_down amount exp = do
  factor ← pow10_i128 exp
  if nat_beq (rem_euclid amount factor) 0
      then ok (amount /ℤ factor)
      else err PaperError.inexact_notional

unfoldable pub rescale_exact : ℤ → ℕ → ℕ → Result PaperError ℤ
unfolding scale_up scale_down
rescale_exact amount from_scale to_scale =
    if nat_beq to_scale from_scale
    then ok amount
    else if ltb from_scale to_scale
    then scale_up amount (to_scale - from_scale)
    else scale_down amount (from_scale - to_scale)

unfoldable pub notional : Instrument → ℤ → ℤ → Result PaperError Money
unfolding ◌*ℤ◌ rescale_exact
notional i price qty =
    if leb_ℤ qty (pos 0)
    then err (PaperError.order OrderError.invalid_quantity)
    else if leb_ℤ price (pos 0)
    then err (PaperError.order OrderError.invalid_price)
    else do
      product ← ok_or (checked i128_limit (price *ℤ qty)) paper_overflow
      raw ← ok_or (checked i128_limit (product *ℤ i.multiplier)) paper_overflow
      minor ← rescale_exact raw i.tick_table.price_scale i.quote_currency.scale
      ok (from_minor minor i.quote_currency)
