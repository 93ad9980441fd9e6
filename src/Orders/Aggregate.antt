-- ===== src/Orders/Aggregate.antt =====
-- crates/domain/orders/src/order.rs: the order aggregate and its fill accounting. A method on
-- `&mut self` returns the new order; on an error it has changed nothing that its caller keeps.
use shinrai_trade.Common.{
  String, Bool, true, false, ◌||◌, not, Option, none, some, List, [], ◌∷◌, ◌++◌, ◌==◌,
  if◌then◌else◌, Result, ok, err, ◌>>=◌, ◌>>◌, ok_or, string_eq,
}
use shinrai_trade.Common.Int.{
  ℤ, pos, ◌+ℤ◌, ◌-ℤ◌, ◌*ℤ◌, ltb_ℤ, leb_ℤ, eqb_ℤ, i64_limit, i128_limit, checked, wrap, checked_div,
}
use shinrai_trade.Orders.Status.{
  OrderId, AccountId, InstrumentId, ClientOrderId, VenueOrderId, ExecId, PriceTicks, QuantityLots,
  OrderStatus, Side, OrderType, TimeInForce, OrderError,
}

pub record Order : Type 0 where
  pub id : OrderId
  pub account_id : AccountId
  pub client_order_id : ClientOrderId
  pub instrument_id : InstrumentId
  pub side : Side
  pub order_type : OrderType
  pub time_in_force : TimeInForce
  pub status : OrderStatus
  pub order_qty : QuantityLots
  pub price : PriceTicks
  pub cum_qty : QuantityLots
  pub leaves_qty : QuantityLots
  pub avg_px : Option PriceTicks
  pub venue_order_id : Option VenueOrderId
  pub reject_reason : Option String
  pub seen_execs : List ExecId
  pub pending_replace_qty : Option QuantityLots
  pub pending_replace_price : Option PriceTicks

-- An early return with an error.
abbrev pub fail_if : Bool → OrderError → Result OrderError (Unit {0})
fail_if true e = err e
fail_if false e = ok tt

unfoldable pub assert_invariants : Order → Result OrderError (Unit {0})
assert_invariants o = do
  fail_if (ltb_ℤ o.cum_qty (pos 0) || ltb_ℤ o.leaves_qty (pos 0)) OrderError.invalid_quantity
  fail_if (ltb_ℤ o.order_qty o.cum_qty) OrderError.invalid_quantity
  fail_if (not (eqb_ℤ (wrap i64_limit (o.cum_qty +ℤ o.leaves_qty)) o.order_qty))
      OrderError.invalid_quantity
  ok tt

-- The checks that `restore` and `new_pending_typed` begin with.
abbrev check_terms : QuantityLots → PriceTicks → Result OrderError (Unit {0})
check_terms qty price = do
  fail_if (leb_ℤ qty (pos 0)) OrderError.invalid_quantity
  fail_if (leb_ℤ price (pos 0)) OrderError.invalid_price
  ok tt

-- The arguments are those of the struct literal; the pending replace fields start empty.
unfoldable pub restore : Order → Result OrderError Order
unfolding assert_invariants
restore fields = do
  check_terms fields.order_qty fields.price
  let order = record fields { pending_replace_qty = none; pending_replace_price = none }
  assert_invariants order
  ok order

unfoldable pub new_pending_typed :
    OrderId
    → AccountId
    → ClientOrderId
    → InstrumentId
    → Side
    → OrderType
    → TimeInForce
    → QuantityLots
    → PriceTicks
    → Result OrderError Order
new_pending_typed id account_id client_order_id instrument_id side order_type tif qty price = do
  check_terms qty price
  ok (record {
    id = id;
    account_id = account_id;
    client_order_id = client_order_id;
    instrument_id = instrument_id;
    side = side;
    order_type = order_type;
    time_in_force = tif;
    status = OrderStatus.pending_new;
    order_qty = qty;
    price = price;
    cum_qty = pos 0;
    leaves_qty = qty;
    avg_px = none;
    venue_order_id = none;
    reject_reason = none;
    seen_execs = [];
    pending_replace_qty = none;
    pending_replace_price = none;
  })

unfoldable pub new_pending :
    OrderId
    → AccountId
    → ClientOrderId
    → InstrumentId
    → Side
    → QuantityLots
    → PriceTicks
    → Result OrderError Order
unfolding new_pending_typed
new_pending id account client instrument side qty price =
    new_pending_typed id account client instrument side OrderType.limit TimeInForce.gtc qty price

abbrev pub mem_exec : ExecId → List ExecId → Bool
mem_exec exec_id [] = false
mem_exec exec_id (e ∷ es) = (e == exec_id) || mem_exec exec_id es

unfoldable pub has_exec : Order → ExecId → Bool
has_exec o exec_id = mem_exec exec_id o.seen_execs

-- `avg_px.map_or(0, |px| px * cum)`, in `i128`, where a product of two `i64` fits.
abbrev pub prev_notional : Option PriceTicks → QuantityLots → ℤ
prev_notional none cum = pos 0
prev_notional (some px) cum = px *ℤ cum

-- Weighted average in scaled ticks: (avg * cum + px * qty) / new_cum.
unfoldable pub next_avg :
    Option PriceTicks → QuantityLots → QuantityLots → PriceTicks → ℤ → Result OrderError ℤ
unfolding checked_div
next_avg avg_px cum qty price new_cum = do
  trade_notional ← ok_or (checked i128_limit (price *ℤ qty)) OrderError.invalid_quantity
  total ←
      ok_or (checked i128_limit (prev_notional avg_px cum +ℤ trade_notional))
        OrderError.invalid_quantity
  avg ← ok_or (checked_div i128_limit total new_cum) OrderError.invalid_quantity
  ok_or (checked i64_limit avg) OrderError.invalid_quantity

-- Returns the order and whether it is now filled.
unfoldable pub apply_trade :
    Order → ExecId → QuantityLots → PriceTicks → Result OrderError (Order × Bool)
unfolding has_exec
apply_trade o exec_id qty price = do
  fail_if (has_exec o exec_id) (OrderError.duplicate_exec exec_id)
  fail_if (leb_ℤ qty (pos 0)) OrderError.invalid_quantity
  fail_if (leb_ℤ price (pos 0)) OrderError.invalid_price
  fail_if (ltb_ℤ o.leaves_qty qty) (OrderError.overfill qty o.leaves_qty)
  new_cum ← ok_or (checked i64_limit (o.cum_qty +ℤ qty)) OrderError.invalid_quantity
  new_leaves ← ok_or (checked i64_limit (o.order_qty -ℤ new_cum)) OrderError.invalid_quantity
  avg ← next_avg o.avg_px o.cum_qty qty price new_cum
  let filled = eqb_ℤ new_leaves (pos 0)
  ok (
    record o {
      cum_qty = new_cum;
      leaves_qty = new_leaves;
      avg_px = some avg;
      seen_execs = o.seen_execs ++ exec_id ∷ [];
      status = if filled then OrderStatus.filled else OrderStatus.partially_filled;
    },
    filled,
  )

abbrev pub set_pending_replace : Order → QuantityLots → PriceTicks → Order
set_pending_replace o qty price = record o {
  pending_replace_qty = some qty;
  pending_replace_price = some price;
  status = OrderStatus.pending_replace;
}

abbrev pub clear_pending_replace : Order → Order
clear_pending_replace o = record o { pending_replace_qty = none; pending_replace_price = none }

-- `new_qty - cum` cannot leave the range after the test above it.
unfoldable pub apply_replaced : Order → QuantityLots → PriceTicks → Result OrderError Order
apply_replaced o new_qty new_price = do
  check_terms new_qty new_price
  fail_if (ltb_ℤ new_qty o.cum_qty) (OrderError.replace_below_filled new_qty o.cum_qty)
  let leaves = wrap i64_limit (new_qty -ℤ o.cum_qty)
  ok (record o {
    order_qty = new_qty;
    price = new_price;
    leaves_qty = leaves;
    pending_replace_qty = none;
    pending_replace_price = none;
    status =
        if eqb_ℤ o.cum_qty (pos 0)
        then OrderStatus.new
        else if eqb_ℤ leaves (pos 0)
        then OrderStatus.filled
        else OrderStatus.partially_filled;
  })
