-- ===== src/Orders/Tests.antt =====
-- crates/domain/orders/src/{order,transition}.rs: runs, and the theorems at concrete orders.
use shinrai_trade.Common.{
  ◌≡◌, ◌↔◌, refl, arith, ok, err, true, false, none, some, List, [], ◌∷◌, nat_eq, string_eq,
  pair_eq,
}
use shinrai_trade.Common.Int.{pos, ◌+ℤ◌, ◌-ℤ◌, ◌*ℤ◌, ◌/ℤ◌, wrap}
use shinrai_trade.Orders.Status.{
  OrderStatus, Side, OrderType, TimeInForce, OrderEvent, OrderError, DomainEffect,
}
use shinrai_trade.Orders.Aggregate.{
  Order, apply_trade, has_exec, restore, new_pending, next_avg, assert_invariants,
}
use shinrai_trade.Orders.Transition.{apply, dispatch}
use shinrai_trade.Orders.Invariant.{IsValid}
use shinrai_trade.Orders.Fill.{with_fill, apply_trade_total}
use shinrai_trade.Orders.Preserve.{apply-eq-dispatch, apply-IsValid}
use shinrai_trade.Orders.Graph.{apply-admits, admits}
use shinrai_trade.Orders.Traces.{drive, drive_fills, traded, traded_execs}
use shinrai_trade.Orders.Dedupe.{no_double_fill, Distinct}
use shinrai_trade.Orders.AvgTraces.{drive-AvgWithin, AvgWithin}

-- Ten lots at 100 ticks, four of them filled at 100.
abbrev working : Order
working = record {
  id = 1;
  account_id = 7;
  client_order_id = "c1";
  instrument_id = 5;
  side = Side.buy;
  order_type = OrderType.limit;
  time_in_force = TimeInForce.gtc;
  status = OrderStatus.partially_filled;
  order_qty = pos 10;
  price = pos 100;
  cum_qty = pos 4;
  leaves_qty = pos 6;
  avg_px = some (pos 100);
  venue_order_id = some "v1";
  reject_reason = none;
  seen_execs = "e1" ∷ [];
  pending_replace_qty = none;
  pending_replace_price = none;
}

abbrev fresh : Order
fresh = record working {
  status = OrderStatus.new;
  cum_qty = pos 0;
  leaves_qty = pos 10;
  avg_px = none;
  seen_execs = [];
}

abbrev fill : OrderEvent
fill = OrderEvent.trade "e2" (pos 6) (pos 110)

-- (4 * 100 + 6 * 110) / 10 = 106.
abbrev filled : Order
filled = record working {
  status = OrderStatus.filled;
  cum_qty = pos 10;
  leaves_qty = pos 0;
  avg_px = some (pos 106);
  seen_execs = "e1" ∷ "e2" ∷ [];
}

working-IsValid : IsValid working
unfolding ◌+ℤ◌
working-IsValid = record {
  qty_pos = omega arith;
  qty_fits = omega arith;
  price_pos = omega arith;
  cum_nonneg = omega arith;
  leaves_nonneg = omega arith;
  adds_up = refl;
  status_fits = omega arith;
  avg_fits = omega arith;
}

fresh-IsValid : IsValid fresh
unfolding ◌+ℤ◌
fresh-IsValid = record {
  qty_pos = omega arith;
  qty_fits = omega arith;
  price_pos = omega arith;
  cum_nonneg = omega arith;
  leaves_nonneg = omega arith;
  adds_up = refl;
  status_fits = refl;
  avg_fits = refl;
}

fill_run : apply working fill ≡ ok (filled, DomainEffect.trade "e2" (pos 6) (pos 110) true ∷ [])
unfolding apply apply_trade ◌+ℤ◌ ◌-ℤ◌ next_avg ◌*ℤ◌ ◌/ℤ◌ assert_invariants wrap
fill_run = refl

apply-IsValid_example : IsValid filled
apply-IsValid_example =
    apply-IsValid working fill (filled, DomainEffect.trade "e2" (pos 6) (pos 110) true ∷ [])
      working-IsValid (omega arith) fill_run

apply-eq-dispatch_example : apply working fill ≡ dispatch OrderStatus.partially_filled fill working
apply-eq-dispatch_example = apply-eq-dispatch working fill working-IsValid (omega arith)

apply_trade_total_example :
    apply_trade working "e2" (pos 6) (pos 110) ≡ ok (with_fill working "e2" 6 110, true)
unfolding has_exec ◌-ℤ◌
apply_trade_total_example =
    apply_trade_total working "e2" 6 110 working-IsValid refl (omega arith) (omega arith)
      (omega arith) (omega arith)

apply-admits_example :
    (apply filled OrderEvent.cancel_requested
      ≡ err (OrderError.illegal_transition OrderStatus.filled "CancelRequested"))
    ↔ (admits OrderStatus.filled OrderEvent.cancel_requested ≡ false)
apply-admits_example = apply-admits filled OrderEvent.cancel_requested

-- The second report of "e2" is refused, and does not count.
abbrev reports : List OrderEvent
reports = OrderEvent.trade "e1" (pos 4) (pos 100) ∷ fill ∷ fill ∷ OrderEvent.cancel_requested ∷ []

no_double_fill_example : Distinct (traded_execs (drive fresh reports).1)
no_double_fill_example = no_double_fill fresh reports refl

drive_fills_example :
    let (o, effects) = drive fresh reports in
    (o.cum_qty ≡ pos 0 +ℤ traded effects) × (o.seen_execs ≡ traded_execs effects)
drive_fills_example = drive_fills fresh reports

drive-AvgWithin_example : AvgWithin 100 110 (drive fresh reports).0.avg_px
drive-AvgWithin_example =
    drive-AvgWithin 100 110 fresh reports fresh-IsValid (omega arith) (omega arith) tt

-- A refusal at creation, and a row that is not an order.
bad_price_run : new_pending 1 7 "c1" 5 Side.buy (pos 10) (pos 0) ≡ err OrderError.invalid_price
unfolding new_pending
bad_price_run = refl

restore_run : restore (record working { leaves_qty = pos 5 }) ≡ err OrderError.invalid_quantity
unfolding restore ◌+ℤ◌ wrap
restore_run = refl
