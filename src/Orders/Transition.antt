-- ===== src/Orders/Transition.antt =====
-- crates/domain/orders/src/transition.rs: `apply`, the explicit order state machine.
use shinrai_trade.Common.{List, [], ◌∷◌, some, Result, ok, err, ◌>>=◌, ◌>>◌}
use shinrai_trade.Common.Int.{pos, ltb_ℤ, leb_ℤ}
use shinrai_trade.Orders.Status.{
  OrderStatus, DomainEffect, OrderEvent, event_name, OrderError, ExecId, QuantityLots, PriceTicks,
}
use shinrai_trade.Orders.Aggregate.{
  Order, fail_if, assert_invariants, apply_trade, set_pending_replace, clear_pending_replace,
  apply_replaced,
}

abbrev Step : Type 0
Step = Result OrderError (Order × List DomainEffect)

unfoldable pub on_trade : Order → ExecId → QuantityLots → PriceTicks → Step
on_trade o exec_id qty price = do
  r ← apply_trade o exec_id qty price
  ok (r.0, DomainEffect.trade exec_id qty price r.1 ∷ [])

unfoldable pub on_replace_requested : Order → QuantityLots → PriceTicks → Step
on_replace_requested o new_qty new_price = do
  fail_if (ltb_ℤ new_qty o.cum_qty) (OrderError.replace_below_filled new_qty o.cum_qty)
  fail_if (leb_ℤ new_qty (pos 0)) OrderError.invalid_quantity
  fail_if (leb_ℤ new_price (pos 0)) OrderError.invalid_price
  ok (set_pending_replace o new_qty new_price, DomainEffect.replace_pending ∷ [])

unfoldable pub on_replaced : Order → QuantityLots → PriceTicks → Step
on_replaced o new_qty new_price = do
  next ← apply_replaced o new_qty new_price
  ok (next, DomainEffect.replaced new_qty new_price ∷ [])

-- The events of the two working states, `New | PartiallyFilled`.
unfoldable pub on_working : OrderEvent → Order → Step
unfolding on_trade on_replace_requested
on_working (OrderEvent.trade exec_id qty price) o = on_trade o exec_id qty price
on_working OrderEvent.cancel_requested o =
    ok (record o { status = OrderStatus.pending_cancel }, DomainEffect.cancel_pending ∷ [])
on_working (OrderEvent.replace_requested qty price) o = on_replace_requested o qty price
on_working OrderEvent.expired o =
    ok (record o { status = OrderStatus.expired }, DomainEffect.expired ∷ [])
on_working OrderEvent.canceled o =
    ok (record o { status = OrderStatus.canceled }, DomainEffect.canceled ∷ [])
on_working event o = err (OrderError.illegal_transition o.status (event_name event))

-- The `match (order.status(), event)`.
unfoldable pub dispatch : OrderStatus → OrderEvent → Order → Step
unfolding on_working on_replaced
dispatch OrderStatus.pending_new (OrderEvent.accepted venue_order_id) o = ok (
  record o { status = OrderStatus.new; venue_order_id = some venue_order_id },
  DomainEffect.accepted venue_order_id ∷ [],
)
dispatch OrderStatus.pending_new (OrderEvent.rejected reason) o = ok (
  record o { status = OrderStatus.rejected; reject_reason = some reason },
  DomainEffect.rejected reason ∷ [],
)
dispatch OrderStatus.new event o = on_working event o
dispatch OrderStatus.partially_filled event o = on_working event o
dispatch OrderStatus.pending_cancel OrderEvent.canceled o =
    ok (
      clear_pending_replace (record o { status = OrderStatus.canceled }),
      DomainEffect.canceled ∷ [],
    )
dispatch OrderStatus.pending_replace (OrderEvent.replaced qty price) o = on_replaced o qty price
dispatch _ event o = err (OrderError.illegal_transition o.status (event_name event))

unfoldable pub apply : Order → OrderEvent → Step
unfolding dispatch
apply order event = do r ← dispatch order.status event order; assert_invariants r.0; ok r
