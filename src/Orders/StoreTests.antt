-- ===== src/Orders/StoreTests.antt =====
-- crates/domain/orders/src/store.rs: runs, and the theorems at concrete stores.
use shinrai_trade.Common.{
  ◌≡◌, ◌≢◌, refl, ap, arith, ok, err, true, false, none, some, [], nat_eq, string_eq, pair_eq,
}
use shinrai_trade.Common.Int.{pos}
use shinrai_trade.Common.Maps.{get, insert}
use shinrai_trade.Orders.Status.{OrderStatus, Side, OrderType, TimeInForce, OrderEvent, OrderError}
use shinrai_trade.Orders.Aggregate.{Order, new_pending_typed}
use shinrai_trade.Orders.Store.{
  OrderStore, CreateOrder, SubmitOutcome, empty_store, submit, apply_event, restore_order,
  get_by_client, get_order, len, order_key, submit_new,
}
use shinrai_trade.Orders.StoreInvariant.{
  IsConsistent, empty_store-IsConsistent, submit-IsConsistent,
}
use shinrai_trade.Orders.StoreLaws.{submit_again, restore_order_stale}
use shinrai_trade.Orders.StoreReach.{Reach, StoreStep, Reach-IsConsistent}

abbrev request : CreateOrder
request = record {
  account_id = 7;
  client_order_id = "c1";
  instrument_id = 5;
  side = Side.buy;
  order_qty = pos 10;
  price = pos 100;
  order_type = OrderType.limit;
  time_in_force = TimeInForce.gtc;
}

abbrev pending : Order
pending = record {
  id = 1;
  account_id = 7;
  client_order_id = "c1";
  instrument_id = 5;
  side = Side.buy;
  order_type = OrderType.limit;
  time_in_force = TimeInForce.gtc;
  status = OrderStatus.pending_new;
  order_qty = pos 10;
  price = pos 100;
  cum_qty = pos 0;
  leaves_qty = pos 10;
  avg_px = none;
  venue_order_id = none;
  reject_reason = none;
  seen_execs = [];
  pending_replace_qty = none;
  pending_replace_price = none;
}

abbrev one_order : OrderStore
one_order = (submit empty_store request).1

submit_run : submit empty_store request ≡ (ok (SubmitOutcome.created pending), one_order)
unfolding submit get submit_new new_pending_typed
submit_run = refl

len_run : len one_order ≡ 1
unfolding submit get submit_new new_pending_typed insert
len_run = refl

get_run : get_order one_order 1 ≡ ok pending
unfolding submit get_order get submit_new new_pending_typed insert
get_run = refl

unknown_run : get_order one_order 2 ≡ err (OrderError.unknown_order 2)
unfolding submit get_order get submit_new new_pending_typed insert
unknown_run = refl

-- The price of the second submission is another one.
submit_again_example :
    submit one_order (record request { price = pos 120 })
    ≡ (ok (SubmitOutcome.duplicate pending), one_order)
submit_again_example =
    submit_again empty_store one_order request (record request { price = pos 120 }) pending
      submit_run refl

abbrev life : Reach (apply_event one_order 1 (OrderEvent.accepted "v1")).1
life =
    Reach.then (Reach.then Reach.start (StoreStep.submits request (omega arith)))
      (StoreStep.applies 1 (OrderEvent.accepted "v1") tt)

Reach-IsConsistent_example : IsConsistent (apply_event one_order 1 (OrderEvent.accepted "v1")).1
Reach-IsConsistent_example = Reach-IsConsistent life

one_order-IsConsistent : IsConsistent one_order
one_order-IsConsistent =
    submit-IsConsistent empty_store request empty_store-IsConsistent (omega arith)

other_key : order_key (record pending { client_order_id = "c2" }) ≢ order_key pending
other_key e = let same : false ≡ true = (string_eq.beq_iff "c2" "c1").1 (ap (λ k. k.1) e) in cc

-- The same row with another client id: the old one still leads to it.
restore_order_stale_example :
    get_by_client (restore_order one_order (record pending { client_order_id = "c2" })) 7 "c1"
    ≡ some (record pending { client_order_id = "c2" })
unfolding submit get submit_new new_pending_typed insert
restore_order_stale_example =
    restore_order_stale one_order (record pending { client_order_id = "c2" }) pending
      one_order-IsConsistent refl other_key
