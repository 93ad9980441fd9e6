-- ===== src/Orders/Store.antt =====
-- crates/domain/orders/src/store.rs: the idempotent order store. A method on `&mut self` returns
-- its result with the store as it leaves it, on an error too.
use shinrai_trade.Common.{
  ℕ, ◌+◌, Option, none, some, List, [], ◌∷◌, ◌++◌, ltb, leb, if◌then◌else◌, Result, ok, err, nat_eq,
  string_eq, pair_eq, ◌==◌, length,
}
use shinrai_trade.Common.Maps.{Map, get, insert, remove}
use shinrai_trade.Orders.Status.{
  OrderId, AccountId, InstrumentId, ClientOrderId, QuantityLots, PriceTicks, Side, OrderType,
  TimeInForce, OrderEvent, OrderError, DomainEffect,
}
use shinrai_trade.Orders.Aggregate.{Order, new_pending_typed}
use shinrai_trade.Orders.Transition.{apply}

pub record CreateOrder : Type 0 where
  pub account_id : AccountId
  pub client_order_id : ClientOrderId
  pub instrument_id : InstrumentId
  pub side : Side
  pub order_qty : QuantityLots
  pub price : PriceTicks
  pub order_type : OrderType
  pub time_in_force : TimeInForce

pub data SubmitOutcome : Type 0 where
  created duplicate : Order → SubmitOutcome

pub data LoggedEvent : Type 0 where
  created : LoggedEvent
  applied : OrderEvent → LoggedEvent

abbrev pub ClientKey : Type 0
ClientKey = AccountId × ClientOrderId

pub record OrderStore : Type 0 where
  pub next_id : ℕ
  pub orders : Map OrderId Order
  pub by_client : Map ClientKey OrderId
  -- Newest last.
  pub event_log : List (OrderId × LoggedEvent)

abbrev pub empty_store : OrderStore
empty_store = record { next_id = 0; orders = []; by_client = []; event_log = [] }

-- `len` counts the entries of the table; a key stands in it once.
abbrev pub len : OrderStore → ℕ
len s = length s.orders

abbrev pub u64_limit : ℕ
u64_limit = 18446744073709551616

-- `get` of the store.
unfoldable pub get_order : OrderStore → OrderId → Result OrderError Order
get_order s id = elim (get id s.orders) [
  | none ↦ err (OrderError.unknown_order id)
  | some order ↦ ok order
]

unfoldable pub get_by_client : OrderStore → AccountId → ClientOrderId → Option Order
get_by_client s account_id client_order_id = elim (get (account_id, client_order_id) s.by_client) [
  | none ↦ none
  | some id ↦ get id s.orders
]

abbrev pub request_key : CreateOrder → ClientKey
request_key req = (req.account_id, req.client_order_id)

abbrev pub order_key : Order → ClientKey
order_key o = (o.account_id, o.client_order_id)

abbrev pub pending_for : CreateOrder → OrderId → Result OrderError Order
pending_for req id =
    new_pending_typed id req.account_id req.client_order_id req.instrument_id req.side
      req.order_type req.time_in_force req.order_qty req.price

-- The tail of `submit`, once the order has been built: log, then index, then store.
abbrev pub record_created : OrderStore → ClientKey → OrderId → Order → OrderStore
record_created s key id order = record s {
  event_log = s.event_log ++ (id, LoggedEvent.created) ∷ [];
  by_client = insert key id s.by_client;
  orders = insert id order s.orders;
}

-- The id is allocated before the order is validated, and stays allocated if that fails.
unfoldable pub submit_new : OrderStore → CreateOrder → Result OrderError SubmitOutcome × OrderStore
submit_new s req =
    if ltb (s.next_id + 1) u64_limit
    then (let s' = record s { next_id = s.next_id + 1 } in
        elim (pending_for req (s.next_id + 1)) [
          | err e ↦ (err e, s')
          | ok order ↦ (
            ok (SubmitOutcome.created order),
            record_created s' (request_key req) (s.next_id + 1) order,
          )
        ])
    else (err OrderError.invalid_quantity, s)

unfoldable pub submit : OrderStore → CreateOrder → Result OrderError SubmitOutcome × OrderStore
submit s req = elim (get (request_key req) s.by_client) [
  | none ↦ submit_new s req
  | some id ↦ elim (get id s.orders) [
    | none ↦ (err (OrderError.unknown_order id), s)
    | some order ↦ (ok (SubmitOutcome.duplicate order), s)
  ]
]

unfoldable pub apply_event :
    OrderStore → OrderId → OrderEvent → Result OrderError (Order × List DomainEffect) × OrderStore
apply_event s id event = elim (get id s.orders) [
  | none ↦ (err (OrderError.unknown_order id), s)
  | some current ↦ elim (apply current event) [
    | err e ↦ (err e, s)
    | ok r ↦ (
      ok r,
      record s {
        event_log = s.event_log ++ (id, LoggedEvent.applied event) ∷ [];
        orders = insert id r.0 s.orders;
      },
    )
  ]
]

abbrev pub max_id : ℕ → ℕ → ℕ
max_id a b = if leb a b then b else a

-- Removes the row that the client key pointed to, if it is another one.
abbrev pub drop_replaced : Option OrderId → OrderId → Map OrderId Order → Map OrderId Order
drop_replaced none id orders = orders
drop_replaced (some old_id) id orders = if old_id == id then orders else remove old_id orders

unfoldable pub restore_order : OrderStore → Order → OrderStore
restore_order s order = record s {
  by_client = insert (order_key order) order.id s.by_client;
  orders =
      insert order.id order (drop_replaced (get (order_key order) s.by_client) order.id s.orders);
  next_id = max_id s.next_id order.id;
}

unfoldable pub bump_next_id_past : OrderStore → ℕ → OrderStore
bump_next_id_past s min_id = record s { next_id = max_id s.next_id min_id }
