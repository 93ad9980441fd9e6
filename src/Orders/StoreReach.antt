-- ===== src/Orders/StoreReach.antt =====
-- The life of a store: any interleaving of its operations, from the empty store.
use shinrai_trade.Common.{arith}
use shinrai_trade.Common.Int.{Fits, i64_limit}
use shinrai_trade.Orders.Status.{OrderId, OrderEvent}
use shinrai_trade.Orders.Aggregate.{Order}
use shinrai_trade.Orders.Invariant.{IsValid, EventFits}
use shinrai_trade.Orders.Store.{
  OrderStore, CreateOrder, empty_store, submit, apply_event, restore_order, bump_next_id_past,
}
use shinrai_trade.Orders.StoreInvariant.{
  IsConsistent, empty_store-IsConsistent, submit-IsConsistent, apply_event-IsConsistent,
  raise_next_id-IsConsistent,
}
use shinrai_trade.Orders.StoreLaws.{KeepsKey, restore_order-IsConsistent}
use Prim.Native.Nat.{ℕ}

pub data StoreStep (s : OrderStore) : OrderStore → Type 0 where
  submits : (req : CreateOrder) → Fits i64_limit req.order_qty → StoreStep s (submit s req).1
  applies :
      (id : OrderId) (event : OrderEvent) → EventFits event → StoreStep s (apply_event s id event).1
  restores :
      (order : Order) → IsValid order → KeepsKey s order → StoreStep s (restore_order s order)
  bumps : (min_id : ℕ) → StoreStep s (bump_next_id_past s min_id)

pub data Reach : OrderStore → Type 0 where
  start : Reach empty_store
  then : {s t : OrderStore} → Reach s → StoreStep s t → Reach t

StoreStep-IsConsistent : {s t : OrderStore} → StoreStep s t → IsConsistent s → IsConsistent t
unfolding bump_next_id_past
StoreStep-IsConsistent (submits req f) c = submit-IsConsistent _ req c f
StoreStep-IsConsistent (applies id event f) c = apply_event-IsConsistent _ id event c f
StoreStep-IsConsistent (restores order v keeps) c = restore_order-IsConsistent _ order c v keeps
StoreStep-IsConsistent (bumps min_id) c = raise_next_id-IsConsistent _ _ c (ground arith)

-- After any sequence of submissions, events, restored rows that keep their client key, and id
-- bumps, with `i64` quantities and valid restored orders, the store is consistent: each row is
-- valid, stands under its own id, which is at most the last allocated one, and is the row of
-- its client key, and each client key leads to a row with that key.
pub Reach-IsConsistent : {s : OrderStore} → Reach s → IsConsistent s
Reach-IsConsistent start = empty_store-IsConsistent
Reach-IsConsistent (then r step) = StoreStep-IsConsistent step (Reach-IsConsistent r)
