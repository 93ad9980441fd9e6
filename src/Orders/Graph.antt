-- ===== src/Orders/Graph.antt =====
-- The transition diagram of the order status, with the quantities left out, and the table of
-- the events that each status admits.
use shinrai_trade.Common.{
  ◌↔◌, Bool-cases, ◌≡◌, ◌≢◌, Option, arith, ok, err, Bool, true, false, List, Result-cases, String,
  inl, inr,
}
use shinrai_trade.Common.Int.{ℤ, ◌+ℤ◌}
use shinrai_trade.Orders.Status.{
  ExecId, OrderStatus, OrderEvent, OrderError, DomainEffect, is_working, event_name,
}
use shinrai_trade.Orders.Aggregate.{Order, next_avg, apply_trade, apply_replaced, assert_invariants}
use shinrai_trade.Orders.Transition.{apply, dispatch}

infix 40 ◌⟶◌
pub data ◌⟶◌ : OrderStatus → OrderStatus → Type 0 where
  acknowledge : OrderStatus.pending_new ⟶ OrderStatus.new
  refuse : OrderStatus.pending_new ⟶ OrderStatus.rejected
  fill_part : {s : OrderStatus} → is_working s ≡ true → s ⟶ OrderStatus.partially_filled
  fill_rest : {s : OrderStatus} → is_working s ≡ true → s ⟶ OrderStatus.filled
  ask_cancel : {s : OrderStatus} → is_working s ≡ true → s ⟶ OrderStatus.pending_cancel
  ask_replace : {s : OrderStatus} → is_working s ≡ true → s ⟶ OrderStatus.pending_replace
  lapse : {s : OrderStatus} → is_working s ≡ true → s ⟶ OrderStatus.expired
  venue_cancel : {s : OrderStatus} → is_working s ≡ true → s ⟶ OrderStatus.canceled
  confirm_cancel : OrderStatus.pending_cancel ⟶ OrderStatus.canceled
  replace_unfilled : OrderStatus.pending_replace ⟶ OrderStatus.new
  replace_open : OrderStatus.pending_replace ⟶ OrderStatus.partially_filled
  replace_done : OrderStatus.pending_replace ⟶ OrderStatus.filled

ruleset edges = (
  acknowledge, refuse, fill_part, fill_rest, ask_cancel, ask_replace, lapse, venue_cancel,
  confirm_cancel, replace_unfilled, replace_open, replace_done,
)

-- What `apply` accepts is what the match on status and event made.
pub apply-dispatch :
    (o : Order) (event : OrderEvent) (r : Order × List DomainEffect)
    → apply o event ≡ ok r
    → dispatch o.status event o ≡ ok r
unfolding apply
apply-dispatch o event r e = elim (Result-cases (dispatch o.status event o)) [
  | inl (done, h) ↦ ground (arith, Result-cases (assert_invariants done.0))
  | inr (failed, h) ↦ ground arith
]

dispatch-⟶ :
    (o : Order) (event : OrderEvent) (r : Order × List DomainEffect)
    → dispatch o.status event o ≡ ok r
    → o.status ⟶ r.0.status
unfolding dispatch apply_trade apply_replaced
dispatch-⟶ o (OrderEvent.accepted _) r e = grind (arith, edges)
dispatch-⟶ o _ r e = grind (arith, edges)

-- An event that an order accepts moves its status along an edge of the transition diagram.
pub apply-⟶ :
    (o : Order) (event : OrderEvent) (r : Order × List DomainEffect)
    → apply o event ≡ ok r
    → o.status ⟶ r.0.status
apply-⟶ o event r e = dispatch-⟶ o event r (apply-dispatch o event r e)

-- The events that a status admits.
abbrev pub admits : OrderStatus → OrderEvent → Bool
admits OrderStatus.pending_new (OrderEvent.accepted _) = true
admits OrderStatus.pending_new (OrderEvent.rejected _) = true
admits OrderStatus.pending_cancel OrderEvent.canceled = true
admits OrderStatus.pending_replace (OrderEvent.replaced _ _) = true
admits status (OrderEvent.trade _ _ _) = is_working status
admits status OrderEvent.cancel_requested = is_working status
admits status OrderEvent.canceled = is_working status
admits status (OrderEvent.replace_requested _ _) = is_working status
admits status OrderEvent.expired = is_working status
admits _ _ = false

apply_illegal :
    (o : Order) (event : OrderEvent)
    → admits o.status event ≡ false
    → apply o event ≡ err (OrderError.illegal_transition o.status (event_name event))
unfolding apply dispatch
apply_illegal o (OrderEvent.accepted _) h = ground arith
apply_illegal o _ h = ground arith

abbrev is_illegal : OrderError → Bool
is_illegal (OrderError.illegal_transition _ _) = true
is_illegal _ = false

next_avg_error :
    (avg : Option ℤ) (cum q p n : ℤ) (e : OrderError)
    → next_avg avg cum q p n ≡ err e
    → is_illegal e ≡ false
unfolding next_avg
next_avg_error avg cum q p n e h = ground arith

apply_trade_error :
    (o : Order) (exec_id : ExecId) (q p : ℤ) (e : OrderError)
    → apply_trade o exec_id q p ≡ err e
    → is_illegal e ≡ false
unfolding apply_trade
apply_trade_error o exec_id q p e h =
    ground (arith, next_avg_error o.avg_px o.cum_qty q p (o.cum_qty +ℤ q) e)

apply_replaced_error :
    (o : Order) (q p : ℤ) (e : OrderError) → apply_replaced o q p ≡ err e → is_illegal e ≡ false
unfolding apply_replaced
apply_replaced_error o q p e h = ground arith

assert_invariants_error :
    (o : Order) (e : OrderError) → assert_invariants o ≡ err e → is_illegal e ≡ false
unfolding assert_invariants
assert_invariants_error o e h = ground arith

dispatch_legal :
    (o : Order) (event : OrderEvent) (e : OrderError)
    → admits o.status event ≡ true
    → dispatch o.status event o ≡ err e
    → is_illegal e ≡ false
unfolding dispatch
dispatch_legal o (OrderEvent.accepted _) e a h = ground arith
dispatch_legal o (OrderEvent.trade exec_id q p) e a h =
    ground (arith, apply_trade_error o exec_id q p e)
dispatch_legal o (OrderEvent.replaced q p) e a h = ground (arith, apply_replaced_error o q p e)
dispatch_legal o _ e a h = ground arith

-- An admitted event is never refused as an illegal transition.
apply_legal :
    (o : Order) (event : OrderEvent) (s : OrderStatus) (name : String)
    → admits o.status event ≡ true
    → apply o event ≢ err (OrderError.illegal_transition s name)
unfolding apply
apply_legal o event s name a h = elim (Result-cases (dispatch o.status event o)) [
  | inl (r, made) ↦
      ground (arith, assert_invariants_error r.0 (OrderError.illegal_transition s name))
  | inr (failed, made) ↦ ground (arith, dispatch_legal o event failed a made)
]

-- The events that are refused as illegal transitions of the order's status are exactly those
-- that the table does not admit: a terminal order refuses every event so.
pub apply-admits :
    (o : Order) (event : OrderEvent)
    → (apply o event ≡ err (OrderError.illegal_transition o.status (event_name event)))
      ↔ (admits o.status event ≡ false)
apply-admits o event = (
  λ h. elim (Bool-cases (admits o.status event)) [
    | inl legal ↦ absurd (apply_legal o event o.status (event_name event) legal h)
    | inr refused ↦ refused
  ],
  apply_illegal o event,
)
