-- ===== src/Orders/Preserve.antt =====
-- Every accepted event keeps an order valid.
use shinrai_trade.Common.{
  ℕ, ◌<◌, ◌≤◌, ◌≡◌, sym, ◌∙◌, Option, none, some, arith, ok, Bool, true, false, List, ◌⊎◌, inl, inr,
  Result-cases,
}
use shinrai_trade.Common.Int.{
  ℤ, pos, negsuc, pos_part, ◌+ℤ◌, ◌-ℤ◌, ◌≤ℤ◌, ◌<ℤ◌, Fits, i64_limit, +ℤ_parts, -ℤ_parts, one_part,
  eq_of_parts,
}
use shinrai_trade.Orders.Status.{
  OrderEvent, DomainEffect, ExecId, PriceTicks, QuantityLots, is_working,
}
use shinrai_trade.Orders.Aggregate.{Order, apply_trade, apply_replaced, has_exec}
use shinrai_trade.Orders.Transition.{apply, dispatch}
use shinrai_trade.Orders.Invariant.{
  IsValid, AvgFits, EventFits, wrap_fits, assert_invariants-IsValid,
}
use shinrai_trade.Orders.AvgPx.{avg_part, avg_bounds}
use shinrai_trade.Orders.Fill.{with_fill, apply_trade_total}

avg_part_range :
    (avg : Option PriceTicks) (cum : ℤ)
    → AvgFits avg cum
    → pos 0 ≤ℤ cum
    → ((pos_part cum ≡ 0) ⊎ (1 ≤ avg_part avg)) × (avg_part avg ≤ 9223372036854775807)
avg_part_range none cum h c = ground arith
avg_part_range (some (pos n)) cum h c = ground arith
avg_part_range (some (negsuc n)) cum h c = ground arith

with_fill-IsValid :
    (o : Order) (exec_id : ExecId) (q p : ℕ)
    → IsValid o
    → is_working o.status ≡ true
    → 0 < q
    → pos q ≤ℤ o.leaves_qty
    → 0 < p
    → p < i64_limit
    → IsValid (with_fill o exec_id q p)
with_fill-IsValid o exec_id q p v w hq hl hp fp =
    let (low, high) = avg_part_range o.avg_px o.cum_qty v.avg_fits v.cum_nonneg in
    let (above, below) =
      avg_bounds o.avg_px o.cum_qty q p 1 9223372036854775807 v.avg_fits hq low (inr high) hp
        (omega arith) in
    ground (
      arith,
      +ℤ_parts o.cum_qty (pos q),
      -ℤ_parts o.leaves_qty (pos q),
      +ℤ_parts o.cum_qty o.leaves_qty,
      +ℤ_parts (o.cum_qty +ℤ pos q) (o.leaves_qty -ℤ pos q),
      eq_of_parts (o.cum_qty +ℤ pos q +ℤ (o.leaves_qty -ℤ pos q)) o.order_qty,
    )

-- The guards that an accepted trade has passed.
pub apply_trade_guards :
    (o : Order) (exec_id : ExecId) (qty : QuantityLots) (price : PriceTicks) (r : Order × Bool)
    → apply_trade o exec_id qty price ≡ ok r
    → (has_exec o exec_id ≡ false) × (pos 0 <ℤ qty) × (qty ≤ℤ o.leaves_qty) × (pos 0 <ℤ price)
unfolding apply_trade
apply_trade_guards o exec_id qty price r e = ground arith

-- An accepted trade on a valid order makes exactly `with_fill`.
pub apply_trade_inv :
    (o : Order) (exec_id : ExecId) (q p : ℕ) (r : Order × Bool)
    → IsValid o
    → p < i64_limit
    → apply_trade o exec_id (pos q) (pos p) ≡ ok r
    → r.0 ≡ with_fill o exec_id q p
apply_trade_inv o exec_id q p r v fp e =
    let (fresh, hq, hl, hp) = apply_trade_guards o exec_id (pos q) (pos p) r e in
    cc (apply_trade_total o exec_id q p v fresh (omega arith) hl (omega arith) fp)

apply_trade-IsValid :
    (o : Order) (exec_id : ExecId) (qty : QuantityLots) (price : PriceTicks) (r : Order × Bool)
    → IsValid o
    → is_working o.status ≡ true
    → Fits i64_limit price
    → apply_trade o exec_id qty price ≡ ok r
    → IsValid r.0
apply_trade-IsValid o exec_id (pos q) (pos p) r v w fp e =
    let (fresh, hq, hl, hp) = apply_trade_guards o exec_id (pos q) (pos p) r e in
    rw (apply_trade_inv o exec_id q p r v fp.0 e)
      (with_fill-IsValid o exec_id q p v w (omega arith) hl (omega arith) fp.0)
apply_trade-IsValid o exec_id (negsuc q) price r v w fp e =
    absurd (omega (arith, apply_trade_guards o exec_id (negsuc q) price r e))
apply_trade-IsValid o exec_id (pos q) (negsuc p) r v w fp e =
    absurd (omega (arith, apply_trade_guards o exec_id (pos q) (negsuc p) r e))

apply_replaced-IsValid :
    (o : Order) (qty : QuantityLots) (price : PriceTicks) (o' : Order)
    → IsValid o
    → Fits i64_limit qty
    → apply_replaced o qty price ≡ ok o'
    → IsValid o'
unfolding apply_replaced
apply_replaced-IsValid o qty price o' v fq e = ground (
  arith,
  -ℤ_parts qty o.cum_qty,
  +ℤ_parts o.cum_qty (qty -ℤ o.cum_qty),
  +ℤ_parts o.cum_qty o.leaves_qty,
  one_part o.cum_qty,
  one_part (qty -ℤ o.cum_qty),
  wrap_fits (qty -ℤ o.cum_qty),
  eq_of_parts (o.cum_qty +ℤ (qty -ℤ o.cum_qty)) qty,
  eq_of_parts o.cum_qty (pos 0),
)

dispatch-IsValid :
    (o : Order) (event : OrderEvent) (r : Order × List DomainEffect)
    → IsValid o
    → EventFits event
    → dispatch o.status event o ≡ ok r
    → IsValid r.0
unfolding dispatch
dispatch-IsValid o (OrderEvent.accepted _) r v f e = ground arith
dispatch-IsValid o (OrderEvent.trade exec_id qty price) r v f e =
    elim (Result-cases (apply_trade o exec_id qty price)) [
      | inl (done, h) ↦ ground (arith, apply_trade-IsValid o exec_id qty price done)
      | inr (failed, h) ↦ ground arith
    ]
dispatch-IsValid o (OrderEvent.replaced qty price) r v f e =
    elim (Result-cases (apply_replaced o qty price)) [
      | inl (done, h) ↦ ground (arith, apply_replaced-IsValid o qty price done)
      | inr (failed, h) ↦ ground arith
    ]
dispatch-IsValid o _ r v f e = ground (arith, +ℤ_parts o.cum_qty o.leaves_qty)

-- On a valid order and an event with `i64` quantities, the closing invariant check of `apply`
-- never refuses: `apply` is the match on status and event alone.
pub apply-eq-dispatch :
    (o : Order) (event : OrderEvent)
    → IsValid o
    → EventFits event
    → apply o event ≡ dispatch o.status event o
unfolding apply
apply-eq-dispatch o event v f = elim (Result-cases (dispatch o.status event o)) [
  | inl (r, h) ↦ rw (h, assert_invariants-IsValid r.0 (dispatch-IsValid o event r v f h))
  | inr (failed, h) ↦ rw h
]

-- Applying an event whose quantities are `i64` values to a valid order, where it succeeds,
-- gives a valid order: its filled and open quantities are not negative and add up to the order
-- quantity, its status agrees with them, and it has a positive average price just if it has
-- fills.
pub apply-IsValid :
    (o : Order) (event : OrderEvent) (r : Order × List DomainEffect)
    → IsValid o
    → EventFits event
    → apply o event ≡ ok r
    → IsValid r.0
apply-IsValid o event r v f e =
    dispatch-IsValid o event r v f (sym (apply-eq-dispatch o event v f) ∙ e)
