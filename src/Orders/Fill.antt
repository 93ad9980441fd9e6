-- ===== src/Orders/Fill.antt =====
-- A trade on a valid order: what it makes of the order, and when it is refused.
use shinrai_trade.Common.{ℕ, ◌<◌, ◌≡◌, some, arith, ok, false, ◌++◌, ◌∷◌, [], if◌then◌else◌}
use shinrai_trade.Common.Int.{
  pos, pos_part, ◌+ℤ◌, ◌-ℤ◌, ◌≤ℤ◌, i64_limit, eqb_ℤ, +ℤ_parts, -ℤ_parts, one_part, eq_of_parts,
}
use shinrai_trade.Orders.Status.{OrderStatus, ExecId}
use shinrai_trade.Orders.Aggregate.{Order, apply_trade, has_exec}
use shinrai_trade.Orders.Invariant.{IsValid}
use shinrai_trade.Orders.AvgPx.{blend, avg_part, next_avg_total}

-- The order after a fill of `q` lots at price `p`.
abbrev pub with_fill : Order → ExecId → ℕ → ℕ → Order
with_fill o exec_id q p = record o {
  cum_qty = o.cum_qty +ℤ pos q;
  leaves_qty = o.leaves_qty -ℤ pos q;
  avg_px = some (pos (blend (avg_part o.avg_px) (pos_part o.cum_qty) p q));
  seen_execs = o.seen_execs ++ exec_id ∷ [];
  status =
      if eqb_ℤ (o.leaves_qty -ℤ pos q) (pos 0)
      then OrderStatus.filled
      else OrderStatus.partially_filled;
}

-- A trade on a valid order with a new execution id, a positive quantity of at most the open
-- one and a positive `i64` price succeeds: no step overflows, the filled and open quantities
-- move by the trade, the average price is the weighted one rounded down, and the answer tells
-- whether nothing is left open.
pub apply_trade_total :
    (o : Order) (exec_id : ExecId) (q p : ℕ)
    → IsValid o
    → has_exec o exec_id ≡ false
    → 0 < q
    → pos q ≤ℤ o.leaves_qty
    → 0 < p
    → p < i64_limit
    → apply_trade o exec_id (pos q) (pos p)
      ≡ ok (with_fill o exec_id q p, eqb_ℤ (o.leaves_qty -ℤ pos q) (pos 0))
unfolding apply_trade
apply_trade_total o exec_id q p v fresh hq hl hp fp = ground (
  arith,
  +ℤ_parts o.cum_qty (pos q),
  +ℤ_parts o.cum_qty o.leaves_qty,
  -ℤ_parts o.order_qty (o.cum_qty +ℤ pos q),
  -ℤ_parts o.leaves_qty (pos q),
  one_part o.cum_qty,
  one_part (o.cum_qty +ℤ pos q),
  one_part (o.order_qty -ℤ (o.cum_qty +ℤ pos q)),
  eq_of_parts (o.order_qty -ℤ (o.cum_qty +ℤ pos q)) (o.leaves_qty -ℤ pos q),
  next_avg_total o.avg_px o.cum_qty q p,
)
