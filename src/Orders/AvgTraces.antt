-- ===== src/Orders/AvgTraces.antt =====
-- The average price over any list of events.
use shinrai_trade.Common.{
  ℕ, ◌≤◌, ◌≡◌, arith, ok, Bool, List, [], ◌∷◌, Result-cases, inl, inr, ◌⊎◌, Option, none, some, All,
}
use shinrai_trade.Common.Int.{ℤ, pos, negsuc, pos_part, ◌≤ℤ◌, i64_limit, Fits}
use shinrai_trade.Orders.Status.{ExecId, OrderEvent, DomainEffect, PriceTicks}
use shinrai_trade.Orders.Aggregate.{Order, apply_trade, apply_replaced}
use shinrai_trade.Orders.Transition.{apply, dispatch}
use shinrai_trade.Orders.Invariant.{IsValid, EventFits, AvgFits}
use shinrai_trade.Orders.AvgPx.{avg_part, avg_bounds}
use shinrai_trade.Orders.Preserve.{apply-IsValid, apply_trade_guards, apply_trade_inv}
use shinrai_trade.Orders.Graph.{apply-dispatch}
use shinrai_trade.Orders.Traces.{drive}

module _ (lo hi : ℕ) where
  abbrev pub AvgWithin : Option PriceTicks → Type 0
  AvgWithin none = Unit
  AvgWithin (some px) = (pos lo ≤ℤ px) × (px ≤ℤ pos hi)

  abbrev pub PricedWithin : OrderEvent → Type 0
  PricedWithin (OrderEvent.trade _ _ price) = (pos lo ≤ℤ price) × (price ≤ℤ pos hi)
  PricedWithin _ = Unit

  AvgWithin-parts :
      (avg : Option PriceTicks) (cum : ℤ)
      → AvgFits avg cum
      → AvgWithin avg
      → ((pos_part cum ≡ 0) ⊎ (lo ≤ avg_part avg)) × ((pos_part cum ≡ 0) ⊎ (avg_part avg ≤ hi))
  AvgWithin-parts none cum f w = ground arith
  AvgWithin-parts (some (pos a)) cum f w = ground arith
  AvgWithin-parts (some (negsuc a)) cum f w = ground arith

  apply_trade-AvgWithin :
      (o : Order) (exec_id : ExecId) (q p : ℤ) (r : Order × Bool)
      → IsValid o
      → Fits i64_limit p
      → (pos lo ≤ℤ p) × (p ≤ℤ pos hi)
      → AvgWithin o.avg_px
      → apply_trade o exec_id q p ≡ ok r
      → AvgWithin r.0.avg_px
  apply_trade-AvgWithin o exec_id (pos q) (pos p) r v f within w e =
      let (fresh, hq, hl, hp) = apply_trade_guards o exec_id (pos q) (pos p) r e in
      let (above, below) = AvgWithin-parts o.avg_px o.cum_qty v.avg_fits w in
      rw (apply_trade_inv o exec_id q p r v f.0 e) (
        omega (
          arith,
          avg_bounds o.avg_px o.cum_qty q p lo hi v.avg_fits (omega arith) above below (omega arith)
              (omega arith),
        ))
  apply_trade-AvgWithin o exec_id (negsuc q) p r v f within w e =
      absurd (omega (arith, apply_trade_guards o exec_id (negsuc q) p r e))
  apply_trade-AvgWithin o exec_id (pos q) (negsuc p) r v f within w e =
      absurd (omega (arith, apply_trade_guards o exec_id (pos q) (negsuc p) r e))

  dispatch-AvgWithin :
      (o : Order) (event : OrderEvent) (r : Order × List DomainEffect)
      → IsValid o
      → EventFits event
      → PricedWithin event
      → AvgWithin o.avg_px
      → dispatch o.status event o ≡ ok r
      → AvgWithin r.0.avg_px
  unfolding dispatch
  dispatch-AvgWithin o (OrderEvent.accepted _) r v f within w e = ground arith
  dispatch-AvgWithin o (OrderEvent.trade exec_id q p) r v f within w e =
      elim (Result-cases (apply_trade o exec_id q p)) [
        | inl (done, h) ↦ ground (arith, apply_trade-AvgWithin o exec_id q p done v f.1 within w h)
        | inr (failed, h) ↦ ground arith
      ]
  dispatch-AvgWithin o (OrderEvent.replaced q p) r v f within w e =
      unfold apply_replaced in ground arith
  dispatch-AvgWithin o _ r v f within w e = ground arith

  -- Over any list of events with `i64` quantities on a valid order, refused ones being
  -- skipped, the average price, if there is one, stays between two bounds that it and all
  -- trade prices are within.
  pub drive-AvgWithin :
      (o : Order) (events : List OrderEvent)
      → IsValid o
      → All EventFits events
      → All PricedWithin events
      → AvgWithin o.avg_px
      → AvgWithin (drive o events).0.avg_px
  unfolding drive
  drive-AvgWithin o [] v f within w = w
  drive-AvgWithin o (event ∷ events) v f within w = elim (Result-cases (apply o event)) [
    | inl (r, h) ↦ rw h (
        drive-AvgWithin r.0 events (apply-IsValid o event r v f.0 h) f.1 within.1
          (dispatch-AvgWithin o event r v f.0 within.0 w (apply-dispatch o event r h)))
    | inr (failed, h) ↦ rw h (drive-AvgWithin o events v f.1 within.1 w)
  ]
