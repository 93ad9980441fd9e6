-- ===== src/Orders/Traces.antt =====
-- What holds of an order over any list of events, those refused being skipped, as a caller of
-- `apply` that keeps the old order on an error does.
use shinrai_trade.Common.{
  ◌≡◌, refl, sym, ◌∙◌, ap, arith, Result, ok, err, List, [], ◌∷◌, ◌++◌, Result-cases, inl, inr, All,
}
use shinrai_trade.Common.Int.{ℤ, pos, ◌+ℤ◌, +ℤ-zero, zero-+ℤ, +ℤ_assoc}
use shinrai_trade.Orders.Status.{ExecId, OrderError, OrderEvent, DomainEffect}
use shinrai_trade.Orders.Aggregate.{Order, apply_trade, apply_replaced}
use shinrai_trade.Orders.Transition.{apply, dispatch}
use shinrai_trade.Orders.Invariant.{IsValid, EventFits}
use shinrai_trade.Orders.Preserve.{apply-IsValid}
use shinrai_trade.Orders.Graph.{apply-dispatch}
use mathlib.Core.List.{append_assoc, append-nil}

-- One event: the new order and the effects, or the old order and none.
abbrev settle : Order → Result OrderError (Order × List DomainEffect) → Order × List DomainEffect
settle o (ok r) = r
settle o (err e) = (o, [])

unfoldable pub drive : Order → List OrderEvent → Order × List DomainEffect
drive o [] = (o, [])
drive o (event ∷ events) =
    let (o', effects) = settle o (apply o event) in
    let (o'', more) = drive o' events in (o'', effects ++ more)

drive-IsValid :
    (o : Order) (events : List OrderEvent)
    → IsValid o
    → All EventFits events
    → IsValid (drive o events).0
unfolding drive
drive-IsValid o [] v f = v
drive-IsValid o (event ∷ events) v f = elim (Result-cases (apply o event)) [
  | inl (r, h) ↦ rw h (drive-IsValid r.0 events (apply-IsValid o event r v f.0 h) f.1)
  | inr (failed, h) ↦ rw h (drive-IsValid o events v f.1)
]

-- The lots and the execution ids of the trades among some effects.
abbrev pub traded : List DomainEffect → ℤ
traded [] = pos 0
traded (DomainEffect.trade _ qty _ _ ∷ effects) = qty +ℤ traded effects
traded (_ ∷ effects) = traded effects

abbrev pub traded_execs : List DomainEffect → List ExecId
traded_execs [] = []
traded_execs (DomainEffect.trade exec_id _ _ _ ∷ effects) = exec_id ∷ traded_execs effects
traded_execs (_ ∷ effects) = traded_execs effects

traded-append : (xs ys : List DomainEffect) → traded (xs ++ ys) ≡ traded xs +ℤ traded ys
traded-append [] ys = sym (zero-+ℤ (traded ys))
traded-append (DomainEffect.trade e q p f ∷ xs) ys =
    rw (traded-append xs ys) (sym (+ℤ_assoc q (traded xs) (traded ys)))
traded-append (_ ∷ xs) ys = traded-append xs ys

traded_execs-append :
    (xs ys : List DomainEffect) → traded_execs (xs ++ ys) ≡ traded_execs xs ++ traded_execs ys
traded_execs-append [] ys = refl
traded_execs-append (DomainEffect.trade e q p f ∷ xs) ys = rw (traded_execs-append xs ys)
traded_execs-append (_ ∷ xs) ys = traded_execs-append xs ys

-- What one accepted event does to the fills of the order.
dispatch_fills :
    (o : Order) (event : OrderEvent) (r : Order × List DomainEffect)
    → dispatch o.status event o ≡ ok r
    → (r.0.cum_qty ≡ o.cum_qty +ℤ traded r.1) × (r.0.seen_execs ≡ o.seen_execs ++ traded_execs r.1)
unfolding dispatch apply_trade apply_replaced
dispatch_fills o (OrderEvent.accepted _) r e =
    ground (arith, +ℤ-zero o.cum_qty, append-nil o.seen_execs)
dispatch_fills o (OrderEvent.trade exec_id q p) r e = ground (arith, +ℤ-zero q)
dispatch_fills o _ r e = ground (arith, +ℤ-zero o.cum_qty, append-nil o.seen_execs)

-- Over any list of events, refused ones being skipped, the filled quantity grows by exactly
-- the quantities of the trade effects, and the seen executions by exactly their ids, in order.
pub drive_fills :
    (o : Order) (events : List OrderEvent)
    → let (o', effects) = drive o events in
      (o'.cum_qty ≡ o.cum_qty +ℤ traded effects)
      × (o'.seen_execs ≡ o.seen_execs ++ traded_execs effects)
unfolding drive
drive_fills o [] = (sym (+ℤ-zero o.cum_qty), sym (append-nil o.seen_execs))
drive_fills o (event ∷ events) = elim (Result-cases (apply o event)) [
  | inl (r, h) ↦
      let (lots, ids) = dispatch_fills o event r (apply-dispatch o event r h) in
      let (rest, rest_ids) = drive_fills r.0 events in
      rw (h, traded-append, traded_execs-append)
        (
          rest
              ∙ ap (λ a. a +ℤ traded (drive r.0 events).1) lots
              ∙ +ℤ_assoc o.cum_qty (traded r.1) (traded (drive r.0 events).1),
          rest_ids
              ∙ ap (λ a. a ++ traded_execs (drive r.0 events).1) ids
              ∙ append_assoc o.seen_execs (traded_execs r.1) (traded_execs (drive r.0 events).1),
        )
  | inr (failed, h) ↦ rw h (drive_fills o events)
]
