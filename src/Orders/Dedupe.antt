-- ===== src/Orders/Dedupe.antt =====
-- An execution id is settled at most once in the life of an order.
use shinrai_trade.Common.{
  ◌≡◌, ◌∙◌, ap, arith, ok, false, List, [], ◌∷◌, ◌++◌, Result-cases, inl, inr, ◌==◌, string_eq,
  ◌||◌,
}
use mathlib.Core.Path.{subst}
use text.Mathlib.TextEquality.{eq_iff}
use shinrai_trade.Orders.Status.{ExecId, OrderEvent, DomainEffect}
use shinrai_trade.Orders.Aggregate.{Order, mem_exec, apply_trade, apply_replaced}
use shinrai_trade.Orders.Transition.{apply, dispatch}
use shinrai_trade.Orders.Graph.{apply-dispatch}
use shinrai_trade.Orders.Traces.{drive, drive_fills, traded_execs}

abbrev pub Distinct : List ExecId → Type 0
Distinct [] = Unit
Distinct (e ∷ es) = (mem_exec e es ≡ false) × Distinct es

mem_exec-snoc :
    (e f : ExecId) (es : List ExecId) → mem_exec e (es ++ f ∷ []) ≡ (mem_exec e es || (f == e))
mem_exec-snoc e f [] = ground arith
mem_exec-snoc e f (x ∷ es) = ground (arith, mem_exec-snoc e f es)

Distinct-snoc :
    (e : ExecId) (es : List ExecId) → Distinct es → mem_exec e es ≡ false → Distinct (es ++ e ∷ [])
Distinct-snoc e [] d fresh = ground arith
Distinct-snoc e (x ∷ es) d fresh =
    ground (arith, Distinct-snoc e es d.1, mem_exec-snoc x e es, eq_iff e x, eq_iff x e)

dispatch-Distinct :
    (o : Order) (event : OrderEvent) (r : Order × List DomainEffect)
    → Distinct o.seen_execs
    → dispatch o.status event o ≡ ok r
    → Distinct r.0.seen_execs
unfolding dispatch apply_trade apply_replaced
dispatch-Distinct o (OrderEvent.accepted _) r d e = ground arith
dispatch-Distinct o (OrderEvent.trade exec_id q p) r d e =
    ground (arith, Distinct-snoc exec_id o.seen_execs d)
dispatch-Distinct o _ r d e = ground arith

drive-Distinct :
    (o : Order) (events : List OrderEvent)
    → Distinct o.seen_execs
    → Distinct (drive o events).0.seen_execs
unfolding drive
drive-Distinct o [] d = d
drive-Distinct o (event ∷ events) d = elim (Result-cases (apply o event)) [
  | inl (r, h) ↦
      rw h (drive-Distinct r.0 events (dispatch-Distinct o event r d (apply-dispatch o event r h)))
  | inr (failed, h) ↦ rw h (drive-Distinct o events d)
]

-- Whatever events reach an order that has seen no execution, refused ones being skipped, the
-- execution ids of the trades that took effect are pairwise distinct.
pub no_double_fill :
    (o : Order) (events : List OrderEvent)
    → o.seen_execs ≡ []
    → Distinct (traded_execs (drive o events).1)
no_double_fill o events none_yet =
    subst Distinct
      ((drive_fills o events).1 ∙ ap (λ es. es ++ traded_execs (drive o events).1) none_yet)
      (drive-Distinct o events (rw none_yet tt))
