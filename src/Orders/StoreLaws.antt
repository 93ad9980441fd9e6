-- ===== src/Orders/StoreLaws.antt =====
-- The contract of the order store: idempotent submission, atomic events, and restoring rows.
use mathlib.Core.Path.{subst, subst₂}
use shinrai_trade.Common.{
  ℕ, ◌+◌, ◌≤◌, ◌≡◌, ◌≢◌, refl, sym, ◌∙◌, ap, inl, inr, Option, none, some, arith, ok, err,
  Result-cases, nat_eq, string_eq, pair_eq, ◌==◌, ltb, Bool-cases, eq_of_beq,
}
use shinrai_trade.Common.Maps.{
  Map, get, get-insert_self, get-insert_ne, get-insert_inv, get-remove_ne, get-remove_inv,
}
use shinrai_trade.Orders.Status.{OrderEvent, OrderError, OrderId}
use shinrai_trade.Orders.Aggregate.{Order}
use shinrai_trade.Orders.Invariant.{IsValid}
use shinrai_trade.Orders.Store.{
  OrderStore, CreateOrder, SubmitOutcome, request_key, order_key, pending_for, submit, submit_new,
  apply_event, restore_order, max_id, drop_replaced, record_created, u64_limit, get_by_client,
}
use shinrai_trade.Orders.StoreInvariant.{IsConsistent, RowFits, Indexed}

submit_new_inv :
    (s s' : OrderStore) (req : CreateOrder) (o : Order)
    → submit_new s req ≡ (ok (SubmitOutcome.created o), s')
    → (pending_for req (s.next_id + 1) ≡ ok o)
      × (s'
          ≡ record_created
              (record s { next_id = s.next_id + 1 })
              (request_key req)
              (s.next_id + 1)
              o)
unfolding submit_new
submit_new_inv s s' req o h = elim (Bool-cases (ltb (s.next_id + 1) u64_limit)) [
  | inr full ↦ ground arith
  | inl room ↦ elim (Result-cases (pending_for req (s.next_id + 1))) [
    | inl (p, made) ↦ ground arith
    | inr (failed, refused) ↦ ground arith
  ]
]

submit_inv :
    (s s' : OrderStore) (req : CreateOrder) (o : Order)
    → submit s req ≡ (ok (SubmitOutcome.created o), s')
    → submit_new s req ≡ (ok (SubmitOutcome.created o), s')
unfolding submit
submit_inv s s' req o h = ground arith

-- After a submission that created an order, a second one under the same account and client id
-- answers with that order as a duplicate, and changes nothing.
pub submit_again :
    (s s' : OrderStore) (req again : CreateOrder) (o : Order)
    → submit s req ≡ (ok (SubmitOutcome.created o), s')
    → request_key again ≡ request_key req
    → submit s' again ≡ (ok (SubmitOutcome.duplicate o), s')
unfolding submit
submit_again s s' req again o h same =
    let (made, stored) = submit_new_inv s s' req o (submit_inv s s' req o h) in
    let known : get (request_key again) s'.by_client ≡ some (s.next_id + 1) =
      rw (stored, same) (get-insert_self (request_key req) (s.next_id + 1) s.by_client) in
    let row : get (s.next_id + 1) s'.orders ≡ some o =
      rw stored (get-insert_self (s.next_id + 1) o s.orders) in
    rw (known, row, submit)

-- An event that the store refuses leaves the store unchanged.
pub apply_event_atomic :
    (s : OrderStore) (id : OrderId) (event : OrderEvent) (e : OrderError)
    → (apply_event s id event).0 ≡ err e
    → (apply_event s id event).1 ≡ s
unfolding apply_event
apply_event_atomic s id event e h = ground arith

-- A row with the restored order's id, if there is one, has its client key.
abbrev pub KeepsKey : OrderStore → Order → Type 0
KeepsKey s order = (p : Order) → get order.id s.orders ≡ some p → order_key p ≡ order_key order

max_id-le_left : (a b : ℕ) → a ≤ max_id a b
max_id-le_left a b = ground arith

max_id-le_right : (a b : ℕ) → b ≤ max_id a b
max_id-le_right a b = ground arith

-- A row that outlives `drop_replaced` was there, under another id than the dropped one.
drop_replaced_inv :
    (old : Option OrderId) (id j : OrderId) (orders : Map OrderId Order) (p : Order)
    → get j (drop_replaced old id orders) ≡ some p
    → id ≢ j
    → (get j orders ≡ some p) × (old ≢ some j)
drop_replaced_inv none id j orders p h ne = (h, λ e. cc)
drop_replaced_inv (some old) id j orders p h ne = elim (Bool-cases (old == id)) [
  | inl same ↦ (rw same at h, λ e. ne (sym (eq_of_beq old id same) ∙ cc))
  | inr other ↦
      let (gone, kept) = get-remove_inv old j p orders (rw other at h) in (kept, λ e. gone (cc))
]

drop_replaced_keeps :
    (old : Option OrderId) (id j : OrderId) (orders : Map OrderId Order) (p : Order)
    → get j orders ≡ some p
    → old ≢ some j
    → get j (drop_replaced old id orders) ≡ some p
drop_replaced_keeps none id j orders p h ne = h
drop_replaced_keeps (some old) id j orders p h ne = elim (Bool-cases (old == id)) [
  | inl same ↦ rw same h
  | inr other ↦ rw other (get-remove_ne old j orders (λ e. ne (ap some e)) ∙ h)
]

pub restore_order-IsConsistent :
    (s : OrderStore) (order : Order)
    → IsConsistent s
    → IsValid order
    → KeepsKey s order
    → IsConsistent (restore_order s order)
unfolding restore_order
restore_order-IsConsistent s order c v keeps =
    let s' = restore_order s order in
    let old = get (order_key order) s.by_client in
    let left = drop_replaced old order.id s.orders in
    let indexed = get-insert_self (order_key order) order.id s.by_client in
    record {
      rows = λ id p h. elim (get-insert_inv order.id id order p left h) [
        | inl (same, new) ↦
            subst₂ (RowFits s') same new (refl, max_id-le_right s.next_id order.id, indexed, v)
        | inr (other, kept) ↦
            let (was, not_old) = drop_replaced_inv old order.id id s.orders p kept other in
            let (hp, bound, index, valid) = c.rows id p was in
            let ne : order_key order ≢ order_key p = λ e. not_old (cc) in
            (
              hp,
              omega (arith, bound, max_id-le_left s.next_id order.id),
              get-insert_ne (order_key order) (order_key p) order.id s.by_client ne ∙ index,
              valid,
            )
      ];
      index = λ k id h. elim (get-insert_inv (order_key order) k order.id id s.by_client h) [
        | inl (same, new) ↦
            subst₂ (Indexed s') same new (order, get-insert_self order.id order left, refl)
        | inr (other, was) ↦
            let (p, found, hp) = c.index k id was in
            let ne : order.id ≢ id = λ e.
              other (sym (keeps p (subst (λ i. get i s.orders ≡ some p) (sym e) found)) ∙ hp) in
            let not_old : old ≢ some id = λ e.
              let (q, there, hq) = c.index (order_key order) id e in
              let one_row : q ≡ p = cc in other (sym hq ∙ ap order_key one_row ∙ hp) in
            (
              p,
              get-insert_ne order.id id order left ne
                  ∙ drop_replaced_keeps old order.id id s.orders p found not_old,
              hp,
            )
      ];
    }

-- In a consistent store, a row restored over one with another client key leaves the old key in
-- the index: it leads to the new order, which does not carry it.
pub restore_order_stale :
    (s : OrderStore) (order p : Order)
    → IsConsistent s
    → get order.id s.orders ≡ some p
    → order_key order ≢ order_key p
    → get_by_client (restore_order s order) p.account_id p.client_order_id ≡ some order
unfolding get_by_client restore_order
restore_order_stale s order p c found other =
    let (_, _, indexed, _) = c.rows order.id p found in
    let left = drop_replaced (get (order_key order) s.by_client) order.id s.orders in
    let still = get-insert_ne (order_key order) (order_key p) order.id s.by_client other in
    rw (still ∙ indexed, get-insert_self order.id order left, get_by_client)
