-- ===== src/Orders/StoreInvariant.antt =====
-- The invariant of the order store: rows and client index agree, ids are below the allocator,
-- and every stored order is valid.
use mathlib.Core.Path.{subst₂}
use shinrai_trade.Common.{
  ℕ, ◌+◌, ◌≤◌, ◌≡◌, ◌≢◌, ◌∙◌, ap, inl, inr, none, some, arith, ok, Result-cases, Option-cases,
  nat_eq, string_eq, pair_eq, ◌==◌, List, [], ◌∷◌, ◌++◌, ltb, Bool-cases, eq_of_beq,
}
use shinrai_trade.Common.Int.{Fits, i64_limit, zero-+ℤ}
use shinrai_trade.Common.Maps.{get, insert, get-insert_self, get-insert_ne, get-insert_inv}
use shinrai_trade.Orders.Status.{OrderEvent, DomainEffect, OrderId}
use shinrai_trade.Orders.Aggregate.{Order, new_pending_typed, apply_trade, apply_replaced}
use shinrai_trade.Orders.Transition.{apply, dispatch}
use shinrai_trade.Orders.Invariant.{IsValid, EventFits}
use shinrai_trade.Orders.Preserve.{apply-IsValid}
use shinrai_trade.Orders.Graph.{apply-dispatch}
use shinrai_trade.Orders.Store.{
  OrderStore, CreateOrder, ClientKey, empty_store, request_key, order_key, pending_for, submit,
  submit_new, apply_event, record_created, LoggedEvent, u64_limit,
}

abbrev pub RowFits : OrderStore → OrderId → Order → Type 0
RowFits s id o =
    (o.id ≡ id) × (id ≤ s.next_id) × (get (order_key o) s.by_client ≡ some id) × IsValid o

abbrev pub Indexed : OrderStore → ClientKey → OrderId → Type 0
Indexed s key id = (o : Order) × (get id s.orders ≡ some o) × (order_key o ≡ key)

pub record IsConsistent (s : OrderStore) : Type 0 where
  pub rows : (id : OrderId) (o : Order) → get id s.orders ≡ some o → RowFits s id o
  pub index : (key : ClientKey) (id : OrderId) → get key s.by_client ≡ some id → Indexed s key id

pub empty_store-IsConsistent : IsConsistent empty_store
unfolding get
empty_store-IsConsistent = record { rows = λ id o h. cc h; index = λ key id h. cc h }

-- A new order is valid, and carries the id and the key that it was asked for with.
pending_for_lem :
    (req : CreateOrder) (id : OrderId) (o : Order)
    → Fits i64_limit req.order_qty
    → pending_for req id ≡ ok o
    → IsValid o × (o.id ≡ id) × (order_key o ≡ request_key req)
unfolding new_pending_typed
pending_for_lem req id o f h = ground (arith, zero-+ℤ req.order_qty)

pub raise_next_id-IsConsistent :
    (s : OrderStore) (n : ℕ)
    → IsConsistent s
    → s.next_id ≤ n
    → IsConsistent (record s { next_id = n })
raise_next_id-IsConsistent s n c more = record {
  rows = λ id o h. let (hid, bound, indexed, v) = c.rows id o h in (hid, omega arith, indexed, v);
  index = c.index;
}

record_created-IsConsistent :
    (s : OrderStore) (key : ClientKey) (o : Order)
    → IsConsistent s
    → get key s.by_client ≡ none
    → IsValid o
    → o.id ≡ s.next_id + 1
    → order_key o ≡ key
    → IsConsistent (record_created (record s { next_id = s.next_id + 1 }) key (s.next_id + 1) o)
record_created-IsConsistent s key o c absent v hid hkey =
    let s' = record_created (record s { next_id = s.next_id + 1 }) key (s.next_id + 1) o in
    let fresh = get-insert_self key (s.next_id + 1) s.by_client in
    record {
      rows = λ id p h. elim (get-insert_inv (s.next_id + 1) id o p s.orders h) [
        | inl (same, new) ↦ subst₂ (RowFits s') same new (hid, omega arith, rw hkey fresh, v)
        | inr (other, old) ↦
            let (hp, bound, indexed, valid) = c.rows id p old in
            let ne : key ≢ order_key p = λ e. cc in
            (
              hp,
              omega arith,
              get-insert_ne key (order_key p) (s.next_id + 1) s.by_client ne ∙ indexed,
              valid,
            )
      ];
      index = λ k id h. elim (get-insert_inv key k (s.next_id + 1) id s.by_client h) [
        | inl (same, new) ↦
            subst₂ (Indexed s') same new (o, get-insert_self (s.next_id + 1) o s.orders, hkey)
        | inr (other, old) ↦
            let (p, found, hp) = c.index k id old in
            let ne : s.next_id + 1 ≢ id = λ e. omega (arith, c.rows id p found) in
            (p, get-insert_ne (s.next_id + 1) id o s.orders ne ∙ found, hp)
      ];
    }

dispatch-identity :
    (o : Order) (event : OrderEvent) (r : Order × List DomainEffect)
    → dispatch o.status event o ≡ ok r
    → (r.0.id ≡ o.id) × (order_key r.0 ≡ order_key o)
unfolding dispatch apply_trade apply_replaced
dispatch-identity o (OrderEvent.accepted _) r e = ground arith
dispatch-identity o _ r e = ground arith

-- Replacing a row by one with the same id and key.
update-IsConsistent :
    (s : OrderStore) (id : OrderId) (o p : Order) (log : List (OrderId × LoggedEvent))
    → IsConsistent s
    → get id s.orders ≡ some o
    → IsValid p
    → p.id ≡ o.id
    → order_key p ≡ order_key o
    → IsConsistent (record s { event_log = log; orders = insert id p s.orders })
update-IsConsistent s id o p log c found v hid hkey =
    let s' = record s { event_log = log; orders = insert id p s.orders } in
    let (ho, bound, indexed, _) = c.rows id o found in
    record {
      rows = λ j q h. elim (get-insert_inv id j p q s.orders h) [
        | inl (same, new) ↦ subst₂ (RowFits s') same new (hid ∙ ho, bound, rw hkey indexed, v)
        | inr (other, old) ↦ c.rows j q old
      ];
      index = λ k j h.
          let (q, there, hq) = c.index k j h in
          elim (Bool-cases (id == j)) [
            | inl same ↦
                let e = eq_of_beq id j same in
                let one_row : o ≡ q = cc in
                (p, rw (← e) (get-insert_self id p s.orders), hkey ∙ ap order_key one_row ∙ hq)
            | inr other ↦ (q, get-insert_ne id j p s.orders (λ e. ground arith) ∙ there, hq)
          ];
    }

submit_new-IsConsistent :
    (s : OrderStore) (req : CreateOrder)
    → IsConsistent s
    → Fits i64_limit req.order_qty
    → get (request_key req) s.by_client ≡ none
    → IsConsistent (submit_new s req).1
unfolding submit_new
submit_new-IsConsistent s req c f absent = elim (Bool-cases (ltb (s.next_id + 1) u64_limit)) [
  | inr full ↦ rw full c
  | inl room ↦ elim (Result-cases (pending_for req (s.next_id + 1))) [
    | inl (o, made) ↦
        let (v, hid, hkey) = pending_for_lem req (s.next_id + 1) o f made in
        rw (room, made) (record_created-IsConsistent s (request_key req) o c absent v hid hkey)
    | inr (failed, refused) ↦
        rw (room, refused) (raise_next_id-IsConsistent s (s.next_id + 1) c (omega arith))
  ]
]

-- The store stays consistent, whatever `submit` answers.
pub submit-IsConsistent :
    (s : OrderStore) (req : CreateOrder)
    → IsConsistent s
    → Fits i64_limit req.order_qty
    → IsConsistent (submit s req).1
unfolding submit
submit-IsConsistent s req c f = elim (Option-cases (get (request_key req) s.by_client)) [
  | inl absent ↦ rw (absent, submit) (submit_new-IsConsistent s req c f absent)
  | inr (id, known) ↦
      let (o, found, _) = c.index (request_key req) id known in rw (known, found, submit) c
]

pub apply_event-IsConsistent :
    (s : OrderStore) (id : OrderId) (event : OrderEvent)
    → IsConsistent s
    → EventFits event
    → IsConsistent (apply_event s id event).1
unfolding apply_event
apply_event-IsConsistent s id event c f = elim (Option-cases (get id s.orders)) [
  | inl missing ↦ rw (missing, apply_event) c
  | inr (o, found) ↦ elim (Result-cases (apply o event)) [
    | inr (failed, refused) ↦ rw (found, refused, apply_event) c
    | inl (r, made) ↦
        let v = apply-IsValid o event r (c.rows id o found).3 f made in
        let (hid, hkey) = dispatch-identity o event r (apply-dispatch o event r made) in
        rw (found, made, apply_event)
          (update-IsConsistent s id o r.0 (s.event_log ++ (id, LoggedEvent.applied event) ∷ []) c
            found v hid hkey)
  ]
]
