-- ===== src/Portfolio/Profit.antt =====
-- crates/domain/portfolio/src/lib.rs: the profit over all the fills.
use mathlib.Core.Path.{subst}
use shinrai_trade.Common.{
  ◌≡◌, refl, sym, ap, ◌∙◌, arith, inl, inr, false, some, Option-cases, List, [], ◌∷◌, map, All,
  Result, ok, err, bind-ok, Result-cases, Bool-cases, nat_eq,
}
use shinrai_trade.Common.Int.{ℤ, pos, ◌+ℤ◌, ◌-ℤ◌, ◌≤ℤ◌, ◌<ℤ◌, ltb_ℤ, int_laws, +ℤ-zero, +ℤ_assoc}
use shinrai_trade.Common.Maps.{get, AllEntries}
use shinrai_trade.Money.{MoneyError}
use shinrai_trade.Ledger.Entry.{InstrumentId, AccountId}
use shinrai_trade.Orders.Status.{Side}
use shinrai_trade.Orders.Aggregate.{Order}
use shinrai_trade.Orders.Store.{OrderStore}
use shinrai_trade.Instruments.Product.{Instrument}
use shinrai_trade.Instruments.Master.{InstrumentMaster, instrument_of}
use shinrai_trade.Portfolio.Inventory.{
  Inventory, InventoryLot, Books, notional_for, sell_entry_lots, sell_lots, fill_price, fill_side,
  filled_orders, place_order, sort_orders, orders_in_turn, order_of, inventory_from_orders,
  take_order, take_orders, unknown_as_overflow,
}
use shinrai_trade.Portfolio.Flow.{
  IsKept, Moved, total_cost, value, side_flow, some_notional, buy_lots-Moved, sell_entry_lots-Moved,
}
use shinrai_trade.Portfolio.Positive.{some_notional_positive}

-- Every instrument has a positive multiplier.
abbrev pub AllPositive : InstrumentMaster → Type 0
AllPositive master = AllEntries (λ i x. pos 0 <ℤ x.multiplier) master.by_id

not_short : (a b : ℤ) → ltb_ℤ a b ≡ false → b ≤ℤ a
not_short a b h = ground arith

sell_lots_enough :
    (i : Instrument) (inst : InstrumentId) (px qty : ℤ) (e : InventoryLot) (r : ℤ) (m : Inventory)
    → get inst m ≡ some e
    → ltb_ℤ e.lots qty ≡ false
    → sell_lots i inst px qty (r, m) ≡ sell_entry_lots i inst px qty e (r, m)
unfolding sell_lots
sell_lots_enough i inst px qty e r m held enough = rw (held, sell_lots) (rw enough refl)

sell_lots-Moved :
    (i : Instrument) (inst : InstrumentId) (px qty r : ℤ) (m : Inventory) (after : Books)
    → IsKept m
    → pos 0 <ℤ qty
    → sell_lots i inst px qty (r, m) ≡ ok after
    → Moved (r, m) after (side_flow Side.sell i inst px qty (r, m))
unfolding sell_lots
sell_lots-Moved i inst px qty r m after k h ran = elim (Option-cases (get inst m)) [
  | inl missing ↦
      let found : after ≡ (r, m) = ground arith in
      subst (λ x. Moved (r, m) x (side_flow Side.sell i inst px qty (r, m))) (sym found)
        (k, sym (+ℤ-zero (value (r, m))) ∙ rw missing refl)
  | inr (e, held) ↦ elim (Bool-cases (ltb_ℤ e.lots qty)) [
    | inl short ↦
        let found : after ≡ (r, m) = ground arith in
        subst (λ x. Moved (r, m) x (side_flow Side.sell i inst px qty (r, m))) (sym found)
          (k, sym (+ℤ-zero (value (r, m))) ∙ rw held (rw short refl))
    | inr enough ↦
        let flow : side_flow Side.sell i inst px qty (r, m)
            ≡ some_notional (notional_for i px qty) =
          rw held (rw enough refl) in
        subst (Moved (r, m) after) (sym flow) (
          sell_entry_lots-Moved i inst px qty e r m after k held h (not_short e.lots qty enough)
            (sym (sell_lots_enough i inst px qty e r m held enough) ∙ ran))
  ]
]

fill_side-Moved :
    (side : Side) (i : Instrument) (inst : InstrumentId) (px qty : ℤ) (books after : Books)
    → IsKept books.1
    → pos 0 <ℤ qty
    → pos 0 <ℤ i.multiplier
    → fill_side side i inst px qty books ≡ ok after
    → Moved books after (side_flow side i inst px qty books)
fill_side-Moved Side.buy i inst px qty (r, m) after k h n ran =
    buy_lots-Moved i inst px qty r m after k h (some_notional_positive i px qty n) ran
fill_side-Moved Side.sell i inst px qty (r, m) after k h n ran =
    sell_lots-Moved i inst px qty r m after k h ran

-- What an order's fills pay out or bring in.
abbrev flow_of : Result MoneyError Instrument → Order → Books → ℤ
flow_of (err e) o books = pos 0
flow_of (ok i) o books = side_flow o.side i o.instrument_id (fill_price o) o.cum_qty books

abbrev pub order_flow : InstrumentMaster → Order → Books → ℤ
order_flow master o books =
    flow_of (unknown_as_overflow (instrument_of master o.instrument_id)) o books

unfoldable pub net_flow : InstrumentMaster → List Order → Books → ℤ
net_flow master [] books = pos 0
net_flow master (o ∷ os) books =
    order_flow master o books
    +ℤ elim (take_order master o books) [ err e ↦ pos 0 | ok after ↦ net_flow master os after ]

instrument_of_inv :
    (master : InstrumentMaster) (inst : InstrumentId) (i : Instrument)
    → instrument_of master inst ≡ ok i
    → get inst master.by_id ≡ some i
unfolding instrument_of
instrument_of_inv master inst i h = ground arith

take_order-Moved :
    (master : InstrumentMaster) (o : Order) (books after : Books)
    → AllPositive master
    → IsKept books.1
    → pos 0 <ℤ o.cum_qty
    → take_order master o books ≡ ok after
    → Moved books after (order_flow master o books)
unfolding take_order
take_order-Moved master o books after p k h ran =
    elim (Result-cases (instrument_of master o.instrument_id)) [
      | inr (e, unknown) ↦ ground arith
      | inl (i, known) ↦
          let flow : order_flow master o books
              ≡ side_flow o.side i o.instrument_id (fill_price o) o.cum_qty books =
            ap (λ x. flow_of (unknown_as_overflow x) o books) known in
          let ran' : fill_side o.side i o.instrument_id (fill_price o) o.cum_qty books ≡ ok after =
            sym (
              bind-ok (λ x. fill_side o.side x o.instrument_id (fill_price o) o.cum_qty books)
                (ap unknown_as_overflow known))
            ∙ ran in
          subst (Moved books after) (sym flow) (
            fill_side-Moved o.side i o.instrument_id (fill_price o) o.cum_qty books after k h
              (p o.instrument_id i (instrument_of_inv master o.instrument_id i known)) ran')
    ]

-- Over a list of filled orders, the inventory stays kept and the value moves by their
-- net flow.
pub take_orders-Moved :
    (master : InstrumentMaster) (os : List Order) (books after : Books)
    → AllPositive master
    → IsKept books.1
    → All (λ o. pos 0 <ℤ o.cum_qty) os
    → take_orders master os books ≡ ok after
    → Moved books after (net_flow master os books)
unfolding take_orders net_flow
take_orders-Moved master [] books after p k h ran =
    let found : after ≡ books = ground arith in
    subst (λ x. Moved books x (pos 0)) (sym found) (k, sym (+ℤ-zero (value books)))
take_orders-Moved master (o ∷ os) books after p k (h, hs) ran =
    elim (Result-cases (take_order master o books)) [
      | inr (e, failed) ↦ ground arith
      | inl (next, taken) ↦
          let (kept, first) = take_order-Moved master o books next p k h taken in
          let ran' = sym (bind-ok (take_orders master os) taken) ∙ ran in
          let (kept', rest) = take_orders-Moved master os next after p kept hs ran' in
          (
            kept',
            rest
                ∙ ap (λ x. x +ℤ net_flow master os next) first
                ∙ +ℤ_assoc (value books) (order_flow master o books) (net_flow master os next)
                ∙ rw taken refl,
          )
    ]

abbrev HasFills : Order → Type 0
HasFills o = pos 0 <ℤ o.cum_qty

filled_orders-HasFills :
    (account : AccountId) (os : List Order) → All HasFills (filled_orders account os)
unfolding filled_orders
filled_orders-HasFills account [] = tt
filled_orders-HasFills account (o ∷ os) = ground (arith, filled_orders-HasFills account os)

place_order-HasFills :
    (o : Order) (os : List Order) → HasFills o → All HasFills os → All HasFills (place_order o os)
unfolding place_order
place_order-HasFills o [] h k = (h, tt)
place_order-HasFills o (p ∷ ps) h (k, ks) = ground (arith, place_order-HasFills o ps h ks)

sort_orders-HasFills : (os : List Order) → All HasFills os → All HasFills (sort_orders os)
unfolding sort_orders
sort_orders-HasFills [] k = tt
sort_orders-HasFills (o ∷ os) (k, ks) =
    place_order-HasFills o (sort_orders os) k (sort_orders-HasFills os ks)

from_nothing : (f : ℤ) → pos 0 -ℤ pos 0 +ℤ f ≡ f
from_nothing f = omega int_laws

-- If every instrument of the master has a positive multiplier, an inventory that was computed
-- has no negative lots or costs, and its realized profit less the cost of all that is left is
-- exactly the money that the filled orders moved: what the counted sales brought in less what
-- the purchases paid out, a sale being counted if the inventory has its lots when its turn
-- comes.
pub inventory_from_orders_lem :
    (account : AccountId) (orders : OrderStore) (master : InstrumentMaster) (realized : ℤ)
    (by_inst : Inventory)
    → AllPositive master
    → inventory_from_orders account orders master ≡ ok (realized, by_inst)
    → IsKept by_inst
      × (realized -ℤ total_cost by_inst
          ≡ net_flow master (orders_in_turn account orders) (pos 0, []))
unfolding inventory_from_orders orders_in_turn get total_cost
inventory_from_orders_lem account orders master realized by_inst p ran =
    let os = filled_orders account (map order_of orders.orders) in
    let (kept, moved) =
      take_orders-Moved master (sort_orders os) (pos 0, []) (realized, by_inst) p
        (λ i e h. ground arith)
        (sort_orders-HasFills os (filled_orders-HasFills account (map order_of orders.orders)))
        ran in
    (kept, moved ∙ from_nothing (net_flow master (sort_orders os) (pos 0, [])))
