-- ===== src/Portfolio/Inventory.antt =====
-- crates/domain/portfolio/src/lib.rs: inventory at average cost, from the filled orders.
use shinrai_trade.Common.{
  ℕ, ◌&&◌, Option, none, some, List, [], ◌∷◌, map, if◌then◌else◌, Result, ok, err, ◌>>=◌, ok_or,
  ltb, nat_beq, nat_eq,
}
use shinrai_trade.Common.Int.{
  ℤ, pos, ◌+ℤ◌, ◌-ℤ◌, ◌*ℤ◌, ◌/ℤ◌, ltb_ℤ, eqb_ℤ, i64_limit, i128_limit, checked, checked_div, wrap,
}
use shinrai_trade.Common.Maps.{Map, get, insert}
use shinrai_trade.Money.{Money, MoneyError}
use shinrai_trade.Ledger.Entry.{AccountId, InstrumentId}
use shinrai_trade.Orders.Status.{OrderId, Side}
use shinrai_trade.Orders.Aggregate.{Order}
use shinrai_trade.Orders.Store.{OrderStore}
use shinrai_trade.Instruments.Grid.{InstrumentError}
use shinrai_trade.Instruments.Product.{Instrument}
use shinrai_trade.Instruments.Master.{InstrumentMaster, instrument_of}
use shinrai_trade.Portfolio.Notional.{PaperError, notional}

pub record InventoryLot : Type 0 where
  pub lots : ℤ
  pub cost_minor : ℤ
  pub avg_scaled : ℤ

abbrev pub Inventory : Type 0
Inventory = Map InstrumentId InventoryLot

-- The additions and products of a release build, which wrap.
unfoldable pub weighted_avg_ticks : ℤ → ℤ → ℤ → ℤ → ℤ
unfolding wrap ◌+ℤ◌ ◌*ℤ◌ ◌/ℤ◌
weighted_avg_ticks prev_avg prev_lots px qty =
    let total_lots = wrap i64_limit (prev_lots +ℤ qty) in
    let blended = wrap i128_limit (prev_avg *ℤ prev_lots +ℤ px *ℤ qty) /ℤ total_lots in
    if eqb_ℤ total_lots (pos 0)
    then px
    else elim (checked i64_limit blended) [ none ↦ prev_avg | some avg ↦ avg ]

abbrev money_error : PaperError → MoneyError
money_error (PaperError.money e) = e
money_error _ = MoneyError.overflow

abbrev pub map_money : Result PaperError Money → Result MoneyError Money
map_money (ok m) = ok m
map_money (err e) = err (money_error e)

unfoldable pub notional_for : Instrument → ℤ → ℤ → Result MoneyError Money
unfolding notional
notional_for i price qty = map_money (notional i price qty)

abbrev pub entry_or_new : Option InventoryLot → ℤ → InventoryLot
entry_or_new none px = record { lots = pos 0; cost_minor = pos 0; avg_scaled = px }
entry_or_new (some entry) px = entry

-- What a function may change: the profit so far and the inventory.
abbrev pub Books : Type 0
Books = ℤ × Inventory

abbrev pub overflow_at : ℕ → ℤ → Result MoneyError ℤ
overflow_at limit a = ok_or (checked limit a) MoneyError.overflow

-- `Side::Buy`
unfoldable pub buy_lots : Instrument → InstrumentId → ℤ → ℤ → Books → Result MoneyError Books
unfolding notional_for weighted_avg_ticks ◌+ℤ◌
buy_lots instrument inst px qty (realized, by_inst) = do
  fill_cost ← notional_for instrument px qty
  let entry = entry_or_new (get inst by_inst) px in
      do
        lots ← overflow_at i64_limit (entry.lots +ℤ qty)
        cost ← overflow_at i128_limit (entry.cost_minor +ℤ fill_cost.minor_units)
        ok (
          realized,
          insert inst
              (record {
                lots = lots;
                cost_minor = cost;
                avg_scaled = weighted_avg_ticks entry.avg_scaled entry.lots px qty;
              })
              by_inst,
        )

abbrev pub sold_entry : InventoryLot → ℤ → ℤ → InventoryLot
sold_entry entry qty cost_for_sale =
    let lots = wrap i64_limit (entry.lots -ℤ qty) in
    record entry {
      lots = lots;
      cost_minor =
          if eqb_ℤ lots (pos 0) then pos 0 else wrap i128_limit (entry.cost_minor -ℤ cost_for_sale);
    }

-- `Side::Sell` of lots that the inventory has.
unfoldable pub sell_entry_lots :
    Instrument → InstrumentId → ℤ → ℤ → InventoryLot → Books → Result MoneyError Books
unfolding notional_for ◌+ℤ◌ ◌-ℤ◌ ◌*ℤ◌ checked_div wrap
sell_entry_lots instrument inst px qty entry (realized, by_inst) = do
  product ← overflow_at i128_limit (entry.cost_minor *ℤ qty)
  cost_for_sale ← ok_or (checked_div i128_limit product entry.lots) MoneyError.overflow
  proceeds ← notional_for instrument px qty
  gain ← overflow_at i128_limit (proceeds.minor_units -ℤ cost_for_sale)
  realized_now ← overflow_at i128_limit (realized +ℤ gain)
  ok (realized_now, insert inst (sold_entry entry qty cost_for_sale) by_inst)

unfoldable pub sell_lots : Instrument → InstrumentId → ℤ → ℤ → Books → Result MoneyError Books
unfolding sell_entry_lots
sell_lots instrument inst px qty (realized, by_inst) = elim (get inst by_inst) [
  | none ↦ ok (realized, by_inst)
  | some entry ↦
      if ltb_ℤ entry.lots qty
      then ok (realized, by_inst)
      else sell_entry_lots instrument inst px qty entry (realized, by_inst)
]

abbrev pub fill_price : Order → ℤ
fill_price o = elim o.avg_px [ none ↦ o.price | some px ↦ px ]

abbrev pub unknown_as_overflow : Result InstrumentError Instrument → Result MoneyError Instrument
unknown_as_overflow (ok i) = ok i
unknown_as_overflow (err e) = err MoneyError.overflow

abbrev pub fill_side : Side → Instrument → InstrumentId → ℤ → ℤ → Books → Result MoneyError Books
fill_side Side.buy = buy_lots
fill_side Side.sell = sell_lots

-- The body of the loop.
unfoldable pub take_order : InstrumentMaster → Order → Books → Result MoneyError Books
unfolding instrument_of buy_lots sell_lots
take_order master o books = do
  instrument ← unknown_as_overflow (instrument_of master o.instrument_id)
  fill_side o.side instrument o.instrument_id (fill_price o) o.cum_qty books

unfoldable pub take_orders : InstrumentMaster → List Order → Books → Result MoneyError Books
unfolding take_order
take_orders master [] books = ok books
take_orders master (o ∷ os) books = take_order master o books >>= take_orders master os

-- `filter` and `sort_by_key(|o| o.id().get())`.
unfoldable pub filled_orders : AccountId → List Order → List Order
filled_orders account [] = []
filled_orders account (o ∷ os) =
    let rest = filled_orders account os in
    if nat_beq o.account_id account && ltb_ℤ (pos 0) o.cum_qty then o ∷ rest else rest

unfoldable pub place_order : Order → List Order → List Order
place_order o [] = o ∷ []
place_order o (p ∷ ps) =
    let rest = place_order o ps in if ltb p.id o.id then p ∷ rest else o ∷ p ∷ ps

unfoldable pub sort_orders : List Order → List Order
unfolding place_order
sort_orders [] = []
sort_orders (o ∷ os) = place_order o (sort_orders os)

abbrev pub order_of : OrderId × Order → Order
order_of (id, o) = o

-- The filled orders of an account in the order of their ids.
unfoldable pub orders_in_turn : AccountId → OrderStore → List Order
unfolding filled_orders sort_orders
orders_in_turn account orders = sort_orders (filled_orders account (map order_of orders.orders))

unfoldable pub inventory_from_orders :
    AccountId → OrderStore → InstrumentMaster → Result MoneyError Books
unfolding orders_in_turn take_orders
inventory_from_orders account orders master =
    take_orders master (orders_in_turn account orders) (pos 0, [])

unfoldable pub realized_pnl_from_orders :
    AccountId → OrderStore → InstrumentMaster → Result MoneyError ℤ
unfolding inventory_from_orders
realized_pnl_from_orders account orders master =
    inventory_from_orders account orders master >>= λ books. ok books.0
