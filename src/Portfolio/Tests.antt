-- ===== src/Portfolio/Tests.antt =====
-- crates/domain/portfolio/src/lib.rs: a run, and the theorem at two filled orders.
use shinrai_trade.Common.{ℕ, ◌≡◌, refl, ok, err, arith, none, some, [], ◌∷◌, nat_eq}
use shinrai_trade.Common.Int.{pos, negsuc, ◌-ℤ◌, ◌<ℤ◌}
use shinrai_trade.Common.Maps.{get, insert, insert-AllEntries}
use shinrai_trade.Money.{usd, from_minor}
use shinrai_trade.Orders.Status.{Side, OrderType, TimeInForce, OrderStatus}
use shinrai_trade.Orders.Aggregate.{Order}
use shinrai_trade.Orders.Store.{OrderStore, empty_store}
use shinrai_trade.Instruments.Product.{AssetClass, InstrumentType, InstrumentStatus, Instrument}
use shinrai_trade.Instruments.Master.{InstrumentMaster, new_master}
use shinrai_trade.Portfolio.Notional.{notional, PaperError}
use shinrai_trade.Portfolio.Inventory.{Inventory, inventory_from_orders, orders_in_turn}
use shinrai_trade.Portfolio.Marks.{set_mark, merged_with}
use shinrai_trade.Portfolio.Flow.{IsKept, total_cost}
use shinrai_trade.Portfolio.Profit.{AllPositive, net_flow, inventory_from_orders_lem}

abbrev share : Instrument
share = record {
  id = 4;
  symbol_display = "AAPL";
  asset_class = AssetClass.equity;
  instrument_type = InstrumentType.common_stock;
  quote_currency = usd;
  settle_currency = none;
  tick_table = record {
    bands = record { min = negsuc 9223372036854775807; max = none; tick_size = pos 1 } ∷ [];
    price_scale = 3;
  };
  lot_spec = record {
    lot_size_scaled = pos 1;
    min_qty_scaled = pos 1;
    max_qty_scaled = none;
    step_scaled = pos 1;
    qty_scale = 0;
  };
  multiplier = pos 1;
  status = InstrumentStatus.active;
  venue_mic = none;
  identifiers = [];
}

abbrev shares : InstrumentMaster
shares = record new_master { by_id = insert 4 share [] }

abbrev filled : ℕ → Side → ℕ → ℕ → Order
filled id side qty price = record {
  id = id;
  account_id = 7;
  client_order_id = "c";
  instrument_id = 4;
  side = side;
  order_type = OrderType.limit;
  time_in_force = TimeInForce.gtc;
  status = OrderStatus.filled;
  order_qty = pos qty;
  price = pos price;
  cum_qty = pos qty;
  leaves_qty = pos 0;
  avg_px = some (pos price);
  venue_order_id = none;
  reject_reason = none;
  seen_execs = [];
  pending_replace_qty = none;
  pending_replace_price = none;
}

-- Four bought at 1.000, one of them sold at 2.000.
abbrev two_orders : OrderStore
two_orders = record empty_store {
  orders = (2, filled 2 Side.sell 1 2000) ∷ (1, filled 1 Side.buy 4 1000) ∷ [];
}

abbrev three_left : Inventory
three_left = (4, record { lots = pos 3; cost_minor = pos 300; avg_scaled = pos 1000 }) ∷ []

notional_run :
    (notional share (pos 1000) (pos 4) ≡ ok (from_minor (pos 400) usd))
    × (notional share (pos 1001) (pos 4) ≡ err PaperError.inexact_notional)
unfolding notional
notional_run = (refl, refl)

marks_run :
    merged_with (set_mark (set_mark [] 4 (pos 9)) 5 (pos 0)) ((4, pos 8) ∷ []) ≡ (4, pos 8) ∷ []
unfolding merged_with insert set_mark
marks_run = refl

inventory_run : inventory_from_orders 7 two_orders shares ≡ ok (pos 100, three_left)
unfolding inventory_from_orders get insert
inventory_run = refl

nothing-AllPositive : AllPositive new_master
unfolding get
nothing-AllPositive i x h = ground arith

shares-AllPositive : AllPositive shares
shares-AllPositive =
    insert-AllEntries (λ i x. pos 0 <ℤ x.multiplier) 4 share [] (omega arith) nothing-AllPositive

inventory_from_orders_lem_example :
    IsKept three_left
    × (pos 100 -ℤ total_cost three_left ≡ net_flow shares (orders_in_turn 7 two_orders) (pos 0, []))
inventory_from_orders_lem_example =
    inventory_from_orders_lem 7 two_orders shares (pos 100) three_left shares-AllPositive
      inventory_run
