-- ===== src/Instruments/Tests.antt =====
-- crates/domain/instruments/src/grid.rs: runs, and the theorems at concrete tables and lots.
use shinrai_trade.Common.Maps.{get, contains, insert}
use shinrai_trade.Common.Text.{is_whitespace}
use shinrai_trade.Common.{◌≡◌, ok, err, refl, arith, true, none, some, List, [], ◌∷◌, All, ◌>>=◌}
use shinrai_trade.Common.Int.{pos, negsuc, abs}
use shinrai_trade.Instruments.Decimal.{
  parse_scaled, format_scaled, qty_to_lots, lots_to_qty, price_to_ticks,
}
use shinrai_trade.Instruments.Grid.{
  InstrumentError, TickBand, TickTable, new_table, band_for, contains_price,
}
use shinrai_trade.Instruments.Bands.{covers, is_ok, find_band_lem}
use shinrai_trade.Money.{usd}
use shinrai_trade.Instruments.Ids.{IdType, ExternalId, new_external, validate_isin, external_eq}
use shinrai_trade.Instruments.Product.{
  AssetClass, InstrumentType, InstrumentStatus, Instrument, new_instrument, assert_order_grid,
}
use shinrai_trade.Instruments.Master.{new_master, insert_instrument, resolve_alias}
use shinrai_trade.Instruments.Index.{IsIndexed, insert_instrument-IsIndexed, new_master-IsIndexed}
use shinrai_trade.Instruments.Lots.{LotSpec, validate_quantity}
use shinrai_trade.Instruments.RoundTrip.{parse_scaled-format_scaled, qty_to_lots-lots_to_qty}

parse_run :
    (parse_scaled " -1.05 " 3 ≡ ok (negsuc 1049))
    × (parse_scaled "+12" 2 ≡ ok (pos 1200))
    × (parse_scaled "1.234" 2 ≡ err (InstrumentError.scale_exceeded 3 2))
    × (parse_scaled ".5" 2 ≡ err InstrumentError.invalid_decimal)
unfolding parse_scaled is_whitespace
parse_run = (refl, refl, refl, refl)

format_run :
    (format_scaled (negsuc 1049) 3 ≡ ok "-1.050")
    × (format_scaled (pos 7) 2 ≡ ok "0.07")
    × (format_scaled (pos 700) 0 ≡ ok "700")
unfolding format_scaled
format_run = (refl, refl, refl)

-- Ticks of a hundredth below 1, of a tenth from there on, at three decimals.
abbrev bands : List TickBand
bands =
    record { min = pos 0; max = some (pos 1000); tick_size = pos 10 }
    ∷ record { min = pos 1000; max = none; tick_size = pos 100 }
    ∷ []

abbrev ladder : TickTable
ladder = record { bands = bands; price_scale = 3 }

price_run :
    (price_to_ticks ladder "0.99" ≡ ok (pos 990))
    × (price_to_ticks ladder "1.01" ≡ err (InstrumentError.price_off_grid (pos 1010) (pos 100)))
    × (price_to_ticks ladder "-1" ≡ err (InstrumentError.price_out_of_bands (negsuc 999)))
unfolding price_to_ticks is_whitespace
price_run = (refl, refl, refl)

-- Steps of a quarter, at two decimals.
abbrev quarters : LotSpec
quarters = record {
  lot_size_scaled = pos 25;
  min_qty_scaled = pos 25;
  max_qty_scaled = some (pos 1000);
  step_scaled = pos 25;
  qty_scale = 2;
}

find_band_lem_example :
    (is_ok (band_for ladder (pos 990)) ≡ covers bands (pos 990))
    × All (λ c. contains_price c (pos 990) ≡ true → band_for ladder (pos 990) ≡ ok c) bands
unfolding new_table
find_band_lem_example = find_band_lem 3 bands ladder (pos 990) (ground arith) refl

parse_scaled-format_scaled_example :
    (format_scaled (negsuc 1049) 3 >>= λ text. parse_scaled text 3) ≡ ok (negsuc 1049)
unfolding abs
parse_scaled-format_scaled_example =
    parse_scaled-format_scaled (negsuc 1049) 3 (omega arith) (omega arith)

qty_to_lots-lots_to_qty_example :
    (lots_to_qty quarters (pos 7) >>= qty_to_lots quarters) ≡ ok (pos 7)
unfolding validate_quantity
qty_to_lots-lots_to_qty_example =
    qty_to_lots-lots_to_qty quarters (pos 175) (pos 7) (ground arith) (omega arith) (ground arith)
      refl

abbrev apple : ExternalId
apple = record { id_type = IdType.isin; value = "US0378331005"; venue = none }

abbrev share : Instrument
share = record {
  id = 4;
  symbol_display = "AAPL";
  asset_class = AssetClass.equity;
  instrument_type = InstrumentType.common_stock;
  quote_currency = usd;
  settle_currency = none;
  tick_table = ladder;
  lot_spec = quarters;
  multiplier = pos 1;
  status = InstrumentStatus.active;
  venue_mic = some "XNAS";
  identifiers = apple ∷ [];
}

isin_run :
    (validate_isin "US0378331005" ≡ ok tt)
    × (validate_isin "US0378331004" ≡ err InstrumentError.invalid_isin)
    × (new_external IdType.isin " us0378331005 " (some " ") ≡ ok apple)
unfolding validate_isin is_whitespace new_external
isin_run = (refl, refl, refl)

instrument_run :
    (new_instrument (record share { symbol_display = " AAPL "; venue_mic = some "xnas" })
      ≡ ok share)
    × (assert_order_grid share (pos 990) (pos 4) ≡ ok tt)
    × (assert_order_grid share (pos 990) (pos 41)
        ≡ err (InstrumentError.quantity_above_max (pos 1025) (pos 1000)))
unfolding new_instrument is_whitespace assert_order_grid
instrument_run = (refl, refl, refl)

master_run :
    (resolve_alias (insert_instrument new_master share).1 apple ≡ ok 4)
    × ((insert_instrument (insert_instrument new_master share).1 (record share { id = 5 })).0
        ≡ err (InstrumentError.duplicate_alias 4))
unfolding resolve_alias get insert_instrument contains insert
master_run = (refl, refl)

insert_instrument-IsIndexed_example : IsIndexed (insert_instrument new_master share).1
insert_instrument-IsIndexed_example =
    insert_instrument-IsIndexed new_master share new_master-IsIndexed
