-- ===== src/Instruments/Product.antt =====
-- crates/domain/instruments/src/{types,instrument}.rs: instruments and their order grid.
use Prim.Native.String.{String, len}
use shinrai_trade.Common.{
  Bool, true, false, not, ◌||◌, Option, none, some, List, [], ◌∷◌, if◌then◌else◌, Result, ok, err,
  ◌>>=◌, ◌>>◌, nat_beq,
}
use shinrai_trade.Common.Int.{ℤ, pos, leb_ℤ}
use shinrai_trade.Common.Text.{trim, is_empty_text}
use shinrai_trade.Money.{Currency}
use shinrai_trade.Ledger.Entry.{InstrumentId}
use shinrai_trade.Instruments.Grid.{InstrumentError, TickTable, validate_price}
use shinrai_trade.Instruments.Lots.{LotSpec, validate_quantity, lots_scaled}
use shinrai_trade.Instruments.Ids.{
  IdType, ExternalId, to_ascii_uppercase, all_alphanumeric, validate_isin,
}

pub data AssetClass : Type 0 where
  equity future crypto other : AssetClass

pub data InstrumentType : Type 0 where
  common_stock index_future crypto_spot other : InstrumentType

pub data InstrumentStatus : Type 0 where
  active halted delisted expired : InstrumentStatus

abbrev pub is_tradable : InstrumentStatus → Bool
is_tradable InstrumentStatus.active = true
is_tradable _ = false

pub record Instrument : Type 0 where
  pub id : InstrumentId
  pub symbol_display : String
  pub asset_class : AssetClass
  pub instrument_type : InstrumentType
  pub quote_currency : Currency
  pub settle_currency : Option Currency
  pub tick_table : TickTable
  pub lot_spec : LotSpec
  pub multiplier : ℤ
  pub status : InstrumentStatus
  pub venue_mic : Option String
  pub identifiers : List ExternalId

unfoldable pub normalize_mic : String → Result InstrumentError String
unfolding trim to_ascii_uppercase all_alphanumeric
normalize_mic text =
    let mic = trim text in
    if not (nat_beq (len mic) 4) || not (all_alphanumeric mic)
    then err InstrumentError.invalid_mic
    else ok (to_ascii_uppercase mic)

abbrev normalize_venue_mic : Option String → Result InstrumentError (Option String)
normalize_venue_mic none = ok none
normalize_venue_mic (some mic) = normalize_mic mic >>= λ m. ok (some m)

abbrev check_isin : ExternalId → Result InstrumentError (Unit {0})
check_isin e = elim e.id_type [ IdType.isin ↦ validate_isin e.value | _ ↦ ok tt ]

-- The loop over the identifiers.
unfoldable pub check_isins : List ExternalId → Result InstrumentError (Unit {0})
unfolding validate_isin
check_isins [] = ok tt
check_isins (e ∷ es) = check_isin e >> check_isins es

-- `Instrument::new`, of the fields before they are checked.
unfoldable pub new_instrument : Instrument → Result InstrumentError Instrument
unfolding trim normalize_mic check_isins
new_instrument i =
    if is_empty_text (trim i.symbol_display)
    then err InstrumentError.invalid_identifier
    else if leb_ℤ i.multiplier (pos 0)
    then err (InstrumentError.invalid_grid "multiplier must be positive")
    else do
      mic ← normalize_venue_mic i.venue_mic
      check_isins i.identifiers
      ok (record i { symbol_display = trim i.symbol_display; venue_mic = mic })

unfoldable pub assert_tradable : Instrument → Result InstrumentError (Unit {0})
assert_tradable i = if is_tradable i.status then ok tt else err (InstrumentError.not_tradable i.id)

unfoldable pub assert_order_grid : Instrument → ℤ → ℤ → Result InstrumentError (Unit {0})
unfolding assert_tradable validate_price validate_quantity lots_scaled
assert_order_grid i price_ticks qty_lots = do
  assert_tradable i
  _ ← validate_price i.tick_table price_ticks
  scaled_qty ← lots_scaled i.lot_spec qty_lots
  _ ← validate_quantity i.lot_spec scaled_qty
  ok tt
