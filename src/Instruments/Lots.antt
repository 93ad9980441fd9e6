-- ===== src/Instruments/Lots.antt =====
-- crates/domain/instruments/src/grid.rs: lot specifications. Quantities are `i64`.
use shinrai_trade.Common.{
  ℕ, ◌||◌, Option, none, some, if◌then◌else◌, Result, ok, err, ◌>>◌, ok_or, ltb, nat_beq,
}
use shinrai_trade.Common.Int.{ℤ, pos, ◌*ℤ◌, ◌/ℤ◌, ltb_ℤ, leb_ℤ, eqb_ℤ, i64_limit, checked}
use shinrai_trade.Instruments.Grid.{InstrumentError, rem_euclid, max_scale}

pub record LotSpec : Type 0 where
  pub lot_size_scaled : ℤ
  pub min_qty_scaled : ℤ
  pub max_qty_scaled : Option ℤ
  pub step_scaled : ℤ
  pub qty_scale : ℕ

abbrev check_max_qty : ℤ → ℤ → Option ℤ → Result InstrumentError (Unit {0})
check_max_qty min step none = ok tt
check_max_qty min step (some max) =
    if ltb_ℤ max min
    then err (InstrumentError.invalid_grid "max quantity must be >= min quantity")
    else if nat_beq (rem_euclid max step) 0
    then ok tt
    else err (InstrumentError.invalid_grid "max quantity must be a multiple of step")

-- `LotSpec::new`
unfoldable pub new_spec : ℕ → ℤ → ℤ → Option ℤ → ℤ → Result InstrumentError LotSpec
unfolding rem_euclid
new_spec qty_scale lot_size min_qty max_qty step =
    if ltb max_scale qty_scale
    then err (InstrumentError.scale_out_of_range qty_scale)
    else if leb_ℤ lot_size (pos 0) || leb_ℤ step (pos 0)
    then err (InstrumentError.invalid_grid "lot size and step must be positive")
    else if leb_ℤ min_qty (pos 0)
    then err (InstrumentError.invalid_grid "min quantity must be positive")
    else if nat_beq (rem_euclid min_qty step) 0
    then check_max_qty min_qty step max_qty
      >> ok (record {
        lot_size_scaled = lot_size;
        min_qty_scaled = min_qty;
        max_qty_scaled = max_qty;
        step_scaled = step;
        qty_scale = qty_scale;
      })
    else err (InstrumentError.invalid_grid "min quantity must be a multiple of step")

-- `LotSpec::whole_shares`
abbrev pub whole_shares : Result InstrumentError LotSpec
whole_shares = new_spec 0 (pos 1) (pos 1) none (pos 1)

abbrev pub above_max : ℤ → Option ℤ → Result InstrumentError (Unit {0})
above_max scaled none = ok tt
above_max scaled (some max) =
    if ltb_ℤ max scaled then err (InstrumentError.quantity_above_max scaled max) else ok tt

-- `LotSpec::validate_scaled`
unfoldable pub validate_quantity : LotSpec → ℤ → Result InstrumentError ℤ
unfolding rem_euclid ◌/ℤ◌
validate_quantity s scaled =
    if ltb_ℤ scaled s.min_qty_scaled
    then err (InstrumentError.quantity_below_min scaled s.min_qty_scaled)
    else above_max scaled s.max_qty_scaled
      >> (if nat_beq (rem_euclid scaled s.step_scaled) 0
          then ok (scaled /ℤ s.step_scaled)
          else err (InstrumentError.quantity_off_grid scaled s.step_scaled))

-- The end of `size_to_lots`, where a size of zero deletes a level.
unfoldable pub size_lots : LotSpec → ℤ → Result InstrumentError ℤ
unfolding rem_euclid ◌/ℤ◌
size_lots s scaled =
    if eqb_ℤ scaled (pos 0)
    then ok (pos 0)
    else if ltb_ℤ scaled (pos 0)
    then err (InstrumentError.quantity_below_min scaled (pos 0))
    else if nat_beq (rem_euclid scaled s.step_scaled) 0
    then ok (scaled /ℤ s.step_scaled)
    else err (InstrumentError.quantity_off_grid scaled s.step_scaled)

-- `checked_mul` by the step, as in `lots_to_qty` and `assert_order_grid`.
unfoldable pub lots_scaled : LotSpec → ℤ → Result InstrumentError ℤ
unfolding ◌*ℤ◌
lots_scaled s lots = ok_or (checked i64_limit (lots *ℤ s.step_scaled)) InstrumentError.overflow
