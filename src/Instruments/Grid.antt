-- ===== src/Instruments/Grid.antt =====
-- crates/domain/instruments/src/{grid,error}.rs: tick tables. Prices are `i64`, kept as the
-- integers that they stand for.
use Prim.Native.String.{String}
use shinrai_trade.Common.{
  ℕ, suc, ◌-◌, ◌%◌, Bool, true, false, Option, none, some, List, [], ◌∷◌, if◌then◌else◌, Result, ok,
  err, ◌>>=◌, ◌>>◌, ltb, nat_beq,
}
use shinrai_trade.Common.Int.{ℤ, pos, negsuc, abs, ltb_ℤ, leb_ℤ, eqb_ℤ, i64_limit}
use shinrai_trade.Ledger.Entry.{InstrumentId}

abbrev pub max_scale : ℕ
max_scale = 18

pub data InstrumentError : Type 0 where
  invalid_identifier invalid_isin invalid_mic : InstrumentError
  scale_out_of_range : ℕ → InstrumentError
  invalid_grid : String → InstrumentError
  invalid_decimal : InstrumentError
  scale_exceeded : ℕ → ℕ → InstrumentError
  overflow : InstrumentError
  price_off_grid quantity_off_grid quantity_below_min quantity_above_max : ℤ → ℤ → InstrumentError
  price_out_of_bands : ℤ → InstrumentError
  not_tradable : InstrumentId → InstrumentError
  duplicate_instrument duplicate_alias : InstrumentId → InstrumentError
  unknown_alias : InstrumentError
  unknown_instrument : InstrumentId → InstrumentError

-- `i64::rem_euclid` by a number that is not zero.
unfoldable pub rem_euclid : ℤ → ℤ → ℕ
unfolding abs
rem_euclid (pos n) d = n % abs d
rem_euclid (negsuc n) d = let m = suc n % abs d in if nat_beq m 0 then 0 else abs d - m

-- The bounds are those of `[min, max)`.
pub record TickBand : Type 0 where
  pub min : ℤ
  pub max : Option ℤ
  pub tick_size : ℤ

abbrev check_max : ℤ → Option ℤ → Result InstrumentError (Unit {0})
check_max min none = ok tt
check_max min (some max) =
    if leb_ℤ max min
    then err (InstrumentError.invalid_grid "tick band max must be greater than min")
    else ok tt

-- `TickBand::new`
unfoldable pub new_band : ℤ → Option ℤ → ℤ → Result InstrumentError TickBand
new_band min max tick_size =
    if leb_ℤ tick_size (pos 0)
    then err (InstrumentError.invalid_grid "tick size must be positive")
    else check_max min max >> ok (record { min = min; max = max; tick_size = tick_size })

abbrev below : ℤ → Option ℤ → Bool
below scaled (some max) = ltb_ℤ scaled max
below scaled none = true

-- `TickBand::contains`
unfoldable pub contains_price : TickBand → ℤ → Bool
contains_price b scaled = if ltb_ℤ scaled b.min then false else below scaled b.max

pub record TickTable : Type 0 where
  pub bands : List TickBand
  pub price_scale : ℕ

abbrev pub check_window : Option ℤ → ℤ → ℤ → Result InstrumentError (Unit {0})
check_window none left_min right_min =
    err (InstrumentError.invalid_grid "only the last tick band may be unbounded")
check_window (some left_max) left_min right_min =
    if eqb_ℤ left_max right_min
    then if ltb_ℤ right_min left_min
      then err (InstrumentError.invalid_grid "tick bands must be sorted")
      else ok tt
    else err (InstrumentError.invalid_grid "tick bands must be contiguous")

-- The loop over `windows(2)`.
unfoldable pub check_windows : List TickBand → Result InstrumentError (Unit {0})
check_windows [] = ok tt
check_windows (b ∷ []) = ok tt
check_windows (l ∷ r ∷ bs) = check_window l.max l.min r.min >> check_windows (r ∷ bs)

abbrev is_empty_bands : List TickBand → Bool
is_empty_bands [] = true
is_empty_bands (b ∷ bs) = false

-- `TickTable::new`
unfoldable pub new_table : ℕ → List TickBand → Result InstrumentError TickTable
unfolding check_windows
new_table price_scale bands =
    if ltb max_scale price_scale
    then err (InstrumentError.scale_out_of_range price_scale)
    else if is_empty_bands bands
    then err (InstrumentError.invalid_grid "tick table needs at least one band")
    else check_windows bands >> ok (record { bands = bands; price_scale = price_scale })

-- `i64::MIN`
abbrev pub i64_min : ℤ
i64_min = negsuc (i64_limit - 1)

-- `TickTable::constant`
unfoldable pub constant : ℕ → ℤ → Result InstrumentError TickTable
unfolding new_band new_table
constant price_scale tick_size_scaled =
    new_band i64_min none tick_size_scaled >>= λ band. new_table price_scale (band ∷ [])

-- `find(|b| b.contains(scaled))` with its `ok_or`.
unfoldable pub find_band : List TickBand → ℤ → Result InstrumentError TickBand
unfolding contains_price
find_band [] scaled = err (InstrumentError.price_out_of_bands scaled)
find_band (b ∷ bs) scaled =
    let rest = find_band bs scaled in if contains_price b scaled then ok b else rest

abbrev pub band_for : TickTable → ℤ → Result InstrumentError TickBand
band_for t scaled = find_band t.bands scaled

abbrev on_grid : ℤ → TickBand → Result InstrumentError ℤ
on_grid scaled band =
    if nat_beq (rem_euclid scaled band.tick_size) 0
    then ok scaled
    else err (InstrumentError.price_off_grid scaled band.tick_size)

-- `TickTable::validate_scaled`
unfoldable pub validate_price : TickTable → ℤ → Result InstrumentError ℤ
unfolding find_band rem_euclid
validate_price t scaled = band_for t scaled >>= on_grid scaled
