-- ===== src/Instruments/Decimal.antt =====
-- crates/domain/instruments/src/grid.rs: decimal texts of scaled integers, read and written.
use Prim.Native.Char.{Char, code}
use Prim.Native.String.{String, len, char_at}
use shinrai_trade.Common.{
  ℕ, zero, suc, ◌+◌, ◌-◌, ◌*◌, ◌/◌, ◌%◌, ◌^◌, Bool, true, not, ◌&&◌, ◌||◌, if◌then◌else◌, Result,
  ok, err, ◌>>=◌, ok_or, ltb, leb, nat_beq,
}
use shinrai_trade.Common.Int.{ℤ, pos, negsuc, abs, ◌+ℤ◌, ◌*ℤ◌, ltb_ℤ, i64_limit, checked}
use shinrai_trade.Common.Text.{trim, is_empty_text}
use shinrai_trade.Instruments.Grid.{InstrumentError, TickTable, validate_price}
use shinrai_trade.Instruments.Lots.{LotSpec, validate_quantity, size_lots, lots_scaled}

abbrev pub is_digit : Char → Bool
is_digit c = leb b'0' (code c) && leb (code c) b'9'

-- `chars().all(|c| c.is_ascii_digit())`
unfoldable pub all_digits : String → Bool
all_digits String.[] = true
all_digits (String.◌∷◌ c s) = is_digit c && all_digits s

-- The number that digits go on to write after `n`.
unfoldable pub value_from : ℕ → String → ℕ
value_from n String.[] = n
value_from n (String.◌∷◌ c s) = value_from (10 * n + (code c - b'0')) s

-- `str::parse::<i64>` of a text of digits, one at least.
unfoldable pub parse_digits : String → Result InstrumentError ℤ
unfolding value_from
parse_digits s = ok_or (checked i64_limit (pos (value_from 0 s))) InstrumentError.invalid_decimal

-- The sign, and what follows it.
unfoldable pub strip_sign : String → ℤ × String
strip_sign String.[] = (pos 1, String.[])
strip_sign (String.◌∷◌ c s) =
    if nat_beq (code c) b'-'
    then (negsuc 0, s)
    else if nat_beq (code c) b'+'
    then (pos 1, s)
    else (pos 1, String.◌∷◌ c s)

-- `split_once('.')`, the whole text with nothing after it where there is no dot.
unfoldable pub split_dot : String → String × String
split_dot String.[] = (String.[], String.[])
split_dot (String.◌∷◌ c s) =
    let (whole, frac) = split_dot s in
    if nat_beq (code c) b'.' then (String.[], s) else (String.◌∷◌ c whole, frac)

unfoldable pub pow10_i64 : ℕ → Result InstrumentError ℤ
pow10_i64 scale = ok_or (checked i64_limit (pos (10 ^ scale))) InstrumentError.overflow

unfoldable pub pad_frac : ℕ → ℤ → Result InstrumentError ℤ
unfolding ◌*ℤ◌
pad_frac zero frac = ok frac
pad_frac (suc n) frac =
    ok_or (checked i64_limit (frac *ℤ pos 10)) InstrumentError.overflow >>= pad_frac n

abbrev pub parse_frac : String → Result InstrumentError ℤ
parse_frac s = if is_empty_text s then ok (pos 0) else parse_digits s

-- From the two parts on.
unfoldable pub scale_parts : ℤ → String → String → ℕ → Result InstrumentError ℤ
unfolding parse_digits pow10_i64 pad_frac ◌*ℤ◌ ◌+ℤ◌
scale_parts sign whole_str frac_str scale = do
  whole ← parse_digits whole_str
  factor ← pow10_i64 scale
  whole_scaled ← ok_or (checked i64_limit (whole *ℤ factor)) InstrumentError.overflow
  frac ← parse_frac frac_str
  padded ← pad_frac (scale - len frac_str) frac
  abs ← ok_or (checked i64_limit (whole_scaled +ℤ padded)) InstrumentError.overflow
  ok_or (checked i64_limit (abs *ℤ sign)) InstrumentError.overflow

abbrev pub check_parts : ℤ → String → String → ℕ → Result InstrumentError ℤ
check_parts sign whole_str frac_str scale =
    if is_empty_text whole_str || not (all_digits whole_str) || not (all_digits frac_str)
    then err InstrumentError.invalid_decimal
    else if ltb scale (len frac_str)
    then err (InstrumentError.scale_exceeded (len frac_str) scale)
    else scale_parts sign whole_str frac_str scale

unfoldable pub parse_scaled : String → ℕ → Result InstrumentError ℤ
unfolding trim strip_sign split_dot all_digits scale_parts
parse_scaled text scale =
    let s = trim text in
    let (sign, rest) = strip_sign s in
    let (whole_str, frac_str) = split_dot rest in
    if is_empty_text s || is_empty_text rest
    then err InstrumentError.invalid_decimal
    else check_parts sign whole_str frac_str scale

abbrev pub digit_char : ℕ → Char
digit_char d = char_at "0123456789" d

-- The digits of `n` in front of a text, by fuel: 20 are enough for a `u64`.
unfoldable pub to_digits : ℕ → ℕ → String → String
to_digits zero n s = s
to_digits (suc fuel) n s =
    let here = String.◌∷◌ (digit_char (n % 10)) s in
    let more = to_digits fuel (n / 10) here in if ltb n 10 then here else more

unfoldable pub zeros : ℕ → String → String
zeros zero s = s
zeros (suc n) s = String.◌∷◌ (digit_char 0) (zeros n s)

-- `{frac:0width$}`
unfoldable pub pad_zeros : ℕ → ℕ → String
unfolding to_digits zeros
pad_zeros width n = let digits = to_digits 20 n String.[] in zeros (width - len digits) digits

abbrev pub sign_text : Bool → String → String
sign_text negative s = if negative then String.◌∷◌ (char_at "-" 0) s else s

abbrev pub frac_text : ℕ → ℕ → String
frac_text zero frac = String.[]
frac_text (suc n) frac = String.◌∷◌ (char_at "." 0) (pad_zeros (suc n) frac)

unfoldable pub format_scaled : ℤ → ℕ → Result InstrumentError String
unfolding pow10_i64 abs to_digits pad_zeros
format_scaled scaled scale = do
  factor ← pow10_i64 scale
  let whole = abs scaled / abs factor in
      let frac = abs scaled % abs factor in
      ok (sign_text (ltb_ℤ scaled (pos 0)) (to_digits 20 whole (frac_text scale frac)))

-- `TickTable::price_to_ticks` and `ticks_to_price`.
unfoldable pub price_to_ticks : TickTable → String → Result InstrumentError ℤ
unfolding parse_scaled validate_price
price_to_ticks t decimal = parse_scaled decimal t.price_scale >>= validate_price t

unfoldable pub ticks_to_price : TickTable → ℤ → Result InstrumentError String
unfolding format_scaled
ticks_to_price t ticks = format_scaled ticks t.price_scale

-- `LotSpec::size_to_lots`, `qty_to_lots` and `lots_to_qty`.
unfoldable pub size_to_lots : LotSpec → String → Result InstrumentError ℤ
unfolding parse_scaled size_lots
size_to_lots s decimal = parse_scaled decimal s.qty_scale >>= size_lots s

unfoldable pub qty_to_lots : LotSpec → String → Result InstrumentError ℤ
unfolding parse_scaled validate_quantity
qty_to_lots s decimal = parse_scaled decimal s.qty_scale >>= validate_quantity s

unfoldable pub lots_to_qty : LotSpec → ℤ → Result InstrumentError String
unfolding format_scaled lots_scaled
lots_to_qty s lots = lots_scaled s lots >>= λ scaled. format_scaled scaled s.qty_scale
