-- ===== src/Instruments/RoundTrip.antt =====
-- crates/domain/instruments/src/grid.rs: what is written in decimals reads back.
use native.Mathlib.Nat.{div-add-mod', mod-lt, le-mul_of_pos_right, pow-le-pow_right}
use Prim.Native.String.{String, len}
use shinrai_trade.Common.{
  ℕ, ◌+◌, ◌-◌, ◌*◌, ◌/◌, ◌%◌, ◌^◌, ◌<◌, ◌≤◌, ◌≡◌, refl, ap, ◌∙◌, arith, Bool, ok, ◌>>=◌, ok_or,
  bind-ok, bind_assoc,
}
use shinrai_trade.Common.Int.{
  ℤ, pos, negsuc, abs, ◌+ℤ◌, ◌*ℤ◌, ltb_ℤ, i64_limit, checked, Fits, ◌≤ℤ◌, ◌<ℤ◌,
}
use shinrai_trade.Instruments.Grid.{InstrumentError}
use shinrai_trade.Instruments.Decimal.{
  value_from, parse_digits, pow10_i64, pad_frac, parse_frac, scale_parts, parse_scaled, to_digits,
  sign_text, frac_text, format_scaled, qty_to_lots, lots_to_qty,
}
use shinrai_trade.Instruments.Digits.{value_from-to_digits}
use shinrai_trade.Instruments.Reading.{
  sign_of, frac_digits, frac_digits_lem, parse_scaled-sign_text,
}
use shinrai_trade.Instruments.LotLaws.{pos-*ℤ, IsSpec, validate_quantity_lem}
use shinrai_trade.Instruments.Lots.{LotSpec, validate_quantity}

parse_digits_lem :
    (s : String) (n : ℕ) → value_from 0 s ≡ n → n < i64_limit → parse_digits s ≡ ok (pos n)
unfolding parse_digits
parse_digits_lem s n h k = rw h (ground arith)

parse_frac_lem :
    (s : String) (n : ℕ) → value_from 0 s ≡ n → n < i64_limit → parse_frac s ≡ ok (pos n)
unfolding value_from
parse_frac_lem String.[] n h k = rw h refl
parse_frac_lem (String.◌∷◌ c s) n h k = parse_digits_lem (String.◌∷◌ c s) n h k

pow10_lem : (scale : ℕ) → 10 ^ scale < i64_limit → pow10_i64 scale ≡ ok (pos (10 ^ scale))
unfolding pow10_i64
pow10_lem scale h = ground arith

checked_lem :
    (a : ℤ) (n : ℕ)
    → a ≡ pos n
    → n < i64_limit
    → ok_or (checked i64_limit a) InstrumentError.overflow ≡ ok (pos n)
checked_lem a n h k = rw h (ground arith)

pos-+ℤ : (n m : ℕ) → pos n +ℤ pos m ≡ pos (n + m)
unfolding ◌+ℤ◌
pos-+ℤ n m = ground arith

no_padding : (scale l frac : ℕ) → l ≡ scale → pad_frac (scale - l) (pos frac) ≡ ok (pos frac)
unfolding pad_frac
no_padding scale l frac h = let none_left : scale - l ≡ 0 = omega arith in rw none_left refl

-- The two parts, whole and in full.
scale_parts_lem :
    (sign : ℤ) (w f : String) (scale whole frac : ℕ)
    → value_from 0 w ≡ whole
    → value_from 0 f ≡ frac
    → len f ≡ scale
    → 0 < 10 ^ scale
    → 10 ^ scale < i64_limit
    → whole * 10 ^ scale + frac < i64_limit
    → whole < i64_limit
    → scale_parts sign w f scale
      ≡ ok_or (checked i64_limit (pos (whole * 10 ^ scale + frac) *ℤ sign)) InstrumentError.overflow
unfolding scale_parts
scale_parts_lem sign w f scale whole frac hw hf hl hp hq ht hb =
    bind-ok _ (parse_digits_lem w whole hw hb)
    ∙ bind-ok _ (pow10_lem scale hq)
    ∙ bind-ok _ (
        checked_lem (pos whole *ℤ pos (10 ^ scale)) (whole * 10 ^ scale) (pos-*ℤ whole (10 ^ scale))
          (omega arith))
    ∙ bind-ok _ (parse_frac_lem f frac hf (omega arith))
    ∙ bind-ok _ (no_padding scale (len f) frac hl)
    ∙ bind-ok _ (
        checked_lem (pos (whole * 10 ^ scale) +ℤ pos frac) (whole * 10 ^ scale + frac)
          (pos-+ℤ (whole * 10 ^ scale) frac) ht)

times_sign : (scaled : ℤ) → pos (abs scaled) *ℤ sign_of (ltb_ℤ scaled (pos 0)) ≡ scaled
unfolding ◌*ℤ◌ abs
times_sign (pos n) = ground arith
times_sign (negsuc n) = ground arith

abs-pos : (n : ℕ) → abs (pos n) ≡ n
unfolding abs
abs-pos n = omega arith

checked_fits :
    (a : ℤ) → abs a < i64_limit → ok_or (checked i64_limit a) InstrumentError.overflow ≡ ok a
unfolding abs
checked_fits (pos n) h = ground arith
checked_fits (negsuc n) h = ground arith

pow_bounds : (scale : ℕ) → scale ≤ 18 → (0 < 10 ^ scale) × (10 ^ scale < i64_limit)
pow_bounds scale h = (
  omega (arith, pow-le-pow_right {n = 10} (omega arith) {i = 0} {j = scale} (omega arith)),
  omega (arith, pow-le-pow_right {n = 10} (omega arith) {i = scale} {j = 18} h),
)

read_parts :
    (n : Bool) (scale whole frac : ℕ)
    → frac < 10 ^ scale
    → 0 < 10 ^ scale
    → 10 ^ scale < i64_limit
    → whole * 10 ^ scale + frac < i64_limit
    → parse_scaled (sign_text n (to_digits 20 whole (frac_text scale frac))) scale
      ≡ ok_or
          (checked i64_limit (pos (whole * 10 ^ scale + frac) *ℤ sign_of n))
          InstrumentError.overflow
unfolding value_from
read_parts n scale whole frac h p_pos p_max total =
    let below : whole < i64_limit = omega (arith, le-mul_of_pos_right whole p_pos) in
    let (l, v, d) = frac_digits_lem scale frac h (omega arith) in
    parse_scaled-sign_text n scale whole frac h (omega arith)
    ∙ scale_parts_lem (sign_of n) (to_digits 20 whole String.[]) (frac_digits scale frac) scale
        whole frac (value_from-to_digits 20 whole String.[] (omega arith)) v l p_pos p_max total
        below

-- A scaled integer other than the least `i64`, written with at most 18 decimals, is written
-- without an error, and reads back with as many decimals as itself.
pub parse_scaled-format_scaled :
    (scaled : ℤ) (scale : ℕ)
    → scale ≤ 18
    → abs scaled < i64_limit
    → (format_scaled scaled scale >>= λ text. parse_scaled text scale) ≡ ok scaled
unfolding format_scaled
parse_scaled-format_scaled scaled scale small bound =
    let p = 10 ^ scale in
    let (p_pos, p_max) = pow_bounds scale small in
    let a = abs scaled in
    let negative = ltb_ℤ scaled (pos 0) in
    let parts : a / p * p + a % p ≡ a = div-add-mod' a p in
    let written : format_scaled scaled scale
        ≡ ok (sign_text negative (to_digits 20 (a / p) (frac_text scale (a % p)))) =
      bind-ok _ (pow10_lem scale p_max)
      ∙ ap (λ q. ok (sign_text negative (to_digits 20 (a / q) (frac_text scale (a % q)))))
          (abs-pos p) in
    bind-ok (λ text. parse_scaled text scale) written
    ∙ read_parts negative scale (a / p) (a % p) (mod-lt a p_pos) p_pos p_max (omega (arith, parts))
    ∙ ap (λ k. ok_or (checked i64_limit (pos k *ℤ sign_of negative)) InstrumentError.overflow) parts
    ∙ ap (λ x. ok_or (checked i64_limit x) InstrumentError.overflow) (times_sign scaled)
    ∙ checked_fits scaled bound

Fits-abs : (a b : ℤ) → b ≤ℤ a → pos 0 <ℤ b → Fits i64_limit a → abs a < i64_limit
unfolding abs
Fits-abs a b h k f = ground arith

-- Where a lot specification with a positive step and least quantity and at most 18 decimals
-- takes an `i64` quantity as so many lots, these lots written as a decimal quantity read back
-- as the same lots.
pub qty_to_lots-lots_to_qty :
    (s : LotSpec) (scaled lots : ℤ)
    → IsSpec s
    → s.qty_scale ≤ 18
    → Fits i64_limit scaled
    → validate_quantity s scaled ≡ ok lots
    → (lots_to_qty s lots >>= qty_to_lots s) ≡ ok lots
unfolding lots_to_qty qty_to_lots
qty_to_lots-lots_to_qty s scaled lots spec small fits taken =
    let (least, most, sized) = (validate_quantity_lem s scaled lots spec fits).0 taken in
    let bound = Fits-abs scaled s.min_qty_scaled least spec.0 fits in
    ap (λ m. m >>= qty_to_lots s) (bind-ok (λ x. format_scaled x s.qty_scale) sized)
    ∙ bind_assoc (format_scaled scaled s.qty_scale) (λ text. parse_scaled text s.qty_scale)
        (validate_quantity s)
    ∙ bind-ok (validate_quantity s) (parse_scaled-format_scaled scaled s.qty_scale small bound)
    ∙ taken
