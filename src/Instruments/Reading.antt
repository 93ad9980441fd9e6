-- ===== src/Instruments/Reading.antt =====
-- crates/domain/instruments/src/grid.rs: how the written text is taken apart.
use Prim.Native.String.{String, len}
use shinrai_trade.Common.{
  ℕ, zero, suc, ◌/◌, ◌%◌, ◌^◌, ◌<◌, ◌≡◌, refl, ◌∙◌, arith, Bool, true, false, if◌then◌else◌, ltb,
}
use shinrai_trade.Common.Text.{trim, is_empty_text, all_printable, trim-printable}
use shinrai_trade.Common.Int.{ℤ, pos, negsuc}
use shinrai_trade.Instruments.Decimal.{
  all_digits, value_from, strip_sign, split_dot, scale_parts, check_parts, parse_scaled, digit_char,
  to_digits, pad_zeros, sign_text, frac_text,
}
use shinrai_trade.Instruments.Digits.{
  digit_char_lem, all_digits-to_digits, split_dot-to_digits, begins, begins-to_digits,
  pad_zeros_lem,
}

parse_scaled_lem :
    (text s rest w f : String) (scale : ℕ) (sign : ℤ)
    → trim text ≡ s
    → strip_sign s ≡ (sign, rest)
    → split_dot rest ≡ (w, f)
    → is_empty_text s ≡ false
    → is_empty_text rest ≡ false
    → parse_scaled text scale ≡ check_parts sign w f scale
unfolding parse_scaled
parse_scaled_lem text s rest w f scale sign h1 h2 h3 h4 h5 = rw (h1, h2, h3) (rw (h4, h5) refl)

abbrev pub sign_of : Bool → ℤ
sign_of negative = if negative then negsuc 0 else pos 1

begins-full : (s : String) → begins s ≡ true → is_empty_text s ≡ false
begins-full String.[] h = ground arith
begins-full (String.◌∷◌ c s) h = refl

strip_sign-begins : (s : String) → begins s ≡ true → strip_sign s ≡ (pos 1, s)
unfolding strip_sign
strip_sign-begins String.[] h = ground arith
strip_sign-begins (String.◌∷◌ c s) h = ground arith

strip_sign-sign_text :
    (n : Bool) (s : String) → begins s ≡ true → strip_sign (sign_text n s) ≡ (sign_of n, s)
unfolding strip_sign
strip_sign-sign_text true s h = refl
strip_sign-sign_text false s h = strip_sign-begins s h

sign_text-full : (n : Bool) (s : String) → begins s ≡ true → is_empty_text (sign_text n s) ≡ false
sign_text-full true s h = refl
sign_text-full false s h = begins-full s h

digits_printable : (s : String) → all_digits s ≡ true → all_printable s ≡ true
unfolding all_digits all_printable
digits_printable String.[] h = refl
digits_printable (String.◌∷◌ c s) h = ground (arith, digits_printable s)

to_digits-printable :
    (f n : ℕ) (s : String) → all_printable s ≡ true → all_printable (to_digits f n s) ≡ true
unfolding to_digits all_printable
to_digits-printable zero n s h = h
to_digits-printable (suc f) n s h = ground (
  arith,
  digit_char_lem (n % 10) (omega arith),
  to_digits-printable f (n / 10) (String.◌∷◌ (digit_char (n % 10)) s),
)

sign_text-printable :
    (n : Bool) (s : String) → all_printable s ≡ true → all_printable (sign_text n s) ≡ true
unfolding all_printable
sign_text-printable true s h = h
sign_text-printable false s h = h

-- What stands after the dot.
abbrev pub frac_digits : ℕ → ℕ → String
frac_digits zero frac = String.[]
frac_digits (suc n) frac = pad_zeros (suc n) frac

split_dot-frac_text :
    (scale frac : ℕ) → split_dot (frac_text scale frac) ≡ (String.[], frac_digits scale frac)
unfolding split_dot
split_dot-frac_text zero frac = refl
split_dot-frac_text (suc n) frac = refl

pub frac_digits_lem :
    (scale frac : ℕ)
    → frac < 10 ^ scale
    → frac < 10 ^ 20
    → (len (frac_digits scale frac) ≡ scale)
      × (value_from 0 (frac_digits scale frac) ≡ frac)
      × (all_digits (frac_digits scale frac) ≡ true)
unfolding value_from all_digits
frac_digits_lem zero frac h k = (refl, ground arith, refl)
frac_digits_lem (suc n) frac h k = pad_zeros_lem n frac h k

frac_text-printable :
    (scale frac : ℕ)
    → all_digits (frac_digits scale frac) ≡ true
    → all_printable (frac_text scale frac) ≡ true
unfolding all_printable
frac_text-printable zero frac h = refl
frac_text-printable (suc n) frac h = digits_printable (pad_zeros (suc n) frac) h

check_parts_lem :
    (sign : ℤ) (w f : String) (scale : ℕ)
    → is_empty_text w ≡ false
    → all_digits w ≡ true
    → all_digits f ≡ true
    → len f ≡ scale
    → check_parts sign w f scale ≡ scale_parts sign w f scale
check_parts_lem sign w f scale h1 h2 h3 h4 =
    let fits : ltb scale (len f) ≡ false = ground arith in rw (h1, h2, h3, fits) refl

no_digits : all_digits String.[] ≡ true
unfolding all_digits
no_digits = refl

-- A text that was written is taken apart into its sign and its two rows of digits.
pub parse_scaled-sign_text :
    (n : Bool) (scale whole frac : ℕ)
    → frac < 10 ^ scale
    → frac < 10 ^ 20
    → parse_scaled (sign_text n (to_digits 20 whole (frac_text scale frac))) scale
      ≡ scale_parts (sign_of n) (to_digits 20 whole String.[]) (frac_digits scale frac) scale
parse_scaled-sign_text n scale whole frac h k =
    let (l, v, d) = frac_digits_lem scale frac h k in
    let body = to_digits 20 whole (frac_text scale frac) in
    let starts = begins-to_digits 19 whole (frac_text scale frac) in
    let printable =
      sign_text-printable n body
        (to_digits-printable 20 whole (frac_text scale frac) (frac_text-printable scale frac d)) in
    parse_scaled_lem (sign_text n body) (sign_text n body) body (to_digits 20 whole String.[])
      (frac_digits scale frac) scale (sign_of n) (trim-printable (sign_text n body) printable)
      (strip_sign-sign_text n body starts)
      (split_dot-to_digits 20 whole (frac_text scale frac) String.[] (frac_digits scale frac)
        (split_dot-frac_text scale frac))
      (sign_text-full n body starts) (begins-full body starts)
    ∙ check_parts_lem (sign_of n) (to_digits 20 whole String.[]) (frac_digits scale frac) scale
        (begins-full (to_digits 20 whole String.[]) (begins-to_digits 19 whole String.[]))
        (all_digits-to_digits 20 whole String.[] no_digits) d l
