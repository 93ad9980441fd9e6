-- ===== src/Instruments/Digits.antt =====
-- crates/domain/instruments/src/grid.rs: the digits that are written read back as the number.
use native.Mathlib.Nat.{pow-succ'}
use Prim.Native.Char.{code, len_utf8, len_utf8_def}
use Prim.Native.String.{String, len}
use Prim.Native.String.len.{cons as len_cons}
use shinrai_trade.Common.{
  ℕ, zero, suc, ◌+◌, ◌-◌, ◌/◌, ◌%◌, ◌^◌, ◌<◌, ◌≤◌, ◌≡◌, inl, inr, refl, ap, ◌∙◌, arith, Bool, true,
  false, ltb, Bool-cases,
}
use shinrai_trade.Instruments.Decimal.{
  is_digit, all_digits, value_from, split_dot, digit_char, to_digits, zeros, pad_zeros,
}

pub digit_char_lem : (d : ℕ) → d < 10 → code (digit_char d) ≡ 48 + d
digit_char_lem zero h = refl
digit_char_lem (suc zero) h = refl
digit_char_lem (suc (suc zero)) h = refl
digit_char_lem (suc (suc (suc zero))) h = refl
digit_char_lem (suc (suc (suc (suc zero)))) h = refl
digit_char_lem (suc (suc (suc (suc (suc zero))))) h = refl
digit_char_lem (suc (suc (suc (suc (suc (suc zero)))))) h = refl
digit_char_lem (suc (suc (suc (suc (suc (suc (suc zero))))))) h = refl
digit_char_lem (suc (suc (suc (suc (suc (suc (suc (suc zero)))))))) h = refl
digit_char_lem (suc (suc (suc (suc (suc (suc (suc (suc (suc zero))))))))) h = refl
digit_char_lem (suc (suc (suc (suc (suc (suc (suc (suc (suc (suc d)))))))))) h = omega arith

last_digit : (n : ℕ) → code (digit_char (n % 10)) ≡ 48 + n % 10
last_digit n = digit_char_lem (n % 10) (omega arith)

pub all_digits-to_digits :
    (f n : ℕ) (s : String) → all_digits s ≡ true → all_digits (to_digits f n s) ≡ true
unfolding to_digits all_digits
all_digits-to_digits zero n s h = h
all_digits-to_digits (suc f) n s h =
    ground
      (arith, last_digit n, all_digits-to_digits f (n / 10) (String.◌∷◌ (digit_char (n % 10)) s))

-- With fuel enough,
pub value_from-to_digits :
    (f n : ℕ) (s : String) → n < 10 ^ f → value_from 0 (to_digits f n s) ≡ value_from n s
unfolding to_digits value_from
value_from-to_digits zero n s h = ground arith
value_from-to_digits (suc f) n s h = elim (Bool-cases (ltb n 10)) [
  | inl one ↦ rw one (ap (λ k. value_from k s) (ground (arith, last_digit n)))
  | inr more ↦ rw more (
      value_from-to_digits f (n / 10) (String.◌∷◌ (digit_char (n % 10)) s)
        (omega (arith, pow-succ' 10 f))
      ∙ ap (λ k. value_from k s) (omega (arith, last_digit n)))
]

pub split_dot-to_digits :
    (f n : ℕ) (s w r : String)
    → split_dot s ≡ (w, r)
    → split_dot (to_digits f n s) ≡ (to_digits f n w, r)
unfolding to_digits split_dot
split_dot-to_digits zero n s w r h = h
split_dot-to_digits (suc f) n s w r h = ground (
  arith,
  last_digit n,
  split_dot-to_digits f (n / 10) (String.◌∷◌ (digit_char (n % 10)) s)
      (String.◌∷◌ (digit_char (n % 10)) w) r,
)

-- A text that begins with a digit.
abbrev pub begins : String → Bool
begins String.[] = false
begins (String.◌∷◌ c s) = is_digit c

begins-more : (f n : ℕ) (s : String) → begins s ≡ true → begins (to_digits f n s) ≡ true
unfolding to_digits
begins-more zero n s h = h
begins-more (suc f) n s h =
    ground (arith, last_digit n, begins-more f (n / 10) (String.◌∷◌ (digit_char (n % 10)) s))

pub begins-to_digits : (f n : ℕ) (s : String) → begins (to_digits (suc f) n s) ≡ true
unfolding to_digits
begins-to_digits f n s =
    ground (arith, last_digit n, begins-more f (n / 10) (String.◌∷◌ (digit_char (n % 10)) s))

len-digit : (d : ℕ) (s : String) → d < 10 → len (String.◌∷◌ (digit_char d) s) ≡ suc (len s)
len-digit d s h =
    let width : len_utf8 (digit_char d) ≡ 1 =
      len_utf8_def (digit_char d) ∙ ground (arith, digit_char_lem d h) in
    omega (arith, width, len_cons (digit_char d) s)

ltb-true : (n : ℕ) → n < 10 → ltb n 10 ≡ true
ltb-true n h = ground arith

-- A number below 10 ^ k has at most k digits.
pub len-to_digits :
    (f n k : ℕ) (s : String) → n < 10 ^ suc k → len (to_digits f n s) ≤ suc k + len s
unfolding to_digits
len-to_digits zero n k s h = omega arith
len-to_digits (suc f) n zero s h =
    rw (ltb-true n h) (omega (arith, len-digit (n % 10) s (omega arith)))
len-to_digits (suc f) n (suc j) s h = elim (Bool-cases (ltb n 10)) [
  | inl one ↦ rw one (omega (arith, len-digit (n % 10) s (omega arith)))
  | inr more ↦ rw more (
      omega (
        arith,
        len-digit (n % 10) s (omega arith),
        len-to_digits f (n / 10) j (String.◌∷◌ (digit_char (n % 10)) s)
            (omega (arith, pow-succ' 10 (suc j))),
      ))
]

len-zeros : (k : ℕ) (s : String) → len (zeros k s) ≡ k + len s
unfolding zeros
len-zeros zero s = omega arith
len-zeros (suc k) s = omega (arith, len-digit 0 (zeros k s) (omega arith), len-zeros k s)

value_from-zeros : (k : ℕ) (s : String) → value_from 0 (zeros k s) ≡ value_from 0 s
unfolding zeros value_from
value_from-zeros zero s = refl
value_from-zeros (suc k) s = value_from-zeros k s

all_digits-zeros : (k : ℕ) (s : String) → all_digits s ≡ true → all_digits (zeros k s) ≡ true
unfolding zeros all_digits
all_digits-zeros zero s h = h
all_digits-zeros (suc k) s h = all_digits-zeros k s h

-- The digits after the dot.
pub pad_zeros_lem :
    (width n : ℕ)
    → n < 10 ^ suc width
    → n < 10 ^ 20
    → (len (pad_zeros (suc width) n) ≡ suc width)
      × (value_from 0 (pad_zeros (suc width) n) ≡ n)
      × (all_digits (pad_zeros (suc width) n) ≡ true)
unfolding pad_zeros value_from all_digits
pad_zeros_lem width n h k =
    let t = to_digits 20 n String.[] in
    let short = len-to_digits 20 n width String.[] h in
    (
      omega (arith, len-zeros (suc width - len t) t, short),
      value_from-zeros (suc width - len t) t ∙ value_from-to_digits 20 n String.[] k,
      all_digits-zeros (suc width - len t) t (all_digits-to_digits 20 n String.[] refl),
    )
