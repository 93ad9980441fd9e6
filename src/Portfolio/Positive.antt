-- ===== src/Portfolio/Positive.antt =====
-- crates/domain/paper/src/notional.rs: the value of a fill is not negative.
use shinrai_trade.Common.{ℕ, ◌-◌, ◌≡◌, arith, inl, inr, ok, ok_or, Result-cases, Bool-cases}
use shinrai_trade.Common.Int.{ℤ, pos, negsuc, ◌*ℤ◌, ◌/ℤ◌, ◌≤ℤ◌, ◌<ℤ◌, leb_ℤ, i128_limit, checked}
use shinrai_trade.Money.{Money}
use shinrai_trade.Instruments.LotLaws.{pos-*ℤ}
use shinrai_trade.Instruments.Product.{Instrument}
use shinrai_trade.Portfolio.Notional.{
  paper_overflow, pow10_i128, scale_up, scale_down, rescale_exact, notional,
}
use shinrai_trade.Portfolio.Inventory.{notional_for}
use shinrai_trade.Portfolio.Flow.{some_notional}

times_positive : (a b : ℤ) → pos 0 ≤ℤ a → pos 0 ≤ℤ b → pos 0 ≤ℤ a *ℤ b
times_positive (pos a) (pos b) h k = ground (arith, pos-*ℤ a b)
times_positive (negsuc a) b h k = ground arith
times_positive (pos a) (negsuc b) h k = ground arith

over_positive : (a b : ℤ) → pos 0 ≤ℤ a → pos 0 ≤ℤ b → pos 0 ≤ℤ a /ℤ b
unfolding ◌/ℤ◌
over_positive (pos a) (pos b) h k = ground arith
over_positive (negsuc a) b h k = ground arith
over_positive (pos a) (negsuc b) h k = ground arith

pow10_i128_inv : (n : ℕ) (f : ℤ) → pow10_i128 n ≡ ok f → pos 0 ≤ℤ f
pow10_i128_inv n f h = ground arith

checked_inv : (a b : ℤ) → ok_or (checked i128_limit a) paper_overflow ≡ ok b → b ≡ a
checked_inv a b h = ground arith

scale_up_positive : (a b : ℤ) (n : ℕ) → pos 0 ≤ℤ a → scale_up a n ≡ ok b → pos 0 ≤ℤ b
unfolding scale_up
scale_up_positive a b n h ran = elim (Result-cases (pow10_i128 n)) [
  | inr (e, failed) ↦ ground arith
  | inl (f, power) ↦
      ground (arith, checked_inv (a *ℤ f) b, times_positive a f h (pow10_i128_inv n f power))
]

scale_down_positive : (a b : ℤ) (n : ℕ) → pos 0 ≤ℤ a → scale_down a n ≡ ok b → pos 0 ≤ℤ b
unfolding scale_down
scale_down_positive a b n h ran = elim (Result-cases (pow10_i128 n)) [
  | inr (e, failed) ↦ ground arith
  | inl (f, power) ↦ ground (arith, over_positive a f h (pow10_i128_inv n f power))
]

rescale_positive : (a b : ℤ) (n m : ℕ) → pos 0 ≤ℤ a → rescale_exact a n m ≡ ok b → pos 0 ≤ℤ b
unfolding rescale_exact
rescale_positive a b n m h ran =
    ground (arith, scale_up_positive a b (m - n) h, scale_down_positive a b (n - m) h)

notional_positive :
    (i : Instrument) (px qty : ℤ) (m : Money)
    → pos 0 <ℤ i.multiplier
    → notional i px qty ≡ ok m
    → pos 0 ≤ℤ m.minor_units
unfolding notional
notional_positive i px qty m h ran = elim (Bool-cases (leb_ℤ qty (pos 0))) [
  | inl none_at_all ↦ ground arith
  | inr some_lots ↦ elim (Bool-cases (leb_ℤ px (pos 0))) [
    | inl free ↦ ground arith
    | inr priced ↦ elim (Result-cases (ok_or (checked i128_limit (px *ℤ qty)) paper_overflow)) [
      | inr (e, failed) ↦ ground arith
      | inl (a, first) ↦
          elim (Result-cases (ok_or (checked i128_limit (a *ℤ i.multiplier)) paper_overflow)) [
            | inr (e, failed) ↦ ground arith
            | inl (raw, second) ↦
                let low : pos 0 ≤ℤ a =
                  ground (arith, checked_inv (px *ℤ qty) a first, times_positive px qty) in
                let lower : pos 0 ≤ℤ raw = ground (
                  arith,
                  checked_inv (a *ℤ i.multiplier) raw second,
                  times_positive a i.multiplier low,
                ) in
                elim (Result-cases
                  (rescale_exact raw i.tick_table.price_scale i.quote_currency.scale)) [
                    | inr (e, failed) ↦ ground arith
                    | inl (minor, scaled) ↦ ground (
                      arith,
                      rescale_positive raw minor i.tick_table.price_scale i.quote_currency.scale
                          lower scaled,
                    )
                  ]
          ]
    ]
  ]
]

-- Zero stands for a value that could not be found.
pub some_notional_positive :
    (i : Instrument) (px qty : ℤ)
    → pos 0 <ℤ i.multiplier
    → pos 0 ≤ℤ some_notional (notional_for i px qty)
unfolding notional_for
some_notional_positive i px qty h = elim (Result-cases (notional i px qty)) [
  | inr (e, failed) ↦ rw failed (omega arith)
  | inl (m, found) ↦ rw found (notional_positive i px qty m h found)
]
