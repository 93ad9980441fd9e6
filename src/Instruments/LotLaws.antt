-- ===== src/Instruments/LotLaws.antt =====
-- crates/domain/instruments/src/grid.rs: quantities and lots convert back and forth.
use native.Mathlib.Nat.{div-add-mod', mul-div_left, mul-mod_left}
use shinrai_trade.Common.{
  ℕ, zero, suc, ◌*◌, ◌/◌, ◌%◌, ◌<◌, ◌≡◌, ◌↔◌, inl, inr, refl, ap, arith, Option, none, some,
  if◌then◌else◌, ok, err, ok_or, nat_beq, Result-cases, Bool-cases,
}
use shinrai_trade.Common.Int.{
  ℤ, pos, negsuc, pos_part, abs, ◌*ℤ◌, ◌/ℤ◌, ◌<ℤ◌, ◌≤ℤ◌, i64_limit, checked, Fits,
}
use shinrai_trade.Instruments.Grid.{InstrumentError, rem_euclid}
use shinrai_trade.Instruments.Lots.{LotSpec, new_spec, validate_quantity, lots_scaled, above_max}

pub pos-*ℤ : (n d : ℕ) → pos n *ℤ pos d ≡ pos (n * d)
unfolding ◌*ℤ◌
pos-*ℤ n d = ground arith

negsuc-*ℤ : (n d : ℕ) → pos_part (negsuc n *ℤ pos d) ≡ 0
unfolding ◌*ℤ◌
negsuc-*ℤ n d = ground arith

pub pos-/ℤ : (n d : ℕ) → pos n /ℤ pos (suc d) ≡ pos (n / suc d)
unfolding ◌/ℤ◌
pos-/ℤ n d = ground arith

abbrev pub IsAtMost : ℤ → Option ℤ → Type 0
IsAtMost a none = Unit
IsAtMost a (some b) = a ≤ℤ b

-- What `LotSpec::new` ensures.
abbrev pub IsSpec : LotSpec → Type 0
IsSpec s = (pos 0 <ℤ s.min_qty_scaled) × (pos 0 <ℤ s.step_scaled)

pub new_spec-IsSpec :
    (scale : ℕ) (lot min : ℤ) (max : Option ℤ) (step : ℤ) (s : LotSpec)
    → new_spec scale lot min max step ≡ ok s
    → IsSpec s
unfolding new_spec
new_spec-IsSpec scale lot min none step s h = ground arith
new_spec-IsSpec scale lot min (some max) step s h = ground arith

above_max_iff : (a : ℤ) (m : Option ℤ) → (above_max a m ≡ ok tt) ↔ IsAtMost a m
above_max_iff a none = ((λ e. tt), (λ e. refl))
above_max_iff a (some m) = ground arith

step_scaled_of : (n d : ℕ) → n % suc d ≡ 0 → n / suc d * suc d ≡ n
step_scaled_of n d h = omega (arith, div-add-mod' n (suc d))

-- Whole lots have their size,
lots_of_scaled :
    (n d : ℕ) (lots : ℤ)
    → n < i64_limit
    → (if nat_beq (rem_euclid (pos n) (pos (suc d))) 0
        then ok (pos n /ℤ pos (suc d))
        else err (InstrumentError.quantity_off_grid (pos n) (pos (suc d))))
      ≡ ok lots
    → ok_or (checked i64_limit (lots *ℤ pos (suc d))) InstrumentError.overflow ≡ ok (pos n)
unfolding rem_euclid abs
lots_of_scaled n d lots h e = elim (Bool-cases (nat_beq (n % suc d) 0)) [
  | inr rest ↦ ground arith
  | inl whole ↦
      let same : lots ≡ pos (n / suc d) = ground (arith, pos-/ℤ n d) in
      rw same (ground (arith, pos-*ℤ (n / suc d) (suc d), step_scaled_of n d))
]

-- and what has the size of lots is that many.
scaled_of_lots :
    (n d : ℕ) (lots : ℤ)
    → 0 < n
    → ok_or (checked i64_limit (lots *ℤ pos (suc d))) InstrumentError.overflow ≡ ok (pos n)
    → (if nat_beq (rem_euclid (pos n) (pos (suc d))) 0
        then ok (pos n /ℤ pos (suc d))
        else err (InstrumentError.quantity_off_grid (pos n) (pos (suc d))))
      ≡ ok lots
unfolding rem_euclid abs
scaled_of_lots n d (negsuc m) k e = ground (arith, negsuc-*ℤ m (suc d))
scaled_of_lots n d (pos m) k e =
    let same : n ≡ m * suc d = ground (arith, pos-*ℤ m (suc d)) in
    ground (
      arith,
      pos-/ℤ n d,
      mul-mod_left m (suc d),
      mul-div_left m {n = suc d} (omega arith),
      ap (λ x. x % suc d) same,
      ap (λ x. x / suc d) same,
    )

abbrev Converted : LotSpec → ℤ → ℤ → Type 0
Converted s scaled lots = (validate_quantity s scaled ≡ ok lots) ↔ (
    (s.min_qty_scaled ≤ℤ scaled)
    × IsAtMost scaled s.max_qty_scaled
    × (lots_scaled s lots ≡ ok scaled))

Converted-cases :
    (lot min : ℤ) (max : Option ℤ) (step : ℤ) (scale : ℕ) (scaled lots : ℤ)
    → pos 0 <ℤ min
    → pos 0 <ℤ step
    → Fits i64_limit scaled
    → Converted
        (record {
          lot_size_scaled = lot;
          min_qty_scaled = min;
          max_qty_scaled = max;
          step_scaled = step;
          qty_scale = scale;
        })
        scaled
        lots
unfolding validate_quantity lots_scaled
Converted-cases lot min max (pos zero) scale scaled lots h k f = ground arith
Converted-cases lot min max (negsuc d) scale scaled lots h k f = ground arith
Converted-cases lot min max (pos (suc d)) scale (negsuc n) lots h k f = ground arith
Converted-cases lot min max (pos (suc d)) scale (pos n) lots h k f = ground (
  arith,
  above_max_iff (pos n) max,
  Result-cases (above_max (pos n) max),
  lots_of_scaled n d lots f.0,
  scaled_of_lots n d lots,
)

-- A quantity is taken as so many lots just if it lies between the bounds and has the
-- size of these lots.
pub validate_quantity_lem :
    (s : LotSpec) (scaled lots : ℤ)
    → IsSpec s
    → Fits i64_limit scaled
    → (validate_quantity s scaled ≡ ok lots) ↔ (
        (s.min_qty_scaled ≤ℤ scaled)
        × IsAtMost scaled s.max_qty_scaled
        × (lots_scaled s lots ≡ ok scaled))
validate_quantity_lem s scaled lots (h, k) f =
    Converted-cases s.lot_size_scaled s.min_qty_scaled s.max_qty_scaled s.step_scaled s.qty_scale
      scaled lots h k f
