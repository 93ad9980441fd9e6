-- ===== src/Orders/AvgPx.antt =====
-- The running average price of a valid order: no step of its computation leaves its type, and
-- the result lies between the prices that it averages.
use native.Mathlib.Nat.{mul-le-mul_left, mul-le-mul_right}
use shinrai_trade.Common.{
  ◌⊎◌, inl, inr, ℕ, ◌+◌, ◌*◌, ◌/◌, ◌≤◌, ◌<◌, ◌≡◌, Option, none, some, arith, ok,
}
use shinrai_trade.Common.Int.{ℤ, pos, negsuc, pos_part, ◌+ℤ◌, ◌*ℤ◌, ◌/ℤ◌, ◌≤ℤ◌, i64_limit}
use shinrai_trade.Orders.Status.{PriceTicks}
use shinrai_trade.Orders.Aggregate.{next_avg, prev_notional}
use shinrai_trade.Orders.Invariant.{AvgFits}

-- The weighted average of natural numbers, rounded down.
abbrev pub blend : ℕ → ℕ → ℕ → ℕ → ℕ
blend a c p q = (a * c + p * q) / (c + q)

blend-le : (a c p q hi : ℕ) → 0 < q → (c ≡ 0) ⊎ (a ≤ hi) → p ≤ hi → blend a c p q ≤ hi
blend-le a c p q hi hq (inl none_yet) hp = rw none_yet (grind arith)
blend-le a c p q hi hq (inr ha) hp = grind arith

le-blend : (a c p q lo : ℕ) → 0 < q → (c ≡ 0) ⊎ (lo ≤ a) → lo ≤ p → lo ≤ blend a c p q
le-blend a c p q lo hq (inl none_yet) hp = rw none_yet (grind arith)
le-blend a c p q lo hq (inr ha) hp = grind arith

-- Before the first fill there is no average, and nothing to weigh.
abbrev AvgIs : Option PriceTicks → ℕ → ℕ → Type 0
AvgIs none a c = c ≡ 0
AvgIs (some px) a c = px ≡ pos a

*ℤ-pos : (a b : ℕ) → pos a *ℤ pos b ≡ pos (a * b)
unfolding ◌*ℤ◌
*ℤ-pos a b = ground arith

+ℤ-pos : (a b : ℕ) → pos a +ℤ pos b ≡ pos (a + b)
unfolding ◌+ℤ◌
+ℤ-pos a b = ground arith

/ℤ-pos : (a b : ℕ) → pos a /ℤ pos b ≡ pos (a / b)
unfolding ◌/ℤ◌
/ℤ-pos a b = ground arith

prev_notional-pos :
    (avg : Option PriceTicks) (a c : ℕ) → AvgIs avg a c → prev_notional avg (pos c) ≡ pos (a * c)
prev_notional-pos none a c h = grind arith
prev_notional-pos (some px) a c h = rw h (*ℤ-pos a c)

notional_bound : (a c p q l : ℕ) → a ≤ l → p ≤ l → c + q ≤ l → a * c + p * q ≤ l * l
notional_bound a c p q l ha hp hc =
    omega (arith, mul-le-mul_right c ha, mul-le-mul_right q hp, mul-le-mul_left l hc)

next_avg-pos :
    (avg : Option PriceTicks) (a c q p : ℕ)
    → AvgIs avg a c
    → a < i64_limit
    → p < i64_limit
    → 0 < q
    → c + q < i64_limit
    → next_avg avg (pos c) (pos q) (pos p) (pos (c + q)) ≡ ok (pos (blend a c p q))
unfolding next_avg
next_avg-pos avg a c q p h ha hp hq hs = ground (
  arith,
  *ℤ-pos p q,
  prev_notional-pos avg a c h,
  +ℤ-pos (a * c) (p * q),
  /ℤ-pos (a * c + p * q) (c + q),
  notional_bound a c p q i64_limit,
  blend-le a c p q 9223372036854775807 hq (inr (omega arith)),
)

abbrev pub avg_part : Option PriceTicks → ℕ
avg_part none = 0
avg_part (some px) = pos_part px

AvgFits-AvgIs :
    (avg : Option PriceTicks) (c : ℕ)
    → AvgFits avg (pos c)
    → AvgIs avg (avg_part avg) c × (avg_part avg < i64_limit)
AvgFits-AvgIs none c h = ground arith
AvgFits-AvgIs (some (pos n)) c h = ground arith
AvgFits-AvgIs (some (negsuc n)) c h = ground arith

-- For a valid order no step of the computation overflows.
pub next_avg_total :
    (avg : Option PriceTicks) (cum : ℤ) (q p : ℕ)
    → AvgFits avg cum
    → pos 0 ≤ℤ cum
    → p < i64_limit
    → 0 < q
    → pos_part cum + q < i64_limit
    → next_avg avg cum (pos q) (pos p) (cum +ℤ pos q)
      ≡ ok (pos (blend (avg_part avg) (pos_part cum) p q))
next_avg_total avg (pos c) q p h hc hp hq hs =
    let (known, small) = AvgFits-AvgIs avg c h in
    rw (+ℤ-pos c q) (next_avg-pos avg (avg_part avg) c q p known small hp hq hs)
next_avg_total avg (negsuc c) q p h hc hp hq hs = absurd (omega arith)

-- The bounds of an average are kept, and begin with the first fill.
pub avg_bounds :
    (avg : Option PriceTicks) (cum : ℤ) (q p lo hi : ℕ)
    → AvgFits avg cum
    → 0 < q
    → (pos_part cum ≡ 0) ⊎ (lo ≤ avg_part avg)
    → (pos_part cum ≡ 0) ⊎ (avg_part avg ≤ hi)
    → lo ≤ p
    → p ≤ hi
    → let a = blend (avg_part avg) (pos_part cum) p q in (lo ≤ a) × (a ≤ hi)
avg_bounds avg cum q p lo hi h hq above below hl hh = (
  le-blend (avg_part avg) (pos_part cum) p q lo hq above hl,
  blend-le (avg_part avg) (pos_part cum) p q hi hq below hh,
)
