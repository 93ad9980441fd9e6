-- ===== src/Portfolio/Sale.antt =====
-- crates/domain/portfolio/src/lib.rs: the share of the cost that a sale takes with it.
use native.Mathlib.Nat.{mul-le-mul_left, div-le_of_le-mul, mul-div_left}
use shinrai_trade.Common.{ℕ, zero, suc, ◌*◌, ◌/◌, ◌≤◌, ◌≡◌, ap, ◌∙◌, arith, some}
use shinrai_trade.Common.Int.{
  ℤ, pos, negsuc, ◌-ℤ◌, ◌*ℤ◌, ◌/ℤ◌, ◌≤ℤ◌, ◌<ℤ◌, i64_limit, i128_limit, checked_div, wrap, Fits,
  -ℤ_parts, eq_of_parts,
}
use shinrai_trade.Instruments.LotLaws.{pos-*ℤ, pos-/ℤ}
use shinrai_trade.Portfolio.Inventory.{InventoryLot, sold_entry}

-- Neither lots nor cost are negative, and both fit their types.
abbrev pub IsLot : InventoryLot → Type 0
IsLot e =
    (pos 0 ≤ℤ e.lots)
    × Fits i64_limit e.lots
    × (pos 0 ≤ℤ e.cost_minor)
    × Fits i128_limit e.cost_minor

wrap_i64 : (a : ℤ) → Fits i64_limit a → wrap i64_limit a ≡ a
unfolding wrap
wrap_i64 a h = ground arith

wrap_i128 : (a : ℤ) → Fits i128_limit a → wrap i128_limit a ≡ a
unfolding wrap
wrap_i128 a h = ground arith

share : (c q l : ℕ) → q ≤ suc l → c * q / suc l ≤ c
share c q l h = div-le_of_le-mul (suc l) (omega (arith, mul-le-mul_left c h))

-- The share lies between nothing and the whole cost, and is the whole for all the lots.
share_bounds :
    (c q l product sale : ℤ)
    → pos 0 ≤ℤ c
    → pos 0 <ℤ q
    → q ≤ℤ l
    → product ≡ c *ℤ q
    → checked_div i128_limit product l ≡ some sale
    → (pos 0 ≤ℤ sale) × (sale ≤ℤ c) × (q ≡ l → sale ≡ c)
unfolding checked_div
share_bounds (negsuc c) q l product sale h k le same div = ground arith
share_bounds (pos c) (negsuc q) l product sale h k le same div = ground arith
share_bounds (pos c) (pos q) (negsuc l) product sale h k le same div = ground arith
share_bounds (pos c) (pos q) (pos zero) product sale h k le same div = ground arith
share_bounds (pos c) (pos q) (pos (suc l)) product sale h k le same div =
    let whole : product ≡ pos (c * q) = same ∙ pos-*ℤ c q in
    let found : sale ≡ pos (c * q / suc l) =
      ground (arith, pos-/ℤ (c * q) l, ap (λ x. x /ℤ pos (suc l)) whole) in
    (
      ground (arith, found),
      ground (arith, found, share c q l (omega arith)),
      λ e. ground (
        arith,
        found,
        mul-div_left c {n = suc l} (omega arith),
        ap (λ x. c * x / suc l) {x = q} {y = suc l},
      ),
    )

-- A sale of no more than there is leaves an entry, and its cost and that of the sale are the old.
pub sold_entry_lem :
    (e : InventoryLot) (qty product sale : ℤ)
    → IsLot e
    → pos 0 <ℤ qty
    → qty ≤ℤ e.lots
    → product ≡ e.cost_minor *ℤ qty
    → checked_div i128_limit product e.lots ≡ some sale
    → IsLot (sold_entry e qty sale) × ((sold_entry e qty sale).cost_minor ≡ e.cost_minor -ℤ sale)
sold_entry_lem e qty product sale (k0, k1, k2, k3) h le same div =
    let (least, most, all) = share_bounds e.cost_minor qty e.lots product sale k2 h le same div in
    ground (
      arith,
      -ℤ_parts e.lots qty,
      -ℤ_parts e.cost_minor sale,
      wrap_i64 (e.lots -ℤ qty),
      wrap_i128 (e.cost_minor -ℤ sale),
      eq_of_parts (e.cost_minor -ℤ sale) (pos 0),
    )
