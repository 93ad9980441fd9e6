-- ===== src/Orders/Invariant.antt =====
-- What holds of every order between two events, and that `assert_invariants` decides its
-- quantity part exactly.
use shinrai_trade.Common.{◌≡◌, ◌↔◌, Option, none, some, arith, ok}
use shinrai_trade.Common.Int.{ℤ, pos, ◌+ℤ◌, ◌≤ℤ◌, ◌<ℤ◌, Fits, i64_limit, wrap, +ℤ_parts, one_part}
use shinrai_trade.Orders.Status.{OrderStatus, OrderEvent, PriceTicks}
use shinrai_trade.Orders.Aggregate.{Order, assert_invariants}

abbrev pub Bracketed : Order → Type 0
Bracketed o =
    (pos 0 ≤ℤ o.cum_qty) × (pos 0 ≤ℤ o.leaves_qty) × (o.cum_qty +ℤ o.leaves_qty ≡ o.order_qty)

pub wrap_fits : (a : ℤ) → Fits i64_limit a → wrap i64_limit a ≡ a
unfolding wrap
wrap_fits a h = ground arith

-- Two sizes whose sum wraps around do not meet a third that is at least the first.
wrap_sum :
    (a b q : ℤ)
    → Fits i64_limit a
    → Fits i64_limit b
    → Fits i64_limit q
    → pos 0 ≤ℤ a
    → pos 0 ≤ℤ b
    → a ≤ℤ q
    → wrap i64_limit (a +ℤ b) ≡ q
    → a +ℤ b ≡ q
unfolding wrap
wrap_sum a b q fa fb fq ha hb haq e =
    ground (arith, +ℤ_parts a b, one_part a, one_part b, one_part q, one_part (a +ℤ b))

-- On an order with `i64` quantities, `assert_invariants` passes just if the filled and open
-- quantities are not negative and add up to the order quantity as integers, although the code
-- adds them with wrap-around.
pub assert_invariants_iff :
    (o : Order)
    → Fits i64_limit o.order_qty
    → Fits i64_limit o.cum_qty
    → Fits i64_limit o.leaves_qty
    → (assert_invariants o ≡ ok tt) ↔ Bracketed o
unfolding assert_invariants
assert_invariants_iff o fq fc fl = (
  λ e. ground (arith, wrap_sum o.cum_qty o.leaves_qty o.order_qty),
  λ h. ground (
    arith,
    wrap_fits (o.cum_qty +ℤ o.leaves_qty),
    +ℤ_parts o.cum_qty o.leaves_qty,
    one_part o.leaves_qty,
  ),
)

-- What the status says of the filled and the open quantity.
abbrev StatusFits : OrderStatus → ℤ → ℤ → Type 0
StatusFits OrderStatus.pending_new cum leaves = cum ≡ pos 0
StatusFits OrderStatus.rejected cum leaves = cum ≡ pos 0
StatusFits OrderStatus.new cum leaves = cum ≡ pos 0
StatusFits OrderStatus.partially_filled cum leaves = (pos 0 <ℤ cum) × (pos 0 <ℤ leaves)
StatusFits OrderStatus.filled cum leaves = leaves ≡ pos 0
StatusFits _ cum leaves = pos 0 <ℤ leaves

-- There is an average price exactly when there are fills, and it is a positive `i64`.
abbrev pub AvgFits : Option PriceTicks → ℤ → Type 0
AvgFits none cum = cum ≡ pos 0
AvgFits (some px) cum = (pos 0 <ℤ px) × Fits i64_limit px × (pos 0 <ℤ cum)

pub record IsValid (o : Order) : Type 0 where
  pub qty_pos : pos 0 <ℤ o.order_qty
  pub qty_fits : Fits i64_limit o.order_qty
  pub price_pos : pos 0 <ℤ o.price
  pub cum_nonneg : pos 0 ≤ℤ o.cum_qty
  pub leaves_nonneg : pos 0 ≤ℤ o.leaves_qty
  pub adds_up : o.cum_qty +ℤ o.leaves_qty ≡ o.order_qty
  pub status_fits : StatusFits o.status o.cum_qty o.leaves_qty
  pub avg_fits : AvgFits o.avg_px o.cum_qty

-- The quantities of an event are `i64` values.
abbrev pub EventFits : OrderEvent → Type 0
EventFits (OrderEvent.trade _ qty price) = Fits i64_limit qty × Fits i64_limit price
EventFits (OrderEvent.replace_requested qty price) = Fits i64_limit qty × Fits i64_limit price
EventFits (OrderEvent.replaced qty price) = Fits i64_limit qty × Fits i64_limit price
EventFits _ = Unit

-- On a valid order the closing check of `apply` passes.
pub assert_invariants-IsValid : (o : Order) → IsValid o → assert_invariants o ≡ ok tt
unfolding assert_invariants
assert_invariants-IsValid o v = ground (
  arith,
  wrap_fits (o.cum_qty +ℤ o.leaves_qty),
  +ℤ_parts o.cum_qty o.leaves_qty,
  one_part o.leaves_qty,
)
