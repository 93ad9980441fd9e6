-- ===== src/Risk/Rules.antt =====
-- The rules of crates/domain/risk/src/engine.rs, said without their order.
use shinrai_trade.Common.{
  ℕ, true, false, ◌≡◌, ◌⊎◌, ◌≤◌, ◌<◌, ◌%◌, Option, none, some, ok, nat_eq, pair_eq,
}
use shinrai_trade.Common.Int.{
  ℤ, pos, ◌+ℤ◌, ◌-ℤ◌, ◌*ℤ◌, ◌/ℤ◌, ◌≤ℤ◌, ◌<ℤ◌, neg, i64_limit, i128_limit, Fits,
}
use shinrai_trade.Common.Sets.{member}
use shinrai_trade.Money.{currency_eq}
use shinrai_trade.Orders.Status.{Side}
use shinrai_trade.Risk.Engine.{RiskLimits, RiskContext, RiskOrderIntent, RiskEngine}
use shinrai_trade.Risk.Gates.{Verdict}

-- A verdict that lets the order through.
abbrev pub Passes : Verdict → Type 0
Passes v = v ≡ ok tt

-- Not killed, and not restricted unless overridden.
abbrev pub Permitted : RiskEngine → RiskOrderIntent → Type 0
Permitted e i =
    (e.global_kill ≡ false)
    × (member i.account_id e.account_kills ≡ false)
    × ((member i.instrument_id e.restricted ≡ false)
        ⊎ (member (i.account_id, i.instrument_id) e.overrides ≡ true))

-- The time of the day is in a session of the day, or not in the pause of one over midnight.
abbrev pub InSession : Option (ℕ × ℕ) → ℕ → Type 0
InSession none tod = Unit
InSession (some (opens, closes)) tod =
    ((opens ≤ tod) × (tod < closes))
    ⊎ ((closes < opens) × (opens ≤ tod))
    ⊎ ((closes < opens) × (tod < closes))

abbrev pub WithinLoss : RiskLimits → RiskContext → Type 0
WithinLoss l c = (l.max_daily_loss_minor ≤ℤ pos 0) ⊎ (neg l.max_daily_loss_minor <ℤ c.day_pnl_minor)

abbrev pub WithinSize : RiskLimits → RiskOrderIntent → RiskContext → Type 0
WithinSize l i c =
    (pos 0 <ℤ i.qty)
    × (i.qty ≤ℤ l.max_order_qty_lots)
    × (pos 0 <ℤ c.notional.minor_units)
    × (c.notional.minor_units ≤ℤ l.max_order_notional_minor)

-- The price is at most `bps` hundredths of a percent of the mark away from it.
abbrev pub NearMark : ℤ → ℤ → Option ℤ → Type 0
NearMark bps limit none = ⊥
NearMark bps limit (some mark) =
    (pos 0 <ℤ mark)
    × (limit -ℤ mark ≤ℤ mark *ℤ bps /ℤ pos 10000)
    × (mark -ℤ limit ≤ℤ mark *ℤ bps /ℤ pos 10000)

abbrev pub WithinCollar : RiskLimits → RiskOrderIntent → RiskContext → Type 0
WithinCollar l i c = (l.collar_bps ≤ℤ pos 0) ⊎ NearMark l.collar_bps i.price c.ref_price

abbrev pub WithinExposure : RiskLimits → RiskContext → Type 0
WithinExposure l c =
    (l.max_asset_class_notional_minor ≤ℤ pos 0)
    ⊎ (c.asset_class_exposure_minor +ℤ c.notional.minor_units ≤ℤ l.max_asset_class_notional_minor)

-- A buyer has the cash and room for the lots, a seller the lots or room for the short.
abbrev pub Covered : Side → RiskLimits → RiskOrderIntent → RiskContext → Type 0
Covered Side.buy l i c =
    (c.available_cash.currency ≡ c.notional.currency)
    × (c.notional.minor_units ≤ℤ c.available_cash.minor_units)
    × (c.position_lots +ℤ i.qty ≤ℤ l.max_position_lots)
Covered Side.sell l i c =
    (i.qty ≤ℤ c.position_lots)
    ⊎ ((l.allow_short ≡ true) × (i.qty -ℤ c.position_lots ≤ℤ l.max_short_lots))

abbrev pub MarkInRange : ℤ → Option ℤ → Type 0
MarkInRange limit none = Unit
MarkInRange limit (some mark) = Fits i64_limit (limit -ℤ mark)

-- The sums and differences of the checks are in the range of their types.
pub record InRange (i : RiskOrderIntent) (c : RiskContext) : Type 0 where
  pub spread : MarkInRange i.price c.ref_price
  pub bought : Fits i64_limit (c.position_lots +ℤ i.qty)
  pub sold : Fits i64_limit (i.qty -ℤ c.position_lots)
  pub order : Fits i128_limit c.notional.minor_units
  pub exposure : Fits i128_limit (c.asset_class_exposure_minor +ℤ c.notional.minor_units)

-- Everything an approved order satisfies.
pub record Allowed (e : RiskEngine) (i : RiskOrderIntent) (c : RiskContext) : Type 0 where
  pub permitted : Permitted e i
  pub in_session : InSession e.limits.market_session_utc (c.now_unix % 86400)
  pub within_loss : WithinLoss e.limits c
  pub within_size : WithinSize e.limits i c
  pub within_collar : WithinCollar e.limits i c
  pub within_exposure : WithinExposure e.limits c
  pub covered : Covered i.side e.limits i c
