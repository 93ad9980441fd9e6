-- ===== src/Risk/Gates.antt =====
-- crates/domain/risk/src/engine.rs: `RiskEngine::check`, one function for each of its guards in
-- the order it has them.
use shinrai_trade.Common.{
  ℕ, Bool, true, false, not, ◌&&◌, ◌||◌, ◌%◌, ◌-◌, Option, none, some, Result, ok, err, ◌>>◌,
  if◌then◌else◌, ◌==◌, ltb, leb, nat_eq, pair_eq,
}
use shinrai_trade.Common.Int.{
  ℤ, pos, ◌+ℤ◌, ◌-ℤ◌, ◌*ℤ◌, ◌/ℤ◌, neg, abs, ltb_ℤ, leb_ℤ, i64_limit, i128_limit, checked, saturate,
  wrap,
}
use shinrai_trade.Common.Sets.{member}
use shinrai_trade.Money.{currency_eq}
use shinrai_trade.Orders.Status.{Side}
use shinrai_trade.Risk.Engine.{
  RiskLimits, RiskRejectReason, RiskDecision, RiskContext, RiskOrderIntent, RiskEngine,
}

abbrev pub Verdict : Type 0
Verdict = Result RiskRejectReason (Unit {0})

abbrev reject_if : Bool → RiskRejectReason → Verdict
reject_if true r = err r
reject_if false r = ok tt

unfoldable pub check_kills : RiskEngine → RiskOrderIntent → Verdict
check_kills e i =
    reject_if (e.global_kill || member i.account_id e.account_kills) RiskRejectReason.kill_switch

unfoldable pub check_restriction : RiskEngine → RiskOrderIntent → Verdict
check_restriction e i =
    reject_if
      (member i.instrument_id e.restricted
        && not (member (i.account_id, i.instrument_id) e.overrides))
      RiskRejectReason.restricted_instrument

-- An `open` after the `close` is a session over midnight.
abbrev pub in_session : ℕ → ℕ → ℕ → Bool
in_session opens closes tod =
    if leb opens closes then leb opens tod && ltb tod closes else leb opens tod || ltb tod closes

unfoldable pub check_session : RiskLimits → RiskContext → Verdict
check_session l c = elim l.market_session_utc [
  | none ↦ ok tt
  | some (opens, closes) ↦
      reject_if (not (in_session opens closes (c.now_unix % 86400))) RiskRejectReason.market_closed
]

unfoldable pub check_loss : RiskLimits → RiskContext → Verdict
check_loss l c =
    reject_if
      (ltb_ℤ (pos 0) l.max_daily_loss_minor && leb_ℤ c.day_pnl_minor (neg l.max_daily_loss_minor))
      RiskRejectReason.daily_loss_limit

unfoldable pub check_size : RiskLimits → RiskOrderIntent → RiskContext → Verdict
check_size l i c = do
  reject_if (leb_ℤ i.qty (pos 0) || ltb_ℤ l.max_order_qty_lots i.qty) RiskRejectReason.max_quantity
  reject_if
      (leb_ℤ c.notional.minor_units (pos 0)
        || ltb_ℤ l.max_order_notional_minor c.notional.minor_units)
      RiskRejectReason.max_notional

-- `limit - mark` is an `i64` and wraps around in a release build.
abbrev outside_collar : ℤ → ℤ → ℤ → Bool
outside_collar bps mark limit =
    ltb_ℤ (mark *ℤ bps /ℤ pos 10000) (pos (abs (wrap i64_limit (limit -ℤ mark))))

abbrev pub check_mark : ℤ → Option ℤ → ℤ → Verdict
check_mark bps none limit = err RiskRejectReason.price_collar
check_mark bps (some mark) limit =
    reject_if (leb_ℤ mark (pos 0) || outside_collar bps mark limit) RiskRejectReason.price_collar

unfoldable pub check_collar : RiskLimits → RiskOrderIntent → RiskContext → Verdict
check_collar l i c =
    if ltb_ℤ (pos 0) l.collar_bps then check_mark l.collar_bps c.ref_price i.price else ok tt

abbrev or_max : Option ℤ → ℤ
or_max none = pos (i128_limit - 1)
or_max (some a) = a

unfoldable pub check_exposure : RiskLimits → RiskContext → Verdict
check_exposure l c =
    let add = or_max (checked i128_limit (pos (abs c.notional.minor_units))) in
    let projected = saturate i128_limit (c.asset_class_exposure_minor +ℤ add) in
    reject_if
      (ltb_ℤ (pos 0) l.max_asset_class_notional_minor
        && ltb_ℤ l.max_asset_class_notional_minor projected)
      RiskRejectReason.max_asset_class_exposure

unfoldable pub check_buy : RiskLimits → RiskOrderIntent → RiskContext → Verdict
check_buy l i c = do
  reject_if
      (not (c.available_cash.currency == c.notional.currency)
        || ltb_ℤ c.available_cash.minor_units c.notional.minor_units)
      RiskRejectReason.insufficient_buying_power
  reject_if (ltb_ℤ l.max_position_lots (saturate i64_limit (c.position_lots +ℤ i.qty)))
      RiskRejectReason.max_position

-- `qty - position_lots` is an `i64` and wraps around in a release build.
unfoldable pub check_sell : RiskLimits → RiskOrderIntent → RiskContext → Verdict
check_sell l i c =
    if ltb_ℤ c.position_lots i.qty
    then (do
      reject_if (not l.allow_short) RiskRejectReason.insufficient_position
      reject_if (ltb_ℤ l.max_short_lots (wrap i64_limit (i.qty -ℤ c.position_lots)))
          RiskRejectReason.max_short)
    else ok tt

abbrev pub check_side : Side → RiskLimits → RiskOrderIntent → RiskContext → Verdict
check_side Side.buy = check_buy
check_side Side.sell = check_sell

abbrev pub decision : Verdict → RiskDecision
decision (ok _) = RiskDecision.approved
decision (err r) = RiskDecision.rejected r

unfoldable pub check : RiskEngine → RiskOrderIntent → RiskContext → RiskDecision
check e i c = decision (do
  check_kills e i
  check_restriction e i
  check_session e.limits c
  check_loss e.limits c
  check_size e.limits i c
  check_collar e.limits i c
  check_exposure e.limits c
  check_side i.side e.limits i c)
