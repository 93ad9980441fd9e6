-- ===== src/Risk/Approval.antt =====
-- crates/domain/risk/src/engine.rs: `check` approves exactly what the rules allow.
use shinrai_trade.Common.{
  ◌≡◌, ◌↔◌, ◌⊎◌, arith, ◌%◌, Option, none, some, ok, ◌>>◌, if◌then◌else◌, nat_eq, pair_eq,
}
use shinrai_trade.Common.Int.{ℤ, pos, ◌-ℤ◌, ◌*ℤ◌, ◌/ℤ◌, ◌≤ℤ◌, abs, ltb_ℤ, one_part, -ℤ_parts}
use shinrai_trade.Money.{currency_eq, currency_beq_iff}
use shinrai_trade.Orders.Status.{Side}
use shinrai_trade.Orders.Invariant.{wrap_fits}
use shinrai_trade.Risk.Engine.{RiskLimits, RiskDecision, RiskContext, RiskOrderIntent, RiskEngine}
use shinrai_trade.Risk.Gates.{
  Verdict, check, check_kills, check_restriction, check_session, check_loss, check_size,
  check_collar, check_exposure, check_buy, check_sell, check_side, decision, check_mark,
}
use shinrai_trade.Risk.Rules.{
  Passes, Permitted, InSession, WithinLoss, WithinSize, NearMark, WithinCollar, WithinExposure,
  Covered, MarkInRange, InRange, Allowed,
}

kills_iff :
    (e : RiskEngine) (i : RiskOrderIntent)
    → (Passes (check_kills e i) × Passes (check_restriction e i)) ↔ Permitted e i
unfolding check_kills check_restriction
kills_iff e i = ground arith

session_iff :
    (l : RiskLimits) (c : RiskContext)
    → Passes (check_session l c) ↔ InSession l.market_session_utc (c.now_unix % 86400)
unfolding check_session
session_iff l c = ground arith

loss_iff : (l : RiskLimits) (c : RiskContext) → Passes (check_loss l c) ↔ WithinLoss l c
unfolding check_loss
loss_iff l c = ground arith

size_iff :
    (l : RiskLimits) (i : RiskOrderIntent) (c : RiskContext)
    → Passes (check_size l i c) ↔ WithinSize l i c
unfolding check_size
size_iff l i c = ground arith

near_iff :
    (d limit mark : ℤ)
    → (pos (abs (limit -ℤ mark)) ≤ℤ d) ↔ ((limit -ℤ mark ≤ℤ d) × (mark -ℤ limit ≤ℤ d))
unfolding abs
near_iff d limit mark = ground (
  arith,
  -ℤ_parts limit mark,
  -ℤ_parts mark limit,
  one_part (limit -ℤ mark),
  one_part (mark -ℤ limit),
)

abs_pos : (a : ℤ) → pos 0 ≤ℤ a → pos (abs a) ≡ a
unfolding abs
abs_pos a h = ground arith

collar_iff :
    (l : RiskLimits) (i : RiskOrderIntent) (c : RiskContext)
    → InRange i c
    → Passes (check_collar l i c) ↔ WithinCollar l i c
unfolding check_collar
collar_iff l i c r = mark_iff c.ref_price r.spread
  where
    mark_iff :
        (m : Option ℤ)
        → MarkInRange i.price m
        → Passes (if ltb_ℤ (pos 0) l.collar_bps then check_mark l.collar_bps m i.price else ok tt)
          ↔ ((l.collar_bps ≤ℤ pos 0) ⊎ NearMark l.collar_bps i.price m)
    mark_iff none f = ground arith
    mark_iff (some mark) f = ground (
      arith,
      wrap_fits (i.price -ℤ mark) f,
      near_iff (mark *ℤ l.collar_bps /ℤ pos 10000) i.price mark,
    )

exposure_iff :
    (l : RiskLimits) (i : RiskOrderIntent) (c : RiskContext)
    → InRange i c
    → WithinSize l i c
    → Passes (check_exposure l c) ↔ WithinExposure l c
unfolding check_exposure abs
exposure_iff l i c r s = ground (arith, r.order, r.exposure, abs_pos c.notional.minor_units)

side_iff :
    (l : RiskLimits) (i : RiskOrderIntent) (c : RiskContext) (s : Side)
    → InRange i c
    → Passes (check_side s l i c) ↔ Covered s l i c
unfolding check_buy check_sell
side_iff l i c Side.buy r =
    ground (arith, r.bought, currency_beq_iff c.available_cash.currency c.notional.currency)
side_iff l i c Side.sell r =
    ground (arith, wrap_fits (i.qty -ℤ c.position_lots) r.sold, -ℤ_parts i.qty c.position_lots)

all_pass :
    (v1 v2 v3 v4 v5 v6 v7 v8 : Verdict)
    → (decision (do v1; v2; v3; v4; v5; v6; v7; v8) ≡ RiskDecision.approved) ↔ (
        Passes v1
        × Passes v2
        × Passes v3
        × Passes v4
        × Passes v5
        × Passes v6
        × Passes v7
        × Passes v8)
all_pass v1 v2 v3 v4 v5 v6 v7 v8 = ground arith

-- Where the sums and differences of the checks are in range of their types, the risk engine
-- approves an order just if no kill switch is on, the instrument is open to the account, the
-- market is in session, the daily loss, the size, the price collar and the exposure are within
-- their limits, and the account covers the order.
pub check-Allowed :
    (e : RiskEngine) (i : RiskOrderIntent) (c : RiskContext)
    → InRange i c
    → (check e i c ≡ RiskDecision.approved) ↔ Allowed e i c
unfolding check
check-Allowed e i c r =
    let l = e.limits in
    let passed =
      all_pass (check_kills e i) (check_restriction e i) (check_session l c) (check_loss l c)
        (check_size l i c) (check_collar l i c) (check_exposure l c) (check_side i.side l i c) in
    (
      λ h.
          let (k, t, s, d, z, p, x, v) = passed.0 h in
          let size = (size_iff l i c).0 z in
          record {
            permitted = (kills_iff e i).0 (k, t);
            in_session = (session_iff l c).0 s;
            within_loss = (loss_iff l c).0 d;
            within_size = size;
            within_collar = (collar_iff l i c r).0 p;
            within_exposure = (exposure_iff l i c r size).0 x;
            covered = (side_iff l i c i.side r).0 v;
          },
      λ a.
          let (k, t) = (kills_iff e i).1 a.permitted in
          passed.1 (
            k,
            t,
            (session_iff l c).1 a.in_session,
            (loss_iff l c).1 a.within_loss,
            (size_iff l i c).1 a.within_size,
            (collar_iff l i c r).1 a.within_collar,
            (exposure_iff l i c r a.within_size).1 a.within_exposure,
            (side_iff l i c i.side r).1 a.covered,
          ),
    )
