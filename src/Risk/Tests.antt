-- ===== src/Risk/Tests.antt =====
-- crates/domain/risk/src/engine.rs: runs, and the theorems at a concrete engine.
use shinrai_trade.Common.{◌≡◌, ◌↔◌, refl, arith, true, some, nat_eq, pair_eq}
use shinrai_trade.Common.Int.{pos, ◌+ℤ◌, ◌-ℤ◌, ◌/ℤ◌, ◌*ℤ◌, abs, wrap}
use shinrai_trade.Common.Sets.{member, IsSorted}
use shinrai_trade.Money.{usd, from_minor}
use shinrai_trade.Orders.Status.{Side}
use shinrai_trade.Risk.Engine.{
  RiskRejectReason, RiskDecision, RiskContext, RiskOrderIntent, RiskEngine, demo_limits, new_engine,
  set_account_kill, restrict_instrument, grant_override, snapshot, restore,
}
use shinrai_trade.Risk.Gates.{
  check, check_kills, check_restriction, check_session, check_loss, check_size, check_collar,
  check_exposure, check_buy,
}
use shinrai_trade.Risk.Rules.{Allowed, InRange}
use shinrai_trade.Risk.Approval.{check-Allowed}
use shinrai_trade.Risk.Snapshot.{restore-snapshot, kill-check}

-- A price within one percent of the mark, and a session over midnight.
abbrev guarded : RiskEngine
guarded =
    new_engine
      (record demo_limits { collar_bps = pos 100; market_session_utc = some (80000, 20000) })

abbrev intent : RiskOrderIntent
intent = record {
  account_id = 7;
  instrument_id = 5;
  side = Side.buy;
  qty = pos 10;
  price = pos 10050;
}

abbrev context : RiskContext
context = record {
  available_cash = from_minor (pos 200000) usd;
  position_lots = pos 0;
  notional = from_minor (pos 100500) usd;
  ref_price = some (pos 10000);
  now_unix = 85000;
  day_pnl_minor = pos 0;
  asset_class_exposure_minor = pos 0;
}

approved_run : check guarded intent context ≡ RiskDecision.approved
unfolding check check_kills member check_restriction check_session check_loss check_size
    check_collar ◌/ℤ◌ ◌*ℤ◌ abs wrap ◌-ℤ◌ check_exposure check_buy ◌+ℤ◌
approved_run = refl

collar_run :
    check guarded (record intent { price = pos 10101 }) context
    ≡ RiskDecision.rejected RiskRejectReason.price_collar
unfolding check check_kills member check_restriction check_session check_loss check_size
    check_collar ◌/ℤ◌ ◌*ℤ◌ abs wrap ◌-ℤ◌
collar_run = refl

closed_run :
    check guarded intent (record context { now_unix = 50000 })
    ≡ RiskDecision.rejected RiskRejectReason.market_closed
unfolding check check_kills member check_restriction check_session
closed_run = refl

restricted_run :
    check (restrict_instrument guarded 5) intent context
    ≡ RiskDecision.rejected RiskRejectReason.restricted_instrument
unfolding check restrict_instrument check_kills member check_restriction
restricted_run = refl

override_run :
    check (grant_override (restrict_instrument guarded 5) 7 5) intent context
    ≡ RiskDecision.approved
unfolding check restrict_instrument grant_override check_kills member check_restriction
    check_session check_loss check_size check_collar ◌/ℤ◌ ◌*ℤ◌ abs wrap ◌-ℤ◌ check_exposure
    check_buy ◌+ℤ◌
override_run = refl

in_range : InRange intent context
unfolding ◌+ℤ◌ ◌-ℤ◌
in_range = record {
  spread = omega arith;
  bought = omega arith;
  sold = omega arith;
  order = omega arith;
  exposure = omega arith;
}

check-Allowed_example :
    (check guarded intent context ≡ RiskDecision.approved) ↔ Allowed guarded intent context
check-Allowed_example = check-Allowed guarded intent context in_range

abbrev killed : RiskEngine
killed = set_account_kill (set_account_kill guarded 9 true) 7 true

restore-snapshot_example :
    IsSorted (snapshot killed).account_kills
    × IsSorted (snapshot killed).restricted
    × ((i : RiskOrderIntent) (c : RiskContext)
        → check (restore guarded (snapshot killed)) i c ≡ check killed i c)
unfolding set_account_kill
restore-snapshot_example = restore-snapshot killed guarded

kill-check_example :
    check (set_account_kill guarded 7 true) intent context
    ≡ RiskDecision.rejected RiskRejectReason.kill_switch
kill-check_example = kill-check guarded 7 intent context
