-- ===== src/Risk/Engine.antt =====
-- crates/domain/risk/src/{limits,reason,engine}.rs: the limits, the engine and its control plane.
use shinrai_trade.Common.{
  ℕ, Bool, false, Option, none, some, List, [], if◌then◌else◌, nat_eq, pair_eq,
}
use shinrai_trade.Common.Int.{ℤ, pos}
use shinrai_trade.Common.Sets.{member, include, exclude, collect, sort}
use shinrai_trade.Money.{Money}
use shinrai_trade.Ledger.Entry.{AccountId, InstrumentId}
use shinrai_trade.Orders.Status.{Side}

-- The quantities are `i64` or `i128`, the session's ends seconds from midnight.
pub record RiskLimits : Type 0 where
  pub max_order_qty_lots : ℤ
  pub max_order_notional_minor : ℤ
  pub max_position_lots : ℤ
  pub collar_bps : ℤ
  pub market_session_utc : Option (ℕ × ℕ)
  pub max_daily_loss_minor : ℤ
  pub allow_short : Bool
  pub max_short_lots : ℤ
  pub max_asset_class_notional_minor : ℤ

-- `RiskLimits::default`; `i64::MAX` is the greatest notional.
abbrev pub default_limits : RiskLimits
default_limits = record {
  max_order_qty_lots = pos 1000000;
  max_order_notional_minor = pos 9223372036854775807;
  max_position_lots = pos 1000000;
  collar_bps = pos 0;
  market_session_utc = none;
  max_daily_loss_minor = pos 0;
  allow_short = false;
  max_short_lots = pos 0;
  max_asset_class_notional_minor = pos 0;
}

abbrev pub demo_limits : RiskLimits
demo_limits = record {
  max_order_qty_lots = pos 10000;
  max_order_notional_minor = pos 50000000;
  max_position_lots = pos 100000;
  collar_bps = pos 0;
  market_session_utc = none;
  max_daily_loss_minor = pos 0;
  allow_short = false;
  max_short_lots = pos 0;
  max_asset_class_notional_minor = pos 0;
}

pub data RiskRejectReason : Type 0 where
  kill_switch restricted_instrument max_quantity max_notional max_position : RiskRejectReason
  insufficient_buying_power insufficient_position price_collar market_closed : RiskRejectReason
  daily_loss_limit max_short max_asset_class_exposure : RiskRejectReason

pub data RiskDecision : Type 0 where
  approved : RiskDecision
  rejected : RiskRejectReason → RiskDecision

abbrev pub reject_reason : RiskDecision → Option RiskRejectReason
reject_reason RiskDecision.approved = none
reject_reason (RiskDecision.rejected r) = some r

pub record RiskContext : Type 0 where
  pub available_cash : Money
  pub position_lots : ℤ
  pub notional : Money
  pub ref_price : Option ℤ
  pub now_unix : ℕ
  pub day_pnl_minor : ℤ
  pub asset_class_exposure_minor : ℤ

pub record RiskOrderIntent : Type 0 where
  pub account_id : AccountId
  pub instrument_id : InstrumentId
  pub side : Side
  pub qty : ℤ
  pub price : ℤ

pub record RiskStateSnapshot : Type 0 where
  pub limits : RiskLimits
  pub global_kill : Bool
  pub account_kills : List AccountId
  pub restricted : List InstrumentId

pub record RiskEngine : Type 0 where
  pub limits : RiskLimits
  pub global_kill : Bool
  pub account_kills : List AccountId
  pub restricted : List InstrumentId
  pub overrides : List (AccountId × InstrumentId)

-- `RiskEngine::new`
abbrev pub new_engine : RiskLimits → RiskEngine
new_engine limits = record {
  limits = limits;
  global_kill = false;
  account_kills = [];
  restricted = [];
  overrides = [];
}

abbrev pub set_limits : RiskEngine → RiskLimits → RiskEngine
set_limits e limits = record e { limits = limits }

abbrev pub set_global_kill : RiskEngine → Bool → RiskEngine
set_global_kill e on = record e { global_kill = on }

unfoldable pub set_account_kill : RiskEngine → AccountId → Bool → RiskEngine
unfolding include exclude
set_account_kill e account on = record e {
  account_kills = if on then include account e.account_kills else exclude account e.account_kills;
}

unfoldable pub restrict_instrument : RiskEngine → InstrumentId → RiskEngine
unfolding include
restrict_instrument e id = record e { restricted = include id e.restricted }

unfoldable pub allow_instrument : RiskEngine → InstrumentId → RiskEngine
unfolding exclude
allow_instrument e id = record e { restricted = exclude id e.restricted }

unfoldable pub grant_override : RiskEngine → AccountId → InstrumentId → RiskEngine
unfolding include
grant_override e account instrument = record e {
  overrides = include (account, instrument) e.overrides;
}

unfoldable pub clear_override : RiskEngine → AccountId → InstrumentId → RiskEngine
unfolding exclude
clear_override e account instrument = record e {
  overrides = exclude (account, instrument) e.overrides;
}

abbrev pub is_restricted : RiskEngine → InstrumentId → Bool
is_restricted e id = member id e.restricted

unfoldable pub snapshot : RiskEngine → RiskStateSnapshot
unfolding sort
snapshot e = record {
  limits = e.limits;
  global_kill = e.global_kill;
  account_kills = sort e.account_kills;
  restricted = sort e.restricted;
}

unfoldable pub restore : RiskEngine → RiskStateSnapshot → RiskEngine
unfolding collect
restore e s = record e {
  limits = s.limits;
  global_kill = s.global_kill;
  account_kills = collect s.account_kills;
  restricted = collect s.restricted;
}
