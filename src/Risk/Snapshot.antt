-- ===== src/Risk/Snapshot.antt =====
-- crates/domain/risk/src/engine.rs: the durable snapshot, and what the control plane does to the
-- decisions.
use shinrai_trade.Common.{true, ◌≡◌, arith, ◌==◌, if◌then◌else◌, nat_eq, pair_eq}
use shinrai_trade.Common.Sets.{
  sort, member-include, member-collect, member-sort, IsSorted, sort-IsSorted,
}
use shinrai_trade.Ledger.Entry.{AccountId}
use shinrai_trade.Risk.Engine.{
  RiskDecision, RiskRejectReason, RiskContext, RiskOrderIntent, RiskEngine, snapshot, restore,
  set_account_kill,
}
use shinrai_trade.Risk.Gates.{check, check_kills, check_restriction}

-- A snapshot lists the killed accounts and the restricted instruments in order, and an engine
-- restored from it decides every order as the engine it was taken from would with the restored
-- engine's overrides.
pub restore-snapshot :
    (e f : RiskEngine)
    → IsSorted (snapshot e).account_kills
      × IsSorted (snapshot e).restricted
      × ((i : RiskOrderIntent) (c : RiskContext)
          → check (restore f (snapshot e)) i c ≡ check (record e { overrides = f.overrides }) i c)
unfolding check check_kills check_restriction snapshot restore
restore-snapshot e f = (
  sort-IsSorted e.account_kills,
  sort-IsSorted e.restricted,
  λ i c. ground (
    arith,
    member-collect i.account_id (sort e.account_kills),
    member-sort i.account_id e.account_kills,
    member-collect i.instrument_id (sort e.restricted),
    member-sort i.instrument_id e.restricted,
  ),
)

-- Killing an account refuses each of its orders for the kill switch, whatever else holds, and
-- leaves the decision on every other account's orders as it was.
pub kill-check :
    (e : RiskEngine) (account : AccountId) (i : RiskOrderIntent) (c : RiskContext)
    → check (set_account_kill e account true) i c ≡ (
        if account == i.account_id
        then RiskDecision.rejected RiskRejectReason.kill_switch
        else check e i c)
unfolding check check_kills check_restriction set_account_kill
kill-check e account i c = ground (arith, member-include i.account_id account e.account_kills)
