-- ===== src/Orders/Status.antt =====
-- crates/domain/orders/src/{status,event,ids,error}.rs: the words of the order state machine.
-- A `u64` id is a number, and a text id is the text that it wraps.
use shinrai_trade.Common.{ℕ, String, Bool, true, false}
use shinrai_trade.Common.Int.{ℤ}

abbrev pub OrderId : Type 0
OrderId = ℕ

abbrev pub AccountId : Type 0
AccountId = ℕ

abbrev pub InstrumentId : Type 0
InstrumentId = ℕ

abbrev pub ClientOrderId : Type 0
ClientOrderId = String

abbrev pub VenueOrderId : Type 0
VenueOrderId = String

abbrev pub ExecId : Type 0
ExecId = String

-- `PriceTicks` and `QuantityLots` each wrap an `i64`.
abbrev pub PriceTicks : Type 0
PriceTicks = ℤ

abbrev pub QuantityLots : Type 0
QuantityLots = ℤ

pub data OrderStatus : Type 0 where
  pending_new new partially_filled filled pending_cancel canceled pending_replace : OrderStatus
  rejected expired : OrderStatus

abbrev pub is_terminal : OrderStatus → Bool
is_terminal OrderStatus.filled = true
is_terminal OrderStatus.canceled = true
is_terminal OrderStatus.rejected = true
is_terminal OrderStatus.expired = true
is_terminal _ = false

abbrev pub is_working : OrderStatus → Bool
is_working OrderStatus.new = true
is_working OrderStatus.partially_filled = true
is_working _ = false

pub data Side : Type 0 where
  buy sell : Side

pub data OrderType : Type 0 where
  limit market : OrderType

pub data TimeInForce : Type 0 where
  gtc ioc fok : TimeInForce

pub data DomainEffect : Type 0 where
  accepted : VenueOrderId → DomainEffect
  rejected : String → DomainEffect
  trade : ExecId → QuantityLots → PriceTicks → Bool → DomainEffect
  cancel_pending : DomainEffect
  canceled : DomainEffect
  replace_pending : DomainEffect
  replaced : QuantityLots → PriceTicks → DomainEffect
  expired : DomainEffect

pub data OrderEvent : Type 0 where
  accepted : VenueOrderId → OrderEvent
  rejected : String → OrderEvent
  trade : ExecId → QuantityLots → PriceTicks → OrderEvent
  cancel_requested : OrderEvent
  canceled : OrderEvent
  replace_requested : QuantityLots → PriceTicks → OrderEvent
  replaced : QuantityLots → PriceTicks → OrderEvent
  expired : OrderEvent

abbrev pub event_name : OrderEvent → String
event_name (OrderEvent.accepted _) = "Accepted"
event_name (OrderEvent.rejected _) = "Rejected"
event_name (OrderEvent.trade _ _ _) = "Trade"
event_name OrderEvent.cancel_requested = "CancelRequested"
event_name OrderEvent.canceled = "Canceled"
event_name (OrderEvent.replace_requested _ _) = "ReplaceRequested"
event_name (OrderEvent.replaced _ _) = "Replaced"
event_name OrderEvent.expired = "Expired"

pub data OrderError : Type 0 where
  invalid_identifier invalid_quantity invalid_price : OrderError
  illegal_transition : OrderStatus → String → OrderError
  overfill : ℤ → ℤ → OrderError
  duplicate_exec : ExecId → OrderError
  replace_below_filled : ℤ → ℤ → OrderError
  unknown_order : OrderId → OrderError
