-- ===== src/Feed/Consumer.antt =====
-- crates/domain/market-data/src/{record,error,consumer}.rs: records, and the consumer that applies
-- them strictly in sequence. A method on `&mut self` returns its result with the new state.
use shinrai_trade.Common.{
  ℕ, Bool, true, false, ◌%◌, suc, Option, none, some, Result, ok, err, [], if◌then◌else◌, ltb,
  nat_eq, nat_beq,
}
use shinrai_trade.Common.Int.{ℤ}
use shinrai_trade.Common.Maps.{Map, get, insert, contains}
use shinrai_trade.Ledger.Entry.{InstrumentId}

pub data MdKind : Type 0 where
  trade bbo book status snapshot : MdKind

abbrev pub is_snapshot : MdKind → Bool
is_snapshot MdKind.snapshot = true
is_snapshot _ = false

-- `seq` and `ts_logical` are `u64`.
pub record MdRecord : Type 0 where
  pub instrument_id : InstrumentId
  pub seq : ℕ
  pub ts_logical : ℕ
  pub kind : MdKind
  pub price : ℤ
  pub qty : ℤ

pub data MdError : Type 0 where
  invalid_sequence invalid_instrument invalid_interval invalid_quantity md_overflow : MdError
  invalid_snapshot : InstrumentId → ℕ → ℕ → MdError

pub data FeedStatus : Type 0 where
  healthy : FeedStatus
  degraded : ℕ → FeedStatus

pub data ApplyOutcome : Type 0 where
  applied duplicate ignored_degraded snapshot_recovered : ApplyOutcome
  gap_detected : ℕ → ℕ → ApplyOutcome

pub record MdConsumerState : Type 0 where
  pub next_seq : Map InstrumentId ℕ
  pub last_price : Map InstrumentId ℤ
  pub status : Map InstrumentId FeedStatus
  pub applied : ℕ
  pub duplicates : ℕ
  pub gaps : ℕ

-- `MdConsumerState::new`
abbrev pub new_consumer : MdConsumerState
new_consumer = record {
  next_seq = [];
  last_price = [];
  status = [];
  applied = 0;
  duplicates = 0;
  gaps = 0;
}

abbrev pub validate : MdRecord → Result MdError (Unit {0})
validate r = if nat_beq r.seq 0 then err MdError.invalid_sequence else ok tt

-- `+= 1` on a `u64`.
abbrev pub bump : ℕ → ℕ
bump n = suc n % 18446744073709551616

-- `saturating_add(1)` on a `u64`.
abbrev pub next_after : ℕ → ℕ
next_after n = if ltb n 18446744073709551615 then suc n else n

abbrev pub or_one : Option ℕ → ℕ
or_one none = 1
or_one (some n) = n

unfoldable pub expected_seq : MdConsumerState → InstrumentId → ℕ
expected_seq s i = or_one (get i s.next_seq)

unfoldable pub is_synced : MdConsumerState → InstrumentId → Bool
unfolding contains
is_synced s i = contains i s.next_seq

abbrev or_healthy : Option FeedStatus → FeedStatus
or_healthy none = FeedStatus.healthy
or_healthy (some f) = f

unfoldable pub feed_status : MdConsumerState → InstrumentId → FeedStatus
feed_status s i = or_healthy (get i s.status)

unfoldable pub mark_degraded : MdConsumerState → InstrumentId → MdConsumerState
unfolding expected_seq
mark_degraded s i = record s {
  gaps = bump s.gaps;
  status = insert i (FeedStatus.degraded (expected_seq s i)) s.status;
}

abbrev has_price : MdKind → Bool
has_price MdKind.trade = true
has_price MdKind.bbo = true
has_price MdKind.snapshot = true
has_price _ = false

unfoldable pub mark_applied : MdConsumerState → InstrumentId → MdRecord → MdConsumerState
unfolding contains
mark_applied s i r = record {
  last_price = if has_price r.kind then insert i r.price s.last_price else s.last_price;
  next_seq = insert i (next_after r.seq) s.next_seq;
  applied = bump s.applied;
  status = if contains i s.status then s.status else insert i FeedStatus.healthy s.status;
  duplicates = s.duplicates;
  gaps = s.gaps;
}

abbrev pub ApplyResult : Type 0
ApplyResult = Result MdError ApplyOutcome × MdConsumerState

-- The arm for a snapshot of a degraded feed, which both states of the feed have.
unfoldable pub recover : MdConsumerState → InstrumentId → MdRecord → ℕ → ApplyResult
unfolding mark_applied
recover s i r missing_from =
    if ltb r.seq missing_from then (err (MdError.invalid_snapshot i missing_from r.seq), s) else (
      ok ApplyOutcome.snapshot_recovered,
      let marked = mark_applied s i r in
          record marked { status = insert i FeedStatus.healthy marked.status },
    )

unfoldable pub apply_unsynced : MdConsumerState → InstrumentId → MdRecord → FeedStatus → ApplyResult
unfolding mark_applied recover
apply_unsynced s i r FeedStatus.healthy = (ok ApplyOutcome.applied, mark_applied s i r)
apply_unsynced s i r (FeedStatus.degraded missing_from) =
    if is_snapshot r.kind then recover s i r missing_from else (ok ApplyOutcome.ignored_degraded, s)

-- A synced feed, from the test of its status on.
unfoldable pub apply_synced :
    MdConsumerState → InstrumentId → MdRecord → FeedStatus → ℕ → ApplyResult
unfolding mark_applied recover
apply_synced s i r (FeedStatus.degraded missing_from) expected =
    if is_snapshot r.kind
    then recover s i r missing_from
    else if ltb expected r.seq
    then (ok ApplyOutcome.ignored_degraded, record s { gaps = bump s.gaps })
    else (ok ApplyOutcome.ignored_degraded, s)
apply_synced s i r FeedStatus.healthy expected =
    if ltb expected r.seq
    then (
      ok (ApplyOutcome.gap_detected expected r.seq),
      record s { gaps = bump s.gaps; status = insert i (FeedStatus.degraded expected) s.status },
    )
    else (ok ApplyOutcome.applied, mark_applied s i r)

-- `apply` after the record was validated.
unfoldable pub apply_valid : MdConsumerState → MdRecord → ApplyResult
unfolding is_synced feed_status expected_seq apply_unsynced apply_synced
apply_valid s r =
    let i = r.instrument_id in
    if is_synced s i
    then if ltb r.seq (expected_seq s i)
      then (ok ApplyOutcome.duplicate, record s { duplicates = bump s.duplicates })
      else apply_synced s i r (feed_status s i) (expected_seq s i)
    else apply_unsynced s i r (feed_status s i)

unfoldable pub apply : MdConsumerState → MdRecord → ApplyResult
unfolding apply_valid
apply s r = elim (validate r) [ err e ↦ (err e, s) | ok _ ↦ apply_valid s r ]
