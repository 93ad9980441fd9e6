-- ===== src/Feed/Contract.antt =====
-- What crates/domain/market-data/src/consumer.rs promises for one instrument: a feed is unseen,
-- live with a next sequence number, or lost from one on.
use shinrai_trade.Common.{ℕ, ◌≡◌, if◌then◌else◌, ltb, Option, none, some}
use shinrai_trade.Common.Maps.{get}
use shinrai_trade.Ledger.Entry.{InstrumentId}
use shinrai_trade.Common.{nat_eq}
use shinrai_trade.Feed.Consumer.{
  is_snapshot, MdRecord, ApplyOutcome, FeedStatus, MdConsumerState, next_after, expected_seq,
  feed_status,
}

pub data Feed : Type 0 where
  unseen : Feed
  live lost : ℕ → Feed

-- One record: repeated numbers are dropped, a gap loses the feed, and a snapshot finds it again.
abbrev pub feed_step : Feed → MdRecord → ApplyOutcome × Feed
feed_step Feed.unseen r = (ApplyOutcome.applied, Feed.live (next_after r.seq))
feed_step (Feed.live next) r =
    if ltb r.seq next
    then (ApplyOutcome.duplicate, Feed.live next)
    else if ltb next r.seq
    then (ApplyOutcome.gap_detected next r.seq, Feed.lost next)
    else (ApplyOutcome.applied, Feed.live (next_after r.seq))
feed_step (Feed.lost next) r =
    if ltb r.seq next
    then (ApplyOutcome.duplicate, Feed.lost next)
    else if is_snapshot r.kind
    then (ApplyOutcome.snapshot_recovered, Feed.live (next_after r.seq))
    else (ApplyOutcome.ignored_degraded, Feed.lost next)

abbrev pub as_feed : Option ℕ → FeedStatus → Feed
as_feed none FeedStatus.healthy = Feed.unseen
as_feed (some n) FeedStatus.healthy = Feed.live n
as_feed _ (FeedStatus.degraded m) = Feed.lost m

-- What a consumer's maps say of an instrument.
unfoldable pub view : MdConsumerState → InstrumentId → Feed
unfolding feed_status
view s i = as_feed (get i s.next_seq) (feed_status s i)

-- A lost feed is missing the number it expects, which is 1 for a feed that was never synced.
abbrev pub IsCoherent : MdConsumerState → Type 0
IsCoherent s =
    (i : InstrumentId) (m : ℕ)
    → get i s.status ≡ some (FeedStatus.degraded m)
    → m ≡ expected_seq s i
