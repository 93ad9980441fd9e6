-- ===== src/Feed/Tests.antt =====
-- crates/domain/market-data/src/consumer.rs: runs, and the theorems at a concrete feed.
use shinrai_trade.Common.{ℕ, ◌≡◌, refl, arith, err, List, [], ◌∷◌, nat_eq}
use shinrai_trade.Common.Int.{pos}
use shinrai_trade.Common.Maps.{get, insert}
use shinrai_trade.Feed.Consumer.{MdKind, MdRecord, MdError, ApplyOutcome, new_consumer, apply}
use shinrai_trade.Feed.Contract.{Feed, view}
use shinrai_trade.Feed.Steps.{Stepped}
use shinrai_trade.Feed.Refinement.{apply-feed_step}
use shinrai_trade.Feed.Replay.{
  taken, taken-Ahead, Ahead, floor, replay, replay-feed_run, feed_run, new_consumer-IsCoherent,
  replay_from,
}

abbrev trade_at : ℕ → MdRecord
trade_at n = record {
  instrument_id = 5;
  seq = n;
  ts_logical = n;
  kind = MdKind.trade;
  price = pos 100;
  qty = pos 1;
}

abbrev snapshot_at : ℕ → MdRecord
snapshot_at n = record (trade_at n) { kind = MdKind.snapshot }

-- The first number is 3; 4 comes twice, 5 is missing, and a snapshot at 7 recovers.
abbrev journal : List MdRecord
journal =
    trade_at 3 ∷ trade_at 4 ∷ trade_at 4 ∷ trade_at 6 ∷ trade_at 5 ∷ snapshot_at 7 ∷ trade_at 8 ∷ []

replay_run :
    (replay journal).0
    ≡ ApplyOutcome.applied
      ∷ ApplyOutcome.applied
      ∷ ApplyOutcome.duplicate
      ∷ ApplyOutcome.gap_detected 5 6
      ∷ ApplyOutcome.ignored_degraded
      ∷ ApplyOutcome.snapshot_recovered
      ∷ ApplyOutcome.applied
      ∷ []
unfolding apply replay_from get insert
replay_run = refl

zero_run : apply new_consumer (trade_at 0) ≡ (err MdError.invalid_sequence, new_consumer)
unfolding apply
zero_run = refl

apply-feed_step_example : Stepped new_consumer (trade_at 3) (apply new_consumer (trade_at 3))
apply-feed_step_example =
    apply-feed_step new_consumer (trade_at 3) new_consumer-IsCoherent (λ e. omega arith)

taken-Ahead_example : Ahead (floor (view new_consumer 5)) (taken 5 new_consumer journal)
taken-Ahead_example = taken-Ahead 5 new_consumer journal new_consumer-IsCoherent (omega arith)

replay-feed_run_example :
    ((replay journal).0 ≡ (feed_run Feed.unseen journal).0)
    × (view (replay journal).1 5 ≡ (feed_run Feed.unseen journal).1)
replay-feed_run_example = replay-feed_run 5 journal (ground arith)
