-- ===== src/Feed/Steps.antt =====
-- crates/domain/market-data/src/consumer.rs: the four ways in which `apply` leaves a coherent
-- consumer, each the contract's step.
use shinrai_trade.Common.{
  ℕ, true, false, ◌≡◌, ◌≢◌, arith, some, ok, if◌then◌else◌, ◌==◌, nat_eq, ltb,
}
use shinrai_trade.Common.Maps.{get, insert, contains, get-insert}
use shinrai_trade.Ledger.Entry.{InstrumentId}
use shinrai_trade.Feed.Consumer.{
  is_snapshot, MdRecord, ApplyOutcome, FeedStatus, MdConsumerState, ApplyResult, next_after,
  expected_seq, feed_status, mark_applied, recover,
}
use shinrai_trade.Feed.Contract.{Feed, feed_step, view, IsCoherent}

-- What applying `r` makes of a coherent consumer.
pub record Stepped (s : MdConsumerState) (r : MdRecord) (out : ApplyResult) : Type 0 where
  pub outcome : out.0 ≡ ok (feed_step (view s r.instrument_id) r).0
  pub own : view out.1 r.instrument_id ≡ (feed_step (view s r.instrument_id) r).1
  pub others : (i : InstrumentId) → i ≢ r.instrument_id → view out.1 i ≡ view s i
  pub coherent : IsCoherent out.1

marked-IsCoherent :
    (s : MdConsumerState) (i : InstrumentId) (r : MdRecord)
    → IsCoherent s
    → feed_status s i ≡ FeedStatus.healthy
    → IsCoherent (mark_applied s i r)
unfolding mark_applied expected_seq feed_status contains
marked-IsCoherent s i r co up j m h = ground (
  arith,
  co j m,
  get-insert i j (next_after r.seq) s.next_seq,
  get-insert i j FeedStatus.healthy s.status,
)

marked-view :
    (s : MdConsumerState) (i j : InstrumentId) (r : MdRecord)
    → feed_status s i ≡ FeedStatus.healthy
    → view (mark_applied s i r) j ≡ (if i == j then Feed.live (next_after r.seq) else view s j)
unfolding mark_applied view feed_status contains
marked-view s i j r up = ground (
  arith,
  get-insert i j (next_after r.seq) s.next_seq,
  get-insert i j FeedStatus.healthy s.status,
)

pub recovered-Stepped :
    (s : MdConsumerState) (r : MdRecord) (m : ℕ)
    → IsCoherent s
    → get r.instrument_id s.status ≡ some (FeedStatus.degraded m)
    → r.seq ≢ 0
    → is_snapshot r.kind ≡ true
    → ltb r.seq m ≡ false
    → Stepped s r (recover s r.instrument_id r m)
unfolding recover mark_applied view feed_status expected_seq contains
recovered-Stepped s r m co e nz k late = record {
  outcome = ground arith;
  own = ground (
    arith,
    get-insert r.instrument_id r.instrument_id (next_after r.seq) s.next_seq,
    get-insert r.instrument_id r.instrument_id FeedStatus.healthy s.status,
    nat_eq.beq_iff r.instrument_id r.instrument_id,
  );
  others = λ i ne. ground (
    arith,
    get-insert r.instrument_id i (next_after r.seq) s.next_seq,
    get-insert r.instrument_id i FeedStatus.healthy s.status,
    nat_eq.beq_iff r.instrument_id i,
  );
  coherent = λ i n h. ground (
    arith,
    co i n,
    get-insert r.instrument_id i (next_after r.seq) s.next_seq,
    get-insert r.instrument_id i FeedStatus.healthy s.status,
  );
}

pub marked-Stepped :
    (s : MdConsumerState) (r : MdRecord)
    → IsCoherent s
    → feed_status s r.instrument_id ≡ FeedStatus.healthy
    → feed_step (view s r.instrument_id) r ≡ (ApplyOutcome.applied, Feed.live (next_after r.seq))
    → Stepped s r (ok ApplyOutcome.applied, mark_applied s r.instrument_id r)
marked-Stepped s r co up step = record {
  outcome = ground arith;
  own = ground (
    arith,
    marked-view s r.instrument_id r.instrument_id r up,
    nat_eq.beq_iff r.instrument_id r.instrument_id,
  );
  others = λ i ne.
      ground (arith, marked-view s r.instrument_id i r up, nat_eq.beq_iff r.instrument_id i);
  coherent = marked-IsCoherent s r.instrument_id r co up;
}

-- A consumer whose sequence numbers and statuses stay the same stays where it is.
pub kept-Stepped :
    (s s' : MdConsumerState) (r : MdRecord) (o : ApplyOutcome)
    → IsCoherent s
    → s'.next_seq ≡ s.next_seq
    → s'.status ≡ s.status
    → feed_step (view s r.instrument_id) r ≡ (o, view s r.instrument_id)
    → Stepped s r (ok o, s')
unfolding view feed_status expected_seq
kept-Stepped s s' r o co n st step = record {
  outcome = ground arith;
  own = ground (arith, n, st);
  others = λ i ne. ground (arith, n, st);
  coherent = λ i m h. ground (arith, n, st, co i m);
}

pub gap-Stepped :
    (s s' : MdConsumerState) (r : MdRecord) (n : ℕ)
    → IsCoherent s
    → get r.instrument_id s.next_seq ≡ some n
    → s'.next_seq ≡ s.next_seq
    → s'.status ≡ insert r.instrument_id (FeedStatus.degraded n) s.status
    → feed_step (view s r.instrument_id) r ≡ (ApplyOutcome.gap_detected n r.seq, Feed.lost n)
    → Stepped s r (ok (ApplyOutcome.gap_detected n r.seq), s')
unfolding view feed_status expected_seq
gap-Stepped s s' r n co g kept st step = record {
  outcome = ground arith;
  own = ground (
    arith,
    kept,
    st,
    get-insert r.instrument_id r.instrument_id (FeedStatus.degraded n) s.status,
    nat_eq.beq_iff r.instrument_id r.instrument_id,
  );
  others = λ i ne. ground (
    arith,
    kept,
    st,
    get-insert r.instrument_id i (FeedStatus.degraded n) s.status,
    nat_eq.beq_iff r.instrument_id i,
  );
  coherent = λ i m h. ground (
    arith,
    kept,
    st,
    co i m,
    get-insert r.instrument_id i (FeedStatus.degraded n) s.status,
    nat_eq.beq_iff r.instrument_id i,
  );
}
