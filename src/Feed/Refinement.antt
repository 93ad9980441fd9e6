-- ===== src/Feed/Refinement.antt =====
-- crates/domain/market-data/src/consumer.rs: `apply` keeps the consumer coherent, and takes the
-- step of the contract on the record's instrument and none on any other.
use mathlib.Core.Path.{subst}
use shinrai_trade.Common.{
  ℕ, true, false, ◌≡◌, ◌≢◌, inl, inr, sym, refl, arith, Option, none, some, Option-cases, ok,
  nat_eq, ltb, Bool-cases,
}
use shinrai_trade.Common.Maps.{get, insert, contains, get-insert}
use shinrai_trade.Ledger.Entry.{InstrumentId}
use shinrai_trade.Feed.Consumer.{
  is_snapshot, MdRecord, ApplyOutcome, FeedStatus, MdConsumerState, expected_seq, is_synced,
  feed_status, mark_degraded, apply_unsynced, apply_synced, apply_valid, apply, or_one, bump,
}
use shinrai_trade.Feed.Contract.{Feed, feed_step, view, as_feed, IsCoherent}
use shinrai_trade.Feed.Steps.{Stepped, marked-Stepped, recovered-Stepped, kept-Stepped, gap-Stepped}

degraded_entry :
    (s : MdConsumerState) (i : InstrumentId) (m : ℕ)
    → feed_status s i ≡ FeedStatus.degraded m
    → get i s.status ≡ some (FeedStatus.degraded m)
unfolding feed_status
degraded_entry s i m e = ground arith

expected_is :
    (s : MdConsumerState) (i : InstrumentId) (o : Option ℕ)
    → get i s.next_seq ≡ o
    → expected_seq s i ≡ or_one o
unfolding expected_seq
expected_is s i o e = ground arith

view_is :
    (s : MdConsumerState) (i : InstrumentId) (o : Option ℕ) (f : FeedStatus)
    → get i s.next_seq ≡ o
    → feed_status s i ≡ f
    → view s i ≡ as_feed o f
unfolding view
view_is s i o f e g = ground arith

unsynced-Stepped :
    (s : MdConsumerState) (r : MdRecord) (f : FeedStatus)
    → IsCoherent s
    → feed_status s r.instrument_id ≡ f
    → get r.instrument_id s.next_seq ≡ none
    → r.seq ≢ 0
    → Stepped s r (apply_unsynced s r.instrument_id r f)
unfolding apply_unsynced
unsynced-Stepped s r FeedStatus.healthy co e n nz =
    marked-Stepped s r co e (ground (arith, view_is s r.instrument_id none FeedStatus.healthy n e))
unsynced-Stepped s r (FeedStatus.degraded m) co e n nz =
    let entry = degraded_entry s r.instrument_id m e in
    let seen = view_is s r.instrument_id none (FeedStatus.degraded m) n e in
    let first = expected_is s r.instrument_id none n in
    elim (Bool-cases (is_snapshot r.kind)) [
      | inl k ↦
          rw k (recovered-Stepped s r m co entry nz k (ground (arith, co r.instrument_id m entry)))
      | inr k ↦ rw k (
          kept-Stepped s s r ApplyOutcome.ignored_degraded co refl refl
            (ground (arith, co r.instrument_id m entry)))
    ]

synced-Stepped :
    (s : MdConsumerState) (r : MdRecord) (f : FeedStatus) (n : ℕ)
    → IsCoherent s
    → feed_status s r.instrument_id ≡ f
    → get r.instrument_id s.next_seq ≡ some n
    → ltb r.seq n ≡ false
    → r.seq ≢ 0
    → Stepped s r (apply_synced s r.instrument_id r f n)
unfolding apply_synced
synced-Stepped s r FeedStatus.healthy n co e g late nz =
    let seen = view_is s r.instrument_id (some n) FeedStatus.healthy g e in
    elim (Bool-cases (ltb n r.seq)) [
      | inl k ↦
          let s' : MdConsumerState = record s {
            gaps = bump s.gaps;
            status = insert r.instrument_id (FeedStatus.degraded n) s.status;
          } in
          rw k (gap-Stepped s s' r n co g refl refl (ground arith))
      | inr k ↦ rw k (marked-Stepped s r co e (ground arith))
    ]
synced-Stepped s r (FeedStatus.degraded m) n co e g late nz =
    let entry = degraded_entry s r.instrument_id m e in
    let seen = view_is s r.instrument_id (some n) (FeedStatus.degraded m) g e in
    let next = expected_is s r.instrument_id (some n) g in
    elim (Bool-cases (is_snapshot r.kind)) [
      | inl k ↦
          rw k (recovered-Stepped s r m co entry nz k (ground (arith, co r.instrument_id m entry)))
      | inr k ↦ elim (Bool-cases (ltb n r.seq)) [
        | inl gap ↦
            rw (k, gap)
              (kept-Stepped s (record s { gaps = bump s.gaps }) r ApplyOutcome.ignored_degraded co
                refl refl (ground (arith, co r.instrument_id m entry)))
        | inr level ↦
            rw (k, level)
              (kept-Stepped s s r ApplyOutcome.ignored_degraded co refl refl
                (ground (arith, co r.instrument_id m entry)))
      ]
    ]

valid_unsynced :
    (s : MdConsumerState) (r : MdRecord)
    → get r.instrument_id s.next_seq ≡ none
    → apply_valid s r ≡ apply_unsynced s r.instrument_id r (feed_status s r.instrument_id)
unfolding apply_valid is_synced contains
valid_unsynced s r g = ground arith

valid_late :
    (s : MdConsumerState) (r : MdRecord) (n : ℕ)
    → get r.instrument_id s.next_seq ≡ some n
    → ltb r.seq n ≡ false
    → apply_valid s r ≡ apply_synced s r.instrument_id r (feed_status s r.instrument_id) n
unfolding apply_valid is_synced contains expected_seq
valid_late s r n g late = ground arith

valid_early :
    (s : MdConsumerState) (r : MdRecord) (n : ℕ)
    → get r.instrument_id s.next_seq ≡ some n
    → ltb r.seq n ≡ true
    → apply_valid s r ≡ (ok ApplyOutcome.duplicate, record s { duplicates = bump s.duplicates })
unfolding apply_valid is_synced contains expected_seq
valid_early s r n g early = ground arith

early_step :
    (s : MdConsumerState) (r : MdRecord) (n : ℕ) (f : FeedStatus)
    → IsCoherent s
    → get r.instrument_id s.next_seq ≡ some n
    → ltb r.seq n ≡ true
    → feed_status s r.instrument_id ≡ f
    → feed_step (view s r.instrument_id) r ≡ (ApplyOutcome.duplicate, view s r.instrument_id)
early_step s r n FeedStatus.healthy co g early e =
    ground (arith, view_is s r.instrument_id (some n) FeedStatus.healthy g e)
early_step s r n (FeedStatus.degraded m) co g early e = ground (
  arith,
  view_is s r.instrument_id (some n) (FeedStatus.degraded m) g e,
  co r.instrument_id m (degraded_entry s r.instrument_id m e),
  expected_is s r.instrument_id (some n) g,
)

valid-Stepped :
    (s : MdConsumerState) (r : MdRecord) → IsCoherent s → r.seq ≢ 0 → Stepped s r (apply_valid s r)
valid-Stepped s r co nz = elim (Option-cases (get r.instrument_id s.next_seq)) [
  | inl g ↦
      rw (valid_unsynced s r g) (unsynced-Stepped s r (feed_status s r.instrument_id) co refl g nz)
  | inr (n, g) ↦ elim (Bool-cases (ltb r.seq n)) [
    | inl early ↦ rw (valid_early s r n g early) (
        kept-Stepped s (record s { duplicates = bump s.duplicates }) r ApplyOutcome.duplicate co
          refl refl (early_step s r n (feed_status s r.instrument_id) co g early refl))
    | inr late ↦
        rw (valid_late s r n g late)
          (synced-Stepped s r (feed_status s r.instrument_id) n co refl g late nz)
  ]
]

apply_is : (s : MdConsumerState) (r : MdRecord) → r.seq ≢ 0 → apply s r ≡ apply_valid s r
unfolding apply
apply_is s r nz = ground arith

-- Applying a record with a positive number to a coherent consumer never fails: it answers what
-- the contract of a feed answers, leaves the feed of the record's instrument where the
-- contract leaves it and every other feed where it was, and the consumer coherent.
pub apply-feed_step :
    (s : MdConsumerState) (r : MdRecord) → IsCoherent s → r.seq ≢ 0 → Stepped s r (apply s r)
apply-feed_step s r co nz = subst (Stepped s r) (sym (apply_is s r nz)) (valid-Stepped s r co nz)

-- Marking a coherent consumer's feed degraded makes it wait for a snapshot from the number it
-- expects, leaves every other feed where it was, and the consumer coherent.
pub mark_degraded_lem :
    (s : MdConsumerState) (i : InstrumentId)
    → IsCoherent s
    → IsCoherent (mark_degraded s i)
      × (view (mark_degraded s i) i ≡ Feed.lost (expected_seq s i))
      × ((j : InstrumentId) → j ≢ i → view (mark_degraded s i) j ≡ view s j)
unfolding mark_degraded view feed_status expected_seq
mark_degraded_lem s i co = (
  λ j m h. ground (
    arith,
    co j m,
    get-insert i j (FeedStatus.degraded (or_one (get i s.next_seq))) s.status,
    nat_eq.beq_iff i j,
  ),
  ground (
    arith,
    get-insert i i (FeedStatus.degraded (or_one (get i s.next_seq))) s.status,
    nat_eq.beq_iff i i,
  ),
  λ j ne. ground (
    arith,
    get-insert i j (FeedStatus.degraded (or_one (get i s.next_seq))) s.status,
    nat_eq.beq_iff i j,
  ),
)
