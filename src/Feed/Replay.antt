-- ===== src/Feed/Replay.antt =====
-- crates/domain/market-data/src/replay.rs: a journal's records, applied one after the other.
use mathlib.Core.Path.{subst}
use shinrai_trade.Common.{
  eq_of_beq, ℕ, Bool, true, false, ◌≡◌, ◌≢◌, inl, inr, refl, arith, suc, ◌≤◌, ◌<◌, ◌&&◌, List, [],
  ◌∷◌, Result, ok, err, if◌then◌else◌, ◌==◌, nat_eq, Bool-cases, All,
}
use shinrai_trade.Common.Maps.{get}
use shinrai_trade.Ledger.Entry.{InstrumentId}
use shinrai_trade.Feed.Consumer.{
  MdRecord, MdError, ApplyOutcome, MdConsumerState, new_consumer, apply, feed_status,
}
use shinrai_trade.Feed.Contract.{Feed, feed_step, view, IsCoherent}
use shinrai_trade.Feed.Refinement.{apply-feed_step}

-- Whether an answer says that the record was taken.
abbrev is_taken : Result MdError ApplyOutcome → Bool
is_taken (ok ApplyOutcome.applied) = true
is_taken (ok ApplyOutcome.snapshot_recovered) = true
is_taken _ = false

-- The numbers of one instrument's records that were taken, in the order of the records.
unfoldable pub taken : InstrumentId → MdConsumerState → List MdRecord → List ℕ
taken i s [] = []
taken i s (r ∷ rs) =
    let rest = taken i (apply s r).1 rs in
    if (r.instrument_id == i) && is_taken (apply s r).0 then r.seq ∷ rest else rest

-- Strictly increasing, from at least `n` on.
abbrev pub Ahead : ℕ → List ℕ → Type 0
Ahead n [] = Unit
Ahead n (x ∷ xs) = (n ≤ x) × Ahead (suc x) xs

abbrev pub floor : Feed → ℕ
floor Feed.unseen = 0
floor (Feed.live n) = n
floor (Feed.lost n) = n

-- A number of a record that is not the last of the type.
abbrev IsNumbered : MdRecord → Type 0
IsNumbered r = (0 < r.seq) × (r.seq < 18446744073709551615)

Ahead-weaken : (m n : ℕ) (xs : List ℕ) → m ≤ n → Ahead n xs → Ahead m xs
Ahead-weaken m n [] h a = tt
Ahead-weaken m n (x ∷ xs) h (l, a) = (omega arith, a)

step_floor :
    (f : Feed) (r : MdRecord)
    → IsNumbered r
    → (floor f ≤ floor (feed_step f r).1)
      × (is_taken (ok (feed_step f r).0) ≡ true
          → (floor f ≤ r.seq) × (floor (feed_step f r).1 ≡ suc r.seq))
step_floor Feed.unseen r n = ground arith
step_floor (Feed.live next) r n = ground arith
step_floor (Feed.lost next) r n = ground arith

prepend-Ahead :
    (n m seq : ℕ) (hit : Bool) (xs : List ℕ)
    → n ≤ m
    → (hit ≡ true → (n ≤ seq) × (m ≡ suc seq))
    → Ahead m xs
    → Ahead n (if hit then seq ∷ xs else xs)
prepend-Ahead n m seq true xs h hits a = ((hits refl).0, subst (λ x. Ahead x xs) (hits refl).1 a)
prepend-Ahead n m seq false xs h hits a = Ahead-weaken n m xs h a

-- From a coherent consumer on, whatever the records, their order and their repetitions, if
-- each has a number that is positive and not the last of its type: the numbers taken for an
-- instrument strictly increase, from the one its feed expects.
pub taken-Ahead :
    (i : InstrumentId) (s : MdConsumerState) (rs : List MdRecord)
    → IsCoherent s
    → All IsNumbered rs
    → Ahead (floor (view s i)) (taken i s rs)
unfolding taken
taken-Ahead i s [] co ns = tt
taken-Ahead i s (r ∷ rs) co (n, ns) =
    let step = apply-feed_step s r co (λ e. omega arith) in
    let rest = taken-Ahead i (apply s r).1 rs step.coherent ns in
    let floors = step_floor (view s r.instrument_id) r n in
    elim (Bool-cases (r.instrument_id == i)) [
      | inl mine ↦
          let same = eq_of_beq r.instrument_id i mine in
          prepend-Ahead (floor (view s i)) (floor (view (apply s r).1 i)) r.seq
            ((r.instrument_id == i) && is_taken (apply s r).0) (taken i (apply s r).1 rs)
            (ground (arith, step.own, same, floors.0))
            (λ hit. ground (arith, step.own, step.outcome, same, floors.1)) rest
      | inr other ↦
          let kept = step.others i (λ e. ground (arith, nat_eq.beq_iff r.instrument_id i)) in
          prepend-Ahead (floor (view s i)) (floor (view (apply s r).1 i)) r.seq
            ((r.instrument_id == i) && is_taken (apply s r).0) (taken i (apply s r).1 rs)
            (ground (arith, kept)) (λ hit. ground arith) rest
    ]

-- `replay` without its digest: the outcomes in order and the final consumer. A record that is
-- refused counts as a duplicate.
unfoldable pub replay_from : MdConsumerState → List MdRecord → List ApplyOutcome × MdConsumerState
unfolding apply
replay_from s [] = ([], s)
replay_from s (r ∷ rs) =
    let (outcomes, last) = replay_from (apply s r).1 rs in
    (elim (apply s r).0 [ ok o ↦ o | err _ ↦ ApplyOutcome.duplicate ] ∷ outcomes, last)

abbrev pub replay : List MdRecord → List ApplyOutcome × MdConsumerState
replay = replay_from new_consumer

-- The contract's outcomes of one instrument's records.
abbrev pub feed_run : Feed → List MdRecord → List ApplyOutcome × Feed
feed_run f [] = ([], f)
feed_run f (r ∷ rs) =
    let (outcomes, last) = feed_run (feed_step f r).1 rs in ((feed_step f r).0 ∷ outcomes, last)

abbrev IsOf : InstrumentId → MdRecord → Type 0
IsOf i r = (r.instrument_id ≡ i) × (r.seq ≢ 0)

replay_from-feed_run :
    (i : InstrumentId) (s : MdConsumerState) (rs : List MdRecord)
    → IsCoherent s
    → All (IsOf i) rs
    → ((replay_from s rs).0 ≡ (feed_run (view s i) rs).0)
      × (view (replay_from s rs).1 i ≡ (feed_run (view s i) rs).1)
unfolding replay_from
replay_from-feed_run i s [] co ns = (refl, refl)
replay_from-feed_run i s (r ∷ rs) co ((mine, nz), ns) =
    let step = apply-feed_step s r co nz in
    let (outs, last) = replay_from-feed_run i (apply s r).1 rs step.coherent ns in
    ground (arith, step.outcome, step.own, mine, outs, last)

pub new_consumer-IsCoherent : IsCoherent new_consumer
unfolding get
new_consumer-IsCoherent i m h = ground arith

-- Replaying a journal of one instrument's records with positive numbers gives the outcomes of
-- the contract from an unseen feed on, and leaves the feed where the contract leaves it.
pub replay-feed_run :
    (i : InstrumentId) (rs : List MdRecord)
    → All (IsOf i) rs
    → ((replay rs).0 ≡ (feed_run Feed.unseen rs).0)
      × (view (replay rs).1 i ≡ (feed_run Feed.unseen rs).1)
unfolding view feed_status get
replay-feed_run i rs ns = replay_from-feed_run i new_consumer rs new_consumer-IsCoherent ns
