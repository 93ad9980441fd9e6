-- ===== src/Book/Model.antt =====
-- crates/domain/market-data/src/book.rs: books, their events, and the engine that applies them.
-- A method on `&mut self` returns its result with the new state, on an error as well.
use shinrai_trade.Common.{
  ℕ, Bool, true, false, Option, none, some, List, [], ◌∷◌, length, if◌then◌else◌, Result, ok, err,
  ◌>>◌, ltb, nat_beq, nat_eq,
}
use shinrai_trade.Common.Int.{ℤ, pos, ltb_ℤ}
use shinrai_trade.Common.Maps.{Map, get, insert}
use shinrai_trade.Ledger.Entry.{InstrumentId}
use shinrai_trade.Feed.Consumer.{MdError, next_after}
use shinrai_trade.Book.Levels.{Levels, put_level}
use shinrai_trade.Book.Digest.{fnv_offset, mix, mix_u64, mix_levels}

pub data BookSide : Type 0 where
  bid ask : BookSide

-- A level is its price and its size.
abbrev pub BookLevel : Type 0
BookLevel = ℤ × ℤ

pub record BookChange : Type 0 where
  pub side : BookSide
  pub price : ℤ
  pub qty : ℤ

pub record BookSnapshot : Type 0 where
  pub instrument_id : InstrumentId
  pub seq : ℕ
  pub ts_logical : ℕ
  pub bids : List BookLevel
  pub asks : List BookLevel

pub record BookDelta : Type 0 where
  pub instrument_id : InstrumentId
  pub seq : Option ℕ
  pub ts_logical : ℕ
  pub changes : List BookChange

pub data BookEvent : Type 0 where
  snapshot : BookSnapshot → BookEvent
  delta : BookDelta → BookEvent

pub data BookStatus : Type 0 where
  empty healthy invalidated : BookStatus

pub record L2Book : Type 0 where
  pub instrument_id : InstrumentId
  pub status : BookStatus
  pub seq : ℕ
  pub bids : Levels
  pub asks : Levels

-- `L2Book::new`
abbrev pub new_book : InstrumentId → L2Book
new_book i = record { instrument_id = i; status = BookStatus.empty; seq = 0; bids = []; asks = [] }

-- The last level in the order of prices.
unfoldable pub last_level : Levels → Option BookLevel
last_level [] = none
last_level (l ∷ []) = some l
last_level (l ∷ m ∷ ls) = last_level (m ∷ ls)

abbrev pub best_bid : L2Book → Option BookLevel
best_bid b = last_level b.bids

abbrev pub first_level : Levels → Option BookLevel
first_level [] = none
first_level (l ∷ ls) = some l

abbrev pub best_ask : L2Book → Option BookLevel
best_ask b = first_level b.asks

-- `invalidate` of a book.
abbrev pub invalidate_book : L2Book → L2Book
invalidate_book b = record b { bids = []; asks = []; status = BookStatus.invalidated }

abbrev pub status_byte : BookStatus → ℕ
status_byte BookStatus.empty = 0
status_byte BookStatus.healthy = 1
status_byte BookStatus.invalidated = 2

unfoldable pub checksum : L2Book → ℕ
unfolding mix_u64 mix_levels
checksum b =
    let head = mix_u64 (mix (mix_u64 fnv_offset b.instrument_id) (status_byte b.status)) b.seq in
    let bids = mix_levels (mix_u64 head (length b.bids)) b.bids in
    mix_levels (mix_u64 bids (length b.asks)) b.asks

abbrev pub set_level : L2Book → BookSide → ℤ → ℤ → L2Book
set_level b BookSide.bid price qty = record b { bids = put_level price qty b.bids }
set_level b BookSide.ask price qty = record b { asks = put_level price qty b.asks }

unfoldable pub set_levels : BookSide → L2Book → List BookLevel → L2Book
set_levels side b [] = b
set_levels side b ((price, qty) ∷ ls) = set_levels side (set_level b side price qty) ls

unfoldable pub replace : L2Book → BookSnapshot → L2Book
unfolding set_levels
replace b snap =
    let cleared = record b { bids = []; asks = [] } in
    let filled = set_levels BookSide.ask (set_levels BookSide.bid cleared snap.bids) snap.asks in
    record filled { seq = snap.seq; status = BookStatus.healthy }

-- `checksum` of a snapshot: of an empty book that it replaces.
unfoldable pub snapshot_checksum : BookSnapshot → ℕ
unfolding checksum replace
snapshot_checksum snap = checksum (replace (new_book snap.instrument_id) snap)

unfoldable pub set_changes : L2Book → List BookChange → L2Book
set_changes b [] = b
set_changes b (c ∷ cs) = set_changes (set_level b c.side c.price c.qty) cs

pub data BookApplyOutcome : Type 0 where
  applied : ℕ → BookApplyOutcome
  duplicate ignored_invalidated : BookApplyOutcome
  gap_invalidated : ℕ → ℕ → BookApplyOutcome

abbrev pub BookEngine : Type 0
BookEngine = Map InstrumentId L2Book

-- `entry(..).or_insert_with(..)`
abbrev pub book_or_new : InstrumentId → Option L2Book → L2Book
book_or_new i none = new_book i
book_or_new i (some b) = b

unfoldable pub book_of : BookEngine → InstrumentId → L2Book
book_of e i = book_or_new i (get i e)

-- `invalidate` of the engine.
unfoldable pub invalidate : BookEngine → InstrumentId → BookEngine
unfolding book_of
invalidate e i = insert i (invalidate_book (book_of e i)) e

unfoldable pub validate_levels : List BookLevel → Result MdError (Unit {0})
validate_levels [] = ok tt
validate_levels ((price, qty) ∷ ls) =
    let rest = validate_levels ls in
    if ltb_ℤ qty (pos 0) then err MdError.invalid_quantity else rest

unfoldable pub validate_changes : List BookChange → Result MdError (Unit {0})
validate_changes [] = ok tt
validate_changes (c ∷ cs) =
    let rest = validate_changes cs in
    if ltb_ℤ c.qty (pos 0) then err MdError.invalid_quantity else rest

abbrev pub BookResult : Type 0
BookResult = Result MdError BookApplyOutcome × L2Book

abbrev pub Answer : Type 0
Answer = Result MdError BookApplyOutcome × BookEngine

unfoldable pub validate_snapshot : BookSnapshot → Result MdError (Unit {0})
unfolding validate_levels
validate_snapshot snap =
    if nat_beq snap.seq 0
    then err MdError.invalid_sequence
    else validate_levels snap.bids >> validate_levels snap.asks

unfoldable pub apply_snapshot : BookEngine → BookSnapshot → Answer
unfolding validate_snapshot book_of replace
apply_snapshot e snap = elim (validate_snapshot snap) [
  | err x ↦ (err x, e)
  | ok _ ↦
      let b = replace (book_of e snap.instrument_id) snap in
      (ok (BookApplyOutcome.applied (checksum b)), insert snap.instrument_id b e)
]

-- The end of `apply_delta`.
abbrev pub change_levels : L2Book → List BookChange → BookResult
change_levels b changes =
    let b' = set_changes b changes in (ok (BookApplyOutcome.applied (checksum b')), b')

abbrev pub sequence_delta : L2Book → Option ℕ → List BookChange → BookResult
sequence_delta b none changes = change_levels b changes
sequence_delta b (some seq) changes =
    let expected = next_after b.seq in
    if nat_beq seq 0
    then (err MdError.invalid_sequence, b)
    else if ltb seq expected
    then (ok BookApplyOutcome.duplicate, b)
    else if ltb expected seq
    then (ok (BookApplyOutcome.gap_invalidated expected seq), invalidate_book b)
    else change_levels (record b { seq = seq }) changes

abbrev pub is_healthy : BookStatus → Bool
is_healthy BookStatus.healthy = true
is_healthy _ = false

-- `apply_delta` on the book, which the engine has from here on even if it is new.
unfoldable pub delta_book : L2Book → BookDelta → BookResult
unfolding set_changes checksum
delta_book b d =
    if is_healthy b.status
    then sequence_delta b d.seq d.changes
    else (ok BookApplyOutcome.ignored_invalidated, b)

unfoldable pub apply_delta : BookEngine → BookDelta → Answer
unfolding validate_changes book_of delta_book
apply_delta e d = elim (validate_changes d.changes) [
  | err x ↦ (err x, e)
  | ok _ ↦
      let (answer, b) = delta_book (book_of e d.instrument_id) d in
      (answer, insert d.instrument_id b e)
]

-- `apply` of the engine.
abbrev pub apply_book : BookEngine → BookEvent → Answer
apply_book e (BookEvent.snapshot snap) = apply_snapshot e snap
apply_book e (BookEvent.delta d) = apply_delta e d
