-- ===== src/Book/Rebuild.antt =====
-- crates/domain/market-data/src/book.rs: a snapshot makes the book anew, whatever was there.
use shinrai_trade.Common.{
  ℕ, true, false, ◌≡◌, refl, sym, ap, ◌∙◌, arith, List, [], ◌∷◌, All, ok, if◌then◌else◌, nat_beq,
  nat_eq,
}
use shinrai_trade.Common.Int.{ℤ, pos, eqb_ℤ}
use shinrai_trade.Common.Maps.{insert}
use shinrai_trade.Book.Levels.{
  Levels, IsLadder, Above, put_level, put_level-IsLadder, size_at, size_at-put_level, size_at-Above,
  IsLadder-ext, IsLadder-tail,
}
use shinrai_trade.Book.Model.{
  BookSide, BookLevel, BookSnapshot, BookStatus, L2Book, new_book, set_level, set_levels, replace,
  BookEngine, BookApplyOutcome, book_of, validate_snapshot, apply_snapshot, checksum,
  snapshot_checksum, is_healthy, validate_levels,
}
use shinrai_trade.Book.Shape.{IsSound, IsSized}
use shinrai_trade.Book.Invariant.{AllSound, book_of-IsSound}

-- What a snapshot is of a book.
abbrev pub taken_of : L2Book → ℕ → BookSnapshot
taken_of b now = record {
  instrument_id = b.instrument_id;
  seq = b.seq;
  ts_logical = now;
  bids = b.bids;
  asks = b.asks;
}

-- One side after a list of levels.
put_levels : List BookLevel → Levels → Levels
put_levels [] l = l
put_levels ((price, qty) ∷ ls) l = put_levels ls (put_level price qty l)

set_levels-bid :
    (b : L2Book) (ls : List BookLevel)
    → set_levels BookSide.bid b ls ≡ record b { bids = put_levels ls b.bids }
unfolding set_levels put_levels
set_levels-bid b [] = refl
set_levels-bid b ((price, qty) ∷ ls) = set_levels-bid (set_level b BookSide.bid price qty) ls

set_levels-ask :
    (b : L2Book) (ls : List BookLevel)
    → set_levels BookSide.ask b ls ≡ record b { asks = put_levels ls b.asks }
unfolding set_levels put_levels
set_levels-ask b [] = refl
set_levels-ask b ((price, qty) ∷ ls) = set_levels-ask (set_level b BookSide.ask price qty) ls

-- Replacing keeps nothing of a book but its instrument.
replace_lem :
    (b : L2Book) (snap : BookSnapshot)
    → replace b snap ≡ record {
      instrument_id = b.instrument_id;
      status = BookStatus.healthy;
      seq = snap.seq;
      bids = put_levels snap.bids [];
      asks = put_levels snap.asks [];
    }
unfolding replace
replace_lem b snap =
    let cleared : L2Book = record b { bids = []; asks = [] } in
    rw (set_levels-bid cleared snap.bids)
      (rw (set_levels-ask (record cleared { bids = put_levels snap.bids [] }) snap.asks) refl)

put_levels-IsLadder :
    (ls : List BookLevel) (l : Levels) → All IsSized ls → IsLadder l → IsLadder (put_levels ls l)
unfolding put_levels
put_levels-IsLadder [] l k a = a
put_levels-IsLadder ((price, qty) ∷ ls) l (k, ks) a =
    put_levels-IsLadder ls (put_level price qty l) ks (put_level-IsLadder price qty l k a)

size_at-put_levels :
    (j : ℤ) (ls m : Levels)
    → IsLadder ls
    → size_at j (put_levels ls m)
      ≡ (if eqb_ℤ (size_at j ls) (pos 0) then size_at j m else size_at j ls)
unfolding put_levels size_at
size_at-put_levels j [] m a = refl
size_at-put_levels j ((r, s) ∷ ls) m (k, a) = ground (
  arith,
  size_at-put_levels j ls (put_level r s m) (IsLadder-tail r s ls a),
  size_at-put_level j r s m,
  size_at-Above r r ls a,
)

Above-IsSized : (b : ℤ) (l : Levels) → Above b l → All IsSized l
Above-IsSized b [] a = tt
Above-IsSized b ((r, s) ∷ l) (lt, k, a) = (omega arith, Above-IsSized r l a)

IsLadder-IsSized : (l : Levels) → IsLadder l → All IsSized l
IsLadder-IsSized [] a = tt
IsLadder-IsSized ((r, s) ∷ l) (k, a) = (omega arith, Above-IsSized r l a)

-- A ladder put on an empty side is that side.
put_levels-ladder : (l : Levels) → IsLadder l → put_levels l [] ≡ l
unfolding size_at
put_levels-ladder l a =
    IsLadder-ext (put_levels l []) l (put_levels-IsLadder l [] (IsLadder-IsSized l a) tt) a
      (λ p. ground (arith, size_at-put_levels p l [] a))

healthy_only : (s : BookStatus) → is_healthy s ≡ true → s ≡ BookStatus.healthy
healthy_only BookStatus.healthy h = refl
healthy_only BookStatus.empty h = ground arith
healthy_only BookStatus.invalidated h = ground arith

pub replace-taken_of :
    (b c : L2Book) (now : ℕ)
    → IsSound b
    → is_healthy b.status ≡ true
    → c.instrument_id ≡ b.instrument_id
    → replace c (taken_of b now) ≡ b
replace-taken_of b c now s up same =
    let bids = put_levels-ladder b.bids s.bid_ladder in
    let asks = put_levels-ladder b.asks s.ask_ladder in
    let status = healthy_only b.status up in
    replace_lem c (taken_of b now) ∙ (λ i. record {
      instrument_id = same i;
      status = sym status i;
      seq = b.seq;
      bids = bids i;
      asks = asks i;
    })

-- On sound books, an accepted snapshot answers with its own checksum.
pub apply_snapshot_lem :
    (e : BookEngine) (snap : BookSnapshot) (u : Unit {0})
    → AllSound e
    → validate_snapshot snap ≡ ok u
    → (apply_snapshot e snap).0 ≡ ok (BookApplyOutcome.applied (snapshot_checksum snap))
unfolding apply_snapshot snapshot_checksum
apply_snapshot_lem e snap u a h =
    let own = (book_of-IsSound e snap.instrument_id a).0 in
    let same =
      replace_lem (book_of e snap.instrument_id) snap
      ∙ (λ i. record {
        instrument_id = own i;
        status = BookStatus.healthy;
        seq = snap.seq;
        bids = put_levels snap.bids [];
        asks = put_levels snap.asks [];
      })
      ∙ sym (replace_lem (new_book snap.instrument_id) snap) in
    rw (h, apply_snapshot) (ap (λ x. ok (BookApplyOutcome.applied (checksum x))) same)

IsSized-validate_levels : (ls : List BookLevel) → All IsSized ls → validate_levels ls ≡ ok tt
unfolding validate_levels
IsSized-validate_levels [] k = refl
IsSized-validate_levels ((price, qty) ∷ ls) (k, ks) = ground (arith, IsSized-validate_levels ls ks)

IsSound-validate_snapshot :
    (b : L2Book) (now : ℕ)
    → IsSound b
    → nat_beq b.seq 0 ≡ false
    → validate_snapshot (taken_of b now) ≡ ok tt
unfolding validate_snapshot
IsSound-validate_snapshot b now s numbered = rw numbered (
    rw (IsSized-validate_levels b.bids (IsLadder-IsSized b.bids s.bid_ladder))
      (IsSized-validate_levels b.asks (IsLadder-IsSized b.asks s.ask_ladder)))

-- On an engine whose books are sound, the snapshot of a sound and healthy book with a positive
-- number is accepted, puts exactly that book under its instrument, whatever stood there, and
-- answers with that book's checksum.
pub apply_snapshot-taken_of :
    (e : BookEngine) (b : L2Book) (now : ℕ)
    → AllSound e
    → IsSound b
    → b.status ≡ BookStatus.healthy
    → nat_beq b.seq 0 ≡ false
    → apply_snapshot e (taken_of b now)
      ≡ (ok (BookApplyOutcome.applied (checksum b)), insert b.instrument_id b e)
unfolding apply_snapshot
apply_snapshot-taken_of e b now a s up numbered =
    let old = book_of e b.instrument_id in
    let own = (book_of-IsSound e b.instrument_id a).0 in
    let same = replace-taken_of b old now s (rw up refl) own in
    rw (IsSound-validate_snapshot b now s numbered, apply_snapshot)
      (ap (λ x. (ok (BookApplyOutcome.applied (checksum x)), insert b.instrument_id x e)) same)
