-- ===== src/Book/Tests.antt =====
-- crates/domain/market-data/src/book.rs: runs, and the theorems at a concrete engine.
use shinrai_trade.Book.Levels.{put_level, size_at}
use shinrai_trade.Common.{◌≡◌, refl, arith, ok, [], ◌∷◌, some, nat_eq}
use shinrai_trade.Common.Int.{pos}
use shinrai_trade.Common.Maps.{get, insert}
use shinrai_trade.Book.Model.{
  BookSide, BookSnapshot, BookDelta, BookEvent, BookStatus, BookApplyOutcome, L2Book, apply_book,
  apply_snapshot, delta_book, checksum, best_bid, best_ask, last_level,
}
use shinrai_trade.Book.Shape.{IsSound}
use shinrai_trade.Book.Invariant.{AllSound, apply_book-AllSound, no_books-AllSound}
use shinrai_trade.Book.Rebuild.{taken_of, apply_snapshot-taken_of}
use shinrai_trade.Book.Depth.{depth, promised, delta_book-promised}

abbrev first_snapshot : BookSnapshot
first_snapshot = record {
  instrument_id = 7;
  seq = 3;
  ts_logical = 1;
  bids = (pos 100, pos 4) ∷ (pos 99, pos 2) ∷ (pos 98, pos 0) ∷ [];
  asks = (pos 102, pos 5) ∷ [];
}

-- The bid at 100 is deleted, and 101 appears with its second size.
abbrev next_delta : BookDelta
next_delta = record {
  instrument_id = 7;
  seq = some 4;
  ts_logical = 2;
  changes =
      record { side = BookSide.bid; price = pos 100; qty = pos 0 }
      ∷ record { side = BookSide.bid; price = pos 101; qty = pos 9 }
      ∷ record { side = BookSide.bid; price = pos 101; qty = pos 1 }
      ∷ [];
}

abbrev shown : L2Book
shown = record {
  instrument_id = 7;
  status = BookStatus.healthy;
  seq = 3;
  bids = (pos 99, pos 2) ∷ (pos 100, pos 4) ∷ [];
  asks = (pos 102, pos 5) ∷ [];
}

abbrev after_delta : L2Book
after_delta = record shown { seq = 4; bids = (pos 99, pos 2) ∷ (pos 101, pos 1) ∷ [] }

snapshot_run : (apply_book [] (BookEvent.snapshot first_snapshot)).1 ≡ (7, shown) ∷ []
unfolding apply_snapshot insert get put_level
snapshot_run = refl

delta_run : (delta_book shown next_delta).1 ≡ after_delta
unfolding delta_book put_level
delta_run = refl

best_run :
    (best_bid after_delta ≡ some (pos 101, pos 1)) × (best_ask after_delta ≡ some (pos 102, pos 5))
unfolding last_level
best_run = (refl, refl)

shown-IsSound : IsSound shown
shown-IsSound = record {
  bid_ladder = ground arith;
  ask_ladder = ground arith;
  hidden = λ e. ground arith;
}

apply_book-AllSound_example : AllSound (apply_book [] (BookEvent.snapshot first_snapshot)).1
apply_book-AllSound_example =
    apply_book-AllSound [] (BookEvent.snapshot first_snapshot) no_books-AllSound

apply_snapshot-taken_of_example :
    apply_snapshot [] (taken_of shown 5)
    ≡ (ok (BookApplyOutcome.applied (checksum shown)), insert 7 shown [])
apply_snapshot-taken_of_example =
    apply_snapshot-taken_of [] shown 5 no_books-AllSound shown-IsSound refl refl

delta_book-promised_example :
    depth (delta_book shown next_delta).1 BookSide.bid (pos 101)
    ≡ promised (delta_book shown next_delta).0 BookSide.bid (pos 101) next_delta.changes (pos 0)
unfolding size_at
delta_book-promised_example = delta_book-promised shown next_delta BookSide.bid (pos 101)
