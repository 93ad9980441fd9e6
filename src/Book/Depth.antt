-- ===== src/Book/Depth.antt =====
-- crates/domain/market-data/src/book.rs: the size shown at each price, after any delta.
use shinrai_trade.Common.{
  ℕ, Bool, true, false, ◌≡◌, refl, ap, ◌∙◌, arith, List, [], ◌∷◌, Option, none, some, Result, ok,
  err, if◌then◌else◌, nat_eq, ◌&&◌,
}
use shinrai_trade.Common.Int.{ℤ, pos, eqb_ℤ}
use shinrai_trade.Feed.Consumer.{MdError}
use shinrai_trade.Book.Levels.{size_at, size_at-put_level}
use shinrai_trade.Book.Model.{
  BookSide, BookChange, BookDelta, L2Book, invalidate_book, set_level, set_changes,
  BookApplyOutcome, sequence_delta, delta_book,
}

-- The size at a price of a side.
abbrev pub depth : L2Book → BookSide → ℤ → ℤ
depth b BookSide.bid p = size_at p b.bids
depth b BookSide.ask p = size_at p b.asks

abbrev same_side : BookSide → BookSide → Bool
same_side BookSide.bid BookSide.bid = true
same_side BookSide.ask BookSide.ask = true
same_side _ _ = false

-- The last size that the changes give to a price, or else the old one.
unfoldable pub latest : BookSide → ℤ → List BookChange → ℤ → ℤ
latest side p [] old = old
latest side p (c ∷ cs) old =
    latest side p cs (if same_side side c.side && eqb_ℤ p c.price then c.qty else old)

-- What each answer promises of a price.
abbrev pub promised : Result MdError BookApplyOutcome → BookSide → ℤ → List BookChange → ℤ → ℤ
promised (ok (BookApplyOutcome.applied sum)) side p cs old = latest side p cs old
promised (ok (BookApplyOutcome.gap_invalidated expected got)) side p cs old = pos 0
promised (ok BookApplyOutcome.duplicate) side p cs old = old
promised (ok BookApplyOutcome.ignored_invalidated) side p cs old = old
promised (err e) side p cs old = old

depth-set_level :
    (b : L2Book) (s side : BookSide) (price qty p : ℤ)
    → depth (set_level b s price qty) side p
      ≡ (if same_side side s && eqb_ℤ p price then qty else depth b side p)
depth-set_level b BookSide.bid BookSide.bid price qty p = size_at-put_level p price qty b.bids
depth-set_level b BookSide.ask BookSide.ask price qty p = size_at-put_level p price qty b.asks
depth-set_level b BookSide.bid BookSide.ask price qty p = refl
depth-set_level b BookSide.ask BookSide.bid price qty p = refl

depth-set_changes :
    (b : L2Book) (cs : List BookChange) (side : BookSide) (p : ℤ)
    → depth (set_changes b cs) side p ≡ latest side p cs (depth b side p)
unfolding set_changes latest
depth-set_changes b [] side p = refl
depth-set_changes b (c ∷ cs) side p =
    depth-set_changes (set_level b c.side c.price c.qty) cs side p
    ∙ ap (latest side p cs) (depth-set_level b c.side side c.price c.qty p)

depth-invalidate_book :
    (b : L2Book) (side : BookSide) (p : ℤ) → depth (invalidate_book b) side p ≡ pos 0
unfolding size_at
depth-invalidate_book b BookSide.bid p = refl
depth-invalidate_book b BookSide.ask p = refl

depth-seq :
    (b : L2Book) (n : ℕ) (side : BookSide) (p : ℤ)
    → depth (record b { seq = n }) side p ≡ depth b side p
depth-seq b n BookSide.bid p = refl
depth-seq b n BookSide.ask p = refl

sequence_delta-promised :
    (b : L2Book) (seq : Option ℕ) (cs : List BookChange) (side : BookSide) (p : ℤ)
    → depth (sequence_delta b seq cs).1 side p
      ≡ promised (sequence_delta b seq cs).0 side p cs (depth b side p)
sequence_delta-promised b none cs side p = depth-set_changes b cs side p
sequence_delta-promised b (some n) cs side p = ground (
  arith,
  depth-set_changes (record b { seq = n }) cs side p,
  depth-seq b n side p,
  depth-invalidate_book b side p,
)

-- After a delta, the size that a book shows at a price of a side is what the answer promises:
-- the last size that the changes give that price, or the old one, if they were applied; zero
-- after a gap; and the old size if the delta was a duplicate, was ignored or failed.
pub delta_book-promised :
    (b : L2Book) (d : BookDelta) (side : BookSide) (p : ℤ)
    → depth (delta_book b d).1 side p
      ≡ promised (delta_book b d).0 side p d.changes (depth b side p)
unfolding delta_book
delta_book-promised b d side p = ground (arith, sequence_delta-promised b d.seq d.changes side p)
