-- ===== src/Book/Invariant.antt =====
-- crates/domain/market-data/src/book.rs: every book of the engine, over any events.
use mathlib.Core.Path.{subst}
use shinrai_trade.Common.{
  ℕ, ◌≡◌, inl, inr, refl, ◌∙◌, arith, List, [], ◌∷◌, All, Option, none, some, Option-cases, ok,
  Result-cases, nat_eq,
}
use shinrai_trade.Common.Int.{ℤ}
use shinrai_trade.Common.Maps.{get, insert, get-insert_inv}
use shinrai_trade.Ledger.Entry.{InstrumentId}
use shinrai_trade.Book.Model.{
  BookSide, BookLevel, BookChange, BookSnapshot, BookDelta, BookEvent, L2Book, new_book,
  invalidate_book, set_level, set_levels, replace, set_changes, BookEngine, book_of, invalidate,
  validate_levels, validate_changes, validate_snapshot, apply_snapshot, sequence_delta, delta_book,
  apply_delta, apply_book,
}
use shinrai_trade.Book.Shape.{
  IsSound, IsSized, validate_levels_inv, validate_changes_inv, replace-IsSound,
  invalidate_book-IsSound, delta_book-IsSound,
}

-- Each book stands under its own instrument and is sound.
abbrev pub AllSound : BookEngine → Type 0
AllSound e = (i : InstrumentId) (b : L2Book) → get i e ≡ some b → (b.instrument_id ≡ i) × IsSound b

new_book-IsSound : (i : InstrumentId) → IsSound (new_book i)
new_book-IsSound i = record { bid_ladder = tt; ask_ladder = tt; hidden = λ e. (refl, refl) }

pub book_of-IsSound :
    (e : BookEngine) (i : InstrumentId)
    → AllSound e
    → ((book_of e i).instrument_id ≡ i) × IsSound (book_of e i)
unfolding book_of
book_of-IsSound e i a = elim (Option-cases (get i e)) [
  | inl none_yet ↦ rw none_yet (refl, new_book-IsSound i)
  | inr (b, found) ↦ rw found (a i b found)
]

insert-AllSound :
    (e : BookEngine) (i : InstrumentId) (b : L2Book)
    → b.instrument_id ≡ i
    → IsSound b
    → AllSound e
    → AllSound (insert i b e)
insert-AllSound e i b own s a j c h = elim (get-insert_inv i j b c e h) [
  | inl (key, value) ↦ subst (λ x. (x.instrument_id ≡ j) × IsSound x) value (own ∙ key, s)
  | inr (other, old) ↦ a j c old
]

set_level-instrument :
    (b : L2Book) (side : BookSide) (price qty : ℤ)
    → (set_level b side price qty).instrument_id ≡ b.instrument_id
set_level-instrument b BookSide.bid price qty = refl
set_level-instrument b BookSide.ask price qty = refl

set_levels-instrument :
    (side : BookSide) (b : L2Book) (ls : List BookLevel)
    → (set_levels side b ls).instrument_id ≡ b.instrument_id
unfolding set_levels
set_levels-instrument side b [] = refl
set_levels-instrument side b ((price, qty) ∷ ls) =
    set_levels-instrument side (set_level b side price qty) ls
    ∙ set_level-instrument b side price qty

set_changes-instrument :
    (b : L2Book) (cs : List BookChange) → (set_changes b cs).instrument_id ≡ b.instrument_id
unfolding set_changes
set_changes-instrument b [] = refl
set_changes-instrument b (c ∷ cs) =
    set_changes-instrument (set_level b c.side c.price c.qty) cs
    ∙ set_level-instrument b c.side c.price c.qty

replace-instrument :
    (b : L2Book) (snap : BookSnapshot) → (replace b snap).instrument_id ≡ b.instrument_id
unfolding replace
replace-instrument b snap =
    let cleared : L2Book = record b { bids = []; asks = [] } in
    set_levels-instrument BookSide.ask (set_levels BookSide.bid cleared snap.bids) snap.asks
    ∙ set_levels-instrument BookSide.bid cleared snap.bids

sequence_delta-instrument :
    (b : L2Book) (seq : Option ℕ) (cs : List BookChange)
    → (sequence_delta b seq cs).1.instrument_id ≡ b.instrument_id
sequence_delta-instrument b none cs = set_changes-instrument b cs
sequence_delta-instrument b (some n) cs =
    ground (arith, set_changes-instrument (record b { seq = n }) cs)

delta_book-instrument :
    (b : L2Book) (d : BookDelta) → (delta_book b d).1.instrument_id ≡ b.instrument_id
unfolding delta_book
delta_book-instrument b d = ground (arith, sequence_delta-instrument b d.seq d.changes)

pub validate_snapshot_inv :
    (snap : BookSnapshot) (u : Unit {0})
    → validate_snapshot snap ≡ ok u
    → All IsSized snap.bids × All IsSized snap.asks
unfolding validate_snapshot
validate_snapshot_inv snap u h = elim (Result-cases (validate_levels snap.bids)) [
  | inr (failed, k) ↦ ground arith
  | inl (v, k) ↦
      (validate_levels_inv snap.bids v k, ground (arith, validate_levels_inv snap.asks u))
]

apply_snapshot-AllSound :
    (e : BookEngine) (snap : BookSnapshot) → AllSound e → AllSound (apply_snapshot e snap).1
unfolding apply_snapshot
apply_snapshot-AllSound e snap a = elim (Result-cases (validate_snapshot snap)) [
  | inr (failed, h) ↦ rw (h, apply_snapshot) a
  | inl (u, h) ↦
      let old = book_of e snap.instrument_id in
      let (bids, asks) = validate_snapshot_inv snap u h in
      rw (h, apply_snapshot)
        (insert-AllSound e snap.instrument_id (replace old snap)
          (replace-instrument old snap ∙ (book_of-IsSound e snap.instrument_id a).0)
          (replace-IsSound old snap bids asks) a)
]

apply_delta-AllSound : (e : BookEngine) (d : BookDelta) → AllSound e → AllSound (apply_delta e d).1
unfolding apply_delta
apply_delta-AllSound e d a = elim (Result-cases (validate_changes d.changes)) [
  | inr (failed, h) ↦ rw (h, apply_delta) a
  | inl (u, h) ↦
      let old = book_of e d.instrument_id in
      let (own, s) = book_of-IsSound e d.instrument_id a in
      rw (h, apply_delta)
        (insert-AllSound e d.instrument_id (delta_book old d).1 (delta_book-instrument old d ∙ own)
          (delta_book-IsSound old d (validate_changes_inv d.changes u h) s) a)
]

-- If each book of the engine stands under its own instrument, has strictly increasing prices
-- of positive size on both sides, and has no levels unless it is healthy, then the same holds
-- after any snapshot or delta, whatever it answers.
pub apply_book-AllSound :
    (e : BookEngine) (event : BookEvent) → AllSound e → AllSound (apply_book e event).1
apply_book-AllSound e (BookEvent.snapshot snap) a = apply_snapshot-AllSound e snap a
apply_book-AllSound e (BookEvent.delta d) a = apply_delta-AllSound e d a

pub invalidate-AllSound :
    (e : BookEngine) (i : InstrumentId) → AllSound e → AllSound (invalidate e i)
unfolding invalidate
invalidate-AllSound e i a =
    insert-AllSound e i (invalidate_book (book_of e i)) (book_of-IsSound e i a).0
      (invalidate_book-IsSound (book_of e i)) a

pub no_books-AllSound : AllSound []
unfolding get
no_books-AllSound i b h = ground arith
