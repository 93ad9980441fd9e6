-- ===== src/Book/Shape.antt =====
-- crates/domain/market-data/src/book.rs: what holds of every book between two events.
use shinrai_trade.Common.{
  ℕ, true, false, ◌≡◌, inl, inr, refl, ◌∙◌, arith, List, [], ◌∷◌, All, Option, none, some, ok,
  Bool-cases, nat_beq, nat_eq, ltb,
}
use shinrai_trade.Common.Int.{ℤ, pos, ◌≤ℤ◌}
use shinrai_trade.Feed.Consumer.{next_after}
use shinrai_trade.Book.Levels.{IsLadder, put_level-IsLadder}
use shinrai_trade.Book.Model.{
  BookSide, BookLevel, BookChange, BookSnapshot, BookDelta, L2Book, invalidate_book, set_level,
  set_levels, replace, set_changes, validate_levels, validate_changes, change_levels,
  sequence_delta, delta_book, is_healthy,
}

-- Both sides are ladders, and a book that is not healthy has no levels.
pub record IsSound (b : L2Book) : Type 0 where
  pub bid_ladder : IsLadder b.bids
  pub ask_ladder : IsLadder b.asks
  pub hidden : is_healthy b.status ≡ false → (b.bids ≡ []) × (b.asks ≡ [])

abbrev pub HasLadders : L2Book → Type 0
HasLadders b = IsLadder b.bids × IsLadder b.asks

abbrev pub IsSized : BookLevel → Type 0
IsSized (price, qty) = pos 0 ≤ℤ qty

abbrev pub IsSizedChange : BookChange → Type 0
IsSizedChange c = pos 0 ≤ℤ c.qty

pub validate_levels_inv :
    (ls : List BookLevel) (u : Unit {0}) → validate_levels ls ≡ ok u → All IsSized ls
unfolding validate_levels
validate_levels_inv [] u h = tt
validate_levels_inv ((price, qty) ∷ ls) u h = ground (arith, validate_levels_inv ls u)

pub validate_changes_inv :
    (cs : List BookChange) (u : Unit {0}) → validate_changes cs ≡ ok u → All IsSizedChange cs
unfolding validate_changes
validate_changes_inv [] u h = tt
validate_changes_inv (c ∷ cs) u h = ground (arith, validate_changes_inv cs u)

set_level-HasLadders :
    (b : L2Book) (side : BookSide) (price qty : ℤ)
    → pos 0 ≤ℤ qty
    → HasLadders b
    → HasLadders (set_level b side price qty)
set_level-HasLadders b BookSide.bid price qty k (x, y) =
    (put_level-IsLadder price qty b.bids k x, y)
set_level-HasLadders b BookSide.ask price qty k (x, y) =
    (x, put_level-IsLadder price qty b.asks k y)

pub set_levels-HasLadders :
    (side : BookSide) (b : L2Book) (ls : List BookLevel)
    → All IsSized ls
    → HasLadders b
    → HasLadders (set_levels side b ls)
unfolding set_levels
set_levels-HasLadders side b [] k h = h
set_levels-HasLadders side b ((price, qty) ∷ ls) (k, ks) h =
    set_levels-HasLadders side (set_level b side price qty) ls ks
      (set_level-HasLadders b side price qty k h)

set_changes-HasLadders :
    (b : L2Book) (cs : List BookChange)
    → All IsSizedChange cs
    → HasLadders b
    → HasLadders (set_changes b cs)
unfolding set_changes
set_changes-HasLadders b [] k h = h
set_changes-HasLadders b (c ∷ cs) (k, ks) h =
    set_changes-HasLadders (set_level b c.side c.price c.qty) cs ks
      (set_level-HasLadders b c.side c.price c.qty k h)

set_level-status :
    (b : L2Book) (side : BookSide) (price qty : ℤ) → (set_level b side price qty).status ≡ b.status
set_level-status b BookSide.bid price qty = refl
set_level-status b BookSide.ask price qty = refl

pub set_changes-status : (b : L2Book) (cs : List BookChange) → (set_changes b cs).status ≡ b.status
unfolding set_changes
set_changes-status b [] = refl
set_changes-status b (c ∷ cs) =
    set_changes-status (set_level b c.side c.price c.qty) cs
    ∙ set_level-status b c.side c.price c.qty

pub replace-IsSound :
    (b : L2Book) (snap : BookSnapshot)
    → All IsSized snap.bids
    → All IsSized snap.asks
    → IsSound (replace b snap)
unfolding replace
replace-IsSound b snap k k' =
    let cleared : L2Book = record b { bids = []; asks = [] } in
    let bids = set_levels-HasLadders BookSide.bid cleared snap.bids k (tt, tt) in
    let (x, y) =
      set_levels-HasLadders BookSide.ask (set_levels BookSide.bid cleared snap.bids) snap.asks k'
        bids in
    record { bid_ladder = x; ask_ladder = y; hidden = λ e. cc }

change_levels-IsSound :
    (b : L2Book) (cs : List BookChange)
    → All IsSizedChange cs
    → IsSound b
    → is_healthy b.status ≡ true
    → IsSound (change_levels b cs).1
change_levels-IsSound b cs k s up =
    let (x, y) = set_changes-HasLadders b cs k (s.bid_ladder, s.ask_ladder) in
    record { bid_ladder = x; ask_ladder = y; hidden = λ e. ground (arith, set_changes-status b cs) }

pub invalidate_book-IsSound : (b : L2Book) → IsSound (invalidate_book b)
invalidate_book-IsSound b = record { bid_ladder = tt; ask_ladder = tt; hidden = λ e. (refl, refl) }

sequence_delta-IsSound :
    (b : L2Book) (seq : Option ℕ) (cs : List BookChange)
    → All IsSizedChange cs
    → IsSound b
    → is_healthy b.status ≡ true
    → IsSound (sequence_delta b seq cs).1
sequence_delta-IsSound b none cs k s up = change_levels-IsSound b cs k s up
sequence_delta-IsSound b (some n) cs k s up =
    let b' : L2Book = record b { seq = n } in
    let same : IsSound b' = record {
      bid_ladder = s.bid_ladder;
      ask_ladder = s.ask_ladder;
      hidden = s.hidden;
    } in
    elim (Bool-cases (nat_beq n 0)) [
      | inl zeroth ↦ rw zeroth s
      | inr numbered ↦ elim (Bool-cases (ltb n (next_after b.seq))) [
        | inl old ↦ rw (numbered, old) s
        | inr new ↦ elim (Bool-cases (ltb (next_after b.seq) n)) [
          | inl gap ↦ rw (numbered, new, gap) (invalidate_book-IsSound b)
          | inr next ↦ rw (numbered, new, next) (change_levels-IsSound b' cs k same up)
        ]
      ]
    ]

pub delta_book-IsSound :
    (b : L2Book) (d : BookDelta)
    → All IsSizedChange d.changes
    → IsSound b
    → IsSound (delta_book b d).1
unfolding delta_book
delta_book-IsSound b d k s = elim (Bool-cases (is_healthy b.status)) [
  | inl up ↦ rw up (sequence_delta-IsSound b d.seq d.changes k s up)
  | inr down ↦ rw down s
]
