-- ===== src/Portfolio/Marks.antt =====
-- crates/domain/portfolio/src/marks.rs: the last mark of each instrument.
use shinrai_trade.Common.{Option, List, [], ◌∷◌, if◌then◌else◌, nat_eq}
use shinrai_trade.Common.Int.{ℤ, pos, ltb_ℤ}
use shinrai_trade.Common.Maps.{Map, get, insert}
use shinrai_trade.Ledger.Entry.{InstrumentId}

abbrev pub MarkStore : Type 0
MarkStore = Map InstrumentId ℤ

unfoldable pub set_mark : MarkStore → InstrumentId → ℤ → MarkStore
set_mark m i price = if ltb_ℤ (pos 0) price then insert i price m else m

abbrev pub get_mark : MarkStore → InstrumentId → Option ℤ
get_mark m i = get i m

-- Manual marks, in the order in which they are read, over the stored ones.
unfoldable pub merged_with : MarkStore → List (InstrumentId × ℤ) → MarkStore
merged_with m [] = m
merged_with m ((i, price) ∷ more) = merged_with (insert i price m) more
