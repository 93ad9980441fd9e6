-- ===== src/Bars/Shape.antt =====
-- crates/domain/market-data/src/bar.rs: what holds of every candle.
use mathlib.Core.Path.{subst}
use shinrai_trade.Common.{
  ℕ, ◌<◌, ◌≡◌, ◌↔◌, inl, inr, refl, sym, ap, ◌∙◌, arith, ok, Result-cases, nat_eq, pair_eq,
}
use shinrai_trade.Common.Int.{ℤ, pos, ◌+ℤ◌, ◌≤ℤ◌, +ℤ_parts}
use shinrai_trade.Ledger.Entry.{InstrumentId}
use shinrai_trade.Feed.Consumer.{next_after}
use shinrai_trade.Bars.Bar.{
  BarInterval, OhlcvBar, new_bar, assert_invariants, add_volume, apply_print, apply_late, widen,
}

-- The first and last price lie between the lowest and the highest, and something was counted.
abbrev pub IsBar : OhlcvBar → Type 0
IsBar b =
    (b.low ≤ℤ b.open_price)
    × (b.open_price ≤ℤ b.high)
    × (b.low ≤ℤ b.close)
    × (b.close ≤ℤ b.high)
    × (pos 0 ≤ℤ b.volume)
    × (0 < b.trade_count)

IsBar-assert_invariants : (b : OhlcvBar) → (assert_invariants b ≡ ok tt) ↔ IsBar b
unfolding assert_invariants
IsBar-assert_invariants b = ground arith

abbrev pub SameKey : OhlcvBar → OhlcvBar → Type 0
SameKey b c =
    (c.instrument_id ≡ b.instrument_id) × (c.interval ≡ b.interval) × (c.open_ts ≡ b.open_ts)

add_volume_inv :
    (b c : OhlcvBar) (q : ℤ)
    → add_volume b q ≡ ok c
    → (pos 0 ≤ℤ q) × (c ≡ record b { volume = b.volume +ℤ q })
unfolding add_volume
add_volume_inv b c q h = ground arith

-- Widening to a price between which the others lie.
widen-IsBar :
    (b : OhlcvBar) (p q : ℤ)
    → pos 0 ≤ℤ q
    → IsBar b
    → IsBar (
        widen
          (record b { volume = b.volume +ℤ q; trade_count = next_after b.trade_count; close = p })
          p)
      × IsBar
          (widen (record b { volume = b.volume +ℤ q; trade_count = next_after b.trade_count }) p)
widen-IsBar b p q h k = ground (arith, +ℤ_parts b.volume q)

pub apply_print-IsBar :
    (b c : OhlcvBar) (p q : ℤ) → apply_print b p q ≡ ok c → IsBar b → IsBar c × SameKey b c
unfolding apply_print
apply_print-IsBar b c p q h k = elim (Result-cases (add_volume b q)) [
  | inr (e, failed) ↦ ground arith
  | inl (d, added) ↦
      let (sized, same) = add_volume_inv b d q added in
      let shape : c ≡ widen (record d { trade_count = next_after d.trade_count; close = p }) p =
        ground arith in
      let found =
        shape
        ∙ ap (λ x. widen (record x { trade_count = next_after x.trade_count; close = p }) p) same in
      subst (λ x. IsBar x × SameKey b x) (sym found)
        ((widen-IsBar b p q sized k).0, (refl, refl, refl))
]

pub apply_late-IsBar :
    (b c : OhlcvBar) (p q : ℤ) → apply_late b p q ≡ ok c → IsBar b → IsBar c × SameKey b c
unfolding apply_late
apply_late-IsBar b c p q h k = elim (Result-cases (add_volume b q)) [
  | inr (e, failed) ↦ ground arith
  | inl (d, added) ↦
      let (sized, same) = add_volume_inv b d q added in
      let shape : c ≡ widen (record d { trade_count = next_after d.trade_count }) p =
        ground arith in
      let found =
        shape ∙ ap (λ x. widen (record x { trade_count = next_after x.trade_count }) p) same in
      subst (λ x. IsBar x × SameKey b x) (sym found)
        ((widen-IsBar b p q sized k).1, (refl, refl, refl))
]

pub new_bar-IsBar :
    (i : InstrumentId) (d : BarInterval) (t : ℕ) (p q : ℤ) → pos 0 ≤ℤ q → IsBar (new_bar i d t p q)
new_bar-IsBar i d t p q h = ground arith
