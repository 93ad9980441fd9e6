-- ===== src/Portfolio/Flow.antt =====
-- crates/domain/portfolio/src/lib.rs: profit and cost against the money that the fills moved.
use mathlib.Core.Path.{subst}
use shinrai_trade.Common.{
  ℕ, ◌≡◌, refl, sym, ap, ◌∙◌, arith, inl, inr, if◌then◌else◌, Option, none, some, Option-cases, [],
  ◌∷◌, Result, ok, err, Result-cases, Bool-cases, nat_beq, nat_eq,
}
use shinrai_trade.Common.Int.{
  ℤ, pos, ◌+ℤ◌, ◌-ℤ◌, ◌*ℤ◌, neg, ◌≤ℤ◌, ◌<ℤ◌, ltb_ℤ, i64_limit, i128_limit, checked_div, Fits,
  int_laws, +ℤ_parts,
}
use shinrai_trade.Common.Maps.{get, insert, AllEntries, insert-AllEntries}
use shinrai_trade.Money.{Money, MoneyError}
use shinrai_trade.Ledger.Entry.{InstrumentId}
use shinrai_trade.Orders.Status.{Side}
use shinrai_trade.Instruments.Product.{Instrument}
use shinrai_trade.Portfolio.Inventory.{
  InventoryLot, Inventory, Books, notional_for, entry_or_new, buy_lots, sold_entry, sell_entry_lots,
  overflow_at, weighted_avg_ticks,
}
use shinrai_trade.Portfolio.Sale.{IsLot, sold_entry_lem}

unfoldable pub total_cost : Inventory → ℤ
total_cost [] = pos 0
total_cost ((i, e) ∷ m) = e.cost_minor +ℤ total_cost m

abbrev old_cost : Option InventoryLot → ℤ
old_cost none = pos 0
old_cost (some e) = e.cost_minor

-- The profit less the cost of what is left.
abbrev pub value : Books → ℤ
value (realized, m) = realized -ℤ total_cost m

regroup : (w t o v : ℤ) → w +ℤ (t -ℤ o +ℤ v) ≡ w +ℤ t -ℤ o +ℤ v
regroup w t o v = omega int_laws

total_cost-insert :
    (k : InstrumentId) (v : InventoryLot) (m : Inventory)
    → total_cost (insert k v m) ≡ total_cost m -ℤ old_cost (get k m) +ℤ v.cost_minor
unfolding total_cost insert get
total_cost-insert k v [] = omega int_laws
total_cost-insert k v ((j, w) ∷ m) = elim (Bool-cases (nat_beq j k)) [
  | inl here ↦ rw here (omega int_laws)
  | inr there ↦ rw there (
      ap (λ x. w.cost_minor +ℤ x) (total_cost-insert k v m)
      ∙ regroup w.cost_minor (total_cost m) (old_cost (get k m)) v.cost_minor)
]

abbrev pub IsKept : Inventory → Type 0
IsKept m = AllEntries (λ i e. IsLot e) m

abbrev pub some_notional : Result MoneyError Money → ℤ
some_notional (ok m) = m.minor_units
some_notional (err e) = pos 0

-- A sale counts if the inventory has its lots.
abbrev pub counted : Option InventoryLot → ℤ → ℤ → ℤ
counted none qty proceeds = pos 0
counted (some e) qty proceeds = if ltb_ℤ e.lots qty then pos 0 else proceeds

-- What a fill pays out or brings in.
abbrev pub side_flow : Side → Instrument → InstrumentId → ℤ → ℤ → Books → ℤ
side_flow Side.buy i inst px qty books = neg (some_notional (notional_for i px qty))
side_flow Side.sell i inst px qty (realized, m) =
    counted (get inst m) qty (some_notional (notional_for i px qty))

overflow_at_inv : (l : ℕ) (a b : ℤ) → overflow_at l a ≡ ok b → (b ≡ a) × Fits l a
overflow_at_inv l a b h = ground arith

entry_kept :
    (inst : InstrumentId) (px : ℤ) (m : Inventory) → IsKept m → IsLot (entry_or_new (get inst m) px)
entry_kept inst px m k = elim (Option-cases (get inst m)) [
  | inl missing ↦ rw missing (ground arith)
  | inr (e, found) ↦ rw found (k inst e found)
]

entry_cost : (o : Option InventoryLot) (px : ℤ) → (entry_or_new o px).cost_minor ≡ old_cost o
entry_cost none px = refl
entry_cost (some e) px = refl

bought_value : (r t o f c x : ℤ) → c ≡ o +ℤ f → x ≡ t -ℤ o +ℤ c → r -ℤ x ≡ r -ℤ t +ℤ neg f
bought_value r t o f c x h k = rw k (rw h (omega int_laws))

sold_value :
    (r t o p s g r' c x : ℤ)
    → g ≡ p -ℤ s
    → r' ≡ r +ℤ g
    → c ≡ o -ℤ s
    → x ≡ t -ℤ o +ℤ c
    → r' -ℤ x ≡ r -ℤ t +ℤ p
sold_value r t o p s g r' c x h1 h2 h3 h4 = rw (h4, h2, h3, h1) (omega int_laws)

-- What a step keeps, and what it does to the value.
abbrev pub Moved : Books → Books → ℤ → Type 0
Moved books (realized, m) flow = IsKept m × (value (realized, m) ≡ value books +ℤ flow)

grown :
    (e b : InventoryLot) (qty f : ℤ)
    → IsLot e
    → pos 0 <ℤ qty
    → pos 0 ≤ℤ f
    → b.lots ≡ e.lots +ℤ qty
    → Fits i64_limit (e.lots +ℤ qty)
    → b.cost_minor ≡ e.cost_minor +ℤ f
    → Fits i128_limit (e.cost_minor +ℤ f)
    → IsLot b
grown e b qty f k h n l lf c cf = ground (arith, +ℤ_parts e.lots qty, +ℤ_parts e.cost_minor f)

pub buy_lots-Moved :
    (i : Instrument) (inst : InstrumentId) (px qty r : ℤ) (m : Inventory) (after : Books)
    → IsKept m
    → pos 0 <ℤ qty
    → pos 0 ≤ℤ some_notional (notional_for i px qty)
    → buy_lots i inst px qty (r, m) ≡ ok after
    → Moved (r, m) after (side_flow Side.buy i inst px qty (r, m))
unfolding buy_lots
buy_lots-Moved i inst px qty r m after k h n ran = elim (Result-cases (notional_for i px qty)) [
  | inr (e, failed) ↦ ground arith
  | inl (fill, priced) ↦
      let e = entry_or_new (get inst m) px in
      let lot = entry_kept inst px m k in
      elim (Result-cases (overflow_at i64_limit (e.lots +ℤ qty))) [
        | inr (x, failed) ↦ ground arith
        | inl (lots, more) ↦
            elim (Result-cases (overflow_at i128_limit (e.cost_minor +ℤ fill.minor_units))) [
              | inr (x, failed) ↦ ground arith
              | inl (cost, paid) ↦
                  let bought : InventoryLot = record {
                    lots = lots;
                    cost_minor = cost;
                    avg_scaled = weighted_avg_ticks e.avg_scaled e.lots px qty;
                  } in
                  let found : after ≡ (r, insert inst bought m) = ground arith in
                  let (same_lots, lots_fit) = overflow_at_inv i64_limit (e.lots +ℤ qty) lots more in
                  let (same_cost, cost_fit) =
                    overflow_at_inv i128_limit (e.cost_minor +ℤ fill.minor_units) cost paid in
                  let fills : some_notional (notional_for i px qty) ≡ fill.minor_units =
                    rw priced refl in
                  let good : IsLot bought =
                    grown e bought qty fill.minor_units lot h (subst (λ x. pos 0 ≤ℤ x) fills n)
                      same_lots lots_fit same_cost cost_fit in
                  subst (λ x. Moved (r, m) x (side_flow Side.buy i inst px qty (r, m))) (sym found)
                    (
                      insert-AllEntries (λ j x. IsLot x) inst bought m good k,
                      bought_value r (total_cost m) (old_cost (get inst m)) fill.minor_units cost
                            (total_cost (insert inst bought m))
                            (same_cost
                              ∙ ap (λ x. x +ℤ fill.minor_units) (entry_cost (get inst m) px))
                            (total_cost-insert inst bought m)
                          ∙ ap (λ x. value (r, m) +ℤ neg x) (sym fills),
                    )
            ]
      ]
]

pub sell_entry_lots-Moved :
    (i : Instrument) (inst : InstrumentId) (px qty : ℤ) (e : InventoryLot) (r : ℤ) (m : Inventory)
    (after : Books)
    → IsKept m
    → get inst m ≡ some e
    → pos 0 <ℤ qty
    → qty ≤ℤ e.lots
    → sell_entry_lots i inst px qty e (r, m) ≡ ok after
    → Moved (r, m) after (some_notional (notional_for i px qty))
unfolding sell_entry_lots
sell_entry_lots-Moved i inst px qty e r m after k held h le ran =
    elim (Result-cases (overflow_at i128_limit (e.cost_minor *ℤ qty))) [
      | inr (x, failed) ↦ ground arith
      | inl (product, multiplied) ↦ elim (Option-cases (checked_div i128_limit product e.lots)) [
        | inl failed ↦ ground arith
        | inr (sale, divided) ↦ elim (Result-cases (notional_for i px qty)) [
          | inr (x, failed) ↦ ground arith
          | inl (proceeds, priced) ↦
              elim (Result-cases (overflow_at i128_limit (proceeds.minor_units -ℤ sale))) [
                | inr (x, failed) ↦ ground arith
                | inl (gain, gained) ↦ elim (Result-cases (overflow_at i128_limit (r +ℤ gain))) [
                  | inr (x, failed) ↦ ground arith
                  | inl (r', summed) ↦
                      let left = sold_entry e qty sale in
                      let found : after ≡ (r', insert inst left m) = ground arith in
                      let (same, fits) =
                        overflow_at_inv i128_limit (e.cost_minor *ℤ qty) product multiplied in
                      let (same', fits') =
                        overflow_at_inv i128_limit (proceeds.minor_units -ℤ sale) gain gained in
                      let (same'', fits'') = overflow_at_inv i128_limit (r +ℤ gain) r' summed in
                      let (good, cost) =
                        sold_entry_lem e qty product sale (k inst e held) h le same divided in
                      let costs = total_cost-insert inst left m ∙ rw held refl in
                      subst (λ x. Moved (r, m) x (some_notional (notional_for i px qty)))
                        (sym found)
                        (
                          insert-AllEntries (λ j x. IsLot x) inst left m good k,
                          sold_value r (total_cost m) e.cost_minor proceeds.minor_units sale gain r'
                                left.cost_minor (total_cost (insert inst left m)) same' same'' cost
                                costs
                              ∙ rw priced refl,
                        )
                ]
              ]
        ]
      ]
    ]
