-- ===== src/Paper/Lots.antt =====
-- crates/domain/ledger/src/paper.rs: the lots set aside for sells are between none and the
-- position, whatever the commands on lots answer.
use shinrai_trade.Common.{
  true, ◌≡◌, refl, arith, Bool-cases, inl, inr, Option, none, some, if◌then◌else◌, ◌==◌, nat_eq,
  pair_eq,
}
use shinrai_trade.Common.Int.{
  ℤ, pos, ◌+ℤ◌, ◌-ℤ◌, ◌≤ℤ◌, ◌<ℤ◌, i64_limit, fits, +ℤ_parts, -ℤ_parts, ltb_ℤ,
}
use shinrai_trade.Common.Maps.{Map, get, insert, get-insert, get-remove}
use shinrai_trade.Ledger.Journal.{EntryId}
use shinrai_trade.Paper.Book.{PaperBook, LotKey, lots_in}
use shinrai_trade.Paper.Settle.{put_lots, add_lots, take_lots, hold_lots, free_lots}

abbrev Held : Map LotKey ℤ → Map LotKey ℤ → LotKey → Type 0
Held aside owned k = (pos 0 ≤ℤ lots_in aside k) × (lots_in aside k ≤ℤ lots_in owned k)

abbrev pub IsCovered : PaperBook → Type 0
IsCovered b = (k : LotKey) → Held b.position_reserved b.positions k

lots_in-insert :
    (k j : LotKey) (v : ℤ) (m : Map LotKey ℤ)
    → lots_in (insert k v m) j ≡ (if k == j then v else lots_in m j)
unfolding lots_in
lots_in-insert k j v m = ground (arith, get-insert k j v m)

lots_in-put_lots :
    (k j : LotKey) (v : ℤ) (m : Map LotKey ℤ)
    → lots_in (put_lots k v m) j ≡ (if k == j then v else lots_in m j)
unfolding lots_in
lots_in-put_lots k j v m = ground (arith, get-insert k j v m, get-remove k j m)

same_key : (k j : LotKey) → (k == j) ≡ true → k ≡ j
same_key k j h = (pair_eq.beq_iff k j).0 h

same_lots :
    (k j : LotKey) (m : Map LotKey ℤ) → lots_in m j ≡ (if k == j then lots_in m k else lots_in m j)
same_lots k j m = elim (Bool-cases (k == j)) [
  | inl hit ↦ rw (hit, same_key k j hit) refl
  | inr miss ↦ rw miss refl
]

-- At most the row of one key has changed, and it holds in the end.
pub record RowChanged (b b' : PaperBook) (k : LotKey) : Type 0 where
  pub owned : ℤ
  pub aside : ℤ
  pub owned_now :
      (j : LotKey) → lots_in b'.positions j ≡ (if k == j then owned else lots_in b.positions j)
  pub aside_now :
      (j : LotKey)
      → lots_in b'.position_reserved j ≡ (if k == j then aside else lots_in b.position_reserved j)
  pub within : (pos 0 ≤ℤ aside) × (aside ≤ℤ owned)

pub RowChanged-IsCovered :
    (b b' : PaperBook) (k : LotKey) → IsCovered b → RowChanged b b' k → IsCovered b'
RowChanged-IsCovered b b' k c r j = elim (Bool-cases (k == j)) [
  | inl hit ↦ ground (arith, r.owned_now j, r.aside_now j, r.within)
  | inr miss ↦ ground (arith, r.owned_now j, r.aside_now j, c j)
]

pub add_lots-RowChanged :
    (b : PaperBook) (k : LotKey) (qty : ℤ) (id : EntryId)
    → IsCovered b
    → pos 0 <ℤ qty
    → RowChanged b (add_lots b k qty id).1 k
unfolding add_lots
add_lots-RowChanged b k qty id c more =
    let old = lots_in b.positions k in
    elim (Bool-cases (fits i64_limit (old +ℤ qty))) [
      | inr out ↦
          rw (out, add_lots)
            (record {
              owned = old;
              aside = lots_in b.position_reserved k;
              owned_now = λ j. lots_in-insert k j old b.positions;
              aside_now = λ j. same_lots k j b.position_reserved;
              within = c k;
            })
      | inl sum ↦
          rw (sum, add_lots)
            (record {
              owned = old +ℤ qty;
              aside = lots_in b.position_reserved k;
              owned_now = λ j. lots_in-insert k j (old +ℤ qty) b.positions;
              aside_now = λ j. same_lots k j b.position_reserved;
              within = omega (arith, c k, +ℤ_parts old qty);
            })
    ]

pub hold_lots-RowChanged :
    (b : PaperBook) (k : LotKey) (qty : ℤ)
    → IsCovered b
    → pos 0 <ℤ qty
    → qty ≤ℤ lots_in b.positions k -ℤ lots_in b.position_reserved k
    → RowChanged b (hold_lots b k qty).1 k
unfolding hold_lots
hold_lots-RowChanged b k qty c more room =
    let old = lots_in b.position_reserved k in
    elim (Bool-cases (fits i64_limit (old +ℤ qty))) [
      | inr out ↦
          rw (out, hold_lots)
            (record {
              owned = lots_in b.positions k;
              aside = old;
              owned_now = λ j. same_lots k j b.positions;
              aside_now = λ j. lots_in-insert k j old b.position_reserved;
              within = c k;
            })
      | inl sum ↦
          rw (sum, hold_lots)
            (record {
              owned = lots_in b.positions k;
              aside = old +ℤ qty;
              owned_now = λ j. same_lots k j b.positions;
              aside_now = λ j. lots_in-insert k j (old +ℤ qty) b.position_reserved;
              within = omega (arith, c k, +ℤ_parts old qty, -ℤ_parts (lots_in b.positions k) old);
            })
    ]

pub take_lots-RowChanged :
    (b : PaperBook) (k : LotKey) (qty : ℤ) (id : EntryId)
    → IsCovered b
    → pos 0 <ℤ qty
    → qty ≤ℤ lots_in b.position_reserved k
    → RowChanged b (take_lots b k qty id).1 k
unfolding take_lots
take_lots-RowChanged b k qty id c more held =
    let old = lots_in b.positions k in
    let aside = lots_in b.position_reserved k -ℤ qty in
    elim (Bool-cases (fits i64_limit (old -ℤ qty))) [
      | inr out ↦
          rw (out, take_lots)
            (record {
              owned = old;
              aside = aside;
              owned_now = λ j. lots_in-insert k j old b.positions;
              aside_now = λ j. lots_in-put_lots k j aside b.position_reserved;
              within = omega (arith, c k, -ℤ_parts (lots_in b.position_reserved k) qty);
            })
      | inl sum ↦
          rw (sum, take_lots)
            (record {
              owned = old -ℤ qty;
              aside = aside;
              owned_now = λ j. lots_in-put_lots k j (old -ℤ qty) b.positions;
              aside_now = λ j. lots_in-put_lots k j aside b.position_reserved;
              within =
                  omega
                    (arith, c k, -ℤ_parts (lots_in b.position_reserved k) qty, -ℤ_parts old qty);
            })
    ]

pub free_lots-IsCovered :
    (b : PaperBook) (k : LotKey) (qty : ℤ) (row : Option ℤ)
    → IsCovered b
    → pos 0 <ℤ qty
    → get k b.position_reserved ≡ row
    → IsCovered (free_lots b k qty row).1
free_lots-IsCovered b k qty none c more e = c
free_lots-IsCovered b k qty (some held) c more e = elim (Bool-cases (ltb_ℤ held qty)) [
  | inl short ↦ rw short c
  | inr enough ↦
      let is_held : lots_in b.position_reserved k ≡ held = unfold lots_in in rw e refl in
      let b' : PaperBook = record b {
        position_reserved = put_lots k (held -ℤ qty) b.position_reserved;
      } in
      let changed : RowChanged b b' k = record {
        owned = lots_in b.positions k;
        aside = held -ℤ qty;
        owned_now = λ j. same_lots k j b.positions;
        aside_now = λ j. lots_in-put_lots k j (held -ℤ qty) b.position_reserved;
        within = ground (arith, c k, is_held, -ℤ_parts held qty);
      } in
      rw enough (RowChanged-IsCovered b b' k c changed)
]
