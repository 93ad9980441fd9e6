-- ===== src/Paper/LotsStep.antt =====
-- crates/domain/ledger/src/paper.rs: the four commands on lots, whatever they answer.
use shinrai_trade.Common.{
  String, ◌≡◌, refl, arith, Result, ok, err, Result-cases, Bool-cases, inl, inr, nat_eq, pair_eq,
}
use shinrai_trade.Common.Int.{ℤ, pos, ◌-ℤ◌, ◌≤ℤ◌, ◌<ℤ◌, i64_limit, saturate, leb_ℤ, ltb_ℤ}
use shinrai_trade.Common.Maps.{get}
use shinrai_trade.Money.{Money}
use shinrai_trade.Ledger.Entry.{AccountId, InstrumentId, LedgerError, BalancedEntry}
use shinrai_trade.Ledger.Journal.{PostOutcome, applied, duplicate}
use shinrai_trade.Paper.Book.{
  PaperBook, LotKey, open_account, lots_in, available_position, post_entry, empty_book,
}
use shinrai_trade.Paper.CashLaws.{open_account_rest}
use shinrai_trade.Paper.Settle.{
  sell_entry, buy_entry, after_buy, after_sell, settle_buy, settle_sell, reserve_position_for_order,
  release_position_reserve, hold_lots,
}
use shinrai_trade.Paper.Lots.{
  IsCovered, RowChanged-IsCovered, add_lots-RowChanged, take_lots-RowChanged, hold_lots-RowChanged,
  free_lots-IsCovered,
}

open_account-IsCovered :
    (b : PaperBook) (a : AccountId) → IsCovered b → IsCovered (open_account b a)
open_account-IsCovered b a c k =
    let (journal, lots, reserves) = open_account_rest b a in rw (lots, reserves) (c k)

after_buy-IsCovered :
    (b : PaperBook) (k : LotKey) (qty : ℤ) (r : Result LedgerError PostOutcome)
    → IsCovered b
    → pos 0 <ℤ qty
    → IsCovered (after_buy k qty (r, b)).1
after_buy-IsCovered b k qty (err e) c more = c
after_buy-IsCovered b k qty (ok (duplicate id)) c more = c
after_buy-IsCovered b k qty (ok (applied id)) c more =
    RowChanged-IsCovered b (after_buy k qty (ok (applied id), b)).1 k c
      (add_lots-RowChanged b k qty id c more)

after_sell-IsCovered :
    (b : PaperBook) (k : LotKey) (qty : ℤ) (r : Result LedgerError PostOutcome)
    → IsCovered b
    → pos 0 <ℤ qty
    → qty ≤ℤ lots_in b.position_reserved k
    → IsCovered (after_sell k qty (r, b)).1
after_sell-IsCovered b k qty (err e) c more held = c
after_sell-IsCovered b k qty (ok (duplicate id)) c more held = c
after_sell-IsCovered b k qty (ok (applied id)) c more held =
    RowChanged-IsCovered b (after_sell k qty (ok (applied id), b)).1 k c
      (take_lots-RowChanged b k qty id c more held)

buy_guard :
    (b : PaperBook) (a : AccountId) (qty : ℤ) (notional fee : Money) (key : String)
    (e : BalancedEntry)
    → buy_entry b a qty notional fee key ≡ ok e
    → pos 0 <ℤ qty
unfolding buy_entry
buy_guard b a qty notional fee key e h = ground arith

sell_guard :
    (b : PaperBook) (a : AccountId) (i : InstrumentId) (qty : ℤ) (proceeds fee : Money)
    (key : String) (e : BalancedEntry)
    → sell_entry b a i qty proceeds fee key ≡ ok e
    → (pos 0 <ℤ qty) × (qty ≤ℤ lots_in b.position_reserved (a, i))
unfolding sell_entry
sell_guard b a i qty proceeds fee key e h = ground arith

settle_buy-IsCovered :
    (b : PaperBook) (a : AccountId) (i : InstrumentId) (qty : ℤ) (notional fee : Money)
    (key : String)
    → IsCovered b
    → IsCovered (settle_buy b a i qty notional fee key).1
unfolding settle_buy post_entry
settle_buy-IsCovered b a i qty notional fee key c =
    let opened = open_account b a in
    let now = open_account-IsCovered b a c in
    elim (Result-cases (buy_entry opened a qty notional fee key)) [
      | inr (failed, h) ↦ rw (h, settle_buy) now
      | inl (e, h) ↦
          rw (h, settle_buy)
            (after_buy-IsCovered (post_entry opened e).1 (a, i) qty (post_entry opened e).0 now
              (buy_guard opened a qty notional fee key e h))
    ]

settle_sell-IsCovered :
    (b : PaperBook) (a : AccountId) (i : InstrumentId) (qty : ℤ) (proceeds fee : Money)
    (key : String)
    → IsCovered b
    → IsCovered (settle_sell b a i qty proceeds fee key).1
unfolding settle_sell post_entry
settle_sell-IsCovered b a i qty proceeds fee key c =
    let opened = open_account b a in
    let now = open_account-IsCovered b a c in
    elim (Result-cases (sell_entry opened a i qty proceeds fee key)) [
      | inr (failed, h) ↦ rw (h, settle_sell) now
      | inl (e, h) ↦
          let (more, held) = sell_guard opened a i qty proceeds fee key e h in
          rw (h, settle_sell)
            (after_sell-IsCovered (post_entry opened e).1 (a, i) qty (post_entry opened e).0 now
              more held)
    ]

-- `saturating_sub` answers at least a positive amount only if the difference does.
saturated_room :
    (owned aside qty : ℤ)
    → pos 0 <ℤ qty
    → qty ≤ℤ saturate i64_limit (owned -ℤ aside)
    → qty ≤ℤ owned -ℤ aside
saturated_room owned aside qty more h = ground arith

reserve-IsCovered :
    (b : PaperBook) (a : AccountId) (i : InstrumentId) (qty : ℤ)
    → IsCovered b
    → IsCovered (reserve_position_for_order b a i qty).1
unfolding reserve_position_for_order
reserve-IsCovered b a i qty c =
    let opened = open_account b a in
    let now = open_account-IsCovered b a c in
    elim (Bool-cases (leb_ℤ qty (pos 0))) [
      | inl none_asked ↦ rw none_asked now
      | inr asked ↦ elim (Bool-cases (ltb_ℤ (available_position opened a i) qty)) [
        | inl short ↦ rw (asked, short) now
        | inr enough ↦
            let more : pos 0 <ℤ qty = ground arith in
            let room =
              saturated_room (lots_in opened.positions (a, i))
                (lots_in opened.position_reserved (a, i)) qty more (ground arith) in
            rw (asked, enough)
              (RowChanged-IsCovered opened (hold_lots opened (a, i) qty).1 (a, i) now
                (hold_lots-RowChanged opened (a, i) qty now more room))
      ]
    ]

release-IsCovered :
    (b : PaperBook) (a : AccountId) (i : InstrumentId) (qty : ℤ)
    → IsCovered b
    → IsCovered (release_position_reserve b a i qty).1
unfolding release_position_reserve
release-IsCovered b a i qty c = elim (Bool-cases (leb_ℤ qty (pos 0))) [
  | inl none_asked ↦ rw none_asked c
  | inr asked ↦
      rw asked
        (free_lots-IsCovered b (a, i) qty (get (a, i) b.position_reserved) c (ground arith) refl)
]

-- One command on lots, with whatever it answers.
pub data LotsStep (b : PaperBook) : PaperBook → Type 0 where
  buys :
      (a : AccountId) (i : InstrumentId) (qty : ℤ) (notional fee : Money) (key : String)
      → LotsStep b (settle_buy b a i qty notional fee key).1
  sells :
      (a : AccountId) (i : InstrumentId) (qty : ℤ) (proceeds fee : Money) (key : String)
      → LotsStep b (settle_sell b a i qty proceeds fee key).1
  reserves :
      (a : AccountId) (i : InstrumentId) (qty : ℤ)
      → LotsStep b (reserve_position_for_order b a i qty).1
  releases :
      (a : AccountId) (i : InstrumentId) (qty : ℤ)
      → LotsStep b (release_position_reserve b a i qty).1

-- A settlement of a buy or a sell, a reservation of lots or their release, whatever it
-- answers, keeps the lots set aside of every account and instrument between zero and its
-- position, if all were so before.
pub LotsStep-IsCovered : {b b' : PaperBook} → LotsStep b b' → IsCovered b → IsCovered b'
LotsStep-IsCovered (buys a i qty notional fee key) c =
    settle_buy-IsCovered _ a i qty notional fee key c
LotsStep-IsCovered (sells a i qty proceeds fee key) c =
    settle_sell-IsCovered _ a i qty proceeds fee key c
LotsStep-IsCovered (reserves a i qty) c = reserve-IsCovered _ a i qty c
LotsStep-IsCovered (releases a i qty) c = release-IsCovered _ a i qty c

empty_book-IsCovered : IsCovered empty_book
unfolding lots_in get
empty_book-IsCovered k = omega arith
