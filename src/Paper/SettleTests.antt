-- ===== src/Paper/SettleTests.antt =====
-- crates/domain/ledger/src/paper.rs: settlements, and the theorems on them at a concrete book.
use shinrai_trade.Common.{ℕ, ◌≡◌, refl, arith, ok, err, Result, nat_eq, string_eq, pair_eq}
use shinrai_trade.Common.Int.{pos, ◌+ℤ◌, ◌-ℤ◌, neg}
use shinrai_trade.Common.Maps.{get, insert, contains, remove}
use shinrai_trade.Common.Text.{is_whitespace}
use shinrai_trade.Money.{Money, usd, from_minor, checked_sub, ensure_same_currency}
use shinrai_trade.Ledger.Entry.{
  account_eq, LedgerError, build, new_key, new_builder, tally_all, tally,
}
use shinrai_trade.Ledger.Journal.{post, post_all, post_one, balance_in}
use shinrai_trade.Paper.Book.{
  PaperBook, empty_book, open_account, available, post_entry, position, reserved_position, lots_in,
  set_position,
}
use shinrai_trade.Paper.Settle.{settle_sell, sell_entry, take_lots}
use shinrai_trade.Paper.Lots.{IsCovered}
use shinrai_trade.Paper.LotsStep.{LotsStep, LotsStep-IsCovered}
use shinrai_trade.Paper.SellFee.{settle_sell_fee}

abbrev dollars : ℕ → Money
dollars n = from_minor (pos n) usd

-- Ten lots, eight of them set aside.
abbrev holding : PaperBook
holding = set_position empty_book 7 5 (pos 10) (pos 8)

abbrev sold : Result LedgerError ℕ × PaperBook
sold = settle_sell holding 7 5 (pos 8) (dollars 500) (dollars 0) "s1"

sold_run :
    (sold.0 ≡ ok 1)
    × (position sold.1 7 5 ≡ pos 2)
    × (reserved_position sold.1 7 5 ≡ pos 0)
    × ((available sold.1 7 usd).minor_units ≡ pos 500)
unfolding settle_sell sell_entry set_position open_account contains get insert remove lots_in
    checked_sub ensure_same_currency new_builder new_key is_whitespace build tally_all tally ◌+ℤ◌
    ◌-ℤ◌ neg post_entry post post_all post_one balance_in take_lots
sold_run = (refl, refl, refl, refl)

-- With a fee of one cent the same sell has debits of 499 and credits of 501.
fee_run :
    (settle_sell holding 7 5 (pos 8) (dollars 500) (dollars 1) "s1").0
    ≡ err (LedgerError.unbalanced (pos 499) (pos 501))
unfolding settle_sell sell_entry set_position open_account contains get insert remove lots_in
    checked_sub ensure_same_currency new_builder new_key is_whitespace build tally_all tally ◌+ℤ◌
    ◌-ℤ◌ neg post_entry post post_all post_one balance_in take_lots
fee_run = refl

settle_sell_fee_example :
    (error : LedgerError) × (settle_sell holding 7 5 (pos 8) (dollars 500) (dollars 1) "s1"
      ≡ (err error, open_account holding 7))
settle_sell_fee_example =
    settle_sell_fee holding 7 5 (pos 8) (dollars 500) (dollars 1) "s1" (omega arith)

holding-IsCovered : IsCovered holding
unfolding set_position open_account contains get insert remove lots_in
holding-IsCovered k = ground arith

LotsStep-IsCovered_example : IsCovered sold.1
LotsStep-IsCovered_example =
    LotsStep-IsCovered (LotsStep.sells 7 5 (pos 8) (dollars 500) (dollars 0) "s1") holding-IsCovered
