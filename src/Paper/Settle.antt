-- ===== src/Paper/Settle.antt =====
-- crates/domain/ledger/src/paper.rs: the settlement of fills, and lots set aside for sells. A
-- difference that the code takes after a test that it is not negative is written plainly.
use shinrai_trade.Common.{
  String, Bool, not, Result, ok, err, ◌>>=◌, ◌>>◌, Option, none, some, if◌then◌else◌, ◌==◌, nat_eq,
  pair_eq,
}
use shinrai_trade.Common.Int.{ℤ, pos, ◌+ℤ◌, ◌-ℤ◌, leb_ℤ, ltb_ℤ, eqb_ℤ, i64_limit, checked}
use shinrai_trade.Common.Maps.{Map, get, insert, remove}
use shinrai_trade.Money.{Money, MoneyError, currency_eq, is_zero, checked_sub}
use shinrai_trade.Ledger.Entry.{
  AccountId, InstrumentId, customer_cash, customer_cash_reserved, broker_settlement, fees_revenue,
  LedgerError, fail_if, BalancedEntry, EntryBuilder, new_builder, add_debit, add_credit, build,
}
use shinrai_trade.Ledger.Journal.{EntryId, PostOutcome, applied, duplicate}
use shinrai_trade.Paper.Book.{
  PaperBook, LotKey, open_account, available, reserved, lots_in, position, reserved_position,
  available_position, require_funds, post_entry,
}

abbrev Answer : Type 0
Answer = Result LedgerError EntryId × PaperBook

-- The checks that both settlements begin with.
abbrev check_fill : ℤ → Money → Money → Result LedgerError (Unit {0})
check_fill qty amount fee = do
  fail_if (leb_ℤ qty (pos 0)) LedgerError.invalid_quantity
  fail_if (leb_ℤ amount.minor_units (pos 0)) LedgerError.zero_amount
  fail_if (ltb_ℤ fee.minor_units (pos 0)) LedgerError.zero_amount
  fail_if (not (amount.currency == fee.currency)) LedgerError.mixed_currency

abbrev has_fee : Money → Bool
has_fee fee = ltb_ℤ (pos 0) fee.minor_units

abbrev require_fee : PaperBook → AccountId → Money → Money → Result LedgerError (Unit {0})
require_fee b account notional fee =
    if has_fee fee then require_funds (available b account notional.currency) fee else ok tt

abbrev buy_legs : AccountId → Money → Money → EntryBuilder → EntryBuilder
buy_legs account notional fee builder =
    let ccy = notional.currency in
    let legs =
      add_debit (add_credit builder (customer_cash_reserved account ccy) notional)
        (broker_settlement ccy) notional in
    if has_fee fee
    then add_debit (add_credit legs (customer_cash account ccy) fee) (fees_revenue ccy) fee
    else legs

unfoldable pub buy_entry :
    PaperBook → AccountId → ℤ → Money → Money → String → Result LedgerError BalancedEntry
buy_entry b account qty notional fee key = do
  check_fill qty notional fee
  fail_if (ltb_ℤ (reserved b account notional.currency).minor_units notional.minor_units)
      LedgerError.insufficient_reserved
  require_fee b account notional fee
  builder ← new_builder key
  build (buy_legs account notional fee builder)

-- The lots are added once the entry has been applied; a sum out of range is refused only then.
unfoldable pub add_lots : PaperBook → LotKey → ℤ → EntryId → Answer
add_lots b key qty id =
    let old = lots_in b.positions key in
    elim (checked i64_limit (old +ℤ qty)) [
      | none ↦
          (err LedgerError.invalid_quantity, record b { positions = insert key old b.positions })
      | some lots ↦ (ok id, record b { positions = insert key lots b.positions })
    ]

abbrev pub after_buy : LotKey → ℤ → Result LedgerError PostOutcome × PaperBook → Answer
after_buy key qty (err e, b) = (err e, b)
after_buy key qty (ok (duplicate id), b) = (ok id, b)
after_buy key qty (ok (applied id), b) = add_lots b key qty id

unfoldable pub settle_buy :
    PaperBook → AccountId → InstrumentId → ℤ → Money → Money → String → Answer
settle_buy b account instrument qty notional fee key =
    let opened = open_account b account in
    elim (buy_entry opened account qty notional fee key) [
      | err e ↦ (err e, opened)
      | ok entry ↦ after_buy (account, instrument) qty (post_entry opened entry)
    ]

abbrev as_ledger : Result MoneyError Money → Result LedgerError Money
as_ledger (ok m) = ok m
as_ledger (err e) = err (LedgerError.money e)

abbrev pub net_of_fee : Money → Money → Result LedgerError Money
net_of_fee proceeds fee = if is_zero fee then ok proceeds else as_ledger (checked_sub proceeds fee)

abbrev pub sell_legs : AccountId → Money → Money → Money → EntryBuilder → EntryBuilder
sell_legs account proceeds fee net builder =
    let ccy = proceeds.currency in
    let legs =
      add_debit (add_credit builder (broker_settlement ccy) proceeds) (customer_cash account ccy)
        net in
    if has_fee fee then add_credit legs (fees_revenue ccy) fee else legs

unfoldable pub sell_entry :
    PaperBook
    → AccountId
    → InstrumentId
    → ℤ
    → Money
    → Money
    → String
    → Result LedgerError BalancedEntry
sell_entry b account instrument qty proceeds fee key = do
  check_fill qty proceeds fee
  fail_if (ltb_ℤ (reserved_position b account instrument) qty) LedgerError.insufficient_position
  fail_if (ltb_ℤ (position b account instrument) qty) LedgerError.invalid_quantity
  net ← net_of_fee proceeds fee
  builder ← new_builder key
  build (sell_legs account proceeds fee net builder)

-- A row that has come down to zero is removed.
abbrev pub put_lots : LotKey → ℤ → Map LotKey ℤ → Map LotKey ℤ
put_lots key lots m = if eqb_ℤ lots (pos 0) then remove key m else insert key lots m

unfoldable pub take_lots : PaperBook → LotKey → ℤ → EntryId → Answer
take_lots b key qty id =
    let freed = put_lots key (lots_in b.position_reserved key -ℤ qty) b.position_reserved in
    let old = lots_in b.positions key in
    elim (checked i64_limit (old -ℤ qty)) [
      | none ↦ (
        err LedgerError.invalid_quantity,
        record b { position_reserved = freed; positions = insert key old b.positions },
      )
      | some lots ↦
          (ok id, record b { position_reserved = freed; positions = put_lots key lots b.positions })
    ]

abbrev pub after_sell : LotKey → ℤ → Result LedgerError PostOutcome × PaperBook → Answer
after_sell key qty (err e, b) = (err e, b)
after_sell key qty (ok (duplicate id), b) = (ok id, b)
after_sell key qty (ok (applied id), b) = take_lots b key qty id

unfoldable pub settle_sell :
    PaperBook → AccountId → InstrumentId → ℤ → Money → Money → String → Answer
settle_sell b account instrument qty proceeds fee key =
    let opened = open_account b account in
    elim (sell_entry opened account instrument qty proceeds fee key) [
      | err e ↦ (err e, opened)
      | ok entry ↦ after_sell (account, instrument) qty (post_entry opened entry)
    ]

-- Sets lots aside; the row is made even if the sum is then refused.
unfoldable pub hold_lots : PaperBook → LotKey → ℤ → Result LedgerError (Unit {0}) × PaperBook
hold_lots b key qty =
    let old = lots_in b.position_reserved key in
    elim (checked i64_limit (old +ℤ qty)) [
      | none ↦ (
        err LedgerError.invalid_quantity,
        record b { position_reserved = insert key old b.position_reserved },
      )
      | some lots ↦ (ok tt, record b { position_reserved = insert key lots b.position_reserved })
    ]

unfoldable pub reserve_position_for_order :
    PaperBook → AccountId → InstrumentId → ℤ → Result LedgerError (Unit {0}) × PaperBook
reserve_position_for_order b account instrument qty =
    let opened = open_account b account in
    if leb_ℤ qty (pos 0)
    then (err LedgerError.invalid_quantity, opened)
    else if ltb_ℤ (available_position opened account instrument) qty
    then (err LedgerError.insufficient_position, opened)
    else hold_lots opened (account, instrument) qty

abbrev pub free_lots : PaperBook → LotKey → ℤ → Option ℤ → Result LedgerError (Unit {0}) × PaperBook
free_lots b key qty none = (err LedgerError.insufficient_position, b)
free_lots b key qty (some held) =
    if ltb_ℤ held qty
    then (err LedgerError.insufficient_position, b)
    else (ok tt, record b { position_reserved = put_lots key (held -ℤ qty) b.position_reserved })

unfoldable pub release_position_reserve :
    PaperBook → AccountId → InstrumentId → ℤ → Result LedgerError (Unit {0}) × PaperBook
release_position_reserve b account instrument qty =
    if leb_ℤ qty (pos 0)
    then (err LedgerError.invalid_quantity, b)
    else free_lots b (account, instrument) qty (get (account, instrument) b.position_reserved)
