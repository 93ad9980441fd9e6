-- ===== src/Paper/Contract.antt =====
-- crates/domain/ledger/src/paper.rs: the four commands on cash, and what each promises.
use shinrai_trade.Common.{String, ◌≡◌, ok, Result}
use shinrai_trade.Common.Int.{pos, ◌≤ℤ◌, ◌<ℤ◌}
use shinrai_trade.Money.{Money, Currency}
use shinrai_trade.Ledger.Entry.{
  AccountId, LedgerAccount, LedgerError, customer_cash, customer_cash_reserved, paper_funding,
}
use shinrai_trade.Ledger.Journal.{EntryId}
use shinrai_trade.Paper.Book.{PaperBook, available, reserved}
use shinrai_trade.Paper.Cash.{deposit, withdraw, reserve_for_order, release_reserve}
use shinrai_trade.Paper.CashLaws.{CashMove, deposit_lem, withdraw_lem}
use shinrai_trade.Paper.Holds.{reserve_for_order_lem, release_reserve_lem}

pub data CashCommand : Type 0 where
  deposits withdraws reserves releases : CashCommand

abbrev pub run_cash :
    CashCommand → PaperBook → AccountId → Money → String → Result LedgerError EntryId × PaperBook
run_cash CashCommand.deposits = deposit
run_cash CashCommand.withdraws = withdraw
run_cash CashCommand.reserves = reserve_for_order
run_cash CashCommand.releases = release_reserve

-- The account that a command raises, and the one that it lowers.
abbrev pub raised : CashCommand → AccountId → Currency → LedgerAccount
raised CashCommand.deposits a c = customer_cash a c
raised CashCommand.withdraws a c = paper_funding c
raised CashCommand.reserves a c = customer_cash_reserved a c
raised CashCommand.releases a c = customer_cash a c

abbrev pub lowered : CashCommand → AccountId → Currency → LedgerAccount
lowered CashCommand.deposits a c = paper_funding c
lowered CashCommand.withdraws a c = customer_cash a c
lowered CashCommand.reserves a c = customer_cash a c
lowered CashCommand.releases a c = customer_cash_reserved a c

-- What the cash of the book has to cover.
abbrev pub IsCovered : CashCommand → PaperBook → AccountId → Money → Type 0
IsCovered CashCommand.deposits b a m = Unit
IsCovered CashCommand.withdraws b a m = m.minor_units ≤ℤ (available b a m.currency).minor_units
IsCovered CashCommand.reserves b a m = m.minor_units ≤ℤ (available b a m.currency).minor_units
IsCovered CashCommand.releases b a m = m.minor_units ≤ℤ (reserved b a m.currency).minor_units

-- A deposit, withdrawal, reservation or release that was answered with an entry id is of a
-- positive amount, which the available cash covers for a withdrawal or a reservation, and the
-- reserved cash for a release. Its trimmed key was known under that id, and the journal stays
-- as it was; or the key was unknown, and one entry with it is logged and keyed under the next
-- id, which is the answer, moves the amount between the two accounts of the command and
-- changes no other account. No lots move.
pub run_cash_lem :
    (command : CashCommand) (b b' : PaperBook) (a : AccountId) (m : Money) (key : String)
    (id : EntryId)
    → run_cash command b a m key ≡ (ok id, b')
    → (pos 0 <ℤ m.minor_units)
      × IsCovered command b a m
      × CashMove b b' key id
          (raised command a m.currency)
          (lowered command a m.currency)
          m.minor_units
run_cash_lem CashCommand.deposits b b' a m key id h =
    let (positive, moved) = deposit_lem b b' a m key id h in (positive, tt, moved)
run_cash_lem CashCommand.withdraws b b' a m key id h = withdraw_lem b b' a m key id h
run_cash_lem CashCommand.reserves b b' a m key id h = reserve_for_order_lem b b' a m key id h
run_cash_lem CashCommand.releases b b' a m key id h = release_reserve_lem b b' a m key id h
