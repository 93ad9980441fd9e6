-- ===== src/Paper/Cash.antt =====
-- crates/domain/ledger/src/paper.rs: the commands that move cash between the accounts of one
-- customer, and in and out of the book. Each checks and builds its entry, and then posts it.
use shinrai_trade.Common.{String, Result, ◌>>=◌, ◌>>◌}
use shinrai_trade.Common.Int.{pos, leb_ℤ, ltb_ℤ}
use shinrai_trade.Money.{Money}
use shinrai_trade.Ledger.Entry.{
  AccountId, LedgerAccount, customer_cash, customer_cash_reserved, paper_funding, LedgerError,
  fail_if, BalancedEntry, new_builder, add_debit, add_credit, build,
}
use shinrai_trade.Ledger.Journal.{EntryId}
use shinrai_trade.Paper.Book.{PaperBook, open_account, available, reserved, require_funds, commit}

-- An entry that debits one account and credits another by the same amount.
unfoldable pub move_entry :
    LedgerAccount → LedgerAccount → Money → String → Result LedgerError BalancedEntry
move_entry to from amount key = do
  builder ← new_builder key
  build (add_credit (add_debit builder to amount) from amount)

abbrev reject_zero : Money → Result LedgerError (Unit {0})
reject_zero amount = fail_if (leb_ℤ amount.minor_units (pos 0)) LedgerError.zero_amount

unfoldable pub deposit_entry : AccountId → Money → String → Result LedgerError BalancedEntry
deposit_entry account amount key = do
  reject_zero amount
  move_entry (customer_cash account amount.currency) (paper_funding amount.currency) amount key

unfoldable pub deposit :
    PaperBook → AccountId → Money → String → Result LedgerError EntryId × PaperBook
deposit b account amount key = commit (open_account b account) (deposit_entry account amount key)

unfoldable pub withdraw_entry :
    PaperBook → AccountId → Money → String → Result LedgerError BalancedEntry
withdraw_entry b account amount key = do
  reject_zero amount
  require_funds (available b account amount.currency) amount
  move_entry (paper_funding amount.currency) (customer_cash account amount.currency) amount key

unfoldable pub withdraw :
    PaperBook → AccountId → Money → String → Result LedgerError EntryId × PaperBook
withdraw b account amount key =
    commit (open_account b account) (withdraw_entry (open_account b account) account amount key)

unfoldable pub reserve_entry :
    PaperBook → AccountId → Money → String → Result LedgerError BalancedEntry
reserve_entry b account amount key = do
  reject_zero amount
  require_funds (available b account amount.currency) amount
  move_entry (customer_cash_reserved account amount.currency)
      (customer_cash account amount.currency) amount key

unfoldable pub reserve_for_order :
    PaperBook → AccountId → Money → String → Result LedgerError EntryId × PaperBook
reserve_for_order b account amount key =
    commit (open_account b account) (reserve_entry (open_account b account) account amount key)

unfoldable pub release_entry :
    PaperBook → AccountId → Money → String → Result LedgerError BalancedEntry
release_entry b account amount key = do
  reject_zero amount
  let held = reserved b account amount.currency
  fail_if (ltb_ℤ held.minor_units amount.minor_units) LedgerError.insufficient_reserved
  move_entry (customer_cash account amount.currency)
      (customer_cash_reserved account amount.currency) amount key

unfoldable pub release_reserve :
    PaperBook → AccountId → Money → String → Result LedgerError EntryId × PaperBook
release_reserve b account amount key =
    commit (open_account b account) (release_entry (open_account b account) account amount key)
