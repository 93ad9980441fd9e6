-- ===== src/Paper/Tests.antt =====
-- crates/domain/ledger/src/paper.rs: runs, and the theorems at a concrete book.
use shinrai_trade.Common.{ℕ, ◌≡◌, refl, ok, err, nat_eq, string_eq, pair_eq}
use shinrai_trade.Common.Int.{pos, ◌+ℤ◌, ◌≤ℤ◌, ◌<ℤ◌, neg}
use shinrai_trade.Common.Maps.{get, insert, contains}
use shinrai_trade.Common.Text.{is_whitespace}
use shinrai_trade.Money.{Money, usd, from_minor}
use shinrai_trade.Ledger.Entry.{
  account_eq, customer_cash, paper_funding, LedgerError, build, new_key, new_builder, tally_all,
  tally,
}
use shinrai_trade.Ledger.Journal.{post, post_all, post_one, balance_in}
use shinrai_trade.Paper.Book.{
  PaperBook, empty_book, open_account, available, require_funds, post_entry,
}
use shinrai_trade.Paper.Cash.{
  deposit, withdraw, reserve_for_order, release_reserve, deposit_entry, withdraw_entry,
  reserve_entry, release_entry, move_entry,
}
use shinrai_trade.Paper.CashLaws.{CashMove}
use shinrai_trade.Paper.Contract.{CashCommand, run_cash_lem}
use shinrai_trade.Paper.Solvent.{IsSolvent, CashStep, CashStep-IsSolvent, empty_book-IsSolvent}

abbrev dollars : ℕ → Money
dollars n = from_minor (pos n) usd

abbrev funded : PaperBook
funded = (deposit empty_book 7 (dollars 500) "d1").1

abbrev held : PaperBook
held = (reserve_for_order funded 7 (dollars 300) "o1").1

deposit_run : deposit empty_book 7 (dollars 500) "d1" ≡ (ok 1, funded)
unfolding deposit withdraw reserve_for_order release_reserve deposit_entry withdraw_entry
    reserve_entry release_entry require_funds move_entry new_builder new_key is_whitespace build
    tally_all tally ◌+ℤ◌ neg post_entry post get insert open_account contains post_all post_one
    balance_in
deposit_run = refl

reserve_run : reserve_for_order funded 7 (dollars 300) "o1" ≡ (ok 2, held)
unfolding deposit withdraw reserve_for_order release_reserve deposit_entry withdraw_entry
    reserve_entry release_entry require_funds move_entry new_builder new_key is_whitespace build
    tally_all tally ◌+ℤ◌ neg post_entry post get insert open_account contains post_all post_one
    balance_in
reserve_run = refl

-- Only 200 are left to withdraw.
withdraw_run : (withdraw held 7 (dollars 201) "w1").0 ≡ err LedgerError.insufficient_funds
unfolding deposit withdraw reserve_for_order release_reserve deposit_entry withdraw_entry
    reserve_entry release_entry require_funds move_entry new_builder new_key is_whitespace build
    tally_all tally ◌+ℤ◌ neg post_entry post get insert open_account contains post_all post_one
    balance_in
withdraw_run = refl

release_run :
    release_reserve held 7 (dollars 300) "x1"
    ≡ (ok 3, (release_reserve held 7 (dollars 300) "x1").1)
unfolding deposit withdraw reserve_for_order release_reserve deposit_entry withdraw_entry
    reserve_entry release_entry require_funds move_entry new_builder new_key is_whitespace build
    tally_all tally ◌+ℤ◌ neg post_entry post get insert open_account contains post_all post_one
    balance_in
release_run = refl

CashStep-IsSolvent_example : IsSolvent funded.journal
CashStep-IsSolvent_example =
    CashStep-IsSolvent empty_book funded (CashStep.deposits 7 (dollars 500) "d1" 1 deposit_run)
      empty_book-IsSolvent

withdrawn_run :
    withdraw funded 7 (dollars 200) "w1" ≡ (ok 2, (withdraw funded 7 (dollars 200) "w1").1)
unfolding deposit withdraw reserve_for_order release_reserve deposit_entry withdraw_entry
    reserve_entry release_entry require_funds move_entry new_builder new_key is_whitespace build
    tally_all tally ◌+ℤ◌ neg post_entry post get insert open_account contains post_all post_one
    balance_in
withdrawn_run = refl

run_cash_lem_example :
    (pos 0 <ℤ pos 200)
    × (pos 200 ≤ℤ (available funded 7 usd).minor_units)
    × CashMove funded
        (withdraw funded 7 (dollars 200) "w1").1
        "w1"
        2
        (paper_funding usd)
        (customer_cash 7 usd)
        (pos 200)
run_cash_lem_example =
    run_cash_lem CashCommand.withdraws funded (withdraw funded 7 (dollars 200) "w1").1 7
      (dollars 200) "w1" 2 withdrawn_run
