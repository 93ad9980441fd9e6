-- ===== src/Paper/CashLaws.antt =====
-- The contract of the four cash commands: an answered command has passed its guard and made one
-- transfer (or was a repetition), and cash never goes below zero.
use mathlib.Core.Path.{subst}
use shinrai_trade.Common.{String, ◌≡◌, ◌≢◌, ◌∙◌, ap, ◌⊎◌, arith, ok}
use shinrai_trade.Common.Int.{ℤ, pos, ◌≤ℤ◌, ◌<ℤ◌}
use shinrai_trade.Common.Text.{trim}
use shinrai_trade.Money.{Money}
use shinrai_trade.Ledger.Entry.{
  AccountId, LedgerAccount, customer_cash, paper_funding, account_eq, BalancedEntry,
}
use shinrai_trade.Ledger.Journal.{EntryId, signed_balance}
use shinrai_trade.Paper.Book.{PaperBook, open_account, require_funds, available}
use shinrai_trade.Paper.Cash.{move_entry, deposit, deposit_entry, withdraw, withdraw_entry}
use shinrai_trade.Paper.Transfer.{
  Transfer, Repetition, Logged, Committed, commit_inv, move_entry_inv, Transfer-posted,
}

pub open_account_rest :
    (b : PaperBook) (a : AccountId)
    → ((open_account b a).journal ≡ b.journal)
      × ((open_account b a).positions ≡ b.positions)
      × ((open_account b a).position_reserved ≡ b.position_reserved)
unfolding open_account
open_account_rest b a = ground arith

-- A command that was answered: a repetition of a known key, or a transfer under a new one; no
-- lots have moved.
pub record CashMove (b b' : PaperBook) (key : String) (id : EntryId) (to from : LedgerAccount)
    (amount : ℤ) : Type 0 where
  pub moved :
      Repetition b.journal b'.journal (trim key) id
      ⊎ (Logged b.journal b'.journal (trim key) id × Transfer b.journal b'.journal to from amount)
  pub lots_kept : b'.positions ≡ b.positions
  pub reserves_kept : b'.position_reserved ≡ b.position_reserved

pub cash_moved :
    (b b' : PaperBook) (a : AccountId) (to from : LedgerAccount) (amount : Money) (key : String)
    (id : EntryId) (e : BalancedEntry)
    → to ≢ from
    → move_entry to from amount key ≡ ok e
    → Committed (open_account b a) b' e id
    → CashMove b b' key id to from amount.minor_units
cash_moved b b' a to from amount key id e ne built c =
    let (journal, lots, reserves) = open_account_rest b a in
    let (name, legs, even) = move_entry_inv to from amount key e built in
    record {
      moved =
          subst
            (λ j.
              Repetition j b'.journal (trim key) id
              ⊎ (Logged j b'.journal (trim key) id
                  × Transfer j b'.journal to from amount.minor_units))
            journal
            (Transfer-posted (open_account b a) b' to from amount (trim key) e id c name legs ne);
      lots_kept = ap (λ x. x.positions) c.rest_kept ∙ lots;
      reserves_kept = ap (λ x. x.position_reserved) c.rest_kept ∙ reserves;
    }

deposit_guard :
    (a : AccountId) (amount : Money) (key : String) (e : BalancedEntry)
    → deposit_entry a amount key ≡ ok e
    → (pos 0 <ℤ amount.minor_units)
      × (move_entry (customer_cash a amount.currency) (paper_funding amount.currency) amount key
          ≡ ok e)
unfolding deposit_entry
deposit_guard a amount key e h = ground arith

-- A deposit that was answered with an entry id is of a positive amount. It repeats a known key
-- and moves nothing, or it raises the customer's cash and lowers the funding account by the
-- amount and changes no other account; no lots move.
pub deposit_lem :
    (b b' : PaperBook) (a : AccountId) (amount : Money) (key : String) (id : EntryId)
    → deposit b a amount key ≡ (ok id, b')
    → (pos 0 <ℤ amount.minor_units)
      × CashMove b b' key id
          (customer_cash a amount.currency)
          (paper_funding amount.currency)
          amount.minor_units
unfolding deposit
deposit_lem b b' a amount key id h =
    let (e, made, c) = commit_inv (open_account b a) b' (deposit_entry a amount key) id h in
    let (positive, built) = deposit_guard a amount key e made in
    (
      positive,
      cash_moved b b' a (customer_cash a amount.currency) (paper_funding amount.currency) amount key
          id e (λ x. cc) built c,
    )

withdraw_guard :
    (b : PaperBook) (a : AccountId) (amount : Money) (key : String) (e : BalancedEntry)
    → withdraw_entry b a amount key ≡ ok e
    → (pos 0 <ℤ amount.minor_units)
      × (amount.minor_units ≤ℤ (available b a amount.currency).minor_units)
      × (move_entry (paper_funding amount.currency) (customer_cash a amount.currency) amount key
          ≡ ok e)
unfolding withdraw_entry require_funds
withdraw_guard b a amount key e h = ground arith

-- A withdrawal that was answered with an entry id is of a positive amount that the available
-- cash covers. It repeats a known key and moves nothing, or it lowers the customer's cash and
-- raises the funding account by the amount and changes no other account; no lots move.
pub withdraw_lem :
    (b b' : PaperBook) (a : AccountId) (amount : Money) (key : String) (id : EntryId)
    → withdraw b a amount key ≡ (ok id, b')
    → (pos 0 <ℤ amount.minor_units)
      × (amount.minor_units ≤ℤ (available b a amount.currency).minor_units)
      × CashMove b b' key id
          (paper_funding amount.currency)
          (customer_cash a amount.currency)
          amount.minor_units
unfolding withdraw
withdraw_lem b b' a amount key id h =
    let opened = open_account b a in
    let (e, made, c) = commit_inv opened b' (withdraw_entry opened a amount key) id h in
    let (positive, covered, built) = withdraw_guard opened a amount key e made in
    let journal = (open_account_rest b a).0 in
    (
      positive,
      subst (λ j. amount.minor_units ≤ℤ signed_balance j (customer_cash a amount.currency)) journal
          covered,
      cash_moved b b' a (paper_funding amount.currency) (customer_cash a amount.currency) amount key
          id e (λ x. cc) built c,
    )
