-- ===== src/Paper/Book.antt =====
-- crates/domain/ledger/src/paper.rs: the book and its queries. A method on `&mut self` returns
-- its result with the book as it leaves it, on an error too. Debug assertions are left out.
use shinrai_trade.Common.{
  Bool, true, false, not, Result, ok, err, ◌>>◌, List, [], ◌∷◌, if◌then◌else◌, ◌==◌, nat_eq,
  pair_eq,
}
use shinrai_trade.Common.Int.{ℤ, pos, ◌-ℤ◌, ltb_ℤ, leb_ℤ, eqb_ℤ, i64_limit, saturate}
use shinrai_trade.Common.Maps.{Map, get, insert, remove, contains}
use shinrai_trade.Money.{Currency, Money, MoneyError, currency_eq, from_minor}
use shinrai_trade.Ledger.Entry.{
  AccountId, InstrumentId, LedgerAccount, customer_cash, customer_cash_reserved, customer_position,
  LedgerError, fail_if, Posting, BalancedEntry,
}
use shinrai_trade.Ledger.Journal.{
  Journal, EntryId, PostOutcome, applied, duplicate, empty_journal, post, signed_balance,
  value_or_zero,
}

pub data PaperAccountStatus : Type 0 where
  active : PaperAccountStatus

pub record PaperAccount : Type 0 where
  pub id : AccountId
  pub status : PaperAccountStatus

abbrev pub LotKey : Type 0
LotKey = AccountId × InstrumentId

pub record PaperBook : Type 0 where
  pub journal : Journal
  pub accounts : Map AccountId PaperAccount
  pub positions : Map LotKey ℤ
  pub position_reserved : Map LotKey ℤ

abbrev pub empty_book : PaperBook
empty_book = record {
  journal = empty_journal;
  accounts = [];
  positions = [];
  position_reserved = [];
}

unfoldable pub open_account : PaperBook → AccountId → PaperBook
open_account b id = if contains id b.accounts then b else record b {
  accounts = insert id (record { id = id; status = PaperAccountStatus.active }) b.accounts;
}

abbrev pub available : PaperBook → AccountId → Currency → Money
available b account currency =
    from_minor (signed_balance b.journal (customer_cash account currency)) currency

abbrev pub reserved : PaperBook → AccountId → Currency → Money
reserved b account currency =
    from_minor (signed_balance b.journal (customer_cash_reserved account currency)) currency

unfoldable pub lots_in : Map LotKey ℤ → LotKey → ℤ
lots_in m key = value_or_zero (get key m)

abbrev pub position : PaperBook → AccountId → InstrumentId → ℤ
position b account instrument = lots_in b.positions (account, instrument)

abbrev pub reserved_position : PaperBook → AccountId → InstrumentId → ℤ
reserved_position b account instrument = lots_in b.position_reserved (account, instrument)

abbrev pub available_position : PaperBook → AccountId → InstrumentId → ℤ
available_position b account instrument =
    saturate i64_limit (position b account instrument -ℤ reserved_position b account instrument)

-- The accounts that `restore_entry` opens.
abbrev open_for : PaperBook → LedgerAccount → PaperBook
open_for b (customer_cash account _) = open_account b account
open_for b (customer_cash_reserved account _) = open_account b account
open_for b (customer_position account _) = open_account b account
open_for b _ = b

unfoldable open_all : PaperBook → List Posting → PaperBook
unfolding open_account
open_all b [] = b
open_all b (p ∷ ps) = open_all (open_for b p.account) ps

-- `post` of the book.
unfoldable pub post_entry : PaperBook → BalancedEntry → Result LedgerError PostOutcome × PaperBook
post_entry b entry = ((post b.journal entry).0, record b { journal = (post b.journal entry).1 })

unfoldable pub restore_entry :
    PaperBook → BalancedEntry → Result LedgerError PostOutcome × PaperBook
unfolding open_all post_entry
restore_entry b entry = post_entry (open_all b entry.postings) entry

abbrev put_or_remove : Bool → LotKey → ℤ → Map LotKey ℤ → Map LotKey ℤ
put_or_remove true key lots m = remove key m
put_or_remove false key lots m = insert key lots m

unfoldable pub set_position : PaperBook → AccountId → InstrumentId → ℤ → ℤ → PaperBook
unfolding open_account
set_position b account instrument lots reserved_lots =
    let b' = open_account b account in
    let key : LotKey = (account, instrument) in
    record b' {
      positions = put_or_remove (eqb_ℤ lots (pos 0)) key lots b'.positions;
      position_reserved =
          put_or_remove (leb_ℤ reserved_lots (pos 0)) key reserved_lots b'.position_reserved;
    }

unfoldable pub require_funds : Money → Money → Result LedgerError (Unit {0})
require_funds have need = do
  fail_if (not (have.currency == need.currency))
      (LedgerError.money (MoneyError.currency_mismatch have.currency.code need.currency.code))
  fail_if (ltb_ℤ have.minor_units need.minor_units) LedgerError.insufficient_funds
  ok tt

abbrev pub entry_id : PostOutcome → EntryId
entry_id (applied id) = id
entry_id (duplicate id) = id

-- The end of each cash command: post what was built, and answer with the entry's id.
abbrev pub answer :
    Result LedgerError PostOutcome × PaperBook → Result LedgerError EntryId × PaperBook
answer (err e, b) = (err e, b)
answer (ok outcome, b) = (ok (entry_id outcome), b)

abbrev pub commit :
    PaperBook → Result LedgerError BalancedEntry → Result LedgerError EntryId × PaperBook
commit b (err e) = (err e, b)
commit b (ok entry) = answer (post_entry b entry)
