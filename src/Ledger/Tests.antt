-- ===== src/Ledger/Tests.antt =====
-- crates/domain/ledger/src/{entry,journal}.rs: runs, and the theorems at concrete entries.
use shinrai_trade.Common.Text.{is_whitespace}
use shinrai_trade.Common.{
  ◌↔◌, ◌≡◌, refl, arith, ok, err, true, none, some, List, [], ◌∷◌, ◌-◌, nat_eq, string_eq,
}
use shinrai_trade.Common.Int.{pos, negsuc, ◌+ℤ◌, neg, i128_limit, wrap}
use shinrai_trade.Common.Maps.{get, insert}
use shinrai_trade.Money.{usd, from_minor}
use shinrai_trade.Ledger.Entry.{
  LedgerAccount, account_eq, overflow, Posting, Direction, BalancedEntry, EntryBuilder, build,
  reverse, new_key, tally_all, tally,
}
use shinrai_trade.Ledger.Balance.{IsBalanced, entry_of}
use shinrai_trade.Ledger.Build.{build_iff, reverse_total, reversal_of}
use shinrai_trade.Ledger.Journal.{
  Journal, PostOutcome, empty_journal, post, post_all, post_one, balance_in, signed_balance,
  trial_balance_ok,
}
use shinrai_trade.Ledger.Conservation.{Applied, post_applied, post_failed}
use shinrai_trade.Ledger.Replay.{
  IsReplay, empty_journal-IsReplay, post-IsReplay, post_again, reversal_restores,
}

abbrev cash : LedgerAccount
cash = LedgerAccount.customer_cash 7 usd

abbrev funding : LedgerAccount
funding = LedgerAccount.paper_funding usd

abbrev legs : List Posting
legs =
    record { account = cash; direction = Direction.debit; amount = from_minor (pos 500) usd }
    ∷ record { account = funding; direction = Direction.credit; amount = from_minor (pos 500) usd }
    ∷ []

abbrev draft : EntryBuilder
draft = record {
  idempotency_key = "d1";
  causation_id = some "cause";
  correlation_id = none;
  postings = legs;
}

abbrev entry : BalancedEntry
entry = entry_of draft

abbrev one_entry : Journal
one_entry = (post empty_journal entry).1

abbrev back : BalancedEntry
back = reversal_of entry "r1"

legs-IsBalanced : IsBalanced legs
unfolding ◌+ℤ◌
legs-IsBalanced = record {
  not_empty = λ e. cc;
  positive = omega arith;
  one_currency = (refl, tt);
  even = refl;
  within = omega arith;
}

build_run : build draft ≡ ok entry
unfolding build tally_all tally ◌+ℤ◌
build_run = refl

build_iff_example : (build draft ≡ ok entry) ↔ ((entry ≡ entry_of draft) × IsBalanced legs)
build_iff_example = build_iff draft entry

reverse_total_example : reverse entry "r1" ≡ ok back
unfolding new_key is_whitespace
reverse_total_example = reverse_total entry "r1" "r1" legs-IsBalanced refl

post_run : post empty_journal entry ≡ (ok (PostOutcome.applied 1), one_entry)
unfolding post get post_all post_one ◌+ℤ◌ balance_in neg insert
post_run = refl

post_applied_example : Applied empty_journal one_entry entry 1
post_applied_example = post_applied empty_journal one_entry entry 1 post_run

post-IsReplay_example : IsReplay one_entry
post-IsReplay_example =
    post-IsReplay empty_journal one_entry entry (PostOutcome.applied 1) empty_journal-IsReplay
      legs-IsBalanced post_run

post_again_example : post one_entry entry ≡ (ok (PostOutcome.duplicate 1), one_entry)
post_again_example = post_again empty_journal one_entry entry entry 1 post_run refl

back_run : post one_entry back ≡ (ok (PostOutcome.applied 2), (post one_entry back).1)
unfolding post get post_all post_one ◌+ℤ◌ balance_in neg insert
back_run = refl

reversal_restores_example :
    signed_balance (post one_entry back).1 cash ≡ signed_balance empty_journal cash
reversal_restores_example =
    reversal_restores empty_journal one_entry (post one_entry back).1 entry back 1 2 cash post_run
      refl back_run

trial_run : trial_balance_ok one_entry ≡ true
unfolding trial_balance_ok post get post_all post_one ◌+ℤ◌ balance_in neg insert wrap
trial_run = refl

-- The funding account is at the least value of its type.
abbrev at_limit : Journal
at_limit = record {
  next_id = 4;
  entries = [];
  by_key = [];
  signed = (funding, negsuc (i128_limit - 1)) ∷ [];
}

overflow_run : post at_limit entry ≡ (err overflow, (post at_limit entry).1)
unfolding post get post_all post_one ◌+ℤ◌ balance_in neg insert
overflow_run = refl

-- The first leg stays in the balances although the entry was refused.
overflow_leaves_leg : signed_balance (post at_limit entry).1 cash ≡ pos 500
unfolding post balance_in get post_all post_one ◌+ℤ◌ neg insert
overflow_leaves_leg = refl

post_failed_example :
    (overflow ≡ overflow)
    × ((post at_limit entry).1.entries ≡ [])
    × ((post at_limit entry).1.by_key ≡ [])
post_failed_example = post_failed at_limit (post at_limit entry).1 entry overflow overflow_run
