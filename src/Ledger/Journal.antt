-- ===== src/Ledger/Journal.antt =====
-- crates/domain/ledger/src/journal.rs: the append-only journal with its running balances.
use shinrai_trade.Common.{
  ℕ, ◌+◌, String, Bool, true, false, ◌&&◌, nat_eq, string_eq, Result, ok, err, ◌>>=◌, ok_or,
  if◌then◌else◌, Option, none, some, List, [], ◌∷◌, ◌++◌, ltb,
}
use shinrai_trade.Common.Int.{ℤ, pos, ◌+ℤ◌, neg, eqb_ℤ, i128_limit, checked, wrap}
use shinrai_trade.Common.Maps.{Map, get, insert}
use shinrai_trade.Money.{Currency, Money, currency_eq, from_minor}
use shinrai_trade.Ledger.Entry.{
  LedgerAccount, account_eq, account_currency, LedgerError, overflow, Posting, Direction,
  BalancedEntry,
}

abbrev pub EntryId : Type 0
EntryId = ℕ

pub data PostOutcome : Type 0 where
  applied duplicate : EntryId → PostOutcome

pub record Journal : Type 0 where
  pub next_id : ℕ
  -- Newest last.
  pub entries : List (EntryId × BalancedEntry)
  pub by_key : Map String EntryId
  pub signed : Map LedgerAccount ℤ

abbrev pub empty_journal : Journal
empty_journal = record { next_id = 0; entries = []; by_key = []; signed = [] }

abbrev pub u64_limit : ℕ
u64_limit = 18446744073709551616

abbrev pub value_or_zero : Option ℤ → ℤ
value_or_zero none = pos 0
value_or_zero (some v) = v

-- `signed.get(account).unwrap_or(0)`
unfoldable pub balance_in : Map LedgerAccount ℤ → LedgerAccount → ℤ
balance_in signed account = value_or_zero (get account signed)

-- `checked_neg` of a credit, which is a positive amount.
abbrev pub delta : Posting → Option ℤ
delta p = elim p.direction [
  | Direction.debit ↦ some p.amount.minor_units
  | Direction.credit ↦ checked i128_limit (neg p.amount.minor_units)
]

-- One round of the loop of `post`: the slot is made if it is missing, and stays as it was if the
-- sum overflows.
unfoldable pub post_one :
    Map LedgerAccount ℤ → Posting → Result LedgerError (Unit {0}) × Map LedgerAccount ℤ
post_one signed p = elim (delta p) [
  | none ↦ (err overflow, signed)
  | some d ↦
      let old = balance_in signed p.account in
      elim (checked i128_limit (old +ℤ d)) [
        | none ↦ (err overflow, insert p.account old signed)
        | some sum ↦ (ok tt, insert p.account sum signed)
      ]
]

-- The loop stops at the first error and leaves the balances as they are then.
unfoldable pub post_all :
    Map LedgerAccount ℤ → List Posting → Result LedgerError (Unit {0}) × Map LedgerAccount ℤ
post_all signed [] = (ok tt, signed)
post_all signed (p ∷ ps) =
    let rest = post_all (post_one signed p).1 ps in
    elim (post_one signed p).0 [ ok _ ↦ rest | err e ↦ (err e, (post_one signed p).1) ]

abbrev pub finish_post :
    Journal
    → BalancedEntry
    → EntryId
    → Result LedgerError (Unit {0}) × Map LedgerAccount ℤ
    → Result LedgerError PostOutcome × Journal
finish_post j entry id (err e, signed) = (err e, record j { next_id = id; signed = signed })
finish_post j entry id (ok _, signed) = (
  ok (PostOutcome.applied id),
  record {
    next_id = id;
    entries = j.entries ++ (id, entry) ∷ [];
    by_key = insert entry.idempotency_key id j.by_key;
    signed = signed;
  },
)

unfoldable pub post : Journal → BalancedEntry → Result LedgerError PostOutcome × Journal
post j entry = elim (get entry.idempotency_key j.by_key) [
  | some id ↦ (ok (PostOutcome.duplicate id), j)
  | none ↦
      if ltb (j.next_id + 1) u64_limit
      then finish_post j entry (j.next_id + 1) (post_all j.signed entry.postings)
      else (err overflow, j)
]

abbrev pub signed_balance : Journal → LedgerAccount → ℤ
signed_balance j account = balance_in j.signed account

unfoldable pub money_balance : Journal → LedgerAccount → Result LedgerError Money
money_balance j account = do
  currency ← ok_or (account_currency account) LedgerError.invalid_quantity
  ok (from_minor (signed_balance j account) currency)

-- The two tables of `trial_balance_ok`; a release build's `+=` wraps around.
abbrev pub bump : Currency → ℤ → Map Currency ℤ → Map Currency ℤ
bump ccy amount m = insert ccy (wrap i128_limit (value_or_zero (get ccy m) +ℤ amount)) m

abbrev Sides : Type 0
Sides = Map Currency ℤ × Map Currency ℤ

abbrev side_of : Posting → Sides → Sides
side_of p (debit, credit) = elim p.direction [
  | Direction.debit ↦ (bump p.amount.currency p.amount.minor_units debit, credit)
  | Direction.credit ↦ (debit, bump p.amount.currency p.amount.minor_units credit)
]

unfoldable sides_of : List Posting → Sides → Sides
sides_of [] sides = sides
sides_of (p ∷ ps) sides = sides_of ps (side_of p sides)

unfoldable sides_of_entries : List (EntryId × BalancedEntry) → Sides → Sides
unfolding sides_of
sides_of_entries [] sides = sides
sides_of_entries ((_, e) ∷ es) sides = sides_of_entries es (sides_of e.postings sides)

-- `HashMap` equality: the same keys with the same values.
abbrev found_in : Map Currency ℤ → Currency × ℤ → Bool
found_in m (c, v) = elim (get c m) [ none ↦ false | some w ↦ eqb_ℤ w v ]

unfoldable included : Map Currency ℤ → Map Currency ℤ → Bool
included [] m = true
included (e ∷ es) m = found_in m e && included es m

unfoldable pub trial_balance_ok : Journal → Bool
unfolding sides_of_entries included
trial_balance_ok j =
    let sides = sides_of_entries j.entries ([], []) in
    included sides.0 sides.1 && included sides.1 sides.0
