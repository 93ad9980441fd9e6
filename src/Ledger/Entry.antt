-- ===== src/Ledger/Entry.antt =====
-- crates/domain/ledger/src/{account,posting,entry,error}.rs: postings, and the builder that lets
-- only balanced entries through.
use shinrai_trade.Common.{
  ℕ, String, Bool, true, false, ◌&&◌, not, ◌≡◌, ◌↔◌, arith, Eq, nat_eq, ◌==◌, Result, ok, err,
  ◌>>=◌, ◌>>◌, ok_or, nat_beq, if◌then◌else◌, Option, none, some, List, [], ◌∷◌, ◌++◌,
}
use shinrai_trade.Common.Int.{ℤ, pos, ◌+ℤ◌, leb_ℤ, eqb_ℤ, i128_limit, checked}
use shinrai_trade.Common.Text.{trim, is_empty_text}
use shinrai_trade.Money.{Currency, Money, MoneyError, currency_eq, currency_beq}

abbrev pub AccountId : Type 0
AccountId = ℕ

abbrev pub InstrumentId : Type 0
InstrumentId = ℕ

pub data LedgerAccount : Type 0 where
  customer_cash : AccountId → Currency → LedgerAccount
  customer_cash_reserved : AccountId → Currency → LedgerAccount
  paper_funding : Currency → LedgerAccount
  broker_settlement : Currency → LedgerAccount
  fees_revenue : Currency → LedgerAccount
  house_suspense : Currency → LedgerAccount
  customer_position : AccountId → InstrumentId → LedgerAccount

abbrev account_beq : LedgerAccount → LedgerAccount → Bool
account_beq (customer_cash a c) (customer_cash b d) = nat_beq a b && currency_beq c d
account_beq (customer_cash_reserved a c) (customer_cash_reserved b d) =
    nat_beq a b && currency_beq c d
account_beq (paper_funding c) (paper_funding d) = currency_beq c d
account_beq (broker_settlement c) (broker_settlement d) = currency_beq c d
account_beq (fees_revenue c) (fees_revenue d) = currency_beq c d
account_beq (house_suspense c) (house_suspense d) = currency_beq c d
account_beq (customer_position a i) (customer_position b j) = nat_beq a b && nat_beq i j
account_beq _ _ = false

pub account_beq_iff : (a b : LedgerAccount) → (account_beq a b ≡ true) ↔ (a ≡ b)
account_beq_iff (customer_cash a c) b = ground arith
account_beq_iff _ b = ground arith

instance abbrev pub account_eq : Eq LedgerAccount
account_eq = record { beq = account_beq; beq_iff = account_beq_iff }

-- `None` for quantity positions.
abbrev pub account_currency : LedgerAccount → Option Currency
account_currency (customer_cash _ c) = some c
account_currency (customer_cash_reserved _ c) = some c
account_currency (paper_funding c) = some c
account_currency (broker_settlement c) = some c
account_currency (fees_revenue c) = some c
account_currency (house_suspense c) = some c
account_currency (customer_position _ _) = none

pub data LedgerError : Type 0 where
  money : MoneyError → LedgerError
  empty_entry zero_amount : LedgerError
  unbalanced : ℤ → ℤ → LedgerError
  mixed_currency empty_idempotency_key insufficient_funds insufficient_reserved : LedgerError
  invalid_quantity insufficient_position : LedgerError

abbrev pub overflow : LedgerError
overflow = LedgerError.money MoneyError.overflow

abbrev pub fail_if : Bool → LedgerError → Result LedgerError (Unit {0})
fail_if true e = err e
fail_if false e = ok tt

pub data Direction : Type 0 where
  debit credit : Direction

pub record Posting : Type 0 where
  pub account : LedgerAccount
  pub direction : Direction
  pub amount : Money

pub record BalancedEntry : Type 0 where
  pub idempotency_key : String
  pub causation_id : Option String
  pub correlation_id : Option String
  pub postings : List Posting

-- The builder has the fields of an entry; only `build` makes it a balanced one.
pub record EntryBuilder : Type 0 where
  pub idempotency_key : String
  pub causation_id : Option String
  pub correlation_id : Option String
  pub postings : List Posting

-- `IdempotencyKey::new`
unfoldable pub new_key : String → Result LedgerError String
unfolding trim
new_key key =
    if is_empty_text (trim key) then err LedgerError.empty_idempotency_key else ok (trim key)

abbrev pub empty_builder : String → EntryBuilder
empty_builder key = record {
  idempotency_key = key;
  causation_id = none;
  correlation_id = none;
  postings = [];
}

-- `EntryBuilder::new`
unfoldable pub new_builder : String → Result LedgerError EntryBuilder
new_builder key = do idempotency_key ← new_key key; ok (empty_builder idempotency_key)

abbrev pub causation : EntryBuilder → String → EntryBuilder
causation b id = record b { causation_id = some id }

abbrev pub correlation : EntryBuilder → String → EntryBuilder
correlation b id = record b { correlation_id = some id }

abbrev pub push : EntryBuilder → Posting → EntryBuilder
push b posting = record b { postings = b.postings ++ posting ∷ [] }

abbrev pub add_debit : EntryBuilder → LedgerAccount → Money → EntryBuilder
add_debit b account amount =
    push b (record { account = account; direction = Direction.debit; amount = amount })

abbrev pub add_credit : EntryBuilder → LedgerAccount → Money → EntryBuilder
add_credit b account amount =
    push b (record { account = account; direction = Direction.credit; amount = amount })

-- The variables of the loop of `build`.
pub record Totals : Type 0 where
  pub debits : ℤ
  pub credits : ℤ
  pub currency : Option Currency

-- The `match currency`: the first posting decides, each later one must agree.
abbrev pub agree : Option Currency → Currency → Result LedgerError (Option Currency)
agree none ccy = ok (some ccy)
agree (some existing) ccy =
    if not (existing == ccy) then err LedgerError.mixed_currency else ok (some existing)

abbrev add_checked : ℤ → ℤ → Result LedgerError ℤ
add_checked total amount = ok_or (checked i128_limit (total +ℤ amount)) overflow

unfoldable add_to : Direction → ℤ → Totals → Result LedgerError Totals
add_to Direction.debit amount t = do
  total ← add_checked t.debits amount
  ok (record t { debits = total })
add_to Direction.credit amount t = do
  total ← add_checked t.credits amount
  ok (record t { credits = total })

-- One round of the loop.
unfoldable pub tally : Totals → Posting → Result LedgerError Totals
unfolding add_to
tally t p = do
  fail_if (leb_ℤ p.amount.minor_units (pos 0)) LedgerError.zero_amount
  currency ← agree t.currency p.amount.currency
  add_to p.direction p.amount.minor_units (record t { currency = currency })

unfoldable pub tally_all : Totals → List Posting → Result LedgerError Totals
tally_all t [] = ok t
tally_all t (p ∷ ps) = tally t p >>= λ t'. tally_all t' ps

abbrev is_empty : List Posting → Bool
is_empty [] = true
is_empty _ = false

abbrev pub no_totals : Totals
no_totals = record { debits = pos 0; credits = pos 0; currency = none }

unfoldable pub build : EntryBuilder → Result LedgerError BalancedEntry
build b = do
  fail_if (is_empty b.postings) LedgerError.empty_entry
  t ← tally_all no_totals b.postings
  fail_if (not (eqb_ℤ t.debits t.credits)) (LedgerError.unbalanced t.debits t.credits)
  ok (record {
    idempotency_key = b.idempotency_key;
    causation_id = b.causation_id;
    correlation_id = b.correlation_id;
    postings = b.postings;
  })

abbrev pub flip : Direction → Direction
flip Direction.debit = Direction.credit
flip Direction.credit = Direction.debit

abbrev pub flip_posting : Posting → Posting
flip_posting p = record p { direction = flip p.direction }

-- `if let Some(c) = id { builder = set(builder, c) }`
abbrev pub copy_id :
    (EntryBuilder → String → EntryBuilder) → Option String → EntryBuilder → EntryBuilder
copy_id set none b = b
copy_id set (some id) b = set b id

unfoldable pub push_flipped : EntryBuilder → List Posting → EntryBuilder
push_flipped b [] = b
push_flipped b (p ∷ ps) = push_flipped (push b (flip_posting p)) ps

unfoldable pub reverse : BalancedEntry → String → Result LedgerError BalancedEntry
unfolding new_builder
reverse e reversal_key = do
  builder ← new_builder reversal_key
  build (
      push_flipped (copy_id correlation e.correlation_id (copy_id causation e.causation_id builder))
        e.postings)
