-- ===== src/Money.antt =====
-- crates/domain/money/src/{currency,money,error}.rs: amounts of minor units in one currency.
-- A currency code is its three bytes; parsing and display are left out.
use shinrai_trade.Common.{
  ℕ, Bool, true, ◌&&◌, not, ◌≡◌, ◌↔◌, arith, Eq, nat_eq, pair_eq, ◌==◌, Result, ok, err, ◌>>=◌,
  ◌>>◌, ok_or, nat_beq, if◌then◌else◌,
}
use shinrai_trade.Common.Int.{
  ℤ, pos, negsuc, ◌+ℤ◌, ◌-ℤ◌, ◌*ℤ◌, neg, abs, eqb_ℤ, ltb_ℤ, i128_limit, checked,
}

pub record CurrencyCode : Type 0 where
  pub first : ℕ
  pub second : ℕ
  pub third : ℕ

pub record Currency : Type 0 where
  pub code : CurrencyCode
  pub scale : ℕ

abbrev pub currency_beq : Currency → Currency → Bool
currency_beq a b =
    nat_beq a.code.first b.code.first
    && nat_beq a.code.second b.code.second
    && nat_beq a.code.third b.code.third
    && nat_beq a.scale b.scale

pub currency_beq_iff : (a b : Currency) → (currency_beq a b ≡ true) ↔ (a ≡ b)
currency_beq_iff a b = ground arith

instance abbrev pub currency_eq : Eq Currency
currency_eq = record { beq = currency_beq; beq_iff = currency_beq_iff }

-- `Currency::usd()`: `*b"USD"` with two decimals.
abbrev pub usd : Currency
usd = record { code = record { first = b'U'; second = b'S'; third = b'D' }; scale = 2 }

pub data MoneyError : Type 0 where
  overflow : MoneyError
  currency_mismatch : CurrencyCode → CurrencyCode → MoneyError

-- `minor_units` is an `i128`.
pub record Money : Type 0 where
  pub minor_units : ℤ
  pub currency : Currency

abbrev pub from_minor : ℤ → Currency → Money
from_minor n c = record { minor_units = n; currency = c }

abbrev pub is_zero : Money → Bool
is_zero m = eqb_ℤ m.minor_units (pos 0)

abbrev pub is_negative : Money → Bool
is_negative m = ltb_ℤ m.minor_units (pos 0)

unfoldable pub checked_neg : Money → Result MoneyError Money
checked_neg m = do
  minor ← ok_or (checked i128_limit (neg m.minor_units)) MoneyError.overflow
  ok (from_minor minor m.currency)

unfoldable pub checked_abs : Money → Result MoneyError Money
checked_abs m =
    if eqb_ℤ m.minor_units (negsuc 170141183460469231731687303715884105727)
    then err MoneyError.overflow
    else ok (from_minor (pos (abs m.minor_units)) m.currency)

unfoldable pub ensure_same_currency : Money → Money → Result MoneyError (Unit {0})
ensure_same_currency a b =
    if not (a.currency == b.currency)
    then err (MoneyError.currency_mismatch a.currency.code b.currency.code)
    else ok tt

unfoldable pub checked_add : Money → Money → Result MoneyError Money
unfolding ensure_same_currency
checked_add a b = do
  ensure_same_currency a b
  minor ← ok_or (checked i128_limit (a.minor_units +ℤ b.minor_units)) MoneyError.overflow
  ok (from_minor minor a.currency)

unfoldable pub checked_sub : Money → Money → Result MoneyError Money
unfolding ensure_same_currency
checked_sub a b = do
  ensure_same_currency a b
  minor ← ok_or (checked i128_limit (a.minor_units -ℤ b.minor_units)) MoneyError.overflow
  ok (from_minor minor a.currency)

unfoldable pub checked_mul_scalar : Money → ℤ → Result MoneyError Money
checked_mul_scalar m scalar = do
  minor ← ok_or (checked i128_limit (m.minor_units *ℤ scalar)) MoneyError.overflow
  ok (from_minor minor m.currency)
