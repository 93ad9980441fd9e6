-- ===== src/Paper/Solvent.antt =====
-- No customer's available or reserved cash is ever below zero, through any answered commands.
use mathlib.Core.Path.{subst}
use shinrai_trade.Common.{
  String, Bool, true, false, ◌≡◌, sym, inl, inr, arith, ok, Bool-cases, eq_of_beq, ◌==◌,
}
use shinrai_trade.Common.Int.{ℤ, pos, ◌≤ℤ◌, ◌<ℤ◌, +ℤ_parts, -ℤ_parts}
use shinrai_trade.Common.Maps.{get}
use shinrai_trade.Money.{Money}
use shinrai_trade.Ledger.Entry.{
  AccountId, LedgerAccount, customer_cash, customer_cash_reserved, paper_funding, account_eq,
  account_beq_iff,
}
use shinrai_trade.Ledger.Journal.{Journal, EntryId, signed_balance, balance_in}
use shinrai_trade.Paper.Book.{PaperBook, empty_book}
use shinrai_trade.Paper.Cash.{deposit, withdraw, reserve_for_order, release_reserve}
use shinrai_trade.Paper.Transfer.{Transfer}
use shinrai_trade.Paper.CashLaws.{CashMove, deposit_lem, withdraw_lem}
use shinrai_trade.Paper.Holds.{reserve_for_order_lem, release_reserve_lem}

abbrev is_customer : LedgerAccount → Bool
is_customer (customer_cash _ _) = true
is_customer (customer_cash_reserved _ _) = true
is_customer _ = false

abbrev pub IsSolvent : Journal → Type 0
IsSolvent j = (a : LedgerAccount) → is_customer a ≡ true → pos 0 ≤ℤ signed_balance j a

-- A transfer of a positive amount that its source covers, if it is a customer's, keeps all solvent.
Transfer-IsSolvent :
    (j j' : Journal) (to from : LedgerAccount) (amount : ℤ)
    → IsSolvent j
    → pos 0 <ℤ amount
    → (is_customer from ≡ true → amount ≤ℤ signed_balance j from)
    → Transfer j j' to from amount
    → IsSolvent j'
Transfer-IsSolvent j j' to from amount s positive covered t a customer =
    elim (Bool-cases (a == from)) [
      | inl spent ↦
          let e = eq_of_beq a from spent in
          subst (λ x. pos 0 ≤ℤ signed_balance j' x) (sym e)
            (rw t.from_down (
              omega (
                arith,
                -ℤ_parts (signed_balance j from) amount,
                covered (subst (λ x. is_customer x ≡ true) e customer),
              )))
      | inr not_from ↦ elim (Bool-cases (a == to)) [
        | inl got ↦
            let e = eq_of_beq a to got in
            subst (λ x. pos 0 ≤ℤ signed_balance j' x) (sym e)
              (rw t.to_up (
                omega (
                  arith,
                  +ℤ_parts (signed_balance j to) amount,
                  s to (subst (λ x. is_customer x ≡ true) e customer),
                )))
        | inr not_to ↦
            rw
              (t.others a (λ e. ground (arith, account_beq_iff a to))
                (λ e. ground (arith, account_beq_iff a from)))
              (s a customer)
      ]
    ]

move-IsSolvent :
    (b b' : PaperBook) (key : String) (id : EntryId) (to from : LedgerAccount) (amount : ℤ)
    → IsSolvent b.journal
    → pos 0 <ℤ amount
    → (is_customer from ≡ true → amount ≤ℤ signed_balance b.journal from)
    → CashMove b b' key id to from amount
    → IsSolvent b'.journal
move-IsSolvent b b' key id to from amount s positive covered m = elim m.moved [
  | inl again ↦ subst IsSolvent (sym again.kept) s
  | inr (logged, t) ↦ Transfer-IsSolvent b.journal b'.journal to from amount s positive covered t
]

-- One answered cash command.
pub data CashStep (b : PaperBook) (b' : PaperBook) : Type 0 where
  deposits :
      (a : AccountId) (amount : Money) (key : String) (id : EntryId)
      → deposit b a amount key ≡ (ok id, b')
      → CashStep b b'
  withdraws :
      (a : AccountId) (amount : Money) (key : String) (id : EntryId)
      → withdraw b a amount key ≡ (ok id, b')
      → CashStep b b'
  reserves :
      (a : AccountId) (amount : Money) (key : String) (id : EntryId)
      → reserve_for_order b a amount key ≡ (ok id, b')
      → CashStep b b'
  releases :
      (a : AccountId) (amount : Money) (key : String) (id : EntryId)
      → release_reserve b a amount key ≡ (ok id, b')
      → CashStep b b'

-- A deposit, withdrawal, reservation or release that was answered with an entry id keeps every
-- available and reserved cash balance of every customer at zero or above, if all were so
-- before.
pub CashStep-IsSolvent :
    (b b' : PaperBook) → CashStep b b' → IsSolvent b.journal → IsSolvent b'.journal
CashStep-IsSolvent b b' (deposits a amount key id h) s =
    let (positive, m) = deposit_lem b b' a amount key id h in
    move-IsSolvent b b' key id (customer_cash a amount.currency) (paper_funding amount.currency)
      amount.minor_units s positive (λ e. cc) m
CashStep-IsSolvent b b' (withdraws a amount key id h) s =
    let (positive, covered, m) = withdraw_lem b b' a amount key id h in
    move-IsSolvent b b' key id (paper_funding amount.currency) (customer_cash a amount.currency)
      amount.minor_units s positive (λ e. covered) m
CashStep-IsSolvent b b' (reserves a amount key id h) s =
    let (positive, covered, m) = reserve_for_order_lem b b' a amount key id h in
    move-IsSolvent b b' key id (customer_cash_reserved a amount.currency)
      (customer_cash a amount.currency) amount.minor_units s positive (λ e. covered) m
CashStep-IsSolvent b b' (releases a amount key id h) s =
    let (positive, covered, m) = release_reserve_lem b b' a amount key id h in
    move-IsSolvent b b' key id (customer_cash a amount.currency)
      (customer_cash_reserved a amount.currency) amount.minor_units s positive (λ e. covered) m

pub empty_book-IsSolvent : IsSolvent empty_book.journal
unfolding balance_in get
empty_book-IsSolvent a h = omega arith
