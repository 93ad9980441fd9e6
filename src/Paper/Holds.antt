-- ===== src/Paper/Holds.antt =====
-- Setting cash aside for an order and giving it back.
use mathlib.Core.Path.{subst}
use shinrai_trade.Common.{String, ◌≡◌, ◌≢◌, ap, inl, inr, arith, ok, Bool-cases, eq_of_beq, ◌==◌}
use shinrai_trade.Common.Int.{ℤ, pos, ◌+ℤ◌, ◌-ℤ◌, ◌≤ℤ◌, ◌<ℤ◌, int_laws}
use shinrai_trade.Money.{Money, Currency}
use shinrai_trade.Ledger.Entry.{
  AccountId, customer_cash, customer_cash_reserved, BalancedEntry, account_eq, account_beq_iff,
}
use shinrai_trade.Ledger.Journal.{Journal, EntryId, signed_balance}
use shinrai_trade.Paper.Book.{PaperBook, open_account, require_funds, available, reserved}
use shinrai_trade.Paper.Cash.{
  move_entry, reserve_for_order, reserve_entry, release_reserve, release_entry,
}
use shinrai_trade.Paper.Transfer.{Transfer, commit_inv}
use shinrai_trade.Paper.CashLaws.{CashMove, cash_moved, open_account_rest}

reserve_guard :
    (b : PaperBook) (a : AccountId) (amount : Money) (key : String) (e : BalancedEntry)
    → reserve_entry b a amount key ≡ ok e
    → (pos 0 <ℤ amount.minor_units)
      × (amount.minor_units ≤ℤ (available b a amount.currency).minor_units)
      × (move_entry
            (customer_cash_reserved a amount.currency)
            (customer_cash a amount.currency)
            amount
            key
          ≡ ok e)
unfolding reserve_entry require_funds
reserve_guard b a amount key e h = ground arith

-- A reservation that was answered with an entry id is of a positive amount that the available
-- cash covers. It repeats a known key and moves nothing, or it moves the amount from the
-- customer's cash to the reserved cash and changes no other account; no lots move.
pub reserve_for_order_lem :
    (b b' : PaperBook) (a : AccountId) (amount : Money) (key : String) (id : EntryId)
    → reserve_for_order b a amount key ≡ (ok id, b')
    → (pos 0 <ℤ amount.minor_units)
      × (amount.minor_units ≤ℤ (available b a amount.currency).minor_units)
      × CashMove b b' key id
          (customer_cash_reserved a amount.currency)
          (customer_cash a amount.currency)
          amount.minor_units
unfolding reserve_for_order
reserve_for_order_lem b b' a amount key id h =
    let opened = open_account b a in
    let (e, made, c) = commit_inv opened b' (reserve_entry opened a amount key) id h in
    let (positive, covered, built) = reserve_guard opened a amount key e made in
    (
      positive,
      subst (λ j. amount.minor_units ≤ℤ signed_balance j (customer_cash a amount.currency))
          (open_account_rest b a).0 covered,
      cash_moved b b' a (customer_cash_reserved a amount.currency) (customer_cash a amount.currency)
          amount key id e (λ x. cc) built c,
    )

release_guard :
    (b : PaperBook) (a : AccountId) (amount : Money) (key : String) (e : BalancedEntry)
    → release_entry b a amount key ≡ ok e
    → (pos 0 <ℤ amount.minor_units)
      × (amount.minor_units ≤ℤ (reserved b a amount.currency).minor_units)
      × (move_entry
            (customer_cash a amount.currency)
            (customer_cash_reserved a amount.currency)
            amount
            key
          ≡ ok e)
unfolding release_entry
release_guard b a amount key e h = ground arith

-- A release that was answered with an entry id is of a positive amount that the reserved cash
-- covers. It repeats a known key and moves nothing, or it moves the amount from the reserved
-- cash back to the customer's cash and changes no other account; no lots move.
pub release_reserve_lem :
    (b b' : PaperBook) (a : AccountId) (amount : Money) (key : String) (id : EntryId)
    → release_reserve b a amount key ≡ (ok id, b')
    → (pos 0 <ℤ amount.minor_units)
      × (amount.minor_units ≤ℤ (reserved b a amount.currency).minor_units)
      × CashMove b b' key id
          (customer_cash a amount.currency)
          (customer_cash_reserved a amount.currency)
          amount.minor_units
unfolding release_reserve
release_reserve_lem b b' a amount key id h =
    let opened = open_account b a in
    let (e, made, c) = commit_inv opened b' (release_entry opened a amount key) id h in
    let (positive, covered, built) = release_guard opened a amount key e made in
    (
      positive,
      subst (λ j. amount.minor_units ≤ℤ signed_balance j (customer_cash_reserved a amount.currency))
          (open_account_rest b a).0 covered,
      cash_moved b b' a (customer_cash a amount.currency) (customer_cash_reserved a amount.currency)
          amount key id e (λ x. cc) built c,
    )

-- What a customer owns, available or set aside.
abbrev pub holdings : PaperBook → AccountId → Currency → ℤ
holdings b a c = (available b a c).minor_units +ℤ (reserved b a c).minor_units

regroup : (x y d : ℤ) → x -ℤ d +ℤ (y +ℤ d) ≡ x +ℤ y
regroup x y d = omega int_laws

cash_parts :
    (o a : AccountId) (c k : Currency) → customer_cash o c ≡ customer_cash a k → (o ≡ a) × (c ≡ k)
cash_parts o a c k e = ground arith

Transfer-holdings :
    (j j' : Journal) (a : AccountId) (k : Currency) (d : ℤ) (o : AccountId) (c : Currency)
    → Transfer j j' (customer_cash_reserved a k) (customer_cash a k) d
    → signed_balance j' (customer_cash o c) +ℤ signed_balance j' (customer_cash_reserved o c)
      ≡ signed_balance j (customer_cash o c) +ℤ signed_balance j (customer_cash_reserved o c)
Transfer-holdings j j' a k d o c t = elim (Bool-cases (customer_cash o c == customer_cash a k)) [
  | inl hit ↦
      let (same_o, same_c) =
        cash_parts o a c k (eq_of_beq (customer_cash o c) (customer_cash a k) hit) in
      ground (
        arith,
        t.to_up,
        t.from_down,
        same_o,
        same_c,
        regroup (signed_balance j (customer_cash a k))
            (signed_balance j (customer_cash_reserved a k)) d,
      )
  | inr miss ↦
      let differs : customer_cash o c ≢ customer_cash a k =
        λ e. ground (arith, account_beq_iff (customer_cash o c) (customer_cash a k)) in
      ground (
        arith,
        t.others (customer_cash o c) (λ e. ground arith) differs,
        t.others (customer_cash_reserved o c) (λ e. differs (ground arith)) (λ e. ground arith),
      )
]

-- A reservation that was answered with an entry id leaves available plus reserved cash of
-- every customer, in every currency, as it was.
pub reserve-holdings :
    (b b' : PaperBook) (a : AccountId) (amount : Money) (key : String) (id : EntryId)
    → reserve_for_order b a amount key ≡ (ok id, b')
    → (o : AccountId) (c : Currency) → holdings b' o c ≡ holdings b o c
reserve-holdings b b' a amount key id h o c =
    let (positive, covered, m) = reserve_for_order_lem b b' a amount key id h in
    elim m.moved [
      | inl again ↦
          ap
            (λ j.
              signed_balance j (customer_cash o c) +ℤ signed_balance j (customer_cash_reserved o c))
            again.kept
      | inr (logged, t) ↦
          Transfer-holdings b.journal b'.journal a amount.currency amount.minor_units o c t
    ]
