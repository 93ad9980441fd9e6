-- ===== src/Paper/SellFee.antt =====
-- crates/domain/ledger/src/paper.rs: `settle_sell` with a fee.
use shinrai_trade.Common.{String, ◌≡◌, ◌≢◌, sym, ap, ◌∙◌, arith, ok, err, Result-cases, inl, inr}
use shinrai_trade.Common.Int.{
  ℤ, pos, pos_part, neg_part, ◌+ℤ◌, ◌-ℤ◌, ◌<ℤ◌, zero-+ℤ, +ℤ-zero, int_laws,
}
use shinrai_trade.Money.{Money, checked_sub, ensure_same_currency}
use shinrai_trade.Ledger.Entry.{
  AccountId, InstrumentId, LedgerError, BalancedEntry, new_builder, new_key, empty_builder, build,
}
use shinrai_trade.Ledger.Balance.{debits_of, credits_of, build_sound}
use shinrai_trade.Paper.Book.{PaperBook, open_account}
use shinrai_trade.Paper.Settle.{sell_entry, sell_legs, net_of_fee, settle_sell}

net_of_fee_inv :
    (proceeds fee net : Money)
    → pos 0 <ℤ fee.minor_units
    → net_of_fee proceeds fee ≡ ok net
    → net.minor_units ≡ proceeds.minor_units -ℤ fee.minor_units
unfolding checked_sub ensure_same_currency
net_of_fee_inv proceeds fee net positive h = ground arith

uneven : (p f : ℤ) → pos 0 <ℤ f → p -ℤ f ≢ p +ℤ f
uneven p f positive h = omega (int_laws, ap pos_part h, ap neg_part h)

-- The debit is of the proceeds less the fee, the credits of the proceeds and the fee.
sell_legs_sides :
    (account : AccountId) (proceeds fee net : Money) (key : String)
    → pos 0 <ℤ fee.minor_units
    → let ps = (sell_legs account proceeds fee net (empty_builder key)).postings in
      (debits_of ps ≡ net.minor_units) × (credits_of ps ≡ proceeds.minor_units +ℤ fee.minor_units)
sell_legs_sides account proceeds fee net key positive = ground (
  arith,
  zero-+ℤ net.minor_units,
  zero-+ℤ (net.minor_units +ℤ pos 0),
  +ℤ-zero net.minor_units,
  zero-+ℤ (fee.minor_units +ℤ pos 0),
  +ℤ-zero fee.minor_units,
  +ℤ-zero (pos 0),
)

sell_legs-uneven :
    (account : AccountId) (proceeds fee net : Money) (key : String) (e : BalancedEntry)
    → pos 0 <ℤ fee.minor_units
    → net_of_fee proceeds fee ≡ ok net
    → build (sell_legs account proceeds fee net (empty_builder key)) ≢ ok e
sell_legs-uneven account proceeds fee net key e positive less h =
    let even = (build_sound (sell_legs account proceeds fee net (empty_builder key)) e h).1.even in
    let (debits, credits) = sell_legs_sides account proceeds fee net key positive in
    uneven proceeds.minor_units fee.minor_units positive
      (sym (net_of_fee_inv proceeds fee net positive less) ∙ sym debits ∙ even ∙ credits)

sell_entry_refused :
    (b : PaperBook) (account : AccountId) (instrument : InstrumentId) (qty : ℤ)
    (proceeds fee : Money) (key : String) (e : BalancedEntry)
    → pos 0 <ℤ fee.minor_units
    → sell_entry b account instrument qty proceeds fee key ≢ ok e
unfolding sell_entry new_builder
sell_entry_refused b account instrument qty proceeds fee key e positive h =
    elim (Result-cases (net_of_fee proceeds fee)) [
      | inr (failed, n) ↦ ground arith
      | inl (net, n) ↦ elim (Result-cases (new_key key)) [
        | inr (failed, k) ↦ ground arith
        | inl (named, k) ↦
            ground (arith, sell_legs-uneven account proceeds fee net named e positive n)
      ]
    ]

-- A settlement of a sell with a fee above zero is always refused with an error, and leaves
-- nothing but the account opened: its entry credits the fee instead of debiting it, so it
-- never balances.
pub settle_sell_fee :
    (b : PaperBook) (account : AccountId) (instrument : InstrumentId) (qty : ℤ)
    (proceeds fee : Money) (key : String)
    → pos 0 <ℤ fee.minor_units
    → (error : LedgerError) × (settle_sell b account instrument qty proceeds fee key
        ≡ (err error, open_account b account))
unfolding settle_sell
settle_sell_fee b account instrument qty proceeds fee key positive =
    let opened = open_account b account in
    elim (Result-cases (sell_entry opened account instrument qty proceeds fee key)) [
      | inl (e, h) ↦
          absurd (sell_entry_refused opened account instrument qty proceeds fee key e positive h)
      | inr (failed, h) ↦ (failed, ground arith)
    ]
