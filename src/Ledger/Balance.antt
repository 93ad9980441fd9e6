-- ===== src/Ledger/Balance.antt =====
-- What the builder lets through: exactly the entries whose amounts are positive, in one
-- currency, and balanced within `i128`.
use mathlib.Core.Path.{subst}
use shinrai_trade.Common.{
  ◌≡◌, ◌≢◌, sym, ◌∙◌, ap, arith, ok, Option, none, some, List, [], ◌∷◌, All, Result-cases, inl, inr,
}
use shinrai_trade.Common.Int.{
  ℤ, pos, ◌+ℤ◌, ◌<ℤ◌, Fits, i128_limit, +ℤ-zero, zero-+ℤ, +ℤ_assoc, eqb_ℤ_iff,
}
use shinrai_trade.Money.{Currency, currency_eq, currency_beq_iff}
use shinrai_trade.Ledger.Entry.{
  Posting, Direction, BalancedEntry, EntryBuilder, Totals, no_totals, tally, tally_all, build,
}

-- The debits and the credits of a list of postings, as integers of any size.
abbrev pub debit_of : Posting → ℤ
debit_of p = elim p.direction [ Direction.debit ↦ p.amount.minor_units | Direction.credit ↦ pos 0 ]

abbrev pub credit_of : Posting → ℤ
credit_of p = elim p.direction [ Direction.debit ↦ pos 0 | Direction.credit ↦ p.amount.minor_units ]

abbrev pub debits_of : List Posting → ℤ
debits_of [] = pos 0
debits_of (p ∷ ps) = debit_of p +ℤ debits_of ps

abbrev pub credits_of : List Posting → ℤ
credits_of [] = pos 0
credits_of (p ∷ ps) = credit_of p +ℤ credits_of ps

abbrev pub HasPositiveAmount : Posting → Type 0
HasPositiveAmount p = pos 0 <ℤ p.amount.minor_units

-- Every posting has the currency `c`, or the currency of the first.
abbrev pub OneCurrency : Option Currency → List Posting → Type 0
OneCurrency _ [] = Unit
OneCurrency none (p ∷ ps) = OneCurrency (some p.amount.currency) ps
OneCurrency (some c) (p ∷ ps) = (c ≡ p.amount.currency) × OneCurrency (some c) ps

pub record IsBalanced (ps : List Posting) : Type 0 where
  pub not_empty : ps ≢ []
  pub positive : All HasPositiveAmount ps
  pub one_currency : OneCurrency none ps
  pub even : debits_of ps ≡ credits_of ps
  pub within : Fits i128_limit (debits_of ps)

-- The totals after one more posting.
abbrev pub next_totals : Totals → Posting → Totals
next_totals t p = record {
  debits = t.debits +ℤ debit_of p;
  credits = t.credits +ℤ credit_of p;
  currency = some p.amount.currency;
}

tally_inv :
    (t t' : Totals) (p : Posting)
    → tally t p ≡ ok t'
    → (t' ≡ next_totals t p) × HasPositiveAmount p × OneCurrency t.currency (p ∷ [])
unfolding tally
tally_inv t t' p h = ground (
  arith,
  +ℤ-zero t.debits,
  +ℤ-zero t.credits,
  λ (c : Currency). currency_beq_iff c p.amount.currency,
)

tally_fits :
    (t t' : Totals) (p : Posting)
    → tally t p ≡ ok t'
    → Fits i128_limit t.debits
    → Fits i128_limit t'.debits
unfolding tally
tally_fits t t' p h f = ground arith

OneCurrency-cons :
    (c : Option Currency) (p : Posting) (ps : List Posting)
    → OneCurrency c (p ∷ [])
    → OneCurrency (some p.amount.currency) ps
    → OneCurrency c (p ∷ ps)
OneCurrency-cons none p ps h k = k
OneCurrency-cons (some c) p ps h k = (h.0, subst (λ d. OneCurrency (some d) ps) (sym h.0) k)

pub OneCurrency-uncons :
    (c : Option Currency) (p : Posting) (ps : List Posting)
    → OneCurrency c (p ∷ ps)
    → OneCurrency c (p ∷ []) × OneCurrency (some p.amount.currency) ps
OneCurrency-uncons none p ps h = (tt, h)
OneCurrency-uncons (some c) p ps h = ((h.0, tt), subst (λ d. OneCurrency (some d) ps) h.0 h.1)

tally_all_inv :
    (t t' : Totals) (ps : List Posting)
    → tally_all t ps ≡ ok t'
    → Fits i128_limit t.debits
    → All HasPositiveAmount ps
      × OneCurrency t.currency ps
      × (t'.debits ≡ t.debits +ℤ debits_of ps)
      × (t'.credits ≡ t.credits +ℤ credits_of ps)
      × Fits i128_limit t'.debits
unfolding tally_all
tally_all_inv t t' [] h f = ground (arith, +ℤ-zero t.debits, +ℤ-zero t.credits)
tally_all_inv t t' (p ∷ ps) h f = elim (Result-cases (tally t p)) [
  | inr (failed, e) ↦ ground arith
  | inl (u, e) ↦
      let (next, positive, ccy) = tally_inv t u p e in
      let (all, same, d, c, fits') = tally_all_inv u t' ps (rw e at h) (tally_fits t u p e f) in
      (
        (positive, all),
        OneCurrency-cons t.currency p ps ccy (subst (λ w. OneCurrency w.currency ps) next same),
        d ∙ ap (λ w. w.debits +ℤ debits_of ps) next ∙ +ℤ_assoc t.debits (debit_of p) (debits_of ps),
        c
            ∙ ap (λ w. w.credits +ℤ credits_of ps) next
            ∙ +ℤ_assoc t.credits (credit_of p) (credits_of ps),
        fits',
      )
]

abbrev pub entry_of : EntryBuilder → BalancedEntry
entry_of b = record {
  idempotency_key = b.idempotency_key;
  causation_id = b.causation_id;
  correlation_id = b.correlation_id;
  postings = b.postings;
}

build_guards :
    (b : EntryBuilder) (e : BalancedEntry) (t : Totals)
    → tally_all no_totals b.postings ≡ ok t
    → build b ≡ ok e
    → (e ≡ entry_of b) × (t.debits ≡ t.credits) × (b.postings ≢ [])
unfolding build
build_guards b e t r h = ground (arith, eqb_ℤ_iff t.debits t.credits)

-- An entry that the builder lets through has the builder's contents, and is balanced: it has
-- postings, all of positive amounts in one currency, whose debits and credits are equal and
-- fit an `i128`.
pub build_sound :
    (b : EntryBuilder) (e : BalancedEntry)
    → build b ≡ ok e
    → (e ≡ entry_of b) × IsBalanced b.postings
unfolding build
build_sound b e h = elim (Result-cases (tally_all no_totals b.postings)) [
  | inr (failed, r) ↦ ground arith
  | inl (t, r) ↦
      let (all, same, d, c, f) = tally_all_inv no_totals t b.postings r (omega arith) in
      let (shape, level, some_posting) = build_guards b e t r h in
      (
        shape,
        record {
          not_empty = some_posting;
          positive = all;
          one_currency = same;
          even =
              sym (d ∙ zero-+ℤ (debits_of b.postings))
              ∙ level
              ∙ (c ∙ zero-+ℤ (credits_of b.postings));
          within = subst (Fits i128_limit) (d ∙ zero-+ℤ (debits_of b.postings)) f;
        },
      )
]
