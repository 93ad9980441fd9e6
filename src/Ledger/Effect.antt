-- ===== src/Ledger/Effect.antt =====
-- What posting does to the running balances: each account moves by the net of its postings.
use shinrai_trade.Common.{
  ◌≡◌, sym, ◌∙◌, ap, arith, ok, List, [], ◌∷◌, ◌==◌, if◌then◌else◌, string_eq,
}
use shinrai_trade.Common.Int.{ℤ, pos, ◌+ℤ◌, neg, int_laws, +ℤ-zero}
use shinrai_trade.Common.Maps.{Map, insert, get-insert}
use shinrai_trade.Ledger.Entry.{LedgerAccount, account_eq, account_beq_iff, Posting, Direction}
use shinrai_trade.Ledger.Journal.{post_one, post_all, balance_in}

-- Debit minus credit of one posting.
abbrev pub signed_amount : Posting → ℤ
signed_amount p = elim p.direction [
  | Direction.debit ↦ p.amount.minor_units
  | Direction.credit ↦ neg p.amount.minor_units
]

abbrev pub net : LedgerAccount → List Posting → ℤ
net a [] = pos 0
net a (p ∷ ps) = (if p.account == a then signed_amount p else pos 0) +ℤ net a ps

abbrev pub Balances : Type 0
Balances = Map LedgerAccount ℤ

pub post_one_inv :
    (signed : Balances) (p : Posting) (u : Unit {0})
    → (post_one signed p).0 ≡ ok u
    → (post_one signed p).1
      ≡ insert p.account (balance_in signed p.account +ℤ signed_amount p) signed
unfolding post_one
post_one_inv signed p u h = ground arith

balance_in-insert :
    (signed : Balances) (k a : LedgerAccount) (v : ℤ)
    → balance_in (insert k v signed) a ≡ (if k == a then v else balance_in signed a)
unfolding balance_in
balance_in-insert signed k a v = ground (arith, get-insert k a v signed)

post_one-net :
    (signed : Balances) (p : Posting) (a : LedgerAccount) (u : Unit {0})
    → (post_one signed p).0 ≡ ok u
    → balance_in (post_one signed p).1 a ≡ balance_in signed a +ℤ net a (p ∷ [])
post_one-net signed p a u h =
    let v = balance_in signed p.account +ℤ signed_amount p in
    ground (
      arith,
      post_one_inv signed p u h,
      balance_in-insert signed p.account a v,
      account_beq_iff p.account a,
      +ℤ-zero (signed_amount p),
      +ℤ-zero (pos 0),
      +ℤ-zero (balance_in signed a),
    )

pub post_all_cons :
    (signed : Balances) (p : Posting) (ps : List Posting) (u : Unit {0})
    → (post_all signed (p ∷ ps)).0 ≡ ok u
    → ((post_one signed p).0 ≡ ok tt)
      × (post_all signed (p ∷ ps) ≡ post_all (post_one signed p).1 ps)
unfolding post_all
post_all_cons signed p ps u h = ground arith

pub post_all-net :
    (signed : Balances) (ps : List Posting) (a : LedgerAccount) (u : Unit {0})
    → (post_all signed ps).0 ≡ ok u
    → balance_in (post_all signed ps).1 a ≡ balance_in signed a +ℤ net a ps
post_all-net signed [] a u h = unfold post_all in sym (+ℤ-zero (balance_in signed a))
post_all-net signed (p ∷ ps) a u h =
    let (done, same) = post_all_cons signed p ps u h in
    let now = (post_one signed p).1 in
    let first = post_one-net signed p a tt done in
    let rest = post_all-net now ps a u (ap (λ r. r.0) (sym same) ∙ h) in
    ap (λ r. balance_in r.1 a) same ∙ rest ∙ ap (λ b. b +ℤ net a ps) first ∙ omega int_laws
