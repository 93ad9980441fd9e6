-- ===== src/Ledger/Conservation.antt =====
-- Double entry: posting a balanced entry leaves the sum of all balances as it was.
use shinrai_trade.Common.{
  ◌+◌, true, false, ◌≡◌, refl, sym, ◌∙◌, ap, arith, Result, ok, err, none, List, [], ◌∷◌, ◌++◌,
  Bool-cases, inl, inr, ◌==◌, string_eq,
}
use shinrai_trade.Common.Int.{
  ℤ, pos, pos_part, neg_part, ◌+ℤ◌, int_laws, +ℤ_parts, neg_parts, +ℤ-zero, +ℤ_assoc, eq_of_parts,
}
use shinrai_trade.Common.Maps.{get, insert}
use shinrai_trade.Ledger.Entry.{
  LedgerAccount, account_eq, LedgerError, overflow, Posting, BalancedEntry,
}
use shinrai_trade.Ledger.Balance.{debit_of, credit_of, debits_of, credits_of, IsBalanced}
use shinrai_trade.Ledger.Journal.{
  Journal, EntryId, PostOutcome, post, post_one, post_all, balance_in, signed_balance, finish_post,
}
use shinrai_trade.Ledger.Effect.{
  Balances, signed_amount, net, post_one_inv, post_all_cons, post_all-net,
}

-- The sum of all running balances.
abbrev pub total : Balances → ℤ
total [] = pos 0
total ((_, v) ∷ m) = v +ℤ total m

balance_in-tail :
    (j k : LedgerAccount) (w : ℤ) (m : Balances)
    → (j == k) ≡ false
    → balance_in ((j, w) ∷ m) k ≡ balance_in m k
unfolding balance_in get
balance_in-tail j k w m other = ground arith

head_value :
    (j k : LedgerAccount) (w : ℤ) (m : Balances) → (j == k) ≡ true → balance_in ((j, w) ∷ m) k ≡ w
unfolding balance_in get
head_value j k w m same = ground arith

total-insert :
    (k : LedgerAccount) (d old : ℤ) (m : Balances)
    → balance_in m k ≡ old
    → total (insert k (old +ℤ d) m) ≡ total m +ℤ d
unfolding insert
total-insert k d old [] e = unfold balance_in get in rw (← e) (omega int_laws)
total-insert k d old ((j, w) ∷ m) e = elim (Bool-cases (j == k)) [
  | inl same ↦ rw same (rw (← head_value j k w m same, e) (omega int_laws))
  | inr other ↦ rw other (
      ap (λ t. w +ℤ t) (total-insert k d old m (sym (balance_in-tail j k w m other) ∙ e))
      ∙ sym (+ℤ_assoc w (total m) d))
]

-- The signed amounts of some postings together.
abbrev sum_of : List Posting → ℤ
sum_of [] = pos 0
sum_of (p ∷ ps) = signed_amount p +ℤ sum_of ps

sum_of-debits : (ps : List Posting) → sum_of ps +ℤ credits_of ps ≡ debits_of ps
sum_of-debits [] = omega int_laws
sum_of-debits (p ∷ ps) = ground (
  arith,
  sum_of-debits ps,
  neg_parts p.amount.minor_units,
  +ℤ_parts (signed_amount p) (sum_of ps),
  +ℤ_parts (debit_of p) (debits_of ps),
  +ℤ_parts (credit_of p) (credits_of ps),
  +ℤ_parts (sum_of ps) (credits_of ps),
  +ℤ_parts (signed_amount p +ℤ sum_of ps) (credit_of p +ℤ credits_of ps),
  eq_of_parts (signed_amount p +ℤ sum_of ps +ℤ (credit_of p +ℤ credits_of ps))
      (debit_of p +ℤ debits_of ps),
)

zero_part : (s c : ℤ) → s +ℤ c ≡ c → pos_part s + neg_part (pos 0) ≡ pos_part (pos 0) + neg_part s
zero_part s c h = ground (arith, +ℤ_parts s c)

sum_of_balanced : (ps : List Posting) → IsBalanced ps → sum_of ps ≡ pos 0
sum_of_balanced ps h =
    let e = sum_of-debits ps in
    let same = h.even in
    eq_of_parts (sum_of ps) (pos 0) (zero_part (sum_of ps) (credits_of ps) (e ∙ same))

total-post_all :
    (signed : Balances) (ps : List Posting) (u : Unit {0})
    → (post_all signed ps).0 ≡ ok u
    → total (post_all signed ps).1 ≡ total signed +ℤ sum_of ps
total-post_all signed [] u h = unfold post_all in sym (+ℤ-zero (total signed))
total-post_all signed (p ∷ ps) u h =
    let (done, same) = post_all_cons signed p ps u h in
    let now = (post_one signed p).1 in
    let first =
      ap total (post_one_inv signed p tt done)
      ∙ total-insert p.account (signed_amount p) (balance_in signed p.account) signed refl in
    let rest = total-post_all now ps u (ap (λ r. r.0) (sym same) ∙ h) in
    ap (λ r. total r.1) same
    ∙ rest
    ∙ ap (λ b. b +ℤ sum_of ps) first
    ∙ +ℤ_assoc (total signed) (signed_amount p) (sum_of ps)

-- What an applied entry has done to the journal.
pub record Applied (j j' : Journal) (entry : BalancedEntry) (id : EntryId) : Type 0 where
  pub was_new : get entry.idempotency_key j.by_key ≡ none
  pub next : id ≡ j.next_id + 1
  pub appended : j'.entries ≡ j.entries ++ (id, entry) ∷ []
  pub keyed : j'.by_key ≡ insert entry.idempotency_key id j.by_key
  pub moved : (a : LedgerAccount) → signed_balance j' a ≡ signed_balance j a +ℤ net a entry.postings
  pub total_kept : IsBalanced entry.postings → total j'.signed ≡ total j.signed

finish_post_inv :
    (j j' : Journal) (entry : BalancedEntry) (n id : EntryId)
    (run : Result LedgerError (Unit {0}) × Balances)
    → finish_post j entry n run ≡ (ok (PostOutcome.applied id), j')
    → (id ≡ n)
      × (run.0 ≡ ok tt)
      × (j' ≡ record {
        next_id = n;
        entries = j.entries ++ (n, entry) ∷ [];
        by_key = insert entry.idempotency_key n j.by_key;
        signed = run.1;
      })
finish_post_inv j j' entry n id (err e, signed) h = ground arith
finish_post_inv j j' entry n id (ok u, signed) h = ground arith

post_applied_run :
    (j j' : Journal) (entry : BalancedEntry) (id : EntryId)
    → post j entry ≡ (ok (PostOutcome.applied id), j')
    → (get entry.idempotency_key j.by_key ≡ none)
      × (finish_post j entry (j.next_id + 1) (post_all j.signed entry.postings)
          ≡ (ok (PostOutcome.applied id), j'))
unfolding post
post_applied_run j j' entry id h = ground arith

-- An entry answered as applied had an unknown key; it gets the next id, is appended to the
-- entries and keyed under that id, moves every account by the net of its postings there, and,
-- if it is balanced, leaves the sum of all balances as it was.
pub post_applied :
    (j j' : Journal) (entry : BalancedEntry) (id : EntryId)
    → post j entry ≡ (ok (PostOutcome.applied id), j')
    → Applied j j' entry id
post_applied j j' entry id h =
    let run = post_all j.signed entry.postings in
    let (fresh, finished) = post_applied_run j j' entry id h in
    let (hid, done, made) = finish_post_inv j j' entry (j.next_id + 1) id run finished in
    let tables = ap (λ t. t.signed) made in
    record {
      was_new = fresh;
      next = hid;
      appended = ap (λ t. t.entries) made ∙ ap (λ n. j.entries ++ (n, entry) ∷ []) (sym hid);
      keyed = ap (λ t. t.by_key) made ∙ ap (λ n. insert entry.idempotency_key n j.by_key) (sym hid);
      moved = λ a. ap (λ t. balance_in t a) tables ∙ post_all-net j.signed entry.postings a tt done;
      total_kept = λ even.
          ap total tables
          ∙ total-post_all j.signed entry.postings tt done
          ∙ ap (λ b. total j.signed +ℤ b) (sum_of_balanced entry.postings even)
          ∙ +ℤ-zero (total j.signed);
    }

post_one_error :
    (signed : Balances) (p : Posting) (e : LedgerError)
    → (post_one signed p).0 ≡ err e
    → e ≡ overflow
unfolding post_one
post_one_error signed p e h = ground arith

post_all_error :
    (signed : Balances) (ps : List Posting) (e : LedgerError)
    → (post_all signed ps).0 ≡ err e
    → e ≡ overflow
unfolding post_all
post_all_error signed [] e h = ground arith
post_all_error signed (p ∷ ps) e h =
    ground (arith, post_one_error signed p e, post_all_error (post_one signed p).1 ps e)

finish_post_failed :
    (j j' : Journal) (entry : BalancedEntry) (n : EntryId) (e : LedgerError)
    (run : Result LedgerError (Unit {0}) × Balances)
    → finish_post j entry n run ≡ (err e, j')
    → (run.0 ≡ err e) × (j'.entries ≡ j.entries) × (j'.by_key ≡ j.by_key)
finish_post_failed j j' entry n e (err f, signed) h = ground arith
finish_post_failed j j' entry n e (ok u, signed) h = ground arith

-- A posting that fails is an overflow. It leaves the entries and the known keys as they were,
-- so the entry may be offered again; the running balances are not claimed to be as before.
pub post_failed :
    (j j' : Journal) (entry : BalancedEntry) (e : LedgerError)
    → post j entry ≡ (err e, j')
    → (e ≡ overflow) × (j'.entries ≡ j.entries) × (j'.by_key ≡ j.by_key)
unfolding post
post_failed j j' entry e h =
    let run = post_all j.signed entry.postings in
    ground (
      arith,
      finish_post_failed j j' entry (j.next_id + 1) e run,
      post_all_error j.signed entry.postings e,
    )
