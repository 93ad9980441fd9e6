-- ===== src/Ledger/Replay.antt =====
-- The running balances are the sums over the entries of the log, and each key stands for one
-- entry of it.
use mathlib.Core.Path.{subst}
use shinrai_trade.Common.{
  ◌+◌, ◌≡◌, ◌≢◌, refl, sym, ◌∙◌, ap, arith, Result, ok, err, some, List, [], ◌∷◌, ◌++◌, map, All,
  All-append, ◌==◌, if◌then◌else◌, string_eq,
}
use shinrai_trade.Common.Int.{
  ℤ, pos, pos_part, neg_part, ◌+ℤ◌, int_laws, +ℤ_assoc, neg_parts, +ℤ_parts, eq_of_parts,
}
use shinrai_trade.Common.Maps.{get, get-insert_self}
use shinrai_trade.Ledger.Entry.{
  LedgerAccount, account_eq, LedgerError, Posting, BalancedEntry, flip_posting,
}
use shinrai_trade.Ledger.Balance.{IsBalanced}
use shinrai_trade.Ledger.Journal.{
  Journal, EntryId, PostOutcome, post, post_all, finish_post, signed_balance, empty_journal,
  balance_in,
}
use shinrai_trade.Ledger.Effect.{Balances, signed_amount, net}
use shinrai_trade.Ledger.Conservation.{total, post_applied}

abbrev net_of_entries : LedgerAccount → List (EntryId × BalancedEntry) → ℤ
net_of_entries a [] = pos 0
net_of_entries a ((_, e) ∷ es) = net a e.postings +ℤ net_of_entries a es

net_of_entries-snoc :
    (a : LedgerAccount) (es : List (EntryId × BalancedEntry)) (id : EntryId) (e : BalancedEntry)
    → net_of_entries a (es ++ (id, e) ∷ []) ≡ net_of_entries a es +ℤ net a e.postings
net_of_entries-snoc a [] id e = omega int_laws
net_of_entries-snoc a ((_, f) ∷ es) id e =
    ap (λ s. net a f.postings +ℤ s) (net_of_entries-snoc a es id e)
    ∙ sym (+ℤ_assoc (net a f.postings) (net_of_entries a es) (net a e.postings))

abbrev HasBalancedPostings : EntryId × BalancedEntry → Type 0
HasBalancedPostings (_, e) = IsBalanced e.postings

pub record IsReplay (j : Journal) : Type 0 where
  pub balances : (a : LedgerAccount) → signed_balance j a ≡ net_of_entries a j.entries
  pub conserved : total j.signed ≡ pos 0
  pub balanced : All HasBalancedPostings j.entries

pub empty_journal-IsReplay : IsReplay empty_journal
unfolding balance_in get
empty_journal-IsReplay = record { balances = λ a. refl; conserved = refl; balanced = tt }

finish_post-duplicate :
    (j j' : Journal) (entry : BalancedEntry) (n id : EntryId)
    (run : Result LedgerError (Unit {0}) × Balances)
    → finish_post j entry n run ≢ (ok (PostOutcome.duplicate id), j')
finish_post-duplicate j j' entry n id (err e, signed) h = ground arith
finish_post-duplicate j j' entry n id (ok u, signed) h = ground arith

pub post_duplicate :
    (j j' : Journal) (entry : BalancedEntry) (id : EntryId)
    → post j entry ≡ (ok (PostOutcome.duplicate id), j')
    → j ≡ j'
unfolding post
post_duplicate j j' entry id h =
    ground (
      arith,
      finish_post-duplicate j j' entry (j.next_id + 1) id (post_all j.signed entry.postings),
    )

-- A duplicate has its key in the journal, under the answered id.
pub post-known :
    (j j' : Journal) (entry : BalancedEntry) (id : EntryId)
    → post j entry ≡ (ok (PostOutcome.duplicate id), j')
    → get entry.idempotency_key j.by_key ≡ some id
unfolding post
post-known j j' entry id h =
    ground (
      arith,
      finish_post-duplicate j j' entry (j.next_id + 1) id (post_all j.signed entry.postings),
    )

-- Posting a balanced entry, where it succeeds, keeps the journal a replay: each running
-- balance is the sum of the postings of the logged entries, the sum of all balances is zero,
-- and each logged entry is balanced.
pub post-IsReplay :
    (j j' : Journal) (entry : BalancedEntry) (outcome : PostOutcome)
    → IsReplay j
    → IsBalanced entry.postings
    → post j entry ≡ (ok outcome, j')
    → IsReplay j'
post-IsReplay j j' entry (PostOutcome.duplicate id) r even h =
    subst IsReplay (post_duplicate j j' entry id h) r
post-IsReplay j j' entry (PostOutcome.applied id) r even h =
    let done = post_applied j j' entry id h in
    record {
      balances = λ a.
          done.moved a
          ∙ ap (λ b. b +ℤ net a entry.postings) (r.balances a)
          ∙ sym (net_of_entries-snoc a j.entries id entry)
          ∙ ap (net_of_entries a) (sym done.appended);
      conserved = done.total_kept even ∙ r.conserved;
      balanced =
          subst (All HasBalancedPostings) (sym done.appended)
            (All-append HasBalancedPostings j.entries ((id, entry) ∷ []) r.balanced (even, tt));
    }

-- After an entry was applied, any entry with the same key is answered as a duplicate with its
-- id, and nothing changes.
pub post_again :
    (j j' : Journal) (entry again : BalancedEntry) (id : EntryId)
    → post j entry ≡ (ok (PostOutcome.applied id), j')
    → again.idempotency_key ≡ entry.idempotency_key
    → post j' again ≡ (ok (PostOutcome.duplicate id), j')
unfolding post
post_again j j' entry again id h same =
    let done = post_applied j j' entry id h in
    let known : get again.idempotency_key j'.by_key ≡ some id =
      rw (done.keyed, same) (get-insert_self entry.idempotency_key id j.by_key) in
    rw (known, post)

opposites : (a b c d : ℤ) → b +ℤ a ≡ pos 0 → d +ℤ c ≡ pos 0 → b +ℤ d +ℤ (a +ℤ c) ≡ pos 0
opposites a b c d p q = omega (int_laws, ap pos_part p, ap neg_part p, ap pos_part q, ap neg_part q)

undone : (b n f : ℤ) → f +ℤ n ≡ pos 0 → b +ℤ n +ℤ f ≡ b
undone b n f p = omega (int_laws, ap pos_part p, ap neg_part p)

net-flip : (a : LedgerAccount) (ps : List Posting) → net a (map flip_posting ps) +ℤ net a ps ≡ pos 0
net-flip a [] = omega int_laws
net-flip a (p ∷ ps) =
    opposites (on p) (on (flip_posting p)) (net a ps) (net a (map flip_posting ps)) (one p)
      (net-flip a ps)
  where
    on : Posting → ℤ
    on q = if q.account == a then signed_amount q else pos 0

    one : (q : Posting) → on (flip_posting q) +ℤ on q ≡ pos 0
    one q = ground (
      arith,
      neg_parts q.amount.minor_units,
      +ℤ_parts (on (flip_posting q)) (on q),
      eq_of_parts (on (flip_posting q) +ℤ on q) (pos 0),
    )

-- Posting an entry and then one with its postings exchanged, both applied, brings every
-- account back to its balance.
pub reversal_restores :
    (j j' j'' : Journal) (entry reversal : BalancedEntry) (id id' : EntryId) (a : LedgerAccount)
    → post j entry ≡ (ok (PostOutcome.applied id), j')
    → reversal.postings ≡ map flip_posting entry.postings
    → post j' reversal ≡ (ok (PostOutcome.applied id'), j'')
    → signed_balance j'' a ≡ signed_balance j a
reversal_restores j j' j'' entry reversal id id' a h flipped h' =
    let first = (post_applied j j' entry id h).moved a in
    let second = (post_applied j' j'' reversal id' h').moved a in
    second
    ∙ ap (λ b. b +ℤ net a reversal.postings) first
    ∙ ap (λ ps. signed_balance j a +ℤ net a entry.postings +ℤ net a ps) flipped
    ∙ undone (signed_balance j a) (net a entry.postings) (net a (map flip_posting entry.postings))
        (net-flip a entry.postings)
