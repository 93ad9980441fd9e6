-- ===== src/Paper/Transfer.antt =====
-- What a committed cash command has done: nothing, if its key was known, or one transfer.
use mathlib.Core.Path.{subst}
use shinrai_trade.Common.{
  String, ◌≡◌, ◌≢◌, refl, sym, ◌∙◌, ap, ◌⊎◌, inl, inr, arith, Result, ok, err, Result-cases, List,
  [], ◌∷◌, ◌++◌, ◌+◌, none, some, string_eq,
}
use shinrai_trade.Common.Int.{ℤ, pos, ◌+ℤ◌, ◌-ℤ◌, neg, int_laws, +ℤ-zero, zero-+ℤ}
use shinrai_trade.Common.Maps.{get, insert}
use shinrai_trade.Common.Text.{trim}
use shinrai_trade.Money.{Money}
use shinrai_trade.Ledger.Entry.{
  LedgerAccount, account_eq, account_beq_iff, LedgerError, Posting, Direction, BalancedEntry,
  new_builder, new_key,
}
use shinrai_trade.Ledger.Balance.{IsBalanced, build_sound}
use shinrai_trade.Ledger.Journal.{
  Journal, EntryId, PostOutcome, applied, duplicate, post, signed_balance,
}
use shinrai_trade.Ledger.Effect.{net}
use shinrai_trade.Ledger.Conservation.{post_applied}
use shinrai_trade.Ledger.Replay.{post_duplicate, post-known}
use shinrai_trade.Paper.Book.{PaperBook, commit, answer, post_entry, entry_id}
use shinrai_trade.Paper.Cash.{move_entry}

pub record Transfer (j j' : Journal) (to from : LedgerAccount) (amount : ℤ) : Type 0 where
  pub to_up : signed_balance j' to ≡ signed_balance j to +ℤ amount
  pub from_down : signed_balance j' from ≡ signed_balance j from -ℤ amount
  pub others : (a : LedgerAccount) → a ≢ to → a ≢ from → signed_balance j' a ≡ signed_balance j a

-- The key was in the journal under that id, and the journal stays as it is.
pub record Repetition (j j' : Journal) (key : String) (id : EntryId) : Type 0 where
  pub known : get key j.by_key ≡ some id
  pub kept : j' ≡ j

-- The key was unknown, and one entry with it is logged and keyed under the next id.
pub record Logged (j j' : Journal) (key : String) (id : EntryId) : Type 0 where
  pub was_new : get key j.by_key ≡ none
  pub next : id ≡ j.next_id + 1
  pub entry : BalancedEntry
  pub named : entry.idempotency_key ≡ key
  pub appended : j'.entries ≡ j.entries ++ (id, entry) ∷ []
  pub keyed : j'.by_key ≡ insert key id j.by_key

abbrev two_legs : LedgerAccount → LedgerAccount → Money → List Posting
two_legs to from amount =
    record { account = to; direction = Direction.debit; amount = amount }
    ∷ record { account = from; direction = Direction.credit; amount = amount }
    ∷ []

-- A committed entry was built, and the journal has it under the answered id.
pub record Committed (b b' : PaperBook) (entry : BalancedEntry) (id : EntryId) : Type 0 where
  pub outcome : PostOutcome
  pub same_id : entry_id outcome ≡ id
  pub posted : post b.journal entry ≡ (ok outcome, b'.journal)
  pub rest_kept : b' ≡ record b { journal = b'.journal }

commit_built :
    (b b' : PaperBook) (entry : BalancedEntry) (id : EntryId)
    → answer (post_entry b entry) ≡ (ok id, b')
    → Committed b b' entry id
unfolding post_entry
commit_built b b' entry id h = elim (Result-cases (post b.journal entry).0) [
  | inr (failed, e) ↦ ground arith
  | inl (outcome, e) ↦ record {
    outcome = outcome;
    same_id = ground arith;
    posted = ground arith;
    rest_kept = ground arith;
  }
]

pub commit_inv :
    (b b' : PaperBook) (r : Result LedgerError BalancedEntry) (id : EntryId)
    → commit b r ≡ (ok id, b')
    → (entry : BalancedEntry) × (r ≡ ok entry) × Committed b b' entry id
commit_inv b b' (err e) id h = ground arith
commit_inv b b' (ok entry) id h = (entry, refl, commit_built b b' entry id h)

new_key-trim : (key named : String) → new_key key ≡ ok named → named ≡ trim key
unfolding new_key
new_key-trim key named h = ground arith

pub move_entry_inv :
    (to from : LedgerAccount) (amount : Money) (key : String) (e : BalancedEntry)
    → move_entry to from amount key ≡ ok e
    → (e.idempotency_key ≡ trim key)
      × (e.postings ≡ two_legs to from amount)
      × IsBalanced e.postings
unfolding move_entry new_builder
move_entry_inv to from amount key e h = elim (Result-cases (new_key key)) [
  | inr (failed, k) ↦ ground arith
  | inl (named, k) ↦
      let (shape, even) =
        build_sound
          (record {
            idempotency_key = named;
            causation_id = none;
            correlation_id = none;
            postings = two_legs to from amount;
          })
          e (rw k at h) in
      let legs = ap (λ x. x.postings) shape in
      (
        ap (λ x. x.idempotency_key) shape ∙ new_key-trim key named k,
        legs,
        subst IsBalanced (sym legs) even,
      )
]

net-to :
    (to from : LedgerAccount) (amount : Money)
    → to ≢ from
    → net to (two_legs to from amount) ≡ amount.minor_units
net-to to from amount ne = ground (
  arith,
  account_beq_iff to to,
  account_beq_iff from to,
  +ℤ-zero (pos 0),
  +ℤ-zero amount.minor_units,
)

net-from :
    (to from : LedgerAccount) (amount : Money)
    → to ≢ from
    → net from (two_legs to from amount) ≡ neg amount.minor_units
net-from to from amount ne = ground (
  arith,
  account_beq_iff to from,
  account_beq_iff from from,
  +ℤ-zero (neg amount.minor_units),
  zero-+ℤ (neg amount.minor_units),
)

net-other :
    (to from a : LedgerAccount) (amount : Money)
    → a ≢ to
    → a ≢ from
    → net a (two_legs to from amount) ≡ pos 0
net-other to from a amount nt nf =
    ground (arith, account_beq_iff to a, account_beq_iff from a, +ℤ-zero (pos 0))

less : (a b : ℤ) → a +ℤ neg b ≡ a -ℤ b
less a b = omega int_laws

-- A journal that moved by the two legs of an entry made its transfer.
Transfer-legs :
    (j j' : Journal) (to from : LedgerAccount) (amount : Money) (e : BalancedEntry)
    → e.postings ≡ two_legs to from amount
    → to ≢ from
    → ((a : LedgerAccount) → signed_balance j' a ≡ signed_balance j a +ℤ net a e.postings)
    → Transfer j j' to from amount.minor_units
Transfer-legs j j' to from amount e legs ne moved =
    let by = λ (a : LedgerAccount). moved a ∙ ap (λ ps. signed_balance j a +ℤ net a ps) legs in
    record {
      to_up = by to ∙ ap (λ d. signed_balance j to +ℤ d) (net-to to from amount ne);
      from_down =
          by from
          ∙ ap (λ d. signed_balance j from +ℤ d) (net-from to from amount ne)
          ∙ less (signed_balance j from) amount.minor_units;
      others = λ a nt nf.
          by a
          ∙ ap (λ d. signed_balance j a +ℤ d) (net-other to from a amount nt nf)
          ∙ +ℤ-zero (signed_balance j a);
    }

-- A command that was answered had its key in the journal already, or logged its transfer.
pub Transfer-posted :
    (b b' : PaperBook) (to from : LedgerAccount) (amount : Money) (key : String) (e : BalancedEntry)
    (id : EntryId)
    → Committed b b' e id
    → e.idempotency_key ≡ key
    → e.postings ≡ two_legs to from amount
    → to ≢ from
    → Repetition b.journal b'.journal key id
      ⊎ (Logged b.journal b'.journal key id
          × Transfer b.journal b'.journal to from amount.minor_units)
Transfer-posted b b' to from amount key e id c name legs ne = posted_as c.outcome c.same_id c.posted
  where
    posted_as :
        (o : PostOutcome)
        → entry_id o ≡ id
        → post b.journal e ≡ (ok o, b'.journal)
        → Repetition b.journal b'.journal key id
          ⊎ (Logged b.journal b'.journal key id
              × Transfer b.journal b'.journal to from amount.minor_units)
    posted_as (duplicate n) same h = inl (record {
      known =
          ap (λ k. get k b.journal.by_key) (sym name)
          ∙ post-known b.journal b'.journal e n h
          ∙ ap some same;
      kept = sym (post_duplicate b.journal b'.journal e n h);
    })
    posted_as (applied n) same h =
        let done = post_applied b.journal b'.journal e n h in
        inr (
          record {
            was_new = ap (λ k. get k b.journal.by_key) (sym name) ∙ done.was_new;
            next = sym same ∙ done.next;
            entry = e;
            named = name;
            appended = done.appended ∙ ap (λ m. b.journal.entries ++ (m, e) ∷ []) same;
            keyed = done.keyed ∙ (λ i. insert (name i) (same i) b.journal.by_key);
          },
          Transfer-legs b.journal b'.journal to from amount e legs ne done.moved,
        )
