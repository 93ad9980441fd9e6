-- ===== src/Ledger/Build.antt =====
-- The builder accepts every balanced list of postings, and a built entry can be reversed.
use mathlib.Core.List.{append-nil, append_assoc}
use mathlib.Core.Path.{subst}
use shinrai_trade.Common.{
  ◌↔◌, String, ◌≡◌, ◌≢◌, refl, sym, ◌∙◌, ap, arith, ok, Option, none, some, List, [], ◌∷◌, ◌++◌,
  map, All,
}
use shinrai_trade.Common.Int.{
  ℤ, pos, ◌+ℤ◌, ◌≤ℤ◌, Fits, i128_limit, +ℤ_parts, one_part, +ℤ-zero, zero-+ℤ, +ℤ_assoc, eqb_ℤ_iff,
}
use shinrai_trade.Money.{Currency, currency_eq, currency_beq_iff}
use shinrai_trade.Ledger.Entry.{
  Posting, BalancedEntry, EntryBuilder, Totals, no_totals, tally, tally_all, build, flip_posting,
  push_flipped, reverse, new_key, copy_id, causation, correlation, empty_builder,
}
use shinrai_trade.Ledger.Balance.{
  debit_of, credit_of, debits_of, credits_of, HasPositiveAmount, OneCurrency, IsBalanced, entry_of,
  OneCurrency-uncons, next_totals, build_sound,
}

debits_of_nonneg : (ps : List Posting) → All HasPositiveAmount ps → pos 0 ≤ℤ debits_of ps
debits_of_nonneg [] h = omega arith
debits_of_nonneg (p ∷ ps) h =
    ground (arith, debits_of_nonneg ps h.1, +ℤ_parts (debit_of p) (debits_of ps))

credits_of_nonneg : (ps : List Posting) → All HasPositiveAmount ps → pos 0 ≤ℤ credits_of ps
credits_of_nonneg [] h = omega arith
credits_of_nonneg (p ∷ ps) h =
    ground (arith, credits_of_nonneg ps h.1, +ℤ_parts (credit_of p) (credits_of ps))

tally_complete :
    (t : Totals) (p : Posting)
    → HasPositiveAmount p
    → OneCurrency t.currency (p ∷ [])
    → Fits i128_limit (t.debits +ℤ debit_of p)
    → Fits i128_limit (t.credits +ℤ credit_of p)
    → tally t p ≡ ok (next_totals t p)
unfolding tally
tally_complete t p h c fd fc = ground (
  arith,
  +ℤ-zero t.debits,
  +ℤ-zero t.credits,
  currency_beq_iff p.amount.currency p.amount.currency,
)

-- A partial sum of amounts that are not negative is within the whole sum.
partial_fits :
    (a b c : ℤ)
    → pos 0 ≤ℤ a
    → pos 0 ≤ℤ b
    → pos 0 ≤ℤ c
    → Fits i128_limit (a +ℤ (b +ℤ c))
    → (pos 0 ≤ℤ a +ℤ b) × Fits i128_limit (a +ℤ b)
partial_fits a b c ha hb hc f = ground (
  arith,
  +ℤ_parts a b,
  +ℤ_parts b c,
  +ℤ_parts a (b +ℤ c),
  one_part (a +ℤ b),
  one_part (a +ℤ (b +ℤ c)),
)

part_nonneg : (p : Posting) → HasPositiveAmount p → (pos 0 ≤ℤ debit_of p) × (pos 0 ≤ℤ credit_of p)
part_nonneg p h = ground arith

tally_all_complete :
    (t : Totals) (ps : List Posting)
    → All HasPositiveAmount ps
    → OneCurrency t.currency ps
    → pos 0 ≤ℤ t.debits
    → pos 0 ≤ℤ t.credits
    → Fits i128_limit (t.debits +ℤ debits_of ps)
    → Fits i128_limit (t.credits +ℤ credits_of ps)
    → (t' : Totals) × (tally_all t ps ≡ ok t')
      × (t'.debits ≡ t.debits +ℤ debits_of ps)
      × (t'.credits ≡ t.credits +ℤ credits_of ps)
unfolding tally_all
tally_all_complete t [] h same nd nc fd fc =
    (t, refl, sym (+ℤ-zero t.debits), sym (+ℤ-zero t.credits))
tally_all_complete t (p ∷ ps) h same nd nc fd fc =
    let (nn_d, nn_c) = part_nonneg p h.0 in
    let (pos_d, fits_d) =
      partial_fits t.debits (debit_of p) (debits_of ps) nd nn_d (debits_of_nonneg ps h.1) fd in
    let (pos_c, fits_c) =
      partial_fits t.credits (credit_of p) (credits_of ps) nc nn_c (credits_of_nonneg ps h.1) fc in
    let (one, rest) = OneCurrency-uncons t.currency p ps same in
    let regroup_d = +ℤ_assoc t.debits (debit_of p) (debits_of ps) in
    let regroup_c = +ℤ_assoc t.credits (credit_of p) (credits_of ps) in
    let (t', run, d, c) =
      tally_all_complete (next_totals t p) ps h.1 rest pos_d pos_c
        (subst (Fits i128_limit) (sym regroup_d) fd) (subst (Fits i128_limit) (sym regroup_c) fc) in
    (t', rw (tally_complete t p h.0 one fits_d fits_c) run, d ∙ regroup_d, c ∙ regroup_c)

-- The builder lets every balanced list of postings through, with the builder's contents.
pub build_complete : (b : EntryBuilder) → IsBalanced b.postings → build b ≡ ok (entry_of b)
unfolding build
build_complete b h =
    let from_zero = zero-+ℤ (debits_of b.postings) in
    let from_zero' = zero-+ℤ (credits_of b.postings) in
    let (t, run, d, c) =
      tally_all_complete no_totals b.postings h.positive h.one_currency (omega arith) (omega arith)
        (subst (Fits i128_limit) (sym from_zero) h.within)
        (subst (Fits i128_limit) (h.even ∙ sym from_zero') h.within) in
    let level : t.debits ≡ t.credits = d ∙ from_zero ∙ h.even ∙ sym (c ∙ from_zero') in
    ground (arith, eqb_ℤ_iff t.debits t.credits, h.not_empty)

debits_of-flip : (ps : List Posting) → debits_of (map flip_posting ps) ≡ credits_of ps
debits_of-flip [] = refl
debits_of-flip (p ∷ ps) = ground (arith, debits_of-flip ps)

credits_of-flip : (ps : List Posting) → credits_of (map flip_posting ps) ≡ debits_of ps
credits_of-flip [] = refl
credits_of-flip (p ∷ ps) = ground (arith, credits_of-flip ps)

positive-flip :
    (ps : List Posting) → All HasPositiveAmount ps → All HasPositiveAmount (map flip_posting ps)
positive-flip [] h = tt
positive-flip (p ∷ ps) h = (h.0, positive-flip ps h.1)

OneCurrency-flip :
    (c : Option Currency) (ps : List Posting)
    → OneCurrency c ps
    → OneCurrency c (map flip_posting ps)
OneCurrency-flip c [] h = h
OneCurrency-flip none (p ∷ ps) h = OneCurrency-flip (some p.amount.currency) ps h
OneCurrency-flip (some c) (p ∷ ps) h = (h.0, OneCurrency-flip (some c) ps h.1)

not_empty-flip : (ps : List Posting) → ps ≢ [] → map flip_posting ps ≢ []
not_empty-flip [] h = absurd (h refl)
not_empty-flip (p ∷ ps) h = λ e. cc

flip-IsBalanced : (ps : List Posting) → IsBalanced ps → IsBalanced (map flip_posting ps)
flip-IsBalanced ps h = record {
  not_empty = not_empty-flip ps h.not_empty;
  positive = positive-flip ps h.positive;
  one_currency = OneCurrency-flip none ps h.one_currency;
  even = debits_of-flip ps ∙ sym h.even ∙ sym (credits_of-flip ps);
  within = subst (Fits i128_limit) (h.even ∙ sym (debits_of-flip ps)) h.within;
}

push_flipped_lem :
    (b : EntryBuilder) (ps : List Posting)
    → push_flipped b ps ≡ record b { postings = b.postings ++ map flip_posting ps }
unfolding push_flipped
push_flipped_lem b [] = rw append-nil
push_flipped_lem b (p ∷ ps) =
    push_flipped_lem (record b { postings = b.postings ++ flip_posting p ∷ [] }) ps
    ∙ ap (λ l. record b { postings = l })
        (append_assoc b.postings (flip_posting p ∷ []) (map flip_posting ps))

-- The reversal under the key `k`: the same ids, and every posting on the other side.
abbrev pub reversal_of : BalancedEntry → String → BalancedEntry
reversal_of e k = record {
  idempotency_key = k;
  causation_id = e.causation_id;
  correlation_id = e.correlation_id;
  postings = map flip_posting e.postings;
}

copied_ids :
    (k : String) (cause corr : Option String)
    → copy_id correlation corr (copy_id causation cause (empty_builder k))
      ≡ record { idempotency_key = k; causation_id = cause; correlation_id = corr; postings = [] }
copied_ids k none none = refl
copied_ids k none (some b) = refl
copied_ids k (some a) none = refl
copied_ids k (some a) (some b) = refl

-- A balanced entry can always be reversed under a key that is accepted: the reversal has its
-- ids of cause and correlation, and its postings with debits and credits exchanged.
pub reverse_total :
    (e : BalancedEntry) (key k : String)
    → IsBalanced e.postings
    → new_key key ≡ ok k
    → reverse e key ≡ ok (reversal_of e k)
unfolding reverse
reverse_total e key k h named =
    rw (named, copied_ids, push_flipped_lem)
      (build_complete
        (record {
          idempotency_key = k;
          causation_id = e.causation_id;
          correlation_id = e.correlation_id;
          postings = map flip_posting e.postings;
        })
        (flip-IsBalanced e.postings h))

-- The builder lets an entry through just if it has the builder's contents and its postings are
-- balanced: there are some, all of positive amounts in one currency, whose debits and credits
-- are equal and fit an `i128`.
pub build_iff :
    (b : EntryBuilder) (e : BalancedEntry)
    → (build b ≡ ok e) ↔ ((e ≡ entry_of b) × IsBalanced b.postings)
build_iff b e = (build_sound b e, λ h. build_complete b h.1 ∙ ap ok (sym h.0))
