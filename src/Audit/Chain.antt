-- ===== src/Audit/Chain.antt =====
-- crates/domain/audit/src/lib.rs: a log that `record` fills verifies, and survives a restart.
use Prim.Native.String.{String}
use shinrai_trade.Common.{
  ℕ, zero, suc, ◌+◌, ◌-◌, ◌<◌, true, false, ◌≡◌, ◌⊎◌, inl, inr, refl, sym, ap, ◌∙◌, arith, Option,
  List, [], ◌∷◌, ◌++◌, length, length-append, take, drop, ltb, nat_eq, string_eq, Bool-cases,
}
use shinrai_trade.Common.Text.{is_empty_text}
use shinrai_trade.Ledger.Entry.{AccountId}
use shinrai_trade.Orders.Status.{OrderId}
use shinrai_trade.Audit.Record.{
  AuditKind, AuditRecord, Bytes, compute_content_hash, content, hex_encode,
}
use shinrai_trade.Audit.Log.{
  genesis_hash, u64_max, AuditLog, new_log, next_seq_after, row_of, append_record, verify_rows,
  page_after, max_seq,
}

-- The hash that the next row points back to.
unfoldable pub end_hash : String → List AuditRecord → String
end_hash prev [] = prev
end_hash prev (r ∷ rs) = end_hash r.content_hash rs

-- Sequence numbers that go on from `n` one by one.
abbrev pub IsNumbered : ℕ → List AuditRecord → Type 0
IsNumbered n [] = Unit
IsNumbered n (r ∷ rs) = (r.seq ≡ suc n) × IsNumbered (suc n) rs

IsNumbered-append :
    (n : ℕ) (rs : List AuditRecord) (r : AuditRecord)
    → IsNumbered n rs
    → r.seq ≡ suc (n + length rs)
    → IsNumbered n (rs ++ r ∷ [])
IsNumbered-append n [] r k h = (omega arith, tt)
IsNumbered-append n (q ∷ qs) r (same, k) h = (same, IsNumbered-append (suc n) qs r k (omega arith))

end_hash-append :
    (prev : String) (rs : List AuditRecord) (r : AuditRecord)
    → end_hash prev (rs ++ r ∷ []) ≡ r.content_hash
unfolding end_hash
end_hash-append prev [] r = refl
end_hash-append prev (q ∷ qs) r = end_hash-append q.content_hash qs r

drop-nil : (n : ℕ) → drop {A = AuditRecord} n [] ≡ []
unfolding drop
drop-nil zero = refl
drop-nil (suc n) = refl

-- A page of rows is a slice of them.
pub page_after_lem :
    (after_seq limit n : ℕ) (rs : List AuditRecord)
    → IsNumbered n rs
    → page_after after_seq limit rs ≡ take limit (drop (after_seq - n) rs)
unfolding page_after take drop
page_after_lem after_seq zero n [] k = refl
page_after_lem after_seq (suc limit) n [] k = rw (drop-nil (after_seq - n)) refl
page_after_lem after_seq zero n (r ∷ rs) k = refl
page_after_lem after_seq (suc limit) n (r ∷ rs) (same, k) =
    elim (Bool-cases (ltb after_seq r.seq)) [
      | inl later ↦
          let start : after_seq - n ≡ 0 = ground arith in
          let next : after_seq - suc n ≡ 0 = ground arith in
          let rest = page_after_lem after_seq limit (suc n) rs k in
          rw later (rw start (ap (λ x. r ∷ x) (rest ∙ ap (λ x. take limit (drop x rs)) next)))
      | inr earlier ↦
          let start : after_seq - n ≡ suc (after_seq - suc n) = ground arith in
          rw earlier (rw start (page_after_lem after_seq (suc limit) (suc n) rs k))
    ]

-- The largest number is the last.
pub max_seq_lem :
    (n : ℕ) (rs : List AuditRecord) → IsNumbered n rs → (rs ≡ []) ⊎ (max_seq rs ≡ n + length rs)
unfolding max_seq
max_seq_lem n [] k = inl refl
max_seq_lem n (r ∷ []) (same, k) = inr (ground arith)
max_seq_lem n (r ∷ q ∷ qs) (same, k) = inr (ground (arith, max_seq_lem (suc n) (q ∷ qs) k))

some_text : (bs : Bytes) → length bs ≡ 32 → is_empty_text (hex_encode bs) ≡ false
unfolding hex_encode
some_text [] h = ground arith
some_text (b ∷ bs) h = refl

module _ (sha256 : Bytes → Bytes) where
  -- What holds of a log between two calls.
  pub record IsChained (l : AuditLog) : Type 0 where
    pub verified : verify_rows sha256 genesis_hash l.records ≡ true
    pub tip : l.last_hash ≡ end_hash genesis_hash l.records
    pub numbered : IsNumbered 0 l.records
    pub counted : l.next_seq ≡ length l.records

  verify_rows-append :
      (prev : String) (rs : List AuditRecord) (r : AuditRecord)
      → verify_rows sha256 prev rs ≡ true
      → verify_rows sha256 (end_hash prev rs) (r ∷ []) ≡ true
      → verify_rows sha256 prev (rs ++ r ∷ []) ≡ true
  unfolding verify_rows end_hash
  verify_rows-append prev [] r h k = k
  verify_rows-append prev (q ∷ qs) r h k = ground (arith, verify_rows-append q.content_hash qs r)

  pub new_log-IsChained : IsChained new_log
  unfolding verify_rows end_hash
  new_log-IsChained = record { verified = refl; tip = refl; numbered = tt; counted = refl }

  module _ (full : (bs : Bytes) → length (sha256 bs) ≡ 32) where
    compute_content_hash-full :
        (seq at : ℕ) (a : Option AccountId) (o : Option OrderId) (kind : AuditKind)
        (c : Option String) (prev : String)
        → is_empty_text (compute_content_hash sha256 seq at a o kind c prev) ≡ false
    unfolding compute_content_hash hex_encode
    compute_content_hash-full seq at a o kind c prev =
        some_text (sha256 (content seq at a o kind c prev)) (full (content seq at a o kind c prev))

    row-verified :
        (l : AuditLog) (prev : String) (at : ℕ) (a : Option AccountId) (o : Option OrderId)
        (kind : AuditKind)
        → l.last_hash ≡ prev
        → verify_rows sha256 prev (row_of sha256 l at a o kind ∷ []) ≡ true
    unfolding verify_rows row_of
    row-verified l prev at a o kind h =
        let seq = next_seq_after l.next_seq in
        let hash = compute_content_hash sha256 seq at a o kind l.correlation_id l.last_hash in
        ground (
          arith,
          compute_content_hash-full seq at a o kind l.correlation_id l.last_hash,
          string_eq.beq_iff hash hash,
          string_eq.beq_iff l.last_hash prev,
        )

    -- Under a digest of 32 bytes: a row recorded below the last sequence number keeps the log
    -- chained: its rows verify from the genesis hash, are numbered from 1 without a gap, the
    -- log's last hash is that of the last row, and its last number the number of rows.
    pub append_record-IsChained :
        (l : AuditLog) (at : ℕ) (a : Option AccountId) (o : Option OrderId) (kind : AuditKind)
        → IsChained l
        → l.next_seq < u64_max
        → IsChained (append_record sha256 l at a o kind).1
    unfolding append_record
    append_record-IsChained l at a o kind c room = record {
      verified =
          verify_rows-append genesis_hash l.records (row_of sha256 l at a o kind) c.verified
            (row-verified l (end_hash genesis_hash l.records) at a o kind c.tip);
      tip = sym (end_hash-append genesis_hash l.records (row_of sha256 l at a o kind));
      numbered =
          IsNumbered-append 0 l.records (row_of sha256 l at a o kind) c.numbered
            (ground (arith, c.counted));
      counted =
          ground (arith, c.counted, length-append l.records (row_of sha256 l at a o kind ∷ []));
    }
