-- ===== src/Audit/Binding.antt =====
-- crates/domain/audit/src/lib.rs: the last hash binds every row before it.
use Prim.Native.String.{String}
use shinrai_trade.Common.{
  true, ◌≡◌, ◌≢◌, ◌⊎◌, inl, inr, refl, sym, ap, ◌∙◌, arith, List, [], ◌∷◌, ◌++◌, length, string_eq,
}
use shinrai_trade.Audit.Record.{
  AuditRecord, Bytes, content, compute_content_hash, as_bytes, hex_encode, text_bytes, id_bytes,
  to_be_bytes, name, detail,
}
use shinrai_trade.Audit.Log.{genesis_hash, AuditLog, expected_hash, verify_rows, verify_chain}
use shinrai_trade.Audit.Chain.{end_hash}
use shinrai_trade.Audit.Digits.{same_or_other, ends_equal, length-hex_encode}

-- What the hash of a row is taken of.
abbrev pub content_of : AuditRecord → Bytes
content_of r = content r.seq r.at r.account_id r.order_id r.kind r.correlation_id r.prev_hash

-- At one place of the two lists stand different texts of bytes with the same digest.
abbrev pub Collision : (Bytes → Bytes) → List Bytes → List Bytes → Type 0
Collision sha256 [] ys = ⊥
Collision sha256 (x ∷ xs) [] = ⊥
Collision sha256 (x ∷ xs) (y ∷ ys) =
    ((x ≢ y) × (as_bytes (hex_encode (sha256 x)) ≡ as_bytes (hex_encode (sha256 y))))
    ⊎ Collision sha256 xs ys

unfoldable pub contents : List AuditRecord → List Bytes
contents [] = []
contents (r ∷ rs) = content_of r ∷ contents rs

verify_rows_inv :
    (sha256 : Bytes → Bytes) (prev : String) (r : AuditRecord) (rs : List AuditRecord)
    → verify_rows sha256 prev (r ∷ rs) ≡ true
    → (r.prev_hash ≡ prev)
      × (r.content_hash ≡ hex_encode (sha256 (content_of r)))
      × (verify_rows sha256 r.content_hash rs ≡ true)
unfolding verify_rows compute_content_hash
verify_rows_inv sha256 prev r rs h = ground (
  arith,
  string_eq.beq_iff r.prev_hash prev,
  string_eq.beq_iff (expected_hash sha256 r) r.content_hash,
)

-- The bytes of the hash before end a row's content.
content-prev_hash :
    (q r : AuditRecord)
    → length (as_bytes q.prev_hash) ≡ length (as_bytes r.prev_hash)
    → content_of q ≡ content_of r
    → as_bytes q.prev_hash ≡ as_bytes r.prev_hash
unfolding content
content-prev_hash q r same h =
    ends_equal
      (to_be_bytes q.seq
        ++ to_be_bytes q.at
        ++ id_bytes q.account_id
        ++ id_bytes q.order_id
        ++ as_bytes (name q.kind)
        ++ text_bytes (detail q.kind)
        ++ text_bytes q.correlation_id)
      (to_be_bytes r.seq
        ++ to_be_bytes r.at
        ++ id_bytes r.account_id
        ++ id_bytes r.order_id
        ++ as_bytes (name r.kind)
        ++ text_bytes (detail r.kind)
        ++ text_bytes r.correlation_id)
      (as_bytes q.prev_hash) (as_bytes r.prev_hash) same h

module _ (sha256 : Bytes → Bytes) (full : (bs : Bytes) → length (sha256 bs) ≡ 32) where
  length-hash :
      (r : AuditRecord)
      → r.content_hash ≡ hex_encode (sha256 (content_of r))
      → length (as_bytes r.content_hash) ≡ 64
  length-hash r h =
      ap (λ x. length (as_bytes x)) h
      ∙ ground (arith, length-hex_encode (sha256 (content_of r)), full (content_of r))

  rows_bound :
      (p p' : String) (rs rs' : List AuditRecord)
      → length (as_bytes p) ≡ length (as_bytes p')
      → verify_rows sha256 p rs ≡ true
      → verify_rows sha256 p' rs' ≡ true
      → length rs ≡ length rs'
      → as_bytes (end_hash p rs) ≡ as_bytes (end_hash p' rs')
      → ((as_bytes p ≡ as_bytes p') × (contents rs ≡ contents rs'))
        ⊎ Collision sha256 (contents rs) (contents rs')
  unfolding end_hash contents
  rows_bound p p' [] [] even h h' n tip = inl (tip, refl)
  rows_bound p p' [] (r ∷ rs) even h h' n tip = ground arith
  rows_bound p p' (r ∷ rs) [] even h h' n tip = ground arith
  rows_bound p p' (q ∷ qs) (r ∷ rs) even h h' n tip =
      let (back, own, rest) = verify_rows_inv sha256 p q qs h in
      let (back', own', rest') = verify_rows_inv sha256 p' r rs h' in
      let even' = length-hash q own ∙ sym (length-hash r own') in
      elim (rows_bound q.content_hash r.content_hash qs rs even' rest rest' (omega arith) tip) [
        | inr found ↦ inr (inr found)
        | inl (hashes, later) ↦ elim (same_or_other (content_of q) (content_of r)) [
          | inr differ ↦ inr (inl (differ, ap as_bytes (sym own) ∙ hashes ∙ ap as_bytes own'))
          | inl same ↦
              let level =
                ap (λ x. length (as_bytes x)) back
                ∙ even
                ∙ ap (λ x. length (as_bytes x)) (sym back') in
              let before = content-prev_hash q r level same in
              inl (ap as_bytes (sym back) ∙ before ∙ ap as_bytes back', (λ i. same i ∷ later i))
        ]
      ]

  -- Under a digest of 32 bytes: two audit logs that verify, have as many rows and end in the
  -- same hash have row by row the same hashed bytes, or at one place the hashed bytes of their
  -- two rows differ and have the same digest in hexadecimal.
  pub verify_chain-contents :
      (l m : AuditLog)
      → verify_chain sha256 l ≡ true
      → verify_chain sha256 m ≡ true
      → length l.records ≡ length m.records
      → end_hash genesis_hash l.records ≡ end_hash genesis_hash m.records
      → (contents l.records ≡ contents m.records)
        ⊎ Collision sha256 (contents l.records) (contents m.records)
  unfolding verify_chain
  verify_chain-contents l m h h' n tip =
      elim (rows_bound genesis_hash genesis_hash l.records m.records refl h h' n
        (ap as_bytes tip)) [ inl (same, rows) ↦ inl rows | inr found ↦ inr found ]
