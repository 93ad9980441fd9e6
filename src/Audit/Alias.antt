-- ===== src/Audit/Alias.antt =====
-- crates/domain/audit/src/lib.rs: what the hash of a row leaves open.
use Prim.Native.Char.{code}
use Prim.Native.String.{String, ◌++◌ as ◌+++◌}
use Prim.Native.String.append.{nil, cons}
use mathlib.Core.List.{append_assoc, append-nil}
use shinrai_trade.Common.{
  false, ◌≡◌, refl, sym, ap, ◌∙◌, none, some, List, [], ◌∷◌, ◌++◌, if◌then◌else◌, ◌==◌, string_eq,
}
use shinrai_trade.Common.Text.{is_empty_text}
use shinrai_trade.Audit.Record.{
  AuditKind, AuditRecord, Bytes, content, compute_content_hash, as_bytes, to_be_bytes, id_bytes,
  hex_encode, utf8,
}
use shinrai_trade.Audit.Log.{verify_rows, expected_hash}

as_bytes-append : (s t : String) → as_bytes (s +++ t) ≡ as_bytes s ++ as_bytes t
unfolding as_bytes
as_bytes-append String.[] t = ap as_bytes (nil t)
as_bytes-append (String.◌∷◌ c s) t =
    ap as_bytes (cons c s t)
    ∙ ap (λ x. utf8 (code c) ++ x) (as_bytes-append s t)
    ∙ sym (append_assoc (utf8 (code c)) (as_bytes s) (as_bytes t))

-- Rows that differ in other fields than their hashes.
verify_rows-same :
    (sha256 : Bytes → Bytes) (prev : String) (rs ss : List AuditRecord) (q r : AuditRecord)
    → q.prev_hash ≡ r.prev_hash
    → q.content_hash ≡ r.content_hash
    → expected_hash sha256 q ≡ expected_hash sha256 r
    → verify_rows sha256 prev (rs ++ q ∷ ss) ≡ verify_rows sha256 prev (rs ++ r ∷ ss)
unfolding verify_rows
verify_rows-same sha256 prev [] ss q r back own hash = λ i.
    if back i == prev
    then if is_empty_text (own i)
      then false
      else if hash i == own i
      then verify_rows sha256 (own i) ss
      else false
    else false
verify_rows-same sha256 prev (p ∷ ps) ss q r back own hash =
    rw (verify_rows-same sha256 p.content_hash ps ss q r back own hash) refl

-- An unknown account, and account 0.
verify_rows-account :
    (sha256 : Bytes → Bytes) (prev : String) (rs ss : List AuditRecord) (r : AuditRecord)
    → verify_rows sha256 prev (rs ++ record r { account_id = none } ∷ ss)
      ≡ verify_rows sha256 prev (rs ++ record r { account_id = some 0 } ∷ ss)
unfolding compute_content_hash content to_be_bytes
verify_rows-account sha256 prev rs ss r =
    verify_rows-same sha256 prev rs ss (record r { account_id = none })
      (record r { account_id = some 0 }) refl refl refl

-- What stands before the texts that can be cut.
abbrev head : AuditRecord → Bytes
head r =
    to_be_bytes r.seq
    ++ to_be_bytes r.at
    ++ id_bytes r.account_id
    ++ id_bytes r.order_id
    ++ as_bytes "order_event_applied"

-- A status and no correlation, or the same text cut in two.
verify_rows-status :
    (sha256 : Bytes → Bytes) (prev : String) (rs ss : List AuditRecord) (r : AuditRecord)
    (s t : String)
    → verify_rows sha256 prev (
        rs
        ++ record r { kind = AuditKind.order_event_applied (s +++ t); correlation_id = none } ∷ ss)
      ≡ verify_rows sha256 prev
          (rs ++ record r { kind = AuditKind.order_event_applied s; correlation_id = some t } ∷ ss)
unfolding compute_content_hash content
verify_rows-status sha256 prev rs ss r s t =
    verify_rows-same sha256 prev rs ss
      (record r { kind = AuditKind.order_event_applied (s +++ t); correlation_id = none })
      (record r { kind = AuditKind.order_event_applied s; correlation_id = some t }) refl refl
      (ap (λ x. hex_encode (sha256 (x ++ as_bytes r.prev_hash)))
        (append-nil (head r ++ as_bytes (s +++ t))
          ∙ ap (λ x. head r ++ x) (as_bytes-append s t)
          ∙ sym (append_assoc (head r) (as_bytes s) (as_bytes t))))

-- Whatever the digest, the check of the chain is blind to two changes of a row: from an
-- unknown account to account 0, and, on an applied order event without correlation id, to
-- moving the end of the status into the correlation id.
pub verify_rows_alias :
    (sha256 : Bytes → Bytes) (prev : String) (rs ss : List AuditRecord) (r : AuditRecord)
    (s t : String)
    → (verify_rows sha256 prev (rs ++ record r { account_id = none } ∷ ss)
        ≡ verify_rows sha256 prev (rs ++ record r { account_id = some 0 } ∷ ss))
      × (verify_rows sha256 prev (
            rs
            ++ record r { kind = AuditKind.order_event_applied (s +++ t); correlation_id = none }
              ∷ ss)
          ≡ verify_rows sha256 prev (
              rs
              ++ record r { kind = AuditKind.order_event_applied s; correlation_id = some t } ∷ ss))
verify_rows_alias sha256 prev rs ss r s t =
    (verify_rows-account sha256 prev rs ss r, verify_rows-status sha256 prev rs ss r s t)
