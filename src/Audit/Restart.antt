-- ===== src/Audit/Restart.antt =====
-- crates/domain/audit/src/lib.rs: `restore` of the rows that were recorded.
use Prim.Native.String.{String}
use shinrai_trade.Common.{true, ◌≡◌, refl, sym, ◌∙◌, arith, List, [], ◌∷◌, length, string_eq}
use shinrai_trade.Audit.Record.{AuditRecord, Bytes}
use shinrai_trade.Audit.Log.{genesis_hash, AuditLog, verify_rows, max_seq, last_hash_of, restore}
use shinrai_trade.Audit.Chain.{end_hash, IsNumbered, IsChained, max_seq_lem}

max_seq-IsNumbered : (rs : List AuditRecord) → IsNumbered 0 rs → max_seq rs ≡ length rs
unfolding max_seq
max_seq-IsNumbered [] k = refl
max_seq-IsNumbered (r ∷ rs) k = ground (arith, max_seq_lem 0 (r ∷ rs) k)

last_hash_of-verified :
    (sha256 : Bytes → Bytes) (prev : String) (r : AuditRecord) (rs : List AuditRecord)
    → verify_rows sha256 prev (r ∷ rs) ≡ true
    → last_hash_of (r ∷ rs) ≡ end_hash r.content_hash rs
unfolding verify_rows last_hash_of end_hash
last_hash_of-verified sha256 prev r [] h = ground arith
last_hash_of-verified sha256 prev r (q ∷ qs) h =
    ground (arith, last_hash_of-verified sha256 r.content_hash q qs)

last_hash_of-end_hash :
    (sha256 : Bytes → Bytes) (rs : List AuditRecord)
    → verify_rows sha256 genesis_hash rs ≡ true
    → last_hash_of rs ≡ end_hash genesis_hash rs
unfolding last_hash_of end_hash
last_hash_of-end_hash sha256 [] h = refl
last_hash_of-end_hash sha256 (r ∷ rs) h = last_hash_of-verified sha256 genesis_hash r rs h

-- Any log into which the rows of a chained log are restored becomes that log again, with its
-- own correlation id: the next row gets the next number and points to the last hash.
pub restore-records :
    (sha256 : Bytes → Bytes) (l fresh : AuditLog)
    → IsChained sha256 l
    → restore fresh l.records ≡ record l { correlation_id = fresh.correlation_id }
unfolding restore
restore-records sha256 l fresh c =
    let counted = max_seq-IsNumbered l.records c.numbered ∙ sym c.counted in
    let tip = last_hash_of-end_hash sha256 l.records c.verified ∙ sym c.tip in
    λ i. record {
      next_seq = counted i;
      records = l.records;
      last_hash = tip i;
      correlation_id = fresh.correlation_id;
    }
