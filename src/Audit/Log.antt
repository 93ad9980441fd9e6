-- ===== src/Audit/Log.antt =====
-- crates/domain/audit/src/lib.rs: the log and its operations.
use Prim.Native.String.{String}
use shinrai_trade.Common.{
  ℕ, zero, suc, Bool, true, false, Option, none, some, List, [], ◌∷◌, ◌++◌, if◌then◌else◌, ltb, leb,
  ◌==◌, nat_beq, nat_eq, string_eq,
}
use shinrai_trade.Common.Text.{is_empty_text}
use shinrai_trade.Ledger.Entry.{AccountId}
use shinrai_trade.Orders.Status.{OrderId}
use shinrai_trade.Audit.Record.{AuditKind, AuditRecord, Bytes, compute_content_hash}

abbrev pub genesis_hash : String
genesis_hash = "0000000000000000000000000000000000000000000000000000000000000000"

abbrev pub u64_max : ℕ
u64_max = 18446744073709551615

pub record AuditLog : Type 0 where
  pub next_seq : ℕ
  pub records : List AuditRecord
  pub last_hash : String
  pub correlation_id : Option String

-- `AuditLog::new`
abbrev pub new_log : AuditLog
new_log = record { next_seq = 0; records = []; last_hash = genesis_hash; correlation_id = none }

abbrev pub set_correlation_id : AuditLog → Option String → AuditLog
set_correlation_id l correlation = record l { correlation_id = correlation }

-- `saturating_add(1)`
abbrev pub next_seq_after : ℕ → ℕ
next_seq_after n = if ltb n u64_max then suc n else u64_max

-- The row that `record` makes.
unfoldable pub row_of :
    (Bytes → Bytes) → AuditLog → ℕ → Option AccountId → Option OrderId → AuditKind → AuditRecord
unfolding compute_content_hash
row_of sha256 l at account order kind =
    let seq = next_seq_after l.next_seq in
    record {
      seq = seq;
      at = at;
      account_id = account;
      order_id = order;
      kind = kind;
      correlation_id = l.correlation_id;
      prev_hash = l.last_hash;
      content_hash =
          compute_content_hash sha256 seq at account order kind l.correlation_id l.last_hash;
    }

-- `AuditLog::record`
unfoldable pub append_record :
    (Bytes → Bytes)
    → AuditLog
    → ℕ
    → Option AccountId
    → Option OrderId
    → AuditKind
    → AuditRecord × AuditLog
unfolding row_of
append_record sha256 l at account order kind =
    let row = row_of sha256 l at account order kind in
    (
      row,
      record l {
        next_seq = row.seq;
        records = l.records ++ row ∷ [];
        last_hash = row.content_hash;
      },
    )

-- The hash that a row should have.
abbrev pub expected_hash : (Bytes → Bytes) → AuditRecord → String
expected_hash sha256 r =
    compute_content_hash sha256 r.seq r.at r.account_id r.order_id r.kind r.correlation_id
      r.prev_hash

-- The loop of `verify_chain`.
unfoldable pub verify_rows : (Bytes → Bytes) → String → List AuditRecord → Bool
unfolding compute_content_hash
verify_rows sha256 prev [] = true
verify_rows sha256 prev (row ∷ rows) =
    let rest = verify_rows sha256 row.content_hash rows in
    if row.prev_hash == prev
    then if is_empty_text row.content_hash
      then false
      else if expected_hash sha256 row == row.content_hash
      then rest
      else false
    else false

unfoldable pub verify_chain : (Bytes → Bytes) → AuditLog → Bool
unfolding verify_rows
verify_chain sha256 l = verify_rows sha256 genesis_hash l.records

abbrev of_account : AccountId → Option AccountId → Bool
of_account a none = false
of_account a (some b) = nat_beq a b

unfoldable pub for_account : AccountId → List AuditRecord → List AuditRecord
for_account a [] = []
for_account a (r ∷ rs) =
    let rest = for_account a rs in if of_account a r.account_id then r ∷ rest else rest

-- `page_after`: the filter, then `take`.
unfoldable pub page_after : ℕ → ℕ → List AuditRecord → List AuditRecord
page_after after_seq limit [] = []
page_after after_seq zero (r ∷ rs) = []
page_after after_seq (suc limit) (r ∷ rs) =
    let rest = page_after after_seq limit rs in
    let skipped = page_after after_seq (suc limit) rs in
    if ltb after_seq r.seq then r ∷ rest else skipped

-- `max().unwrap_or(0)` of the sequence numbers.
unfoldable pub max_seq : List AuditRecord → ℕ
max_seq [] = 0
max_seq (r ∷ rs) = let m = max_seq rs in if leb r.seq m then m else r.seq

abbrev hash_or_genesis : AuditRecord → String
hash_or_genesis r = if is_empty_text r.content_hash then genesis_hash else r.content_hash

unfoldable pub last_hash_of : List AuditRecord → String
last_hash_of [] = genesis_hash
last_hash_of (r ∷ []) = hash_or_genesis r
last_hash_of (r ∷ s ∷ rs) = last_hash_of (s ∷ rs)

unfoldable pub restore : AuditLog → List AuditRecord → AuditLog
unfolding max_seq last_hash_of
restore l rows = record l { next_seq = max_seq rows; last_hash = last_hash_of rows; records = rows }
