-- ===== src/Audit/Record.antt =====
-- crates/domain/audit/src/lib.rs: the rows of the trail and the hash of one. SHA-256 comes from
-- the crate `sha2`: it is a parameter, from bytes to bytes.
use Prim.Native.Char.{Char, code}
use Prim.Native.String.{String, char_at}
use shinrai_trade.Common.{
  ℕ, ◌+◌, ◌/◌, ◌%◌, ◌^◌, Option, none, some, List, [], ◌∷◌, ◌++◌, if◌then◌else◌, ltb,
}
use shinrai_trade.Ledger.Entry.{AccountId}
use shinrai_trade.Orders.Status.{OrderId}

-- A field of text is what the source names `code`, `status`, `exec_type` or `key`.
pub data AuditKind : Type 0 where
  order_submit_requested : AuditKind
  risk_rejected : String → AuditKind
  order_created order_duplicate : AuditKind
  order_event_applied : String → AuditKind
  ledger_reserved ledger_settled ledger_released venue_submitted : AuditKind
  venue_report funds_deposit funds_withdraw : String → AuditKind

unfoldable pub name : AuditKind → String
name AuditKind.order_submit_requested = "order_submit_requested"
name (AuditKind.risk_rejected code) = "risk_rejected"
name AuditKind.order_created = "order_created"
name AuditKind.order_duplicate = "order_duplicate"
name (AuditKind.order_event_applied status) = "order_event_applied"
name AuditKind.ledger_reserved = "ledger_reserved"
name AuditKind.ledger_settled = "ledger_settled"
name AuditKind.ledger_released = "ledger_released"
name AuditKind.venue_submitted = "venue_submitted"
name (AuditKind.venue_report exec_type) = "venue_report"
name (AuditKind.funds_deposit key) = "funds_deposit"
name (AuditKind.funds_withdraw key) = "funds_withdraw"

unfoldable pub detail : AuditKind → Option String
detail (AuditKind.risk_rejected code) = some code
detail (AuditKind.order_event_applied status) = some status
detail (AuditKind.venue_report exec_type) = some exec_type
detail (AuditKind.funds_deposit key) = some key
detail (AuditKind.funds_withdraw key) = some key
detail _ = none

pub record AuditRecord : Type 0 where
  pub seq : ℕ
  pub at : ℕ
  pub account_id : Option AccountId
  pub order_id : Option OrderId
  pub kind : AuditKind
  pub correlation_id : Option String
  pub prev_hash : String
  pub content_hash : String

abbrev pub Bytes : Type 0
Bytes = List ℕ

-- `u64::to_be_bytes`
unfoldable pub to_be_bytes : ℕ → Bytes
to_be_bytes n =
    (n / 2 ^ 56 % 256)
    ∷ (n / 2 ^ 48 % 256)
    ∷ (n / 2 ^ 40 % 256)
    ∷ (n / 2 ^ 32 % 256)
    ∷ (n / 2 ^ 24 % 256)
    ∷ (n / 2 ^ 16 % 256)
    ∷ (n / 2 ^ 8 % 256)
    ∷ (n % 256)
    ∷ []

-- The UTF-8 of a scalar value.
unfoldable pub utf8 : ℕ → Bytes
utf8 c =
    if ltb c 128
    then c ∷ []
    else if ltb c 2048
    then (192 + c / 64) ∷ (128 + c % 64) ∷ []
    else if ltb c 65536
    then (224 + c / 4096) ∷ (128 + c / 64 % 64) ∷ (128 + c % 64) ∷ []
    else (240 + c / 262144) ∷ (128 + c / 4096 % 64) ∷ (128 + c / 64 % 64) ∷ (128 + c % 64) ∷ []

-- `as_bytes`
unfoldable pub as_bytes : String → Bytes
unfolding utf8
as_bytes String.[] = []
as_bytes (String.◌∷◌ c s) = utf8 (code c) ++ as_bytes s

-- Two hexadecimal digits for each byte.
abbrev hex_digit : ℕ → Char
hex_digit d = char_at "0123456789abcdef" d

unfoldable pub hex_encode : Bytes → String
hex_encode [] = String.[]
hex_encode (b ∷ bs) =
    String.◌∷◌ (hex_digit (b / 16)) (String.◌∷◌ (hex_digit (b % 16)) (hex_encode bs))

-- `map_or([0; 8], ..)` of an identifier.
abbrev pub id_bytes : Option ℕ → Bytes
id_bytes none = 0 ∷ 0 ∷ 0 ∷ 0 ∷ 0 ∷ 0 ∷ 0 ∷ 0 ∷ []
id_bytes (some i) = to_be_bytes i

-- `if let Some(..)` before an update of the hash.
abbrev pub text_bytes : Option String → Bytes
text_bytes none = []
text_bytes (some s) = as_bytes s

-- What the hash is taken of, in the order of the updates.
unfoldable pub content :
    ℕ → ℕ → Option AccountId → Option OrderId → AuditKind → Option String → String → Bytes
unfolding to_be_bytes as_bytes name detail
content seq at account_id order_id kind correlation_id prev_hash =
    to_be_bytes seq
    ++ to_be_bytes at
    ++ id_bytes account_id
    ++ id_bytes order_id
    ++ as_bytes (name kind)
    ++ text_bytes (detail kind)
    ++ text_bytes correlation_id
    ++ as_bytes prev_hash

unfoldable pub compute_content_hash :
    (Bytes → Bytes)
    → ℕ
    → ℕ
    → Option AccountId
    → Option OrderId
    → AuditKind
    → Option String
    → String
    → String
unfolding content hex_encode
compute_content_hash sha256 seq at account_id order_id kind correlation_id prev_hash =
    hex_encode (sha256 (content seq at account_id order_id kind correlation_id prev_hash))
