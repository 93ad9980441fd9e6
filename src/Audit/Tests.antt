-- ===== src/Audit/Tests.antt =====
-- crates/domain/audit/src/lib.rs: runs, and the theorems at a concrete log and digest.
use shinrai_trade.Common.{
  ℕ, zero, suc, ◌+◌, ◌%◌, ◌≡◌, ◌⊎◌, true, false, ◌*◌, refl, arith, none, some, [], ◌∷◌, length,
  string_eq,
}
use shinrai_trade.Audit.Record.{AuditKind, AuditRecord, Bytes}
use shinrai_trade.Audit.Log.{
  AuditLog, genesis_hash, new_log, set_correlation_id, append_record, verify_rows, verify_chain,
  page_after, restore,
}
use shinrai_trade.Audit.Chain.{IsChained, append_record-IsChained, end_hash}
use shinrai_trade.Audit.Restart.{restore-records}
use shinrai_trade.Audit.Binding.{verify_chain-contents, Collision, contents}
use shinrai_trade.Audit.Alias.{verify_rows_alias}

abbrev sum : Bytes → ℕ
sum [] = 7
sum (b ∷ bs) = (3 * sum bs + b) % 256

abbrev copies : ℕ → ℕ → Bytes
copies zero b = []
copies (suc n) b = b ∷ copies n b

-- A digest of 32 bytes to run with.
abbrev toy_digest : Bytes → Bytes
toy_digest bs = copies 32 (sum bs)

toy_digest-full : (bs : Bytes) → length (toy_digest bs) ≡ 32
toy_digest-full bs = refl

abbrev first_log : AuditLog
first_log =
    (append_record toy_digest (set_correlation_id new_log (some "corr-1")) 1 (some 1) none
      AuditKind.order_submit_requested).1

abbrev second_log : AuditLog
second_log = (append_record toy_digest first_log 2 (some 1) (some 9) AuditKind.order_created).1

verify_run : verify_chain toy_digest second_log ≡ true
unfolding verify_chain append_record
verify_run = refl

abbrev some_row : AuditRecord
some_row = (append_record toy_digest new_log 1 none none (AuditKind.order_event_applied "filled")).0

-- A changed time is noticed.
tampered_run :
    (verify_rows toy_digest genesis_hash (some_row ∷ []) ≡ true)
    × (verify_rows toy_digest genesis_hash (record some_row { at = 5 } ∷ []) ≡ false)
unfolding verify_rows append_record
tampered_run = (refl, refl)

page_run : length (page_after 1 10 second_log.records) ≡ 1
unfolding page_after append_record
page_run = refl

append_record-IsChained_example : IsChained toy_digest first_log
unfolding verify_rows end_hash
append_record-IsChained_example =
    append_record-IsChained toy_digest toy_digest-full (set_correlation_id new_log (some "corr-1"))
      1 (some 1) none AuditKind.order_submit_requested
      (record { verified = refl; tip = refl; numbered = tt; counted = refl }) (omega arith)

first_log-IsChained : IsChained toy_digest first_log
unfolding verify_rows append_record end_hash
first_log-IsChained = record { verified = refl; tip = refl; numbered = (refl, tt); counted = refl }

restore-records_example :
    restore new_log first_log.records ≡ record first_log { correlation_id = none }
restore-records_example = restore-records toy_digest first_log new_log first_log-IsChained

-- Two rows, the first at the given time.
abbrev timed_log : ℕ → AuditLog
timed_log at =
    (append_record toy_digest
      (append_record toy_digest new_log at (some 1) none AuditKind.order_submit_requested).1 2
      (some 1) (some 9) AuditKind.order_created).1

-- The digest of these tests does not tell the times 1 and 768 apart.
verify_chain-contents_example :
    (contents (timed_log 1).records ≡ contents (timed_log 768).records)
    ⊎ Collision toy_digest (contents (timed_log 1).records) (contents (timed_log 768).records)
unfolding verify_chain append_record end_hash
verify_chain-contents_example =
    verify_chain-contents toy_digest toy_digest-full (timed_log 1) (timed_log 768) refl refl refl
      refl

verify_rows_alias_example :
    (verify_rows toy_digest genesis_hash (record some_row { account_id = none } ∷ [])
      ≡ verify_rows toy_digest genesis_hash (record some_row { account_id = some 0 } ∷ []))
    × (verify_rows toy_digest genesis_hash (
          record some_row { kind = AuditKind.order_event_applied "filled!"; correlation_id = none }
          ∷ [])
        ≡ verify_rows toy_digest genesis_hash (
            record some_row {
              kind = AuditKind.order_event_applied "filled";
              correlation_id = some "!";
            }
            ∷ []))
verify_rows_alias_example = verify_rows_alias toy_digest genesis_hash [] [] some_row "filled" "!"
