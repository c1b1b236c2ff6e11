-- ===== src/Approvals.antt =====
-- infrastructure/approval_store.py: approvals on disk, with an audit of every change. `at` is the clock.
-- The file is read back as it was written, and `none` is an exception.
pub mod Audit
pub mod Keys
pub mod Told
mod Tests
use reus.Prelude.{
  ℕ, Bool, true, false, not, String, Option, none, some, List, [], ◌∷◌, ◌++◌, leb, str_eq,
  if◌then◌else◌,
}
use reus.Prelude.Sets.{contains}
use reus.Prelude.Dict.{Dict, get, put, has, values}

pub record ApprovalRecord : Type 0 where
  pub approval_id : String
  pub description : String
  pub requested_by_chat_id : String
  pub created_at : ℕ
  pub expires_at : ℕ
  pub status : String
  pub final_reason : String

-- The file of the records: not there, not of the expected shape, or the array of the records.
pub data RecordsFile : Type 0 where
  missing invalid : RecordsFile
  records_of : List ApprovalRecord → RecordsFile

-- A line of the audit file.
pub record AuditEvent : Type 0 where
  pub event : String
  pub at : ℕ
  pub approval_id : String
  pub requested_by_chat_id : String
  pub status : String
  pub reason : String

pub record FileApprovalStore : Type 0 where
  pub records : Dict ApprovalRecord
  pub file : RecordsFile
  pub audit : List AuditEvent

-- `{record["approval_id"]: … for record in records}`
unfoldable pub by_id : List ApprovalRecord → Dict ApprovalRecord → Dict ApprovalRecord
by_id [] d = d
by_id (r ∷ rs) d = by_id rs (put r.approval_id r d)

-- The constructor, over the files that it finds.
unfoldable pub load : RecordsFile → List AuditEvent → Option FileApprovalStore
load missing audit = some (record { records = []; file = missing; audit = audit })
load invalid audit = none
load (records_of rs) audit =
    some (record { records = by_id rs []; file = records_of rs; audit = audit })

-- `_save`
unfoldable pub save : FileApprovalStore → FileApprovalStore
save s = record s { file = records_of (values s.records) }

unfoldable pub audit_line : String → ℕ → ApprovalRecord → AuditEvent
audit_line event at r = record {
  event = event;
  at = at;
  approval_id = r.approval_id;
  requested_by_chat_id = r.requested_by_chat_id;
  status = r.status;
  reason = r.final_reason;
}

-- `_audit`, for each of some records
unfoldable pub audit_lines : String → ℕ → List ApprovalRecord → List AuditEvent
audit_lines event at [] = []
audit_lines event at (r ∷ rs) = audit_line event at r ∷ audit_lines event at rs

unfoldable pub audit_each : String → ℕ → List ApprovalRecord → FileApprovalStore → FileApprovalStore
audit_each event at rs s = record s { audit = s.audit ++ audit_lines event at rs }

unfoldable pub create : ApprovalRecord → (at : ℕ) → FileApprovalStore → Option FileApprovalStore
create r at s =
    if has r.approval_id s.records
    then none
    else some (
        audit_each "created" at (r ∷ [])
          (save (record s { records = put r.approval_id r s.records })))

unfoldable pub settled : (status reason : String) → ApprovalRecord → ApprovalRecord
settled status reason r = record r { status = status; final_reason = reason }

unfoldable pub move :
    String
    → (status reason : String) → (allowed_from : List String) → ℕ
    → Option ApprovalRecord
    → FileApprovalStore
    → FileApprovalStore × Option ApprovalRecord
move id status reason allowed_from at none s = (s, none)
move id status reason allowed_from at (some r) s =
    let m = settled status reason r in
    if contains allowed_from r.status
    then (audit_each status at (m ∷ []) (save (record s { records = put id m s.records })), some m)
    else (s, none)

unfoldable pub transition :
    String
    → (status reason : String) → (allowed_from : List String) → (at : ℕ) → FileApprovalStore
    → FileApprovalStore × Option ApprovalRecord
transition id status reason allowed_from at s =
    move id status reason allowed_from at (get id s.records) s

-- The two loops over the records, which change those that are chosen.
unfoldable pub sweep :
    (ApprovalRecord → Bool) → (status reason : String) → Dict ApprovalRecord → Dict ApprovalRecord
sweep chosen status reason [] = []
sweep chosen status reason ((id, r) ∷ d) =
    (id, if chosen r then settled status reason r else r) ∷ sweep chosen status reason d

unfoldable pub swept :
    (ApprovalRecord → Bool) → (status reason : String) → Dict ApprovalRecord → List ApprovalRecord
swept chosen status reason [] = []
swept chosen status reason ((id, r) ∷ d) =
    let rest = swept chosen status reason d in
    if chosen r then settled status reason r ∷ rest else rest

unfoldable pub close_all :
    String → ℕ → List ApprovalRecord → FileApprovalStore → FileApprovalStore × List ApprovalRecord
close_all event at [] s = (s, [])
close_all event at (r ∷ rs) s = (audit_each event at (r ∷ rs) (save s), r ∷ rs)

unfoldable pub close :
    (ApprovalRecord → Bool)
    → (status reason : String) → ℕ
    → FileApprovalStore
    → FileApprovalStore × List ApprovalRecord
close chosen status reason at s =
    close_all status at (swept chosen status reason s.records)
      (record s { records = sweep chosen status reason s.records })

unfoldable pub is_pending : ApprovalRecord → Bool
is_pending r = str_eq r.status "pending"

unfoldable pub is_due : (now : ℕ) → ApprovalRecord → Bool
is_due now r = if is_pending r then leb r.expires_at now else false

unfoldable pub expire_due :
    (now at : ℕ) → FileApprovalStore → FileApprovalStore × List ApprovalRecord
expire_due now at s = close (is_due now) "expired" "approval TTL elapsed" at s

unfoldable pub cancel_unrecoverable_after_restart :
    (at : ℕ) → FileApprovalStore → FileApprovalStore × List ApprovalRecord
cancel_unrecoverable_after_restart at s =
    close is_pending "cancelled_restart"
      "process restarted; execution callback was deliberately not restored" at s
