-- ===== src/JoinRequests.antt =====
-- infrastructure/cluster_network/join_requests.py: requests to join the cluster, which a human approves
-- or rejects. `now` is the clock and `request_id` what `uuid4` draws. A store without a path has no
-- file, and one without an audit path no audit.
pub mod Entries
pub mod Expiry
pub mod Runs
pub mod Known
pub mod Decided
mod Tests
use reus.Prelude.{
  ℕ, ◌+◌, Bool, true, false, not, ◌&&◌, ◌||◌, String, Option, none, some, List, [], ◌∷◌, ◌++◌, ltb,
  if◌then◌else◌, filter_by,
}
use reus.Prelude.Dict.{Dict, get, put, values}

pub data JoinStatus : Type 0 where
  pending approved rejected expired : JoinStatus

pub record PendingJoinRequest : Type 0 where
  pub request_id : String
  pub node_id : String
  pub host : String
  pub mtls_port : ℕ
  pub cert_pem : String
  pub signing_pubkey_hex : String
  pub component_public_key_hex : String
  pub component_created_at : String
  pub status : JoinStatus
  pub created_at : ℕ

-- The file: not there or no JSON array, or its records, where one of the wrong shape is `none`.
pub data JoinFile : Type 0 where
  missing invalid : JoinFile
  records_of : List (Option PendingJoinRequest) → JoinFile

pub record AuditRecord : Type 0 where
  pub event : String
  pub at : ℕ
  pub request_id : String
  pub node_id : String
  pub host : String
  pub mtls_port : ℕ
  pub status : JoinStatus
  pub reason : String

pub record PendingJoinStore : Type 0 where
  pub requests : Dict PendingJoinRequest
  pub file : Option JoinFile
  pub audit : Option (List AuditRecord)
  pub max_age_seconds : ℕ

unfoldable pub is_pending : JoinStatus → Bool
is_pending pending = true
is_pending _ = false

unfoldable pub pending_records : List PendingJoinRequest → List (Option PendingJoinRequest)
pending_records [] = []
pending_records (r ∷ rs) =
    let rest = pending_records rs in if is_pending r.status then some r ∷ rest else rest

-- `_persist`
unfoldable pub written : Dict PendingJoinRequest → Option JoinFile → Option JoinFile
written requests none = none
written requests (some f) = some (records_of (pending_records (values requests)))

unfoldable pub persist : PendingJoinStore → PendingJoinStore
persist s = record s { file = written s.requests s.file }

-- `_audit`
unfoldable pub appended :
    String → PendingJoinRequest → String → ℕ → Option (List AuditRecord) → Option (List AuditRecord)
appended event r reason now none = none
appended event r reason now (some lines) = some (
    lines
    ++ record {
      event = event;
      at = now;
      request_id = r.request_id;
      node_id = r.node_id;
      host = r.host;
      mtls_port = r.mtls_port;
      status = r.status;
      reason = reason;
    }
      ∷ [])

unfoldable pub audit_event :
    String → PendingJoinRequest → String → ℕ → PendingJoinStore → PendingJoinStore
audit_event event r reason now s = record s { audit = appended event r reason now s.audit }

unfoldable pub is_due : (now max_age : ℕ) → PendingJoinRequest → Bool
is_due now max_age r = is_pending r.status && ltb (r.created_at + max_age) now

-- The loop of `_load`; `none` is a TypeError, after which no request is kept.
unfoldable pub load_records :
    ℕ → List (Option PendingJoinRequest) → PendingJoinStore → PendingJoinStore × Bool
load_records now [] s = (s, true)
load_records now (none ∷ records) s = (record s { requests = [] }, false)
load_records now (some r ∷ records) s =
    if is_due now s.max_age_seconds r
    then (let e = record r { status = expired } in
        load_records now records (
          audit_event "expired" e "join request TTL elapsed during restart" now
            (record s { requests = put r.request_id e s.requests })))
    else if is_pending r.status
    then load_records now records (record s { requests = put r.request_id r s.requests })
    else load_records now records s

unfoldable pub persist_loaded : PendingJoinStore × Bool → PendingJoinStore
persist_loaded (s, true) = persist s
persist_loaded (s, false) = s

unfoldable pub load_from : ℕ → Option JoinFile → PendingJoinStore → PendingJoinStore
load_from now (some (records_of records)) s = persist_loaded (load_records now records s)
load_from now _ s = s

-- The constructor, over the files that an earlier process left; `none` is a ValueError.
unfoldable pub pending_join_store :
    Option JoinFile
    → Option (List AuditRecord)
    → (max_age_seconds now : ℕ) → Option PendingJoinStore
pending_join_store file audit max_age now =
    if ltb 0 max_age
    then some (
        load_from now file
          (record { requests = []; file = file; audit = audit; max_age_seconds = max_age }))
    else none

-- The loop of `_expire_due`, and whether it changed a request.
unfoldable pub expire_each :
    (now max_age : ℕ)
    → Dict PendingJoinRequest
    → Option (List AuditRecord)
    → Dict PendingJoinRequest × Option (List AuditRecord) × Bool
expire_each now max_age [] audit = ([], audit, false)
expire_each now max_age ((id, r) ∷ requests) audit =
    let e = record r { status = expired } in
    let due = is_due now max_age r in
    let lines =
      (if due then appended "expired" e "join request TTL elapsed" now audit else audit) in
    let (rest, audit', changed) = expire_each now max_age requests lines in
    ((id, if due then e else r) ∷ rest, audit', due || changed)

-- `_expire_due`
unfoldable pub expire_due : ℕ → PendingJoinStore → PendingJoinStore
expire_due now s =
    let (requests, audit, changed) = expire_each now s.max_age_seconds s.requests s.audit in
    let m = record s { requests = requests; audit = audit } in if changed then persist m else m

unfoldable pub create :
    PendingJoinRequest → (now : ℕ) → PendingJoinStore → PendingJoinStore × PendingJoinRequest
create request now s =
    let r = record request { status = pending; created_at = now } in
    (
      audit_event "requested" r "" now
          (persist (record s { requests = put r.request_id r s.requests })),
      r,
    )

unfoldable pub get_request :
    String → (now : ℕ) → PendingJoinStore → PendingJoinStore × Option PendingJoinRequest
get_request id now s = let m = expire_due now s in (m, get id m.requests)

unfoldable pub list_pending :
    (now : ℕ) → PendingJoinStore → PendingJoinStore × List PendingJoinRequest
list_pending now s =
    let m = expire_due now s in
    (m, filter_by (λ (r : PendingJoinRequest). is_pending r.status) (values m.requests))

-- The end of `mark_approved` and `mark_rejected`.
unfoldable pub mark :
    JoinStatus
    → String
    → String
    → ℕ
    → Option PendingJoinRequest
    → PendingJoinStore
    → PendingJoinStore × Option PendingJoinRequest
mark status event id now none s = (s, none)
mark status event id now (some r) s =
    let m = record r { status = status } in
    if is_pending r.status
    then (
      audit_event event m "" now (persist (record s { requests = put id m s.requests })),
      some m,
    )
    else (s, some r)

unfoldable pub mark_approved :
    String → (now : ℕ) → PendingJoinStore → PendingJoinStore × Option PendingJoinRequest
mark_approved id now s =
    let m = expire_due now s in mark approved "approved" id now (get id m.requests) m

unfoldable pub mark_rejected :
    String → (now : ℕ) → PendingJoinStore → PendingJoinStore × Option PendingJoinRequest
mark_rejected id now s =
    let m = expire_due now s in mark rejected "rejected" id now (get id m.requests) m
