-- ===== src/JoinRequests/Tests.antt =====
-- A request that is approved, and one that comes too late, with a restart in between.
use reus.Prelude.{◌≡◌, refl, some, List, [], ◌∷◌}
use reus.Prelude.Dict.{get, put, has, values}
use reus.JoinRequests.{
  pending, approved, rejected, expired, PendingJoinRequest, records_of, PendingJoinStore,
  is_pending, pending_records, written, persist, appended, audit_event, is_due, load_records,
  persist_loaded, load_from, pending_join_store, expire_each, expire_due, create, get_request,
  list_pending, mark, mark_approved, mark_rejected,
}
use reus.JoinRequests.Runs.{Operation, listed, restarted, rejecting, perform_all}
use reus.JoinRequests.Decided.{decided, Stands, marks-Stands}

program : Unit {0}
unfolding get put has values is_pending pending_records written persist appended audit_event is_due
    load_records persist_loaded load_from pending_join_store expire_each expire_due create
    get_request list_pending mark mark_approved mark_rejected
program = tt

abbrev asked : PendingJoinRequest
asked = record {
  request_id = "peer-1";
  node_id = "n";
  host = "h";
  mtls_port = 8443;
  cert_pem = "c";
  signing_pubkey_hex = "s";
  component_public_key_hex = "k";
  component_created_at = "t";
  status = pending;
  created_at = 100;
}

abbrev store : PendingJoinStore
store = record {
  requests = ("peer-1", asked) ∷ [];
  file = some (records_of (some asked ∷ []));
  audit = some [];
  max_age_seconds = 900;
}

late_is_expired : (mark_approved "peer-1" 1001 store).1 ≡ some (record asked { status = expired })
unfolding program
late_is_expired = refl

after_restart : (list_pending 200 (perform_all (restarted 150 ∷ []) store)).1 ≡ asked ∷ []
unfolding program
after_restart = refl

abbrev later : List Operation
later = rejecting "peer-1" 160 ∷ restarted 170 ∷ listed 180 ∷ []

marks-Stands_example :
    Stands "peer-1" (decided approved 150 900 asked) later (mark_approved "peer-1" 150 store)
    × Stands "peer-1" (decided rejected 150 900 asked) later (mark_rejected "peer-1" 150 store)
unfolding program
marks-Stands_example =
    marks-Stands "peer-1" 150 store asked later (refl, refl, tt) refl refl (tt, (tt, (tt, tt)))
