-- ===== src/Approvals/Tests.antt =====
-- Two approvals: one is approved, one expires.
use reus.Prelude.{◌≡◌, refl, String, some, List, [], ◌∷◌}
use reus.Prelude.Sets.{contains}
use reus.Prelude.Dict.{get, put, has, values}
use reus.Approvals.{
  ApprovalRecord, by_id, load, save, audit_line, audit_lines, audit_each, create, settled, move,
  transition, sweep, swept, close_all, close, is_pending, is_due, expire_due,
  cancel_unrecoverable_after_restart,
}
use reus.Approvals.Audit.{told, standing}
use reus.Approvals.Told.{
  Operation, created, transitioned, expired, restarted, perform_all, new_store, perform_all-told,
}

program : Unit {0}
unfolding contains get put has values by_id load save audit_line audit_lines audit_each create
    settled move transition sweep swept close_all close is_pending is_due expire_due
    cancel_unrecoverable_after_restart
program = tt

abbrev asked : String → ApprovalRecord
asked id = record {
  approval_id = id;
  description = "deploy";
  requested_by_chat_id = "7";
  created_at = 100;
  expires_at = 400;
  status = "pending";
  final_reason = "";
}

abbrev ops : List Operation
ops =
    created (asked "a") 100
    ∷ created (asked "b") 110
    ∷ created (asked "a") 120
    ∷ transitioned "a" "approved" "" ("pending" ∷ []) 200
    ∷ restarted
    ∷ expired 400 401
    ∷ transitioned "b" "approved" "" ("pending" ∷ []) 410
    ∷ []

where_b_stands :
    told "b" (perform_all ops new_store).audit ≡ some ("expired", "approval TTL elapsed")
unfolding program
where_b_stands = refl

perform_all-told_example :
    ((id : String)
      → told id (perform_all ops new_store).audit
        ≡ standing (get id (perform_all ops new_store).records))
    × (load (perform_all ops new_store).file (perform_all ops new_store).audit
        ≡ some (perform_all ops new_store))
perform_all-told_example = perform_all-told ops
