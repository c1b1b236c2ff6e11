-- ===== src/Cluster/States.antt =====
-- `ReplicatedDecisionState`, `ReplicatedTaskLeaseState` and `ReplicatedGovernanceDecisionState` of
-- infrastructure/cluster_network/raft_cluster_node.py.
use reus.Prelude.{
  ℕ, suc, Bool, true, false, ◌&&◌, ◌||◌, String, Option, none, some, List, [], ◌∷◌, leb, ◌==◌,
  str_eq, if◌then◌else◌,
}
use reus.Prelude.Dict.{Dict, get, put}
use reus.RaftStorage.{
  LogEntry, Command, task_assign, task_complete, task_requeue, evidence_publish,
  governance_decision,
}

-- `dict[int, V]`, in insertion order
unfoldable pub put_index {ℓ} : {V : Type ℓ} → ℕ → V → List (ℕ × V) → List (ℕ × V)
put_index i v [] = (i, v) ∷ []
put_index i v ((j, w) ∷ d) = if j == i then (j, v) ∷ d else (j, w) ∷ put_index i v d

pub data LeaseStatus : Type 0 where
  leased completed pending : LeaseStatus

pub record TaskLease : Type 0 where
  pub status : LeaseStatus
  pub assignee : Option String
  pub lease_until : ℕ
  pub attempt : ℕ

pub record Evidence : Type 0 where
  pub summary : String
  pub source_hash : String
  pub confidence : ℕ

pub record Decision : Type 0 where
  pub action : String
  pub status : String
  pub actor_hash : String
  pub subject_hash : String
  pub committed_index : ℕ

-- The three states together, as `_apply_commit` keeps them.
pub record States : Type 0 where
  pub commands : List (ℕ × Command)
  pub tasks : Dict TaskLease
  pub evidence : Dict Evidence
  pub decisions : Dict Decision

abbrev pub new_states : States
new_states = record { commands = []; tasks = []; evidence = []; decisions = [] }

-- What a command makes of the lease of the task that it names.
unfoldable pub completed_lease : String → Option TaskLease → Dict TaskLease → Dict TaskLease
completed_lease id none tasks = tasks
completed_lease id (some t) tasks = put id (record t { status = completed }) tasks

unfoldable pub requeued_lease : String → Option TaskLease → Dict TaskLease → Dict TaskLease
requeued_lease id none tasks = tasks
requeued_lease id (some t) tasks =
    put id (record t { status = pending; assignee = none; lease_until = 0 }) tasks

-- `ReplicatedTaskLeaseState.apply`, the tasks
unfoldable pub apply_task : Command → Dict TaskLease → Dict TaskLease
apply_task (task_assign id assignee lease_until attempt) tasks =
    put id
      (record {
        status = leased;
        assignee = some assignee;
        lease_until = lease_until;
        attempt = attempt;
      })
      tasks
apply_task (task_complete id) tasks = completed_lease id (get id tasks) tasks
apply_task (task_requeue id reason) tasks = requeued_lease id (get id tasks) tasks
apply_task _ tasks = tasks

-- `ReplicatedTaskLeaseState.apply`, the evidence
unfoldable pub apply_evidence : Command → Dict Evidence → Dict Evidence
apply_evidence (evidence_publish id summary source_hash confidence) evidence =
    put id (record { summary = summary; source_hash = source_hash; confidence = confidence })
      evidence
apply_evidence _ evidence = evidence

unfoldable pub is_allowed_status : String → Bool
is_allowed_status s =
    str_eq s "proposed" || str_eq s "approved" || str_eq s "rejected" || str_eq s "executed"

-- `ReplicatedGovernanceDecisionState.apply`
unfoldable pub apply_decision : ℕ → Command → Dict Decision → Dict Decision
apply_decision index (governance_decision id action status actor_hash subject_hash) decisions =
    if is_allowed_status status
    then put id
        (record {
          action = action;
          status = status;
          actor_hash = actor_hash;
          subject_hash = subject_hash;
          committed_index = index;
        })
        decisions
    else decisions
apply_decision index _ decisions = decisions

-- `_apply_commit`
unfoldable pub apply_commit : LogEntry → States → States
apply_commit e s = record {
  commands = put_index e.index e.command s.commands;
  tasks = apply_task e.command s.tasks;
  evidence = apply_evidence e.command s.evidence;
  decisions = apply_decision e.index e.command s.decisions;
}

unfoldable pub apply_commits : List LogEntry → States → States
apply_commits [] s = s
apply_commits (e ∷ es) s = apply_commits es (apply_commit e s)

-- The dict of a snapshot, after it went through JSON. A missing key is an empty list, and an item that
-- is not of the expected shape is `none`.
pub record SnapshotData : Type 0 where
  pub commands : List (Option (ℕ × Command))
  pub tasks : List (String × Option TaskLease)
  pub approved_evidence : List (String × Option Evidence)
  pub governance_decisions : List (String × Option Decision)

unfoldable pub as_items : List (ℕ × Command) → List (Option (ℕ × Command))
as_items [] = []
as_items (c ∷ cs) = some c ∷ as_items cs

unfoldable pub as_values {ℓ} : {V : Type ℓ} → Dict V → List (String × Option V)
as_values [] = []
as_values ((k, v) ∷ d) = (k, some v) ∷ as_values d

-- `_snapshot`
unfoldable pub snapshot : States → SnapshotData
snapshot s = record {
  commands = as_items s.commands;
  tasks = as_values s.tasks;
  approved_evidence = as_values s.evidence;
  governance_decisions = as_values s.decisions;
}

unfoldable pub restore_commands :
    List (Option (ℕ × Command)) → List (ℕ × Command) → List (ℕ × Command)
restore_commands [] restored = restored
restore_commands (none ∷ items) restored = restore_commands items restored
restore_commands (some (i, c) ∷ items) restored = restore_commands items (put_index i c restored)

-- `{str(key): dict(value) for key, value in … if isinstance(value, dict)}`
unfoldable pub restore_values {ℓ} : {V : Type ℓ} → List (String × Option V) → Dict V
restore_values [] = []
restore_values ((k, none) ∷ items) = restore_values items
restore_values ((k, some v) ∷ items) = (k, v) ∷ restore_values items

-- `_restore`
unfoldable pub restore : SnapshotData → States
restore d = record {
  commands = restore_commands d.commands [];
  tasks = restore_values d.tasks;
  evidence = restore_values d.approved_evidence;
  decisions = restore_values d.governance_decisions;
}

unfoldable pub is_leased : LeaseStatus → Bool
is_leased leased = true
is_leased _ = false

unfoldable pub expired_task_ids : (now : ℕ) → Dict TaskLease → List String
expired_task_ids now [] = []
expired_task_ids now ((id, t) ∷ tasks) =
    let rest = expired_task_ids now tasks in
    if is_leased t.status && leb t.lease_until now then id ∷ rest else rest

-- The three counts of the `status` methods.
unfoldable pub leased_tasks : Dict TaskLease → ℕ
leased_tasks [] = 0
leased_tasks ((id, t) ∷ tasks) =
    let rest = leased_tasks tasks in if is_leased t.status then suc rest else rest
