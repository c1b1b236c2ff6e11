-- ===== src/Cluster/Operations.antt =====
-- What a node of raft_cluster_node.py proposes: leases, voter changes, evidence and decisions. `rounds`
-- is what happens to the Raft node while a proposal waits.
use Prim.Native.String.{count}
use reus.Prelude.{
  ℕ, ◌+◌, max, min, Bool, true, false, not, ◌&&◌, ◌||◌, String, Option, none, some, List, [], ◌∷◌,
  ltb, ◌==◌, str_eq, if◌then◌else◌, filter_by,
}
use reus.Prelude.Sets.{contains, set_of, union, difference, sorted}
use reus.Prelude.Dict.{Dict, get, put}
use reus.RaftStorage.{
  task_assign, task_complete, task_requeue, evidence_publish, governance_decision,
}
use reus.Recovery.{
  ReplacementPlan, CellRecoveryPlanner, cell_recovery_planner, observe, resolve, retry,
}
use reus.Raft.Node.{RaftNode}
use reus.Raft.Leader.{propose}
use reus.Raft.Change.{propose_and_wait, propose_membership_change, register_learner, is_learner}
use reus.Cluster.States.{TaskLease, expired_task_ids, is_leased, is_allowed_status}
use reus.Cluster.Node.{RaftClusterNode, absorb}

abbrev pub Rounds : Type 0
Rounds = List (RaftNode → RaftNode)

unfoldable pub with_raft : RaftNode × Bool → RaftClusterNode → RaftClusterNode × Bool
with_raft (raft, ok) n = (absorb raft n, ok)

unfoldable pub assign_task :
    String → String → (lease_seconds now : ℕ) → Rounds → RaftClusterNode → RaftClusterNode × Bool
assign_task task_id assignee lease_seconds now rounds n =
    with_raft
      (propose_and_wait (task_assign task_id assignee (now + max 1 lease_seconds) 1) rounds n.raft)
      n

unfoldable pub complete_task : String → Rounds → RaftClusterNode → RaftClusterNode × Bool
complete_task task_id rounds n =
    with_raft (propose_and_wait (task_complete task_id) rounds n.raft) n

unfoldable pub admit_trusted_peer :
    String → (joint_rounds rounds : Rounds) → RaftClusterNode → RaftClusterNode × Bool
admit_trusted_peer peer_id joint_rounds rounds n =
    if contains n.trusted peer_id
    then with_raft
        (propose_membership_change (sorted (union n.raft.membership.voters (peer_id ∷ [])))
          joint_rounds rounds n.raft)
        n
    else (n, false)

unfoldable pub register_trusted_learner : String → RaftClusterNode → RaftClusterNode × Bool
register_trusted_learner peer_id n =
    if contains n.trusted peer_id then with_raft (register_learner peer_id n.raft) n else (n, false)

-- `all(register_learner(p) or is_learner(p) for p in …)`, which stops at the first that fails
unfoldable pub register_all : List String → RaftNode → RaftNode × Bool
register_all [] r = (r, true)
register_all (p ∷ ps) r =
    let (m, new) = register_learner p r in
    let rest = register_all ps m in if new || is_learner p m then rest else (m, false)

unfoldable pub all_trusted : List String → List String → Bool
all_trusted trusted [] = true
all_trusted trusted (p ∷ ps) = contains trusted p && all_trusted trusted ps

abbrev is_none : List String → Bool
is_none [] = true
is_none (p ∷ ps) = false

-- `none` is a ValueError of the planner.
unfoldable pub configure_automatic_recovery :
    List String
    → (failure_threshold minimum_suspect_seconds : ℕ) → RaftClusterNode
    → Option (RaftClusterNode × Bool)
configure_automatic_recovery standby_transport_ids failure_threshold minimum_suspect_seconds n =
    let standby_ids = set_of standby_transport_ids in
    if is_none standby_ids || not (all_trusted n.trusted standby_ids)
    then some (n, false)
    else elim (cell_recovery_planner failure_threshold minimum_suspect_seconds) [
      | none ↦ none
      | some planner ↦ some (
          with_raft (register_all standby_ids n.raft)
            (record n { recovery_planner = some planner; standby_transport_ids = standby_ids }))
    ]

-- `self.peer_liveness.get(peer, {}).get("alive") is True`
unfoldable pub is_alive : String → Dict (Bool × ℕ) → Bool
is_alive peer_id liveness = elim (get peer_id liveness) [ none ↦ false | some (alive, at) ↦ alive ]

unfoldable pub may_replace : String → String → RaftClusterNode → Bool
may_replace failed standby n =
    contains n.trusted standby
    && is_alive standby n.peer_liveness
    && contains n.raft.membership.voters failed
    && not (contains n.raft.membership.voters standby)

unfoldable pub replace_failed_peer :
    (failed standby : String)
    → (joint_rounds rounds : Rounds) → RaftClusterNode
    → RaftClusterNode × Bool
replace_failed_peer failed standby joint_rounds rounds n =
    if may_replace failed standby n
    then with_raft
        (propose_membership_change
          (sorted (union (difference n.raft.membership.voters (failed ∷ [])) (standby ∷ [])))
          joint_rounds rounds n.raft)
        n
    else (n, false)

-- `confidence` is a number from 0 to `one`.
unfoldable pub publish_evidence_summary :
    (evidence_id summary source_hash : String)
    → (confidence one : ℕ) → RaftClusterNode
    → RaftClusterNode × Bool
publish_evidence_summary evidence_id summary source_hash confidence one n =
    if ltb 2000 (count summary) || ltb 128 (count source_hash)
    then (n, false)
    else with_raft
        (propose (evidence_publish evidence_id summary source_hash (min one confidence)) n.raft) n

-- `lower` is `str.lower`, and `is_hex` tells whether all characters are hexadecimal digits.
unfoldable pub is_sha256 : (lower : String → String) → (is_hex : String → Bool) → String → Bool
is_sha256 lower is_hex value = count value == 64 && is_hex (lower value)

unfoldable pub record_governance_decision :
    (lower : String → String)
    → (is_hex : String → Bool) → (decision_id action status actor_hash subject_hash : String)
    → Rounds
    → RaftClusterNode
    → RaftClusterNode × Bool
record_governance_decision lower is_hex decision_id action status actor_hash subject_hash rounds n =
    if str_eq decision_id ""
      || ltb 128 (count decision_id)
      || str_eq action ""
      || ltb 96 (count action)
      || not (is_allowed_status status)
      || not (is_sha256 lower is_hex actor_hash)
      || not (is_sha256 lower is_hex subject_hash)
    then (n, false)
    else with_raft
        (propose_and_wait
          (governance_decision decision_id action status (lower actor_hash) (lower subject_hash))
          rounds n.raft)
        n

unfoldable pub propose_requeues : (reason : String) → List String → RaftNode → RaftNode
propose_requeues reason [] r = r
propose_requeues reason (id ∷ ids) r =
    propose_requeues reason ids (propose (task_requeue id reason) r).0

unfoldable pub requeue_expired_tasks : (now : ℕ) → RaftClusterNode → RaftClusterNode
requeue_expired_tasks now n =
    absorb (propose_requeues "lease_expired" (expired_task_ids now n.states.tasks) n.raft) n

abbrev is_held_by : String → Option String → Bool
is_held_by peer_id none = false
is_held_by peer_id (some a) = str_eq a peer_id

unfoldable pub held_by : String → Dict TaskLease → List String
held_by peer_id [] = []
held_by peer_id ((id, t) ∷ tasks) =
    let rest = held_by peer_id tasks in
    if is_leased t.status && is_held_by peer_id t.assignee then id ∷ rest else rest

unfoldable pub ready_standbys : RaftClusterNode → List String
ready_standbys n =
    filter_by (λ p. is_learner p n.raft && is_alive p n.peer_liveness) n.standby_transport_ids

unfoldable pub settle : ReplacementPlan → RaftClusterNode × Bool → RaftClusterNode
settle plan (n, replaced) = elim n.recovery_planner [
  | none ↦ n
  | some planner ↦ record n {
    recovery_planner = some (
        if replaced
        then resolve plan.failed_voter_id planner
        else retry plan.failed_voter_id planner);
  }
]

unfoldable pub follow_plan :
    Option ReplacementPlan → (joint_rounds rounds : Rounds) → RaftClusterNode → RaftClusterNode
follow_plan none joint_rounds rounds n = n
follow_plan (some plan) joint_rounds rounds n =
    settle plan
      (replace_failed_peer plan.failed_voter_id plan.standby_voter_id joint_rounds rounds n)

unfoldable pub plan_recovery :
    String
    → Bool
    → ℕ
    → (joint_rounds rounds : Rounds) → Option CellRecoveryPlanner
    → RaftClusterNode
    → RaftClusterNode
plan_recovery peer_id alive now joint_rounds rounds none n = n
plan_recovery peer_id alive now joint_rounds rounds (some planner) n =
    let (planner', plan) =
      observe peer_id alive n.raft.membership.voters (ready_standbys n) now planner in
    follow_plan plan joint_rounds rounds (record n { recovery_planner = some planner' })

-- `_record_peer_liveness`
unfoldable pub record_peer_liveness :
    String
    → (alive : Bool) → (now : ℕ) → (joint_rounds rounds : Rounds) → RaftClusterNode
    → RaftClusterNode
record_peer_liveness peer_id alive now joint_rounds rounds n =
    let m = record n { peer_liveness = put peer_id (alive, now) n.peer_liveness } in
    let k =
      (if alive
        then m
        else absorb (propose_requeues "peer_unreachable" (held_by peer_id m.states.tasks) m.raft)
            m) in
    plan_recovery peer_id alive now joint_rounds rounds k.recovery_planner k
