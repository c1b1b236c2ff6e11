-- ===== src/Raft/Change.antt =====
-- Waiting proposals and voter changes of infrastructure/cluster_network/raft.py.
use reus.Prelude.{
  ℕ, ◌+◌, Bool, true, false, not, ◌&&◌, ◌||◌, String, Option, none, some, List, [], ◌∷◌, ltb, leb,
  if◌then◌else◌, str_eq,
}
use reus.Prelude.Sets.{contains, set_of, union, same_set, sorted}
use reus.Membership.{
  VoterConfiguration, voter_configuration, all_voters, MembershipPayload, from_payload, strings,
}
use reus.RaftStorage.{LogEntry, Command, raft_membership_joint, raft_membership_finalize}
use reus.Raft.Node.{RaftNode, last_log_index}
use reus.Raft.Leader.{is_leader, append_command}

-- The loop of `propose_and_wait`: one heartbeat round for each iteration until the deadline. A round
-- is what `_send_heartbeats` and the handlers of other threads make of the node.
unfoldable pub await_commit : ℕ → List (RaftNode → RaftNode) → RaftNode → RaftNode × Bool
await_commit index [] n = (n, false)
await_commit index (round ∷ rounds) n =
    let m = round n in
    let rest = await_commit index rounds m in
    if leb index m.commit_index
    then (m, true)
    else if not (is_leader m.role)
    then (m, false)
    else rest

unfoldable pub propose_and_wait : Command → List (RaftNode → RaftNode) → RaftNode → RaftNode × Bool
propose_and_wait command rounds n =
    if is_leader n.role
    then await_commit (last_log_index n + 1) rounds (append_command command n)
    else (n, false)

unfoldable pub is_some : Option (List String) → Bool
is_some none = false
is_some (some s) = true

-- No change is proposed by a node that does not lead, during another change, or to the same voters.
unfoldable pub may_change : VoterConfiguration → RaftNode → Bool
may_change c n =
    is_leader n.role
    && not (is_some n.membership.joint_voters)
    && not (is_some n.pending_joint_voters)
    && not (same_set c.voters n.membership.voters)

unfoldable pub propose_finalize :
    Command → List (RaftNode → RaftNode) → RaftNode × Bool → RaftNode × Bool
propose_finalize finalize rounds (n, true) = propose_and_wait finalize rounds n
propose_finalize finalize rounds (n, false) = (n, false)

unfoldable pub change_to :
    VoterConfiguration
    → (joint_rounds rounds : List (RaftNode → RaftNode)) → RaftNode
    → RaftNode × Bool
change_to c joint_rounds rounds n =
    if may_change c n
    then (let old_voters = strings (sorted n.membership.voters) in
        let new_voters = strings (sorted c.voters) in
        propose_finalize (raft_membership_finalize old_voters new_voters) rounds (
          propose_and_wait (raft_membership_joint old_voters new_voters) joint_rounds
            (record n { pending_joint_voters = some c.voters })))
    else (n, false)

unfoldable pub propose_membership_change :
    List String → (joint_rounds rounds : List (RaftNode → RaftNode)) → RaftNode → RaftNode × Bool
propose_membership_change new_voter_ids joint_rounds rounds n =
    elim (voter_configuration (set_of new_voter_ids) none) [
      | none ↦ (n, false)
      | some c ↦ change_to c joint_rounds rounds n
    ]

abbrev is_nil : List LogEntry → Bool
is_nil [] = true
is_nil (e ∷ es) = false

unfoldable pub install_membership_snapshot : MembershipPayload → RaftNode → RaftNode × Bool
install_membership_snapshot membership n = elim (from_payload membership) [
  | none ↦ (n, false)
  | some configured ↦
      if ltb 0 n.commit_index || not (is_nil n.log) || n.membership_enforced
      then (n, false)
      else (record n { membership = configured; membership_enforced = true }, true)
]

unfoldable pub register_learner : String → RaftNode → RaftNode × Bool
register_learner peer_id n =
    if str_eq peer_id "" || str_eq peer_id n.node_id
    then (n, false)
    else if contains (all_voters n.membership) peer_id
    then (n, false)
    else (record n { learners = union n.learners (peer_id ∷ []) }, true)

unfoldable pub is_learner : String → RaftNode → Bool
is_learner peer_id n = contains n.learners peer_id
