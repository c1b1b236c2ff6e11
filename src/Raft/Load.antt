-- ===== src/Raft/Load.antt =====
-- The start of a node: `__init__` and `_load_persisted_state` of
-- infrastructure/cluster_network/raft.py. `none` is a start that raises.
use reus.Prelude.{ℕ, min, max, Bool, String, Option, none, some, List, [], ◌∷◌, leb, if◌then◌else◌}
use reus.Prelude.Sets.{set_of}
use reus.Membership.{VoterConfiguration, voter_configuration, MembershipPayload, from_payload}
use reus.RaftStorage.{
  LogEntry, StateFile, SnapshotFile, RaftStorage, Loaded, nothing, corrupt, loaded, load,
  load_commit_index, load_snapshot, load_snapshot_membership,
}
use reus.Raft.Node.{RaftNode, follower, last_log_index}
use reus.Raft.Commands.{apply_membership_command}

-- The fields that `__init__` sets before it loads the persisted state.
unfoldable pub fresh : String → Bool → Option RaftStorage → ℕ → VoterConfiguration → RaftNode
fresh node_id strict_membership storage deadline c = record {
  node_id = node_id;
  membership = c;
  pending_joint_voters = none;
  membership_enforced = strict_membership;
  retired_peers = [];
  learners = [];
  current_term = 0;
  voted_for = none;
  role = follower;
  log = [];
  commit_index = 0;
  leader_id = none;
  snapshot_last_included_index = 0;
  snapshot_last_included_term = 0;
  restored_snapshot_data = none;
  next_index = [];
  match_index = [];
  election_deadline = deadline;
  storage = storage;
  applied = [];
  snapshots_restored = [];
  liveness = [];
}

unfoldable pub with_base : SnapshotFile → VoterConfiguration → RaftNode → RaftNode
with_base f c n = record n {
  snapshot_last_included_index = f.last_included_index;
  snapshot_last_included_term = f.last_included_term;
  membership = c;
  restored_snapshot_data = some f.snapshot_data;
}

unfoldable pub load_base : SnapshotFile → Option MembershipPayload → RaftNode → Option RaftNode
load_base f none n = some (with_base f n.membership n)
load_base f (some p) n = elim (from_payload p) [ none ↦ none | some c ↦ some (with_base f c n) ]

unfoldable pub restore_base :
    Loaded SnapshotFile → Option MembershipPayload → RaftNode → Option RaftNode
restore_base nothing membership n = some n
restore_base corrupt membership n = none
restore_base (loaded f) membership n = load_base f membership n

-- The committed membership commands of the log, in order.
unfoldable pub replay_membership : List LogEntry → RaftNode → RaftNode
replay_membership [] n = n
replay_membership (e ∷ es) n =
    replay_membership es
      (if leb e.index n.commit_index then apply_membership_command e.command n else n)

unfoldable pub restore_state : Loaded StateFile → ℕ → RaftNode → Option RaftNode
restore_state nothing persisted_commit n = some n
restore_state corrupt persisted_commit n = none
restore_state (loaded f) persisted_commit n =
    let m = record n { current_term = f.current_term; voted_for = f.voted_for; log = f.log } in
    some (
      replay_membership f.log (record m {
        commit_index = max m.snapshot_last_included_index (min persisted_commit (last_log_index m));
      }))

unfoldable pub load_files : RaftStorage → RaftNode → Option RaftNode
load_files s n = elim (restore_base (load_snapshot s) (load_snapshot_membership s) n) [
  | none ↦ none
  | some m ↦ restore_state (load s) (load_commit_index s) m
]

unfoldable pub load_persisted_state : RaftNode → Option RaftNode
load_persisted_state n = elim n.storage [ none ↦ some n | some s ↦ load_files s n ]

-- `RaftNode(node_id, get_peer_ids, …)`; `deadline` is the first election deadline.
unfoldable pub raft_node :
    String → List String → Bool → Option RaftStorage → (deadline : ℕ) → Option RaftNode
raft_node node_id peer_ids strict_membership storage deadline =
    elim (voter_configuration (set_of (node_id ∷ peer_ids)) none) [
      | none ↦ none
      | some c ↦ load_persisted_state (fresh node_id strict_membership storage deadline c)
    ]
