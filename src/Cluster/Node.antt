-- ===== src/Cluster/Node.antt =====
-- `RaftClusterNode` of infrastructure/cluster_network/raft_cluster_node.py. The trust store is the list of
-- the transport identities that it knows. `loads` reads the text of a snapshot.
use reus.Prelude.{
  ℕ, Bool, false, String, Option, none, some, List, [], ltb, str_eq, if◌then◌else◌, length, drop,
}
use reus.Prelude.Dict.{Dict}
use reus.Membership.{MembershipPayload}
use reus.Recovery.{CellRecoveryPlanner}
use reus.Raft.Node.{RaftNode}
use reus.Raft.Votes.{handle_request_vote}
use reus.Raft.Append.{SentEntry, handle_append_entries}
use reus.Raft.Snapshot.{Answer, answered, raised, handle_install_snapshot}
use reus.Raft.Commands.{replay_committed}
use reus.Cluster.States.{States, apply_commits, SnapshotData, restore, new_states}

pub record RaftClusterNode : Type 0 where
  pub raft : RaftNode
  pub transport_node_id : String
  pub states : States
  pub peer_liveness : Dict (Bool × ℕ)
  pub recovery_planner : Option CellRecoveryPlanner
  pub standby_transport_ids : List String
  pub trusted : List String

-- The callbacks `on_commit` that a change of the Raft node has made.
unfoldable pub absorb : RaftNode → RaftClusterNode → RaftClusterNode
absorb raft n = record n {
  raft = raft;
  states = apply_commits (drop (length n.raft.applied) raft.applied) n.states;
}

unfoldable pub restored : (loads : String → SnapshotData) → Option String → States → States
restored loads none s = s
restored loads (some text) s = restore (loads text)

-- The constructor, over a Raft node that was just loaded.
unfoldable pub raft_cluster_node :
    (loads : String → SnapshotData) → RaftNode → String → List String → RaftClusterNode
raft_cluster_node loads raft transport_node_id trusted = absorb (replay_committed raft) (record {
  raft = raft;
  transport_node_id = transport_node_id;
  states = restored loads raft.restored_snapshot_data new_states;
  peer_liveness = [];
  recovery_planner = none;
  standby_transport_ids = [];
  trusted = trusted;
})

-- `_sender_matches`
unfoldable pub sender_matches : Option String → Option String → Bool
sender_matches none claimed = false
sender_matches (some cn) none = false
sender_matches (some cn) (some claimed) = str_eq cn claimed

pub record Reply : Type 0 where
  pub term : ℕ
  pub accepted : Bool
  pub error : Option String

-- The fields of a request after the sender's: `none` where one is missing or no number.
pub record VoteRequest : Type 0 where
  pub term : ℕ
  pub last_log_index : ℕ
  pub last_log_term : ℕ

unfoldable pub refuse : String → RaftClusterNode → RaftClusterNode × Reply
refuse error n = (n, record { term = n.raft.current_term; accepted = false; error = some error })

unfoldable pub vote :
    String → VoteRequest → (stepped granted : ℕ) → RaftClusterNode → RaftClusterNode × Reply
vote candidate_id q stepped granted n =
    let (raft, answer) =
      handle_request_vote q.term candidate_id q.last_log_index q.last_log_term stepped granted
        n.raft in
    (absorb raft n, record { term = answer.0; accepted = answer.1; error = none })

unfoldable pub answer_vote :
    Option String
    → Option VoteRequest
    → (stepped granted : ℕ) → RaftClusterNode
    → RaftClusterNode × Reply
answer_vote (some candidate_id) (some q) stepped granted n = vote candidate_id q stepped granted n
answer_vote _ _ stepped granted n = refuse "invalid vote request" n

-- `handle_request_vote`
unfoldable pub on_request_vote :
    (sender_cn claimed : Option String)
    → Option VoteRequest
    → (stepped granted : ℕ) → RaftClusterNode
    → RaftClusterNode × Reply
on_request_vote sender_cn claimed q stepped granted n =
    if sender_matches sender_cn claimed
    then answer_vote claimed q stepped granted n
    else refuse "mTLS sender mismatch" n

pub record AppendRequest : Type 0 where
  pub term : ℕ
  pub prev_log_index : ℕ
  pub prev_log_term : ℕ
  pub entries : List SentEntry
  pub leader_commit : ℕ

unfoldable pub append :
    String → AppendRequest → (deadline : ℕ) → RaftClusterNode → RaftClusterNode × Reply
append leader_id q deadline n =
    let (raft, answer) =
      handle_append_entries q.term leader_id q.prev_log_index q.prev_log_term q.entries
        q.leader_commit deadline n.raft in
    (absorb raft n, record { term = answer.0; accepted = answer.1; error = none })

unfoldable pub answer_append :
    Option String
    → Option AppendRequest
    → (deadline : ℕ) → RaftClusterNode
    → RaftClusterNode × Reply
answer_append (some leader_id) (some q) deadline n = append leader_id q deadline n
answer_append _ _ deadline n = refuse "invalid append request" n

-- `handle_append_entries`
unfoldable pub on_append_entries :
    (sender_cn claimed : Option String)
    → Option AppendRequest
    → (deadline : ℕ) → RaftClusterNode
    → RaftClusterNode × Reply
on_append_entries sender_cn claimed q deadline n =
    if sender_matches sender_cn claimed
    then answer_append claimed q deadline n
    else refuse "mTLS sender mismatch" n

pub record SnapshotRequest : Type 0 where
  pub term : ℕ
  pub last_included_index : ℕ
  pub last_included_term : ℕ
  pub snapshot_data : String
  pub membership : Option MembershipPayload

-- The callback `on_snapshot_restore`, if it was made.
unfoldable pub absorb_restore :
    (loads : String → SnapshotData) → String → RaftNode → RaftClusterNode → RaftClusterNode
absorb_restore loads text raft n =
    if ltb (length n.raft.snapshots_restored) (length raft.snapshots_restored)
    then record n { raft = raft; states = restore (loads text) }
    else record n { raft = raft }

unfoldable pub reply_snapshot : Answer → RaftClusterNode → RaftClusterNode × Reply
reply_snapshot (answered term success) n =
    (n, record { term = term; accepted = success; error = none })
reply_snapshot raised n = refuse "invalid snapshot request" n

unfoldable pub install :
    (loads : String → SnapshotData)
    → String
    → SnapshotRequest
    → (stepped deadline : ℕ) → RaftClusterNode
    → RaftClusterNode × Reply
install loads leader_id q stepped deadline n =
    let (raft, answer) =
      handle_install_snapshot q.term leader_id q.last_included_index q.last_included_term
        q.snapshot_data q.membership stepped deadline n.raft in
    reply_snapshot answer (absorb_restore loads q.snapshot_data raft n)

unfoldable pub answer_snapshot :
    (loads : String → SnapshotData)
    → Option String
    → Option SnapshotRequest
    → (stepped deadline : ℕ) → RaftClusterNode
    → RaftClusterNode × Reply
answer_snapshot loads (some leader_id) (some q) stepped deadline n =
    install loads leader_id q stepped deadline n
answer_snapshot loads _ _ stepped deadline n = refuse "invalid snapshot request" n

-- `handle_install_snapshot`
unfoldable pub on_install_snapshot :
    (loads : String → SnapshotData)
    → (sender_cn claimed : Option String) → Option SnapshotRequest
    → (stepped deadline : ℕ) → RaftClusterNode
    → RaftClusterNode × Reply
on_install_snapshot loads sender_cn claimed q stepped deadline n =
    if sender_matches sender_cn claimed
    then answer_snapshot loads claimed q stepped deadline n
    else refuse "mTLS sender mismatch" n
