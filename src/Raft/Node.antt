-- ===== src/Raft/Node.antt =====
-- `RaftNode` of infrastructure/cluster_network/raft.py: its state, the log helpers and persistence.
-- Log positions are the source's indices plus one: its -1 is 0, and position `p` is index `p - 1`.
use reus.Prelude.{
  ℕ, ◌-◌, String, Bool, Option, none, some, List, ltb, ◌==◌, if◌then◌else◌, get_elem?, get_last?,
}
use reus.Prelude.Dict.{Dict}
use reus.Membership.{VoterConfiguration}
use reus.RaftStorage.{LogEntry, RaftStorage, save}

pub data Role : Type 0 where
  follower candidate leader : Role

-- Times are readings of the monotonic clock. `storage` is `none` for a node without a RaftStorage.
-- The last three fields record the calls of `on_commit`, `on_snapshot_restore` and
-- `on_peer_liveness`, oldest first.
pub record RaftNode : Type 0 where
  pub node_id : String
  pub membership : VoterConfiguration
  pub pending_joint_voters : Option (List String)
  pub membership_enforced : Bool
  pub retired_peers : List String
  pub learners : List String
  pub current_term : ℕ
  pub voted_for : Option String
  pub role : Role
  pub log : List LogEntry
  pub commit_index : ℕ
  pub leader_id : Option String
  pub snapshot_last_included_index : ℕ
  pub snapshot_last_included_term : ℕ
  pub restored_snapshot_data : Option String
  pub next_index : Dict ℕ
  pub match_index : Dict ℕ
  pub election_deadline : ℕ
  pub storage : Option RaftStorage
  pub applied : List LogEntry
  pub snapshots_restored : List String
  pub liveness : List (String × Bool)

-- `_persist`: nothing is written without a storage.
unfoldable pub persist : RaftNode → RaftNode
persist n = record n {
  storage = (elim n.storage [
    | none ↦ none
    | some s ↦ some (save n.current_term n.voted_for n.log n.commit_index s)
  ]);
}

-- `_last_log_index`, of a log over a snapshot base
unfoldable pub last_index : ℕ → List LogEntry → ℕ
last_index base log = elim (get_last? log) [ none ↦ base | some e ↦ e.index ]

unfoldable pub last_log_index : RaftNode → ℕ
last_log_index n = last_index n.snapshot_last_included_index n.log

unfoldable pub last_log_term : RaftNode → ℕ
last_log_term n = elim (get_last? n.log) [ none ↦ n.snapshot_last_included_term | some e ↦ e.term ]

-- `_log_entry_at`, of a log over a snapshot base
unfoldable pub entry_at : ℕ → List LogEntry → ℕ → Option LogEntry
entry_at base log absolute_index =
    if ltb base absolute_index then get_elem? log (absolute_index - base - 1) else none

unfoldable pub log_entry_at : RaftNode → ℕ → Option LogEntry
log_entry_at n absolute_index = entry_at n.snapshot_last_included_index n.log absolute_index

unfoldable pub term_at : RaftNode → ℕ → ℕ
term_at n absolute_index =
    if absolute_index == n.snapshot_last_included_index
    then n.snapshot_last_included_term
    else elim (log_entry_at n absolute_index) [ none ↦ 0 | some e ↦ e.term ]

-- `_step_down`; `deadline` is what `_new_election_deadline()` returns.
unfoldable pub step_down : ℕ → ℕ → RaftNode → RaftNode
step_down new_term deadline n = persist (record n {
  current_term = new_term;
  role = follower;
  voted_for = none;
  election_deadline = deadline;
})
