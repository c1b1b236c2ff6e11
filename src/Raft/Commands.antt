-- ===== src/Raft/Commands.antt =====
-- Committed commands and their effect on the voter configuration: `_apply_membership_command`,
-- `_apply_committed` and `replay_committed` of infrastructure/cluster_network/raft.py.
use reus.Prelude.{
  ℕ, zero, suc, ◌+◌, ◌-◌, Bool, true, false, ◌&&◌, String, Option, none, some, List, [], ◌∷◌, ◌++◌,
  if◌then◌else◌,
}
use reus.Prelude.Sets.{union, difference, same_set, set_of}
use reus.Membership.{VoterConfiguration, voter_configuration, strings}
use reus.RaftStorage.{LogEntry, Command, raft_membership_joint, raft_membership_finalize}
use reus.Raft.Node.{RaftNode, persist, log_entry_at}

unfoldable pub enter_joint : Option VoterConfiguration → RaftNode → RaftNode
enter_joint none n = n
enter_joint (some c) n = record n {
  membership = c;
  pending_joint_voters = none;
  membership_enforced = true;
}

unfoldable pub apply_joint : List String → List String → RaftNode → RaftNode
apply_joint old_voters new_voters n =
    if same_set old_voters n.membership.voters
    then enter_joint (voter_configuration old_voters (some new_voters)) n
    else n

-- `joint_voters == new_voters`, where `joint_voters` may be `None`
unfoldable pub is_joint_of : List String → Option (List String) → Bool
is_joint_of new_voters none = false
is_joint_of new_voters (some joint) = same_set joint new_voters

unfoldable pub leave_joint :
    List String → List String → Option VoterConfiguration → RaftNode → RaftNode
leave_joint old_voters new_voters none n = n
leave_joint old_voters new_voters (some c) n = record n {
  membership = c;
  pending_joint_voters = none;
  membership_enforced = true;
  retired_peers = union n.retired_peers (difference old_voters new_voters);
  learners = difference n.learners new_voters;
}

unfoldable pub apply_finalize : List String → List String → RaftNode → RaftNode
apply_finalize old_voters new_voters n =
    if same_set n.membership.voters old_voters && is_joint_of new_voters n.membership.joint_voters
    then leave_joint old_voters new_voters (voter_configuration new_voters none) n
    else n

-- `_apply_membership_command`; a missing or ill-typed field is a KeyError or TypeError, caught there.
unfoldable pub apply_membership_command : Command → RaftNode → RaftNode
apply_membership_command (raft_membership_joint (strings old_voters) (strings new_voters)) n =
    apply_joint (set_of old_voters) (set_of new_voters) n
apply_membership_command (raft_membership_finalize (strings old_voters) (strings new_voters)) n =
    apply_finalize (set_of old_voters) (set_of new_voters) n
apply_membership_command _ n = n

-- One round of the loop of `_apply_committed`, with the call of `on_commit`.
unfoldable pub apply_entry : Option LogEntry → RaftNode → RaftNode
apply_entry none n = n
apply_entry (some e) n =
    let m = apply_membership_command e.command n in record m { applied = m.applied ++ e ∷ [] }

-- `for idx in range(idx, idx + rounds)`
unfoldable pub apply_range : ℕ → ℕ → RaftNode → RaftNode
apply_range zero idx n = n
apply_range (suc rounds) idx n = apply_range rounds (idx + 1) (apply_entry (log_entry_at n idx) n)

-- `_apply_committed`
unfoldable pub apply_committed : ℕ → RaftNode → RaftNode
apply_committed new_commit_index n =
    let m = apply_range (new_commit_index - n.commit_index) (n.commit_index + 1) n in
    persist (record m { commit_index = new_commit_index })

unfoldable pub replay_range : ℕ → ℕ → RaftNode → List LogEntry
replay_range zero idx n = []
replay_range (suc rounds) idx n =
    let rest = replay_range rounds (idx + 1) n in
    elim (log_entry_at n idx) [ none ↦ rest | some e ↦ e ∷ rest ]

-- `replay_committed`
unfoldable pub replay_committed : RaftNode → RaftNode
replay_committed n = record n {
  applied =
      n.applied
      ++ replay_range (n.commit_index - n.snapshot_last_included_index)
          (n.snapshot_last_included_index + 1) n;
}
