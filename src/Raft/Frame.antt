-- ===== src/Raft/Frame.antt =====
-- What the parts of the handlers of raft.py leave alone.
use reus.Prelude.{ℕ, zero, suc, ◌+◌, ◌-◌, ◌≡◌, Option, none, some, arith}
use reus.RaftStorage.{LogEntry, Command, raft_membership_joint, raft_membership_finalize}
use reus.Membership.{strings}
use reus.Raft.Node.{RaftNode, persist, log_entry_at}
use reus.Raft.Commands.{
  apply_membership_command, apply_joint, apply_finalize, enter_joint, leave_joint, apply_entry,
  apply_range, apply_committed,
}

-- All but the voters, the learners and the calls to the application.
pub record SameCore (a b : RaftNode) : Type 0 where
  pub node_id : b.node_id ≡ a.node_id
  pub current_term : b.current_term ≡ a.current_term
  pub voted_for : b.voted_for ≡ a.voted_for
  pub role : b.role ≡ a.role
  pub log : b.log ≡ a.log
  pub commit_index : b.commit_index ≡ a.commit_index
  pub leader_id : b.leader_id ≡ a.leader_id
  pub base : b.snapshot_last_included_index ≡ a.snapshot_last_included_index
  pub base_term : b.snapshot_last_included_term ≡ a.snapshot_last_included_term
  pub storage : b.storage ≡ a.storage

pub SameCore-refl : (a : RaftNode) → SameCore a a
SameCore-refl a = ground arith

pub SameCore-trans : {a b c : RaftNode} → SameCore a b → SameCore b c → SameCore a c
SameCore-trans h k = ground arith

pub apply_membership_command-SameCore :
    (c : Command) (n : RaftNode) → SameCore n (apply_membership_command c n)
unfolding apply_membership_command apply_joint apply_finalize enter_joint leave_joint
apply_membership_command-SameCore (raft_membership_joint (strings s) (strings t)) n = ground arith
apply_membership_command-SameCore (raft_membership_finalize (strings s) (strings t)) n =
    ground arith
apply_membership_command-SameCore _ n = ground arith

pub apply_entry-SameCore : (o : Option LogEntry) (n : RaftNode) → SameCore n (apply_entry o n)
unfolding apply_entry
apply_entry-SameCore none n = SameCore-refl n
apply_entry-SameCore (some e) n = ground (arith, apply_membership_command-SameCore e.command n)

pub apply_range-SameCore : (rounds idx : ℕ) (n : RaftNode) → SameCore n (apply_range rounds idx n)
unfolding apply_range
apply_range-SameCore zero idx n = SameCore-refl n
apply_range-SameCore (suc rounds) idx n =
    SameCore-trans (apply_entry-SameCore (log_entry_at n idx) n)
      (apply_range-SameCore rounds (idx + 1) (apply_entry (log_entry_at n idx) n))

-- `persist` changes the storage alone.
pub record SameButStorage (a b : RaftNode) : Type 0 where
  pub node_id : b.node_id ≡ a.node_id
  pub current_term : b.current_term ≡ a.current_term
  pub voted_for : b.voted_for ≡ a.voted_for
  pub role : b.role ≡ a.role
  pub log : b.log ≡ a.log
  pub commit_index : b.commit_index ≡ a.commit_index
  pub base : b.snapshot_last_included_index ≡ a.snapshot_last_included_index
  pub base_term : b.snapshot_last_included_term ≡ a.snapshot_last_included_term
  pub membership : b.membership ≡ a.membership
  pub applied : b.applied ≡ a.applied

pub persist-SameButStorage : (n : RaftNode) → SameButStorage n (persist n)
unfolding persist
persist-SameButStorage n = ground arith

-- `_apply_committed` sets the commit position and keeps the term, the vote, the log and the base.
pub record Committed (a b : RaftNode) (i : ℕ) : Type 0 where
  pub node_id : b.node_id ≡ a.node_id
  pub current_term : b.current_term ≡ a.current_term
  pub voted_for : b.voted_for ≡ a.voted_for
  pub role : b.role ≡ a.role
  pub log : b.log ≡ a.log
  pub commit_index : b.commit_index ≡ i
  pub base : b.snapshot_last_included_index ≡ a.snapshot_last_included_index
  pub base_term : b.snapshot_last_included_term ≡ a.snapshot_last_included_term

pub apply_committed-Committed : (i : ℕ) (n : RaftNode) → Committed n (apply_committed i n) i
unfolding apply_committed
apply_committed-Committed i n =
    let m = apply_range (i - n.commit_index) (n.commit_index + 1) n in
    ground (
      arith,
      apply_range-SameCore (i - n.commit_index) (n.commit_index + 1) n,
      persist-SameButStorage (record m { commit_index = i }),
    )

pub apply_membership_command-applied :
    (c : Command) (n : RaftNode) → (apply_membership_command c n).applied ≡ n.applied
unfolding apply_membership_command apply_joint apply_finalize enter_joint leave_joint
apply_membership_command-applied (raft_membership_joint (strings s) (strings t)) n = ground arith
apply_membership_command-applied (raft_membership_finalize (strings s) (strings t)) n = ground arith
apply_membership_command-applied _ n = ground arith
