-- ===== src/Raft/Tests/Configuration.antt =====
-- Changes of the voters and votes at concrete nodes.
use reus.Prelude.{◌≡◌, ◌≤◌, refl, some, none, [], ◌∷◌}
use reus.Prelude.Sets.{contains, set_of, union, difference, same_set}
use reus.Membership.{voter_configuration, has_quorum, all_voters, strings}
use reus.Membership.Payload.{IsValid, voter_configuration-IsValid}
use reus.RaftStorage.{Command, raft_membership_joint}
use reus.Raft.Node.{last_index, last_log_index, last_log_term, step_down, persist}
use reus.Raft.Commands.{apply_membership_command, apply_joint, enter_joint}
use reus.Raft.Votes.{handle_request_vote, outside_cell, decide_vote, may_vote_for, log_ok}
use reus.Raft.JointConsensus.{
  Shared, apply_membership_command-overlap, apply_membership_command-IsValid,
}
use reus.Raft.Granted.{UpToDate, handle_request_vote-granted}
use reus.Raft.Tests.{node}

program : Unit {0}
unfolding contains set_of union difference same_set voter_configuration has_quorum all_voters
    apply_membership_command apply_joint enter_joint handle_request_vote outside_cell decide_vote
    may_vote_for log_ok last_index last_log_index last_log_term step_down persist
program = tt

-- The committed command replaces "a" by "d".
abbrev replace : Command
replace = raft_membership_joint (strings ("a" ∷ "b" ∷ "c" ∷ [])) (strings ("b" ∷ "c" ∷ "d" ∷ []))

node-IsValid : IsValid node.membership
unfolding program
node-IsValid = voter_configuration-IsValid ("a" ∷ "b" ∷ "c" ∷ []) none node.membership refl

replaced :
    (apply_membership_command replace node).membership.joint_voters ≡ some ("b" ∷ "c" ∷ "d" ∷ [])
unfolding program
replaced = refl

apply_membership_command-overlap_example : Shared node.membership ("a" ∷ "b" ∷ []) ("c" ∷ "b" ∷ [])
unfolding program
apply_membership_command-overlap_example =
    apply_membership_command-overlap replace node ("a" ∷ "b" ∷ []) ("c" ∷ "b" ∷ []) node-IsValid
      refl refl

apply_membership_command-IsValid_example :
    IsValid (apply_membership_command replace node).membership
apply_membership_command-IsValid_example =
    apply_membership_command-IsValid replace node node-IsValid

handle_request_vote-granted_example :
    (2 ≤ 5)
    × ((handle_request_vote 5 "b" 3 1 10 20 node).0.current_term ≡ 5)
    × ((handle_request_vote 5 "b" 3 1 10 20 node).0.voted_for ≡ some "b")
    × UpToDate (last_log_term node) (last_log_index node) 1 3
unfolding program
handle_request_vote-granted_example = handle_request_vote-granted 5 "b" 3 1 10 20 node refl
