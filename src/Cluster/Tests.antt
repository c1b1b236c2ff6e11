-- ===== src/Cluster/Tests.antt =====
-- A cluster node over a Raft node that leads a cell of one, at concrete commands.
use reus.Prelude.{ℕ, ◌≡◌, refl, true, false, String, none, some, List, [], ◌∷◌, ◌++◌, arith}
use reus.Prelude.Sets.{contains, union, set_of}
use reus.Prelude.Dict.{get, put}
use reus.Membership.{all_voters, has_quorum, peer_ids}
use reus.RaftStorage.{
  LogEntry, Command, task_assign, task_complete, task_requeue, governance_decision,
}
use reus.Raft.Node.{
  RaftNode, leader, persist, last_index, last_log_index, last_log_term, entry_at, log_entry_at,
  term_at, step_down,
}
use reus.Raft.Commands.{apply_committed, apply_range, apply_entry, apply_membership_command}
use reus.Raft.Votes.{handle_request_vote, outside_cell, decide_vote, may_vote_for, log_ok}
use reus.Raft.Leader.{
  is_leader, append_command, maybe_advance_commit_index, find_committable, is_committable,
  acknowledged,
}
use reus.Raft.Change.{propose_and_wait, await_commit}
use reus.Cluster.States.{
  put_index, pending, new_states, completed_lease, requeued_lease, apply_task, apply_evidence,
  is_allowed_status, apply_decision, apply_commit, apply_commits, SnapshotData, as_items, as_values,
  snapshot, restore_commands, restore_values, restore, is_leased, expired_task_ids, leased_tasks,
}
use reus.Cluster.Node.{
  RaftClusterNode, absorb, sender_matches, VoteRequest, refuse, vote, answer_vote, on_request_vote,
}
use reus.Cluster.Operations.{Rounds, with_raft, assign_task, complete_task, held_by}
use reus.Cluster.Coordinator.{HandlerResult, acquire, complete, withhold, run, execute}
use reus.Cluster.Replay.{apply_commits-restore}
use reus.Cluster.LeaseEffect.{keep, effect_from, run as run_effect}
use reus.Cluster.Leases.{apply_commits-run, apply_commits_again}
use reus.Cluster.Executes.{lease, Commits, execute_success}
use reus.Cluster.Senders.{GrantedTo, on_request_vote_accepted}

program : Unit {0}
unfolding contains union set_of get put all_voters has_quorum peer_ids persist last_index
    last_log_index last_log_term entry_at log_entry_at term_at step_down apply_committed apply_range
    apply_entry apply_membership_command handle_request_vote outside_cell decide_vote may_vote_for
    log_ok is_leader append_command maybe_advance_commit_index find_committable is_committable
    acknowledged propose_and_wait await_commit put_index completed_lease requeued_lease apply_task
    apply_evidence is_allowed_status apply_decision apply_commit apply_commits as_items as_values
    snapshot restore_commands restore_values restore is_leased expired_task_ids leased_tasks absorb
    sender_matches refuse vote answer_vote on_request_vote with_raft assign_task complete_task
    held_by acquire complete withhold run execute
program = tt

abbrev entry : ℕ → Command → LogEntry
entry index command = record { term = 1; index = index; command = command }

abbrev first : List LogEntry
first =
    entry 1 (task_assign "t" "a" 10 1)
    ∷ entry 2 (governance_decision "d" "x" "approved" "h" "s")
    ∷ []

abbrev second : List LogEntry
second =
    entry 3 (task_complete "t")
    ∷ entry 4 (task_assign "u" "b" 20 1)
    ∷ entry 5 (task_requeue "u" "lease_expired")
    ∷ []

final_lease :
    get "u" (apply_commits (first ++ second) new_states).tasks
    ≡ some (record { status = pending; assignee = none; lease_until = 0; attempt = 1 })
unfolding program
final_lease = refl

-- The one text stands for the snapshot after the first two commands.
abbrev dumps : SnapshotData → String
dumps d = "snapshot"

abbrev loads : String → SnapshotData
loads text = snapshot (apply_commits first new_states)

apply_commits-restore_example :
    apply_commits second (restore (loads (dumps (snapshot (apply_commits first new_states)))))
    ≡ apply_commits (first ++ second) new_states
apply_commits-restore_example = apply_commits-restore dumps loads first second refl

apply_commits-run_example :
    get "t" (apply_commits (first ++ second) new_states).tasks
    ≡ run_effect (effect_from "t" keep (first ++ second)) none
unfolding program
apply_commits-run_example = apply_commits-run "t" (first ++ second) new_states

apply_commits_again_example :
    get "u" (apply_commits second (apply_commits (first ++ second) new_states)).tasks
    ≡ get "u" (apply_commits (first ++ second) new_states).tasks
apply_commits_again_example = apply_commits_again "u" first second new_states

abbrev raft : RaftNode
raft = record {
  node_id = "a";
  membership = record { voters = "a" ∷ []; joint_voters = none };
  pending_joint_voters = none;
  membership_enforced = false;
  retired_peers = [];
  learners = [];
  current_term = 1;
  voted_for = none;
  role = leader;
  log = [];
  commit_index = 0;
  leader_id = some "a";
  snapshot_last_included_index = 0;
  snapshot_last_included_term = 0;
  restored_snapshot_data = none;
  next_index = [];
  match_index = [];
  election_deadline = 0;
  storage = none;
  applied = [];
  snapshots_restored = [];
  liveness = [];
}

abbrev node : RaftClusterNode
node = record {
  raft = raft;
  transport_node_id = "a";
  states = new_states;
  peer_liveness = [];
  recovery_planner = none;
  standby_transport_ids = [];
  trusted = "b" ∷ [];
}

abbrev rounds : Rounds
rounds = maybe_advance_commit_index [] ∷ []

abbrev done : HandlerResult
done = record { success = true; output = "42"; error = "" }

abbrev acquired : RaftClusterNode
acquired = (assign_task "t" "a" 30 5 rounds node).0

abbrev finished : RaftClusterNode
finished = (complete_task "t" rounds acquired).0

execute_success_example :
    (done ≡ done)
    × Commits (lease "t" "a" 30 5) node acquired
    × Commits (task_complete "t") acquired finished
unfolding program
execute_success_example =
    execute_success (λ s. s) "a" "t" done (λ n. n) 30 5 rounds rounds node finished done
      (omega arith, (λ same stored. stored), tt) (omega arith, (λ same stored. stored), tt) refl
      refl

abbrev ask : VoteRequest
ask = record { term = 4; last_log_index = 3; last_log_term = 2 }

on_request_vote_accepted_example :
    GrantedTo
      (some "b")
      (some "b")
      ask
      node
      (on_request_vote (some "b") (some "b") (some ask) 1 2 node).0
unfolding program
on_request_vote_accepted_example = on_request_vote_accepted (some "b") (some "b") ask 1 2 node refl
