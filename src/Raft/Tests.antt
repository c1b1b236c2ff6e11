-- ===== src/Raft/Tests.antt =====
-- One node of a cell of three, at concrete messages.
mod Configuration
mod Committing
mod Compacting
use reus.Prelude.{
  ◌≡◌, refl, ℕ, ◌+◌, ◌-◌, ◌<◌, ◌≤◌, true, false, some, none, Option, List, [], ◌∷◌, String, arith,
  Bool, ◌⊎◌, inl, inr, take, get_elem?, length,
}
use reus.Prelude.Sets.{contains, set_of, union, difference, same_set, sorted}
use reus.Prelude.Dict.{get, put}
use reus.Membership.{
  VoterConfiguration, voter_configuration, has_quorum, all_voters, peer_ids, to_payload,
  from_payload,
}
use reus.RaftStorage.{
  LogEntry, Command, application, new_storage, save, save_snapshot, load, load_commit_index,
  load_snapshot, load_snapshot_membership, RaftStorage, write_state, write_snapshot,
}
use reus.Raft.Node.{
  RaftNode, Role, follower, persist, last_index, last_log_index, last_log_term, entry_at,
  log_entry_at, term_at, step_down,
}
use reus.Raft.Commands.{
  apply_membership_command, apply_entry, apply_range, apply_committed, apply_joint, apply_finalize,
  enter_joint, leave_joint, is_joint_of,
}
use reus.Raft.Votes.{handle_request_vote, outside_cell, decide_vote, may_vote_for, log_ok}
use reus.Raft.Append.{
  SentEntry, stamp, accept_leader, prev_matches, write_entry, merge_entry, merge_entries, store_log,
  advance_commit, append_entries, handle_append_entries,
}
use reus.Raft.Load.{
  fresh, with_base, load_base, restore_base, replay_membership, restore_state, load_files,
  load_persisted_state, raft_node,
}
use reus.Raft.Merge.{overlay, merged}
use reus.Raft.Durable.{IsSaved, state_of}
use reus.Raft.WellFormed.{IsWellFormed, IsCompatible}
use reus.Raft.Replicate.{
  handle_append_entries-log, handle_append_entries-safe, handle_append_entries-agrees,
}
use reus.Raft.Step.{Run, here, next, Step, vote_request, restarted, vote_stands, term_grows}

program : Unit {0}
unfolding contains set_of union difference same_set sorted get put voter_configuration has_quorum
    all_voters peer_ids to_payload from_payload save save_snapshot load load_commit_index
    load_snapshot load_snapshot_membership write_state write_snapshot persist last_index
    last_log_index last_log_term entry_at log_entry_at term_at step_down apply_membership_command
    apply_entry apply_range apply_committed apply_joint apply_finalize enter_joint leave_joint
    is_joint_of handle_request_vote outside_cell decide_vote may_vote_for log_ok stamp accept_leader
    prev_matches write_entry merge_entry merge_entries store_log advance_commit append_entries
    handle_append_entries fresh with_base load_base restore_base replay_membership restore_state
    load_files load_persisted_state raft_node overlay merged state_of
program = tt

abbrev pub entry : ℕ → ℕ → String → LogEntry
entry term index text = record { term = term; index = index; command = application text }

abbrev pub sent : ℕ → String → SentEntry
sent term text = record { term = term; command = application text }

abbrev pub node : RaftNode
node = record {
  node_id = "a";
  membership = record { voters = "a" ∷ "b" ∷ "c" ∷ []; joint_voters = none };
  pending_joint_voters = none;
  membership_enforced = false;
  retired_peers = [];
  learners = [];
  current_term = 2;
  voted_for = none;
  role = follower;
  log = entry 1 1 "x" ∷ entry 1 2 "y" ∷ entry 1 3 "z" ∷ [];
  commit_index = 1;
  leader_id = none;
  snapshot_last_included_index = 0;
  snapshot_last_included_term = 0;
  restored_snapshot_data = none;
  next_index = [];
  match_index = [];
  election_deadline = 0;
  storage = none;
  applied = [];
  snapshots_restored = [];
  liveness = [];
}

pub node-IsWellFormed : IsWellFormed node
node-IsWellFormed = record {
  contiguous = (refl, (refl, (refl, tt)));
  base_committed = omega arith;
  committed_stored = omega arith;
}

-- The leader of term 2 repeats entry 2 and replaces entry 3.
abbrev pub message : List SentEntry
message = sent 1 "y" ∷ sent 2 "w" ∷ []

abbrev after : RaftNode
after = (handle_append_entries 2 "b" 1 1 message 2 9 node).0

after-log : after.log ≡ entry 1 1 "x" ∷ entry 1 2 "y" ∷ entry 2 3 "w" ∷ []
unfolding program
after-log = refl

after-commit_index : after.commit_index ≡ 2
unfolding program
after-commit_index = refl

node-IsCompatible : IsCompatible node 1 message
node-IsCompatible k w e found committed stored = absurd (omega arith)

handle_append_entries-log_example :
    ((handle_append_entries 2 "b" 1 1 message 2 9 node).1.1 ≡ true
      → (after.log ≡ merged 0 1 message node.log)
        × (after.snapshot_last_included_index ≡ 0)
        × (1 ≤ 0 + length node.log))
    × ((handle_append_entries 2 "b" 1 1 message 2 9 node).1.1 ≡ false
        → (after.log ≡ node.log)
          × (after.snapshot_last_included_index ≡ 0)
          × (after.commit_index ≡ 1))
handle_append_entries-log_example =
    handle_append_entries-log 2 "b" 1 1 message 2 9 node node-IsWellFormed

handle_append_entries-safe_example :
    IsWellFormed after × (1 ≤ after.commit_index) × (take (1 - 0) after.log ≡ take (1 - 0) node.log)
handle_append_entries-safe_example =
    handle_append_entries-safe 2 "b" 1 1 message 2 9 node node-IsWellFormed node-IsCompatible

handle_append_entries-agrees_example :
    (e : LogEntry) × (entry_at after.snapshot_last_included_index after.log 3 ≡ some e)
    × (e.term ≡ 2)
    × ((entry_at 0 node.log 3 ≡ some e) ⊎ (e ≡ stamp 3 (sent 2 "w")))
unfolding program
handle_append_entries-agrees_example =
    handle_append_entries-agrees 2 "b" 1 1 message 2 9 node node-IsWellFormed 1 (sent 2 "w") refl
      refl (omega arith)

-- A node that starts empty, votes for "b" in term 5, crashes, and is asked by "c" in term 5.
abbrev empty : RaftNode
empty = record node { current_term = 0; log = []; commit_index = 0; storage = some new_storage }

abbrev voted : RaftNode
voted = (handle_request_vote 5 "b" 3 4 10 20 empty).0

abbrev restarted_node : RaftNode
restarted_node = record voted { election_deadline = 30 }

abbrev asked : RaftNode
asked = (handle_request_vote 5 "c" 3 4 40 50 restarted_node).0

voted-IsSaved : IsSaved voted
unfolding program
voted-IsSaved = inl (some 0, refl)

voted_restarts : raft_node "a" ("b" ∷ "c" ∷ []) false voted.storage 30 ≡ some restarted_node
unfolding program
voted_restarts = refl

abbrev stored : RaftStorage
stored = save 5 (some "b") [] 0 (save 5 none [] 0 new_storage)

run : Run voted asked
unfolding program
run =
    next {m = restarted_node} (next here (restarted stored ("b" ∷ "c" ∷ []) false 30 refl refl))
      (vote_request 5 "c" 3 4 40 50 refl)

vote_stands_example : asked.voted_for ≡ some "b"
unfolding program
vote_stands_example = vote_stands voted asked "b" run voted-IsSaved refl refl

term_grows_example : (voted.current_term ≤ asked.current_term) × IsSaved asked
term_grows_example = term_grows voted asked run voted-IsSaved
