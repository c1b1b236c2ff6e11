-- ===== src/Raft/Tests/Committing.antt =====
-- A leader that commits, at concrete acknowledgements.
use reus.Prelude.{◌≡◌, ◌≤◌, ◌+◌, ◌-◌, refl, true, List, [], ◌∷◌, ◌++◌, arith, ◌⊎◌, take, drop}
use reus.Prelude.Sets.{contains, difference, sorted, union}
use reus.Prelude.Dict.{get, put}
use reus.Membership.{has_quorum, to_payload}
use reus.RaftStorage.{application}
use reus.Raft.Node.{
  RaftNode, leader, follower, last_index, last_log_index, log_entry_at, entry_at, persist,
}
use reus.Raft.Commands.{apply_committed, apply_range, apply_entry, apply_membership_command}
use reus.Raft.Leader.{
  is_leader, Round, finish_heartbeats, maybe_advance_commit_index, find_committable, is_committable,
  acknowledged, append_command, acknowledge, tell,
}
use reus.Raft.Change.{propose_and_wait, await_commit}
use reus.Raft.Commit.{Advance, finish_heartbeats-commit, finish_heartbeats_complete}
use reus.Raft.Apply.{apply_committed-applied}
use reus.Raft.Waiting.{proposed, Stored, propose_and_wait-committed}
use reus.Raft.Tests.{node, node-IsWellFormed}

program : Unit {0}
unfolding contains difference sorted union get put has_quorum to_payload last_index last_log_index
    log_entry_at entry_at persist apply_committed apply_range apply_entry apply_membership_command
    is_leader finish_heartbeats maybe_advance_commit_index find_committable is_committable
    acknowledged append_command acknowledge tell propose_and_wait await_commit
program = tt

-- "a" leads term 1, and "b" has told that it holds the log up to 3.
abbrev boss : RaftNode
boss = record node { current_term = 1; role = leader; match_index = ("b", 3) ∷ [] }

abbrev round : Round
round = record {
  term = 1;
  log_snapshot = node.log;
  snapshot_base = 0;
  snapshot_term = 0;
  snapshot_data = "";
  commit_index = 1;
  peers = "b" ∷ "c" ∷ [];
  membership_payload = to_payload node.membership;
  retired_before_round = [];
  retired_acknowledged = [];
}

boss_commits : (finish_heartbeats round boss).commit_index ≡ 3
unfolding program
boss_commits = refl

finish_heartbeats-commit_example :
    ((finish_heartbeats round boss).commit_index ≡ 1)
    ⊎ ((is_leader boss.role ≡ true)
        × Advance boss ("b" ∷ "c" ∷ []) (finish_heartbeats round boss).commit_index)
finish_heartbeats-commit_example = finish_heartbeats-commit round boss

finish_heartbeats_complete_example : 3 ≤ (finish_heartbeats round boss).commit_index
unfolding program
finish_heartbeats_complete_example = finish_heartbeats_complete round boss 3 refl (omega arith) refl

apply_committed-applied_example :
    (apply_committed 3 node).applied ≡ [] ++ take (3 - 1) (drop (1 - 0) node.log)
apply_committed-applied_example =
    apply_committed-applied 3 node node-IsWellFormed (omega arith) (omega arith)

-- In the one round that it waits for, "b" acknowledges the new entry.
abbrev rounds : List (RaftNode → RaftNode)
rounds = (λ n. finish_heartbeats round (acknowledge "b" 4 n)) ∷ []

propose_and_wait-committed_example :
    (is_leader boss.role ≡ true)
    × (last_log_index boss + 1 ≤ (propose_and_wait (application "v") rounds boss).0.commit_index)
    × ((propose_and_wait (application "v") rounds boss).0.current_term ≡ boss.current_term
        → Stored
            (proposed (application "v") boss)
            (propose_and_wait (application "v") rounds boss).0)
unfolding program
propose_and_wait-committed_example =
    propose_and_wait-committed (application "v") rounds boss
      (omega arith, (λ same stored. stored), tt) refl

-- While the node waits, the leader of a later term puts another entry at the position: the answer is
-- true all the same.
abbrev overwritten : List (RaftNode → RaftNode)
overwritten =
    (λ n. record n {
      current_term = 2;
      role = follower;
      log = node.log ++ record { term = 2; index = 4; command = application "w" } ∷ [];
      commit_index = 4;
    })
    ∷ []

answers_true : (propose_and_wait (application "v") overwritten boss).1 ≡ true
unfolding program
answers_true = refl
