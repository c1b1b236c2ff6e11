-- ===== src/Cluster/Executes.antt =====
-- `execute` of task_coordinator.py: what a successful result means.
use reus.Prelude.{
  ℕ, ◌+◌, max, ◌≤◌, ◌≡◌, refl, Bool, true, false, String, some, arith, Bool-cases, inl, inr, str_eq,
  ap, sym, subst, ◌∙◌, some-inj,
}
use reus.RaftStorage.{Command, task_assign, task_complete}
use reus.Raft.Node.{last_log_index}
use reus.Raft.Leader.{is_leader, append_command}
use reus.Raft.Change.{propose_and_wait}
use reus.Raft.Waiting.{proposed, Stored, OneLeader, propose_and_wait-committed}
use reus.Cluster.Node.{RaftClusterNode, absorb}
use reus.Cluster.Operations.{Rounds, with_raft, assign_task, complete_task}
use reus.Cluster.Coordinator.{HandlerResult, acquire, complete, withhold, run, execute}

-- The node led; its log is then committed up to the position behind its last entry, and if it is still
-- in the same term, the entry with the command `c` stands there.
abbrev pub Commits : Command → RaftClusterNode → RaftClusterNode → Type 0
Commits c n m =
    (is_leader n.raft.role ≡ true)
    × (last_log_index n.raft + 1 ≤ m.raft.commit_index)
    × (m.raft.current_term ≡ n.raft.current_term → Stored (proposed c n.raft) m.raft)

-- What the node proposes with `c` is not taken out of the log within its term while it waits.
abbrev pub Waits : Command → Rounds → RaftClusterNode → Type 0
Waits c rounds n = OneLeader (proposed c n.raft) (append_command c n.raft) rounds

-- The lease that `execute` proposes.
abbrev pub lease : String → String → (lease_seconds now : ℕ) → Command
lease id a s now = task_assign id a (now + max 1 s) 1

with_raft-Commits :
    (c : Command) (rounds : Rounds) (n : RaftClusterNode)
    → Waits c rounds n
    → (with_raft (propose_and_wait c rounds n.raft) n).1 ≡ true
    → Commits c n (with_raft (propose_and_wait c rounds n.raft) n).0
unfolding with_raft absorb
with_raft-Commits c rounds n one h = propose_and_wait-committed c rounds n.raft one h

assign_task-Commits :
    (id a : String) (s now : ℕ) (rounds : Rounds) (n : RaftClusterNode)
    → Waits (lease id a s now) rounds n
    → (assign_task id a s now rounds n).1 ≡ true
    → Commits (lease id a s now) n (assign_task id a s now rounds n).0
unfolding assign_task
assign_task-Commits id a s now rounds n one h = with_raft-Commits _ rounds n one h

complete_task-Commits :
    (id : String) (rounds : Rounds) (n : RaftClusterNode)
    → Waits (task_complete id) rounds n
    → (complete_task id rounds n).1 ≡ true
    → Commits (task_complete id) n (complete_task id rounds n).0
unfolding complete_task
complete_task-Commits id rounds n one h = with_raft-Commits _ rounds n one h

withhold-success :
    (result : HandlerResult) (p : RaftClusterNode × Bool)
    → (withhold result p).1.success ≡ true
    → (p.1 ≡ true) × ((withhold result p).1 ≡ result) × ((withhold result p).0 ≡ p.0)
unfolding withhold
withhold-success result (n, true) h = (refl, refl, refl)
withhold-success result (n, false) h = absurd (ground arith)

run_ran :
    (id : String) (result : HandlerResult) (running : RaftClusterNode → RaftClusterNode)
    (rounds : Rounds) (n : RaftClusterNode)
    → result.success ≡ true
    → withhold result (complete_task id rounds (running n)) ≡ run id result running rounds (n, true)
unfolding run complete
run_ran id result running rounds n ok = rw ok refl

run-success :
    (id : String) (result : HandlerResult) (running : RaftClusterNode → RaftClusterNode)
    (rounds : Rounds) (p : RaftClusterNode × Bool)
    → Waits (task_complete id) rounds (running p.0)
    → (run id result running rounds p).1.success ≡ true
    → (p.1 ≡ true)
      × ((run id result running rounds p).1 ≡ result)
      × Commits (task_complete id) (running p.0) (run id result running rounds p).0
unfolding run
run-success id result running rounds (n, false) one h = absurd (ground arith)
run-success id result running rounds (n, true) one h = elim (Bool-cases result.success) [
  | inl ok ↦
      (let ran = run_ran id result running rounds n ok in
        let (committed, same, left) =
          withhold-success result (complete_task id rounds (running n))
            (ap (λ (r : RaftClusterNode × HandlerResult). r.1.success) ran ∙ h) in
        (
          refl,
          sym (ap (λ (r : RaftClusterNode × HandlerResult). r.1) ran) ∙ same,
          subst (Commits (task_complete id) (running n))
              (sym left ∙ ap (λ (r : RaftClusterNode × HandlerResult). r.0) ran)
              (complete_task-Commits id rounds (running n) one committed),
        ))
  | inr bad ↦ absurd (ground arith)
]

execute_given :
    (strip : String → String) (a id : String) (result : HandlerResult)
    (running : RaftClusterNode → RaftClusterNode) (s now : ℕ) (lease_rounds rounds : Rounds)
    (n : RaftClusterNode)
    → str_eq (strip id) "" ≡ false
    → execute strip a id result running s now lease_rounds rounds n
      ≡ some (run id result running rounds (assign_task id a s now lease_rounds n))
unfolding execute acquire
execute_given strip a id result running s now lease_rounds rounds n given = rw (given, execute) refl

-- If rounds do not lower the term, nor take the proposed entries out of the log within their terms, and
-- `execute` returns a successful result: it is the executor's own; the node led when the lease was
-- proposed, and when the executor starts it has committed up to the lease's position; and it led when
-- the completion was proposed, and when the result is returned it has committed up to that position. If
-- the node is then still in the term of the proposal, the entry there is the lease of this task and
-- assignee, or the completion of this task.
pub execute_success :
    (strip : String → String) (assignee_id task_id : String) (result : HandlerResult)
    (running : RaftClusterNode → RaftClusterNode) (lease_seconds now : ℕ)
    (lease_rounds rounds : Rounds) (n m : RaftClusterNode) (r : HandlerResult)
    → Waits (lease task_id assignee_id lease_seconds now) lease_rounds n
    → Waits
        (task_complete task_id)
        rounds
        (running (assign_task task_id assignee_id lease_seconds now lease_rounds n).0)
    → execute strip assignee_id task_id result running lease_seconds now lease_rounds rounds n
      ≡ some (m, r)
    → r.success ≡ true
    → (r ≡ result)
      × Commits
          (lease task_id assignee_id lease_seconds now)
          n
          (assign_task task_id assignee_id lease_seconds now lease_rounds n).0
      × Commits
          (task_complete task_id)
          (running (assign_task task_id assignee_id lease_seconds now lease_rounds n).0)
          m
unfolding execute acquire
execute_success strip a id result running s now lease_rounds rounds n m r one two h ok =
    elim (Bool-cases (str_eq (strip id) "")) [
      | inl empty ↦ absurd (ground arith)
      | inr given ↦
          (let leased = assign_task id a s now lease_rounds n in
            let e : run id result running rounds leased ≡ (m, r) = some-inj (
              sym (execute_given strip a id result running s now lease_rounds rounds n given)
              ∙ h) in
            let (had, same, left) =
              run-success id result running rounds leased two
                (ap (λ (q : RaftClusterNode × HandlerResult). q.1.success) e ∙ ok) in
            (
              sym (ap (λ (q : RaftClusterNode × HandlerResult). q.1) e) ∙ same,
              assign_task-Commits id a s now lease_rounds n one had,
              subst (Commits (task_complete id) (running leased.0))
                  (ap (λ (q : RaftClusterNode × HandlerResult). q.0) e) left,
            ))
    ]
