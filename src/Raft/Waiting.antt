-- ===== src/Raft/Waiting.antt =====
-- `propose_and_wait` of raft.py: what its answer says.
use reus.Prelude.{
  ℕ, ◌+◌, ◌≤◌, ◌≡◌, refl, sym, ◌∙◌, true, not, some, List, [], ◌∷◌, ◌++◌, arith, leb, length,
  get_elem?, Bool-cases, ◌⊎◌, inl, inr,
}
use reus.RaftStorage.{Command, LogEntry}
use reus.Raft.Node.{RaftNode, last_log_index, persist}
use reus.Raft.Leader.{is_leader, append_command}
use reus.Raft.Change.{await_commit, propose_and_wait}

-- The entry that the node makes of a command that it proposes.
abbrev pub proposed : Command → RaftNode → LogEntry
proposed command n = record {
  term = n.current_term;
  index = last_log_index n + 1;
  command = command;
}

-- The entry stands in the node's log, or the log has been compacted past it.
abbrev pub Stored : LogEntry → RaftNode → Type 0
Stored e m = ((k : ℕ) × (get_elem? m.log k ≡ some e)) ⊎ (e.index ≤ m.snapshot_last_included_index)

-- From one round to the next the term does not fall, and while it stays the same the entry is not taken
-- out of the log: in one term there is one leader, and a leader only appends to its log.
abbrev pub OneLeader : LogEntry → RaftNode → List (RaftNode → RaftNode) → Type 0
OneLeader e m [] = Unit
OneLeader e m (r ∷ rounds) =
    (m.current_term ≤ (r m).current_term)
    × ((r m).current_term ≡ m.current_term → Stored e m → Stored e (r m))
    × OneLeader e (r m) rounds

await_commit-committed :
    (i : ℕ) (rounds : List (RaftNode → RaftNode)) (n : RaftNode)
    → (await_commit i rounds n).1 ≡ true
    → i ≤ (await_commit i rounds n).0.commit_index
unfolding await_commit
await_commit-committed i [] n h = cc
await_commit-committed i (r ∷ rounds) n h = elim (Bool-cases (leb i (r n).commit_index)) [
  | inl there ↦ rw there (ground arith)
  | inr not_yet ↦ elim (Bool-cases (not (is_leader (r n).role))) [
    | inl lost ↦ absurd (ground arith)
    | inr leads ↦ rw (not_yet, leads) (await_commit-committed i rounds (r n) (ground arith))
  ]
]

-- The node is at the entry's term or later, and in that term it stores the entry.
abbrev Holds : LogEntry → RaftNode → Type 0
Holds e m = (e.term ≤ m.current_term) × (m.current_term ≡ e.term → Stored e m)

await_commit-Holds :
    (e : LogEntry) (i : ℕ) (rounds : List (RaftNode → RaftNode)) (m : RaftNode)
    → OneLeader e m rounds
    → Holds e m
    → Holds e (await_commit i rounds m).0
unfolding await_commit
await_commit-Holds e i [] m one h = h
await_commit-Holds e i (r ∷ rounds) m one h = elim (Bool-cases (leb i (r m).commit_index)) [
  | inl there ↦ rw there after
  | inr not_yet ↦ elim (Bool-cases (not (is_leader (r m).role))) [
    | inl lost ↦ rw (not_yet, lost) after
    | inr leads ↦ rw (not_yet, leads) (await_commit-Holds e i rounds (r m) one.2 after)
  ]
]
  where
    after : Holds e (r m)
    after = (
      omega (arith, one.0, h.0),
      (λ same.
          let here : m.current_term ≡ e.term = omega (arith, one.0, h.0) in
          one.1 (same ∙ sym here) (h.1 here)),
    )

get_elem?-last :
    (e : LogEntry) (log : List LogEntry) → get_elem? (log ++ e ∷ []) (length log) ≡ some e
get_elem?-last e [] = refl
get_elem?-last e (f ∷ log) = get_elem?-last e log

append_command-Holds : (c : Command) (n : RaftNode) → Holds (proposed c n) (append_command c n)
unfolding append_command persist
append_command-Holds c n =
    (omega arith, (λ same. inl (length n.log, get_elem?-last (proposed c n) n.log)))

-- If rounds do not lower the term, nor take the command's entry out of the log within its term, and
-- `propose_and_wait` answers true: the node led when it was called; the node that it returns has
-- committed up to the position that the command was given; and if that node is still in the term of the
-- proposal, this very entry, with its command, term and position, stands in its log or in what has been
-- compacted.
pub propose_and_wait-committed :
    (command : Command) (rounds : List (RaftNode → RaftNode)) (n : RaftNode)
    → OneLeader (proposed command n) (append_command command n) rounds
    → (propose_and_wait command rounds n).1 ≡ true
    → (is_leader n.role ≡ true)
      × (last_log_index n + 1 ≤ (propose_and_wait command rounds n).0.commit_index)
      × ((propose_and_wait command rounds n).0.current_term ≡ n.current_term
          → Stored (proposed command n) (propose_and_wait command rounds n).0)
unfolding propose_and_wait
propose_and_wait-committed command rounds n one h = elim (Bool-cases (is_leader n.role)) [
  | inl leads ↦ rw leads (
    refl,
    await_commit-committed (last_log_index n + 1) rounds (append_command command n) (ground arith),
    (await_commit-Holds (proposed command n) (last_log_index n + 1) rounds
        (append_command command n) one (append_command-Holds command n)).1,
  )
  | inr follows ↦ absurd (ground arith)
]
