-- ===== src/Raft/Append.antt =====
-- `handle_append_entries` of infrastructure/cluster_network/raft.py.
use reus.Prelude.{
  ℕ, ◌+◌, ◌-◌, min, Bool, true, false, String, Option, none, some, List, [], ◌∷◌, ◌++◌, ltb, leb,
  ◌==◌, if◌then◌else◌, take, get_elem?,
}
use reus.RaftStorage.{LogEntry, Command}
use reus.Raft.Node.{RaftNode, follower, persist, last_log_index, term_at}
use reus.Raft.Commands.{apply_committed}

-- An entry as it is sent: its position follows from its place in the message.
pub record SentEntry : Type 0 where
  pub term : ℕ
  pub command : Command

unfoldable pub stamp : ℕ → SentEntry → LogEntry
stamp idx w = record { term = w.term; index = idx; command = w.command }

-- What the message updates before the log is compared.
unfoldable pub accept_leader : ℕ → String → ℕ → RaftNode → RaftNode
accept_leader term leader_id deadline n =
    let m =
      (if ltb n.current_term term
        then persist (record n {
          current_term = term;
          role = follower;
          leader_id = some leader_id;
          voted_for = none;
        })
        else record n { role = follower; leader_id = some leader_id }) in
    record m { election_deadline = deadline }

-- The consistency check on the entry before the new ones. Position 0 is the source's -1.
unfoldable pub prev_matches : ℕ → ℕ → RaftNode → Bool
prev_matches prev_log_index prev_log_term n =
    if prev_log_index == 0
    then true
    else if ltb prev_log_index n.snapshot_last_included_index
    then true
    else if ltb (last_log_index n) prev_log_index
    then false
    else term_at n prev_log_index == prev_log_term

unfoldable pub write_entry :
    ℕ → LogEntry → List LogEntry → Option LogEntry → List LogEntry × Bool → List LogEntry × Bool
write_entry pos entry log none (_, changed) = (log ++ entry ∷ [], true)
write_entry pos entry log (some old) (_, changed) =
    if old.term == entry.term then (log, changed) else (take pos log ++ entry ∷ [], true)

-- One round of the loop over the entries; `get_elem?` answers `pos < len(self.log)`.
unfoldable pub merge_entry : ℕ → ℕ → SentEntry → List LogEntry × Bool → List LogEntry × Bool
merge_entry base idx w (log, changed) =
    if leb idx base
    then (log, changed)
    else write_entry (idx - base - 1) (stamp idx w) log (get_elem? log (idx - base - 1))
        (log, changed)

unfoldable pub merge_entries : ℕ → ℕ → List SentEntry → List LogEntry × Bool → List LogEntry × Bool
merge_entries base idx [] s = s
merge_entries base idx (w ∷ ws) s = merge_entries base (idx + 1) ws (merge_entry base idx w s)

unfoldable pub store_log : List LogEntry × Bool → RaftNode → RaftNode
store_log (log, changed) n = let m = record n { log = log } in if changed then persist m else m

unfoldable pub advance_commit : ℕ → RaftNode → RaftNode
advance_commit leader_commit n =
    if ltb n.commit_index leader_commit
    then apply_committed (min leader_commit (last_log_index n)) n
    else n

-- The part of the handler that follows the consistency check.
unfoldable pub append_entries : ℕ → List SentEntry → ℕ → RaftNode → RaftNode
append_entries prev_log_index entries leader_commit n = advance_commit leader_commit (
    store_log
      (merge_entries n.snapshot_last_included_index (prev_log_index + 1) entries (n.log, false)) n)

unfoldable pub handle_append_entries :
    ℕ → String → ℕ → ℕ → List SentEntry → ℕ → (deadline : ℕ) → RaftNode → RaftNode × (ℕ × Bool)
handle_append_entries term leader_id prev_log_index prev_log_term entries leader_commit deadline n =
    if ltb term n.current_term
    then (n, (n.current_term, false))
    else (let m = accept_leader term leader_id deadline n in
        if prev_matches prev_log_index prev_log_term m
        then (let r = append_entries prev_log_index entries leader_commit m in
            (r, (r.current_term, true)))
        else (m, (m.current_term, false)))
